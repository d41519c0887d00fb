-- ===== src/Wire.antt =====
-- The messages between the processes: a Confluent frame (a zero byte, the id of the schema as four
-- bytes, the Avro data), as internal/*/infrastructure/kafka make and take it apart. The codec of a
-- schema and the registry of the schemas are parameters. The key of a message is left out.
pub mod Laws
pub mod Samples
use linktracker_eng.Prelude.{
  ℕ, ◌+◌, ◌*◌, ◌/◌, ◌%◌, ◌^◌, Bool, List, [], ◌∷◌, ◌++◌, Option, none, some, Text, codes, text_eq,
  ◌==◌, if◌then◌else◌,
}

pub record Message : Type 0 where
  pub headers : List (Text × Text)
  pub value : List ℕ

-- What the codec makes of Avro data, as far as the program looks into it.
pub data Scalar : Type 0 where
  long : ℕ → Scalar
  string : Text → Scalar
  other : Scalar

pub data Datum : Type 0 where
  scalar : Scalar → Datum
  array : List Scalar → Datum

pub data Native : Type 0 where
  fields : List (Text × Datum) → Native
  no_record : Native

-- data[name]
unfoldable pub field : Text → List (Text × Datum) → Option Datum
field name [] = none
field name ((k, d) ∷ rest) = let found = field name rest in if text_eq k name then some d else found

module _ {A B : Type 0} where
  infixl 10 ◌>>=◌
  abbrev pub ◌>>=◌ : Option A → (A → Option B) → Option B
  none >>= f = none
  some a >>= f = f a

abbrev pub as_long : Option Datum → Option ℕ
as_long (some (scalar (long n))) = some n
as_long _ = none

abbrev pub as_string : Option Datum → Option Text
as_string (some (scalar (string s))) = some s
as_string _ = none

abbrev pub as_array : Option Datum → Option (List Scalar)
as_array (some (array xs)) = some xs
as_array _ = none

abbrev pub cons_long : Scalar → Option (List ℕ) → Option (List ℕ)
cons_long (long n) (some ns) = some (n ∷ ns)
cons_long _ _ = none

-- The loop over the chat ids.
unfoldable pub longs : List Scalar → Option (List ℕ)
longs [] = some []
longs (x ∷ xs) = cons_long x (longs xs)

pub record Codec : Type 0 where
  pub encode : Native → Option (List ℕ)
  pub decode : List ℕ → Option Native

-- binary.BigEndian.PutUint32 and Uint32
unfoldable pub put_uint32 : ℕ → List ℕ
put_uint32 n = n / 2 ^ 24 % 2 ^ 8 ∷ n / 2 ^ 16 % 2 ^ 8 ∷ n / 2 ^ 8 % 2 ^ 8 ∷ n % 2 ^ 8 ∷ []

unfoldable pub uint32 : ℕ → ℕ → ℕ → ℕ → ℕ
uint32 a b c d = a * 2 ^ 24 + b * 2 ^ 16 + c * 2 ^ 8 + d

unfoldable pub payload : ℕ → List ℕ → List ℕ
unfolding put_uint32
payload id bytes = 0 ∷ (put_uint32 (id % 2 ^ 32) ++ bytes)

-- The message of a datum; `key` is what uuid.New() returns
unfoldable pub message : Codec → ℕ → Text → Native → Option Message
unfolding payload
message codec id key native = do
  bytes ← codec.encode native
  some (record { headers = (codes "idempotency-key", key) ∷ []; value = payload id bytes })

module _ (get_schema : ℕ → Option Codec) where
  abbrev decode_with : Option Codec → List ℕ → Option Native
  decode_with none bytes = none
  decode_with (some codec) bytes = codec.decode bytes

  -- decodeMessage, up to mapAvroMsg; every failure is none
  unfoldable pub decode_value : List ℕ → Option Native
  unfolding uint32
  decode_value (m ∷ a ∷ b ∷ c ∷ d ∷ bytes) =
      if m == 0 then decode_with (get_schema (uint32 a b c d)) bytes else none
  decode_value _ = none
