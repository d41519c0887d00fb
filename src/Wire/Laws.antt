-- ===== src/Wire/Laws.antt =====
-- What is sent is what is read.
use linktracker_eng.Prelude.{
  ℕ, ◌/◌, ◌%◌, ◌^◌, ◌<◌, ◌≡◌, refl, ◌∙◌, List, [], ◌∷◌, map, Option, none, some, Text, codes, arith,
}
use linktracker_eng.Wire.{
  Message, Codec, Native, long, longs, put_uint32, uint32, payload, message, decode_value, ◌>>=◌,
}

-- The id of a schema, which the registry keeps below 2 ^ 32, is read as it was written.
pub uint32-put_uint32 :
    (n : ℕ)
    → n < 2 ^ 32
    → uint32 (n / 2 ^ 24 % 2 ^ 8) (n / 2 ^ 16 % 2 ^ 8) (n / 2 ^ 8 % 2 ^ 8) (n % 2 ^ 8) ≡ n
unfolding uint32
uint32-put_uint32 n h = omega arith

pub longs-map : (ns : List ℕ) → longs (map long ns) ≡ some ns
unfolding longs
longs-map [] = refl
longs-map (n ∷ ns) = rw (longs-map ns) refl

-- The frame of a message gives back its data.
pub decode_value-payload :
    (get_schema : ℕ → Option Codec) (codec : Codec) (id : ℕ) (bytes : List ℕ)
    → id < 2 ^ 32
    → get_schema id ≡ some codec
    → decode_value get_schema (payload id bytes) ≡ codec.decode bytes
unfolding decode_value payload put_uint32
decode_value-payload get_schema codec id bytes h e =
    let same : id % 2 ^ 32 ≡ id = omega arith in rw (same, uint32-put_uint32 id h, e) refl

-- What is documented of a codec: it reads what it has written.
abbrev pub Reads : Codec → Type 0
Reads codec =
    (native : Native) (bytes : List ℕ)
    → codec.encode native ≡ some bytes
    → codec.decode bytes ≡ some native

module _ (get_schema : ℕ → Option Codec) (codec : Codec) (id : ℕ) (key : Text) (native : Native)
    (msg : Message) (reads : Reads codec) (small : id < 2 ^ 32)
    (known : get_schema id ≡ some codec) where
  abbrev framed : Option (List ℕ) → Option Message
  framed encoded = do
    bytes ← encoded
    some (record { headers = (codes "idempotency-key", key) ∷ []; value = payload id bytes })

  decode_value-framed :
      (encoded : Option (List ℕ))
      → codec.encode native ≡ encoded
      → framed encoded ≡ some msg
      → decode_value get_schema msg.value ≡ some native
  decode_value-framed none e h = cc
  decode_value-framed (some bytes) e h =
      let value : msg.value ≡ payload id bytes = ground arith in
      rw value (decode_value-payload get_schema codec id bytes small known ∙ reads native bytes e)

  -- What the producer of a message has encoded is what its consumer decodes.
  pub decode_value-message :
      message codec id key native ≡ some msg → decode_value get_schema msg.value ≡ some native
  unfolding message
  decode_value-message h = decode_value-framed (codec.encode native) refl h
