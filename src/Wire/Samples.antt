-- ===== src/Wire/Samples.antt =====
-- A codec for one datum, on which the tests run.
use linktracker_eng.Prelude.{
  ◌≡◌, refl, ap, Bool, true, false, ◌&&◌, List, [], ◌∷◌, none, some, Text, text_eq, eq_of_text_eq,
  ◌==◌, ==_iff, if◌then◌else◌, arith, Bool-cases, inl, inr,
}
use linktracker_eng.Wire.{
  Native, Datum, Scalar, long, string, other, scalar, array, fields, no_record, Codec,
}
use linktracker_eng.Wire.Laws.{Reads}

scalar_eq : Scalar → Scalar → Bool
scalar_eq (long m) (long n) = m == n
scalar_eq (string s) (string t) = text_eq s t
scalar_eq other other = true
scalar_eq _ _ = false

eq_of_scalar_eq : (x y : Scalar) → scalar_eq x y ≡ true → x ≡ y
unfolding scalar_eq
eq_of_scalar_eq (long m) (long n) h = ap long ((==_iff m n).0 h)
eq_of_scalar_eq (long m) (string t) h = cc
eq_of_scalar_eq (long m) other h = cc
eq_of_scalar_eq (string s) (long n) h = cc
eq_of_scalar_eq (string s) (string t) h = ap string (eq_of_text_eq s t h)
eq_of_scalar_eq (string s) other h = cc
eq_of_scalar_eq other (long n) h = cc
eq_of_scalar_eq other (string t) h = cc
eq_of_scalar_eq other other h = refl

scalars_eq : List Scalar → List Scalar → Bool
unfolding scalar_eq
scalars_eq [] [] = true
scalars_eq (x ∷ xs) (y ∷ ys) = scalar_eq x y && scalars_eq xs ys
scalars_eq _ _ = false

eq_of_scalars_eq : (xs ys : List Scalar) → scalars_eq xs ys ≡ true → xs ≡ ys
unfolding scalars_eq
eq_of_scalars_eq [] [] h = refl
eq_of_scalars_eq [] (y ∷ ys) h = cc
eq_of_scalars_eq (x ∷ xs) [] h = cc
eq_of_scalars_eq (x ∷ xs) (y ∷ ys) h = ground (arith, eq_of_scalar_eq x y, eq_of_scalars_eq xs ys)

datum_eq : Datum → Datum → Bool
unfolding scalars_eq
datum_eq (scalar x) (scalar y) = scalar_eq x y
datum_eq (array xs) (array ys) = scalars_eq xs ys
datum_eq _ _ = false

eq_of_datum_eq : (x y : Datum) → datum_eq x y ≡ true → x ≡ y
unfolding datum_eq
eq_of_datum_eq (scalar x) (scalar y) h = ap scalar (eq_of_scalar_eq x y h)
eq_of_datum_eq (scalar x) (array ys) h = cc
eq_of_datum_eq (array xs) (scalar y) h = cc
eq_of_datum_eq (array xs) (array ys) h = ap array (eq_of_scalars_eq xs ys h)

fields_eq : List (Text × Datum) → List (Text × Datum) → Bool
unfolding datum_eq
fields_eq [] [] = true
fields_eq ((k, x) ∷ xs) ((l, y) ∷ ys) = (text_eq k l && datum_eq x y) && fields_eq xs ys
fields_eq _ _ = false

eq_of_fields_eq : (xs ys : List (Text × Datum)) → fields_eq xs ys ≡ true → xs ≡ ys
unfolding fields_eq
eq_of_fields_eq [] [] h = refl
eq_of_fields_eq [] (y ∷ ys) h = cc
eq_of_fields_eq (x ∷ xs) [] h = cc
eq_of_fields_eq ((k, x) ∷ xs) ((l, y) ∷ ys) h =
    ground (arith, eq_of_text_eq k l, eq_of_datum_eq x y, eq_of_fields_eq xs ys)

unfoldable pub native_eq : Native → Native → Bool
unfolding fields_eq text_eq
native_eq (fields xs) (fields ys) = fields_eq xs ys
native_eq no_record no_record = true
native_eq _ _ = false

eq_of_native_eq : (x y : Native) → native_eq x y ≡ true → x ≡ y
unfolding native_eq
eq_of_native_eq (fields xs) (fields ys) h = ap fields (eq_of_fields_eq xs ys h)
eq_of_native_eq (fields xs) no_record h = cc
eq_of_native_eq no_record (fields ys) h = cc
eq_of_native_eq no_record no_record h = refl

-- It writes the datum as no bytes, and nothing else.
abbrev pub codec_of : Native → Codec
codec_of native = record {
  encode = λ x. if native_eq native x then some [] else none;
  decode = λ bytes. some native;
}

pub codec_of-Reads : (native : Native) → Reads (codec_of native)
codec_of-Reads native x bytes h = elim (Bool-cases (native_eq native x)) [
  | inl e ↦ ap (λ n. some n) (eq_of_native_eq native x e)
  | inr e ↦ absurd (ground arith)
]
