-- ===== src/Prelude/Decimal.antt =====
-- Numbers in decimal, as `strconv.Itoa` and `%d` write them.
use Prim.Native.Nat.{ℕ, zero, suc, ◌+◌, ◌/◌, ◌%◌}
use mathlib.Core.List.{[], ◌∷◌, ◌++◌}
use linktracker_eng.Prelude.Tests.{ltb, if◌then◌else◌}
use linktracker_eng.Prelude.GoText.{Text}

-- The digits of `n`, for a fuel above their count.
unfoldable pub digits : ℕ → ℕ → Text
digits zero n = []
digits (suc fuel) n =
    let rest = digits fuel (n / 10) in
    if ltb n 10 then (b'0' + n) ∷ [] else rest ++ (b'0' + n % 10) ∷ []

-- The digits of `n` are at most `n + 1`.
unfoldable pub decimal : ℕ → Text
unfolding digits
decimal n = digits (suc n) n
