-- ===== src/Scrapper/Crawler/Times.antt =====
-- The times noted for the subscribers of a link, userUpdate of
-- internal/scrapper/application/crawler_case.go.
use linktracker_eng.Prelude.{
  ℕ, ◌<◌, max, ◌≡◌, refl, sym, Bool, true, false, ◌||◌, [], ◌∷◌, ltb, ◌==◌, if◌then◌else◌, any_of,
  Distinct, arith, Bool-cases, not, ==_cases, ==_refl, ==_iff, inl, inr,
}
use linktracker_eng.Scrapper.Crawler.{UserTimes, time_of, set_time, note_time}

abbrev pub has_key : ℕ → UserTimes → Bool
has_key id = any_of (λ e. e.0 == id)

time_of-set_time :
    (v id t : ℕ) (m : UserTimes)
    → time_of v (set_time id t m) ≡ (if id == v then t else time_of v m)
unfolding time_of set_time
time_of-set_time v id t [] = ground arith
time_of-set_time v id t ((k, old) ∷ rest) = elim (==_cases k id) [
  | inl (e, f) ↦ ground (arith, f, e)
  | inr (ne, f) ↦ rw f (elim (Bool-cases (k == v)) [
    | inl g ↦ rw g (ground (arith, f, g))
    | inr g ↦ rw g (time_of-set_time v id t rest)
  ])
]

-- A note only raises the time of its user.
pub time_of-note_time :
    (v id t : ℕ) (m : UserTimes)
    → time_of v (note_time id t m) ≡ (if id == v then max (time_of v m) t else time_of v m)
unfolding note_time
time_of-note_time v id t m = elim (==_cases id v) [
  | inl (e, f) ↦ rw (f, sym e) (ground (arith, time_of-set_time id id t m, f, e))
  | inr (ne, f) ↦ rw f (ground (arith, time_of-set_time v id t m, f))
]

-- A user with a time has a key.
pub has_key_of_time_of : (id : ℕ) (m : UserTimes) → 0 < time_of id m → has_key id m ≡ true
unfolding time_of any_of
has_key_of_time_of id [] h = absurd (omega arith)
has_key_of_time_of id ((k, t) ∷ rest) h = ground (arith, has_key_of_time_of id rest)

has_key-set_time :
    (v id t : ℕ) (m : UserTimes) → has_key v (set_time id t m) ≡ (has_key v m || id == v)
unfolding set_time any_of
has_key-set_time v id t [] = ground arith
has_key-set_time v id t ((k, old) ∷ rest) = elim (==_cases k id) [
  | inl (e, f) ↦ ground (arith, f, e)
  | inr (ne, f) ↦ rw f (ground (arith, has_key-set_time v id t rest))
]

abbrev pub same_key : ℕ × ℕ → ℕ × ℕ → Bool
same_key a b = b.0 == a.0

Distinct-set_time :
    (id t : ℕ) (m : UserTimes) → Distinct same_key m → Distinct same_key (set_time id t m)
unfolding set_time any_of
Distinct-set_time id t [] d = (refl, tt)
Distinct-set_time id t ((k, old) ∷ rest) d = elim (==_cases k id) [
  | inl (e, f) ↦ rw f (d.0, d.1)
  | inr (ne, f) ↦
      rw f (ground (arith, has_key-set_time k id t rest), Distinct-set_time id t rest d.1)
]

pub Distinct-note_time :
    (id t : ℕ) (m : UserTimes) → Distinct same_key m → Distinct same_key (note_time id t m)
unfolding note_time
Distinct-note_time id t m d = ground (arith, Distinct-set_time id t m d)

-- An entry of a key that passes a test, or without a time.
abbrev pub bad : (ℕ → Bool) → ℕ × ℕ → Bool
bad p e = p e.0 || (e.1 == 0)

pub bad-note_time :
    (p : ℕ → Bool) (id t : ℕ) (m : UserTimes)
    → p id ≡ false
    → any_of (bad p) m ≡ false
    → any_of (bad p) (note_time id t m) ≡ false
unfolding note_time set_time any_of
bad-note_time p id t m h k = elim (Bool-cases (ltb (time_of id m) t)) [
  | inl e ↦ rw e (set_good m (ground arith) k)
  | inr e ↦ rw e k
]
  where
    set_good :
        (n : UserTimes)
        → (t == 0) ≡ false
        → any_of (bad p) n ≡ false
        → any_of (bad p) (set_time id t n) ≡ false
    set_good [] z e = ground arith
    set_good ((q, old) ∷ rest) z e = ground (arith, set_good rest)

-- Where there is none, a key has a time, and no key passes the test.
pub time_of-has_key :
    (p : ℕ → Bool) (id : ℕ) (m : UserTimes)
    → any_of (bad p) m ≡ false
    → has_key id m ≡ true
    → (0 < time_of id m) × (p id ≡ false)
unfolding any_of time_of
time_of-has_key p id [] b h = absurd (ground arith)
time_of-has_key p id ((k, t) ∷ rest) b h = elim (==_cases k id) [
  | inl (e, f) ↦ rw f (ground arith, rw (sym e) (ground arith))
  | inr (ne, f) ↦ rw f (time_of-has_key p id rest (ground arith) (ground arith))
]

-- An entry that is not what looking up its key finds.
abbrev pub misfit : UserTimes → ℕ × ℕ → Bool
misfit m e = not (e.1 == time_of e.0 m)

-- With distinct keys there is none.
pub no_misfit : (m : UserTimes) → Distinct same_key m → any_of (misfit m) m ≡ false
unfolding any_of time_of
no_misfit [] d = refl
no_misfit ((k, t) ∷ rest) d =
    ground (arith, ==_refl k, ==_refl t, behind rest d.0 (no_misfit rest d.1))
  where
    behind :
        (es : UserTimes)
        → has_key k es ≡ false
        → any_of (misfit rest) es ≡ false
        → any_of (misfit ((k, t) ∷ rest)) es ≡ false
    behind [] h e = refl
    behind ((q, u) ∷ es) h e = ground (arith, behind es, ==_iff k q, ==_iff q k)
