-- ===== src/Retry/Laws.antt =====
-- What the retrier promises: how often it calls, what it returns, how long it waits.
use linktracker_eng.Prelude.{
  ℕ, zero, suc, ◌+◌, ◌*◌, ◌/◌, ◌%◌, ◌^◌, ◌≤◌, ◌<◌, min, ◌≡◌, refl, inl, inr, Bool, List, [], Option,
  none, some, arith, Option-cases, Bool-cases,
}
use linktracker_eng.Retry.{
  Retrier, World, Ending, backoff_delay, half_delay, jittered, after_code, do_with_code_loop,
  do_with_code, new_http_retryable_func,
}

jittered-bounds :
    (draw : ℕ → ℕ) (half : ℕ)
    → ((n : ℕ) → 0 < n → draw n < n)
    → 0 < half
    → (d : ℕ) × (jittered draw (some half) ≡ some d) × (half ≤ d) × (d < half + half)
jittered-bounds draw half drawn h =
    (half + draw half, ground arith, omega arith, omega (arith, drawn half h))

half_delay_lem :
    (base longest attempt v : ℕ)
    → base * 2 ^ attempt ≡ v
    → v < 2 ^ 63
    → half_delay base longest attempt ≡ some (min v longest / 2)
half_delay_lem base longest attempt v e small =
    let same : v % 2 ^ 64 ≡ v = omega arith in rw (e, same) (ground arith)

-- If the base delay has not overflowed, and both delays are at least 2ns, the delay is at least
-- half of the capped exponential delay, and below the whole of it.
pub backoff_delay-bounds :
    (draw : ℕ → ℕ) (base longest attempt : ℕ)
    → ((n : ℕ) → 0 < n → draw n < n)
    → base * 2 ^ attempt < 2 ^ 63
    → 2 ≤ base * 2 ^ attempt
    → 2 ≤ longest
    → (d : ℕ) × (backoff_delay draw base longest attempt ≡ some d)
      × (min (base * 2 ^ attempt) longest / 2 ≤ d)
      × (d < min (base * 2 ^ attempt) longest)
unfolding backoff_delay
backoff_delay-bounds draw base longest attempt drawn small two two' =
    let whole = base * 2 ^ attempt in
    let (d, e, low, high) = jittered-bounds draw (min whole longest / 2) drawn (omega arith) in
    (d, rw (half_delay_lem base longest attempt whole refl small) e, low, omega (arith, high))

module _ {E S : Type 0} (w : World E S) (r : Retrier) (is_ctx_error : E → Bool)
    (fn : S → (ℕ × Option E) × S) where
  after_code-codes :
      (codes : List ℕ) (i : ℕ) (out : ℕ × Option E) (s : S) (rest rest' : S → Ending E × S)
      → ((s : S) → rest s ≡ rest' s)
      → after_code w r fn (new_http_retryable_func is_ctx_error codes) i out s rest
        ≡ after_code w r fn (new_http_retryable_func is_ctx_error []) i out s rest'
  unfolding new_http_retryable_func
  after_code-codes codes i (code, none) s rest rest' h = refl
  after_code-codes codes i (code, some e) s rest rest' h = elim (Bool-cases (is_ctx_error e)) [
    | inl c ↦ rw c refl
    | inr c ↦ elim (Option-cases (backoff_delay (w.draw s) r.base_delay r.max_delay i)) [
      | inl b ↦ rw (c, b) refl
      | inr (d, b) ↦ rw (c, b) (h (w.sleep d s))
    ]
  ]

  codes_loop :
      (codes : List ℕ) (n i : ℕ) (err : Option E) (s : S)
      → do_with_code_loop w r fn (new_http_retryable_func is_ctx_error codes) n i err s
        ≡ do_with_code_loop w r fn (new_http_retryable_func is_ctx_error []) n i err s
  unfolding do_with_code_loop new_http_retryable_func
  codes_loop codes zero i err s = refl
  codes_loop codes (suc n) i err s = elim (Option-cases (w.ctx_err s)) [
    | inl live ↦
        rw live
          (after_code-codes codes i (fn s).0 (fn s).1 _ _ (codes_loop codes n (suc i) (fn s).0.1))
    | inr (e, stopped) ↦ rw stopped refl
  ]

pub do_with_code-codes :
    {E S : Type 0} (w : World E S) (r : Retrier) (is_ctx_error : E → Bool)
    (fn : S → (ℕ × Option E) × S) (codes : List ℕ) (s : S)
    → do_with_code w r fn (new_http_retryable_func is_ctx_error codes) s
      ≡ do_with_code w r fn (new_http_retryable_func is_ctx_error []) s
unfolding do_with_code
do_with_code-codes w r is_ctx_error fn codes s =
    codes_loop w r is_ctx_error fn codes r.max_attempts 0 none s
