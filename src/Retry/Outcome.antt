-- ===== src/Retry/Outcome.antt =====
-- How a run of Do ends, on each path through its loop.
use linktracker_eng.Prelude.{
  ℕ, zero, suc, ◌+◌, ◌<◌, ◌≡◌, refl, inl, inr, Bool, true, false, Option, none, some, arith,
  Option-cases, Bool-cases,
}
use linktracker_eng.Retry.{
  Retrier, World, Ending, panicked, returned, backoff_delay, after_call, do_loop, do_fn,
}

module _ {E S : Type 0} (w : World E S) (r : Retrier) (fn : S → Option E × S)
    (retryable : E → Bool) where
  -- The states of a run, with the calls made so far: the start, and the ends of calls and sleeps.
  pub data Reached (s₀ : S) : ℕ → S → Type 0 where
    start : Reached s₀ 0 s₀
    call : {n : ℕ} {s : S} → Reached s₀ n s → w.ctx_err s ≡ none → Reached s₀ (suc n) (fn s).1
    pause : {n : ℕ} {s : S} (d : ℕ) → Reached s₀ n s → Reached s₀ n (w.sleep d s)

  -- The ways in which a run with `m` attempts may end.
  pub data Outcome (m : ℕ) (s₀ : S) : Ending E → S → Type 0 where
    no_attempts : m ≡ 0 → Outcome m s₀ (returned none) s₀
    succeeded :
        {n : ℕ} {s : S}
        → n < m
        → Reached s₀ n s
        → w.ctx_err s ≡ none
        → (fn s).0 ≡ none
        → Outcome m s₀ (returned none) (fn s).1
    stopped :
        {n : ℕ} {s : S} {e : E}
        → n < m
        → Reached s₀ n s
        → w.ctx_err s ≡ some e
        → Outcome m s₀ (returned (some e)) s
    refused :
        {n : ℕ} {s : S} {e : E}
        → n < m
        → Reached s₀ n s
        → w.ctx_err s ≡ none
        → (fn s).0 ≡ some e
        → retryable e ≡ false
        → Outcome m s₀ (returned (some e)) (fn s).1
    exhausted :
        {n d : ℕ} {s : S} {e : E}
        → suc n ≡ m
        → Reached s₀ n s
        → w.ctx_err s ≡ none
        → (fn s).0 ≡ some e
        → retryable e ≡ true
        → Outcome m s₀ (returned (some e)) (w.sleep d (fn s).1)
    no_delay :
        {n : ℕ} {s : S} {e : E}
        → n < m
        → Reached s₀ n s
        → (fn s).0 ≡ some e
        → backoff_delay (w.draw (fn s).1) r.base_delay r.max_delay n ≡ none
        → Outcome m s₀ panicked (fn s).1

  -- What the loop holds before its round `i`.
  data Before (s₀ : S) : ℕ → Option E → S → Type 0 where
    first : Before s₀ 0 none s₀
    again :
        {n d : ℕ} {s : S} {e : E}
        → Reached s₀ n s
        → w.ctx_err s ≡ none
        → (fn s).0 ≡ some e
        → retryable e ≡ true
        → Before s₀ (suc n) (some e) (w.sleep d (fn s).1)

  Reached-Before : {s₀ s : S} {i : ℕ} {err : Option E} → Before s₀ i err s → Reached s₀ i s
  Reached-Before first = start
  Reached-Before (again {d = d} reached live e again') = pause d (call reached live)

  module _ (m : ℕ) (s₀ : S) where
    abbrev Ends : Ending E × S → Type 0
    Ends p = Outcome m s₀ p.0 p.1

    abbrev Rest : ℕ → (Option E → S → Ending E × S) → Type 0
    Rest i rest = (err : Option E) (s : S) → Before s₀ (suc i) err s → Ends (rest err s)

    after_call-Ends :
        (i : ℕ) (s : S) (rest : Option E → S → Ending E × S) (out : Option E)
        → i < m
        → Reached s₀ i s
        → w.ctx_err s ≡ none
        → (fn s).0 ≡ out
        → Rest i rest
        → Ends (after_call w r fn retryable i out (fn s).1 (rest out))
    after_call-Ends i s rest none lt reached live e h = succeeded lt reached live e
    after_call-Ends i s rest (some x) lt reached live e h = elim (Bool-cases (retryable x)) [
      | inr c ↦ rw c (refused lt reached live e c)
      | inl c ↦ elim (Option-cases (backoff_delay (w.draw (fn s).1) r.base_delay r.max_delay i)) [
        | inl b ↦ rw (c, b) (no_delay lt reached e b)
        | inr (d, b) ↦ rw (c, b) (h (some x) (w.sleep d (fn s).1) (again reached live e c))
      ]
    ]

    do_loop-Ends :
        (n i : ℕ) (err : Option E) (s : S)
        → i + n ≡ m
        → Before s₀ i err s
        → Ends (do_loop w r fn retryable n i err s)
    unfolding do_loop
    do_loop-Ends zero i err s count first = no_attempts (omega arith)
    do_loop-Ends zero i err s count (again reached live e c) =
        exhausted (omega arith) reached live e c
    do_loop-Ends (suc n) i err s count before = elim (Option-cases (w.ctx_err s)) [
      | inr (e, h) ↦ rw h (stopped (omega arith) (Reached-Before before) h)
      | inl live ↦ rw live (
          after_call-Ends i s _ (fn s).0 (omega arith) (Reached-Before before) live refl
            (λ err' s' b. do_loop-Ends n (suc i) err' s' (omega arith) b))
    ]

pub do_fn-Outcome :
    {E S : Type 0} (w : World E S) (r : Retrier) (fn : S → Option E × S) (retryable : E → Bool)
    (s : S)
    → Outcome w r fn retryable r.max_attempts s
        (do_fn w r fn retryable s).0
        (do_fn w r fn retryable s).1
unfolding do_fn
do_fn-Outcome w r fn retryable s =
    do_loop-Ends w r fn retryable r.max_attempts s r.max_attempts 0 none s (omega arith) first
