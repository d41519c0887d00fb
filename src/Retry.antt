-- ===== src/Retry.antt =====
-- pkg/retry: retry.go and retryable.go. A call of `fn`, a sleep and `ctx.Err()` work on a state of
-- the surroundings. A duration is a count of nanoseconds from 0 on, and a retrier has at least 0
-- attempts; `<<` wraps at 64 bits, and a result from 2 ^ 63 on is a negative int64.
pub mod Laws
pub mod Outcome
mod Tests
use linktracker_eng.Prelude.{
  ℕ, zero, suc, ◌+◌, ◌*◌, ◌/◌, ◌%◌, ◌^◌, min, Bool, true, false, ◌||◌, List, [], ◌∷◌, Option, none,
  some, ◌==◌, leb, any_of, if◌then◌else◌,
}

pub record Retrier : Type 0 where
  pub max_attempts : ℕ
  pub base_delay : ℕ
  pub max_delay : ℕ

-- min(baseDelay << attempt, maxDelay) / 2, if it is not negative
abbrev pub half_delay : ℕ → ℕ → ℕ → Option ℕ
half_delay base longest attempt =
    let shifted = (base * 2 ^ attempt) % 2 ^ 64 in
    if leb (2 ^ 63) shifted then none else some (min shifted longest / 2)

abbrev pub jittered : (ℕ → ℕ) → Option ℕ → Option ℕ
jittered draw none = none
jittered draw (some half) = if half == 0 then none else some (half + draw half)

-- backoffDelay; `draw` is rand.Int64N, which panics (none) on a bound that is not positive
unfoldable pub backoff_delay : (ℕ → ℕ) → ℕ → ℕ → ℕ → Option ℕ
backoff_delay draw base longest attempt = jittered draw (half_delay base longest attempt)

-- How a call ends: with a panic, or with an error or nil.
pub data Ending (E : Type 0) : Type 0 where
  panicked : Ending E
  returned : Option E → Ending E

pub record World (E S : Type 0) : Type 0 where
  pub ctx_err : S → Option E
  pub sleep : ℕ → S → S
  pub draw : S → ℕ → ℕ

module _ {E S : Type 0} (w : World E S) (r : Retrier) where
  -- time.Sleep(backoffDelay(r.baseDelay, r.maxDelay, i)) before the rest of the loop
  abbrev slept : Option ℕ → S → (S → Ending E × S) → Ending E × S
  slept none s rest = (panicked, s)
  slept (some d) s rest = rest (w.sleep d s)

  module _ (fn : S → Option E × S) (retryable : E → Bool) where
    abbrev pub after_call : ℕ → Option E → S → (S → Ending E × S) → Ending E × S
    after_call i none s rest = (returned none, s)
    after_call i (some e) s rest =
        if retryable e
        then slept (backoff_delay (w.draw s) r.base_delay r.max_delay i) s rest
        else (returned (some e), s)

    abbrev pub checked : ℕ → Option E → S → (Option E → S → Ending E × S) → Ending E × S
    checked i (some e) s rest = (returned (some e), s)
    checked i none s rest = let (err, s') = fn s in after_call i err s' (rest err)

    -- The loop of Do: what is left of it, the attempt, and `err`.
    unfoldable pub do_loop : ℕ → ℕ → Option E → S → Ending E × S
    unfolding backoff_delay
    do_loop zero i err s = (returned err, s)
    do_loop (suc n) i err s = checked i (w.ctx_err s) s (do_loop n (suc i))

    unfoldable pub do_fn : S → Ending E × S
    unfolding do_loop
    do_fn s = do_loop r.max_attempts 0 none s

  module _ (fn : S → (ℕ × Option E) × S) (retryable : ℕ → Option E → Bool) where
    abbrev pub after_code : ℕ → ℕ × Option E → S → (S → Ending E × S) → Ending E × S
    after_code i (code, none) s rest = (returned none, s)
    after_code i (code, some e) s rest =
        if retryable code (some e)
        then slept (backoff_delay (w.draw s) r.base_delay r.max_delay i) s rest
        else (returned (some e), s)

    abbrev pub checked_code : ℕ → Option E → S → (Option E → S → Ending E × S) → Ending E × S
    checked_code i (some e) s rest = (returned (some e), s)
    checked_code i none s rest = let (out, s') = fn s in after_code i out s' (rest out.1)

    unfoldable pub do_with_code_loop : ℕ → ℕ → Option E → S → Ending E × S
    unfolding backoff_delay
    do_with_code_loop zero i err s = (returned err, s)
    do_with_code_loop (suc n) i err s = checked_code i (w.ctx_err s) s (do_with_code_loop n (suc i))

    unfoldable pub do_with_code : S → Ending E × S
    unfolding do_with_code_loop
    do_with_code s = do_with_code_loop r.max_attempts 0 none s

module _ {E : Type 0} (is_ctx_error : E → Bool) where
  -- NewHTTPRetryableFunc; `is_ctx_error` is errors.Is with context.Canceled or DeadlineExceeded
  unfoldable pub new_http_retryable_func : List ℕ → ℕ → Option E → Bool
  unfolding any_of
  new_http_retryable_func codes code (some e) = if is_ctx_error e then false else true
  new_http_retryable_func codes code none = any_of (λ c. c == code) codes

  -- NewGRPCRetryableFunc; `status` is status.FromError, none for an error that has no status
  unfoldable pub new_grpc_retryable_func : (E → Option ℕ) → List ℕ → E → Bool
  unfolding any_of
  new_grpc_retryable_func status codes e =
      if is_ctx_error e
      then false
      else elim (status e) [ none ↦ true | some code ↦ any_of (λ c. c == code) codes ]
