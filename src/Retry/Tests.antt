-- ===== src/Retry/Tests.antt =====
-- The retrier's theorems on a call that fails twice.
use linktracker_eng.Prelude.{
  ℕ, ◌≡◌, true, false, [], ◌∷◌, Option, none, some, ◌-◌, ◌*◌, ◌^◌, ◌/◌, ◌≤◌, ◌<◌, min, ltb,
  if◌then◌else◌, arith, suc,
}
use linktracker_eng.Retry.{
  Retrier, World, backoff_delay, do_fn, do_with_code, new_http_retryable_func,
}
use linktracker_eng.Retry.Laws.{backoff_delay-bounds, do_with_code-codes}
use linktracker_eng.Retry.Outcome.{Outcome, do_fn-Outcome}

abbrev retrier : Retrier
retrier = record { max_attempts = 3; base_delay = 200; max_delay = 1000 }

-- The state counts the calls.
abbrev world : World ℕ ℕ
world = record { ctx_err = λ s. none; sleep = λ d s. s; draw = λ s n. n - 1 }

abbrev flaky : ℕ → Option ℕ × ℕ
flaky s = (if ltb s 2 then some 1 else none, suc s)

do_fn-Outcome_example :
    Outcome world retrier flaky
      (λ e. true)
      3
      0
      (do_fn world retrier flaky (λ e. true) 0).0
      (do_fn world retrier flaky (λ e. true) 0).1
do_fn-Outcome_example = do_fn-Outcome world retrier flaky (λ e. true) 0

abbrev coded : ℕ → (ℕ × Option ℕ) × ℕ
coded s = ((503, none), suc s)

do_with_code-codes_example :
    do_with_code world retrier coded (new_http_retryable_func (λ e. false) (503 ∷ [])) 0
    ≡ do_with_code world retrier coded (new_http_retryable_func (λ e. false) []) 0
do_with_code-codes_example = do_with_code-codes world retrier (λ e. false) coded (503 ∷ []) 0

drawn : (n : ℕ) → 0 < n → n - 1 < n
drawn n h = omega arith

below_limit : 200 * 2 ^ 1 < 2 ^ 63
below_limit = omega arith

two_shifted : 2 ≤ 200 * 2 ^ 1
two_shifted = omega arith

two_longest : 2 ≤ 1000
two_longest = omega arith

backoff_delay-bounds_example :
    (d : ℕ) × (backoff_delay (λ n. n - 1) 200 1000 1 ≡ some d)
    × (min (200 * 2 ^ 1) 1000 / 2 ≤ d)
    × (d < min (200 * 2 ^ 1) 1000)
backoff_delay-bounds_example =
    backoff_delay-bounds (λ n. n - 1) 200 1000 1 drawn below_limit two_shifted two_longest
