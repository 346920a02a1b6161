-- ===== src/Check/Status.antt =====
-- `run` of internal/check/check.go: which status a script is given.
use lts_agent.Base.{
  ◌≡◌, refl, Bool, true, false, Bytes, [], ◌++◌, Option, none, some, lit, arith, Option-cases, inl,
  inr,
}
use lts_agent.Go.Errors.{Error}
use lts_agent.Go.Numbers.{ℤ}
use lts_agent.Inventory.{Check}
use lts_agent.Check.{Execution, Collector, StatusMapper, classify, run}

-- The script ran to a normal exit, with `code`, before the deadline and the cancellation.
pub record Exited (execution : Execution) (late : Bool) (cancelled : Option Error) (code : ℤ)
    : Type 0 where
  pub in_time : late ≡ false
  pub not_cancelled : cancelled ≡ none
  pub was_started : execution.started ≡ true
  pub code_is : execution.exit_code ≡ some code

module _ {W : Type 0} (c : Collector W) (source path : Bytes) (map_status : StatusMapper)
    (execution : Execution) (late : Bool) (cancelled : Option Error) (result : Check)
    (fresh : result.exit_code ≡ none) where
  classify-exit_code :
      (code : ℤ)
      → ((classify c source path map_status execution late cancelled result).0.exit_code
          ≡ some code)
      → Exited execution late cancelled code
        × ((classify c source path map_status execution late cancelled result).0.status
            ≡ (map_status code).0)
  unfolding classify
  classify-exit_code code h = ground arith

  classify-no_warning :
      (classify c source path map_status execution late cancelled result).1 ≡ []
      → (code : ℤ) × Exited execution late cancelled code × ((map_status code).1 ≡ none)
  unfolding classify
  classify-no_warning h = elim (Option-cases execution.exit_code) [
    | inl e ↦ absurd (ground arith)
    | inr (code, e) ↦ (code, ground arith, ground arith)
  ]

  classify-quiet :
      (classify c source path map_status execution late cancelled result).1 ≡ []
      → (code : ℤ) × ((classify c source path map_status execution late cancelled
            result).0.exit_code
          ≡ some code)
        × ((classify c source path map_status execution late cancelled result).0.status
            ≡ (map_status code).0)
        × ((map_status code).1 ≡ none)
  unfolding classify
  classify-quiet h = elim (Option-cases execution.exit_code) [
    | inl e ↦ absurd (ground arith)
    | inr (code, e) ↦ (code, ground arith, ground arith, ground arith)
  ]

module _ {W : Type 0} (c : Collector W) (name path : Bytes) (map_status : StatusMapper)
    (w : W) where
  -- The execution that `run` makes, whether the deadline had passed, and the context's error.
  abbrev pub attempt : Execution × Bool × W
  attempt = c.deps.execute c.deps.timeout path c.deps.output_limit (c.deps.now w).1

  abbrev pub context_error : Option Error
  context_error = c.deps.cancelled (c.deps.now attempt.2).1

  -- `run` reports an exit code only when the script was started and exited normally, in time and
  -- with the context alive; then it is the script's code and the status is what the code maps to.
  pub run-exit_code :
      (code : ℤ)
      → (run c name path map_status w).0.0.exit_code ≡ some code
      → Exited attempt.0 attempt.1 context_error code
        × ((run c name path map_status w).0.0.status ≡ (map_status code).0)
  unfolding run
  run-exit_code code =
      classify-exit_code c (lit "checks." ++ name) path map_status attempt.0 attempt.1 context_error
        _ refl code

  -- `run` is silent only about a normal exit with a code that the script's protocol knows.
  pub run-no_warning :
      (run c name path map_status w).0.1 ≡ []
      → (code : ℤ) × Exited attempt.0 attempt.1 context_error code × ((map_status code).1 ≡ none)
  unfolding run
  run-no_warning =
      classify-no_warning c (lit "checks." ++ name) path map_status attempt.0 attempt.1
        context_error _ refl

  -- A check without a warning has the exit code, which the script's protocol knows, and its status.
  pub run-quiet :
      (run c name path map_status w).0.1 ≡ []
      → (code : ℤ) × ((run c name path map_status w).0.0.exit_code ≡ some code)
        × ((run c name path map_status w).0.0.status ≡ (map_status code).0)
        × ((map_status code).1 ≡ none)
  unfolding run
  run-quiet =
      classify-quiet c (lit "checks." ++ name) path map_status attempt.0 attempt.1 context_error _
        refl
