-- ===== src/Check/Tests.antt =====
-- Runs of internal/check/check.go, and instances of the theorems.
use lts_agent.Base.{
  ℕ, ◌+◌, ◌*◌, ◌≡◌, ◌≤◌, refl, true, false, Bytes, [], ◌∷◌, length, take, ltb, none, some, lit,
}
use lts_agent.Go.Numbers.{ℤ, pos, int_eq}
use lts_agent.Check.Buffer.{new_limited_buffer, write_all, joined, write_all_refines}
use lts_agent.Check.Status.{Exited, attempt, run-exit_code, run-no_warning}
use lts_agent.Check.{Collector, health_status, run, classify, finish, milliseconds, second}

abbrev chunks : Bytes
chunks = lit "abc"

write_all_refines_example :
    ((write_all (new_limited_buffer 4) (chunks ∷ chunks ∷ [])).contents
      ≡ take 4 (joined (chunks ∷ chunks ∷ [])))
    × ((write_all (new_limited_buffer 4) (chunks ∷ chunks ∷ [])).truncated
        ≡ ltb 4 (length (joined (chunks ∷ chunks ∷ []))))
    × (length (write_all (new_limited_buffer 4) (chunks ∷ chunks ∷ [])).contents ≤ 4)
write_all_refines_example = write_all_refines 4 (chunks ∷ chunks ∷ [])

-- The world is the clock; the script exits with code 1 after a second.
abbrev collector : Collector ℕ
collector = record {
  deps = record {
    execute = λ timeout path limit w. (
      record {
        started = true;
        exit_code = some (pos 1);
        output = lit "slow";
        truncated = false;
        error = none;
      },
      false,
      w + second,
    );
    now = λ w. (w, w);
    cancelled = λ w. none;
    show_duration = λ d. lit "30s";
    validation_path = lit "/validate";
    health_path = lit "/health";
    timeout = 30 * second;
    output_limit = 64;
  };
}

run-exit_code_example :
    Exited (attempt collector (lit "health") (lit "/health") health_status 5).0 false none (pos 1)
    × ((run collector (lit "health") (lit "/health") health_status 5).0.0.status
        ≡ (health_status (pos 1)).0)
unfolding run classify finish health_status milliseconds int_eq
run-exit_code_example =
    run-exit_code collector (lit "health") (lit "/health") health_status 5 (pos 1) refl

run-no_warning_example :
    (code : ℤ) × Exited
      (attempt collector (lit "health") (lit "/health") health_status 5).0
      false
      none
      code
    × ((health_status code).1 ≡ none)
unfolding run classify finish health_status milliseconds int_eq
run-no_warning_example =
    run-no_warning collector (lit "health") (lit "/health") health_status 5 refl
