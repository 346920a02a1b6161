-- ===== src/Check.antt =====
-- internal/check/check.go: running the LBI scripts and normalising their results.
pub mod Buffer
pub mod Status
mod Tests
use lts_agent.Base.{
  ℕ, ◌+◌, ◌-◌, ◌/◌, ◌*◌, Bool, true, false, Bytes, List, [], ◌∷◌, ◌++◌, Option, none, some, lit,
  leb, ltb, is_empty, if◌then◌else◌,
}
use lts_agent.Go.Errors.{Error, text, error_text, Result, ok, err}
use lts_agent.Go.Numbers.{ℤ, pos, negsuc, show_int, int_eq, of_negative, int_lt}
use lts_agent.Inventory.{Check, Checks, Warning}
use lts_agent.Check.Buffer.{LimitedBuffer, new_limited_buffer, write_all, buffer_text}

abbrev pub validation_path : Bytes
validation_path = lit "/opt/lts/scripts/lbi-validate.sh"

abbrev pub health_path : Bytes
health_path = lit "/opt/lts/scripts/health-check.sh"

-- A `time.Duration`, in nanoseconds.
abbrev pub second : ℕ
second = 1000000000

abbrev pub default_timeout : ℕ
default_timeout = 30 * second

abbrev pub max_output_bytes : ℕ
max_output_bytes = 64 * 1024

pub record Execution : Type 0 where
  pub started : Bool
  pub exit_code : Option ℤ
  pub output : Bytes
  pub truncated : Bool
  pub error : Option Error

-- `execute timeout path limit` runs `Execute` under `context.WithTimeout(ctx, timeout)` and
-- cancels the context; it also tells whether the deadline had passed. `now` is in nanoseconds,
-- `cancelled` is `ctx.Err()`, and `show_duration` is `time.Duration.String`.
pub record Dependencies (W : Type 0) : Type 0 where
  pub execute : ℕ → Bytes → ℕ → W → Execution × Bool × W
  pub now : W → ℕ × W
  pub cancelled : W → Option Error
  pub show_duration : ℕ → Bytes
  pub validation_path : Bytes
  pub health_path : Bytes
  pub timeout : ℕ
  pub output_limit : ℕ

pub record Options : Type 0 where
  pub validation_path : Bytes
  pub health_path : Bytes
  pub timeout : ℕ
  pub output_limit : ℕ

unfoldable pub default_options : Options
default_options = record {
  validation_path = validation_path;
  health_path = health_path;
  timeout = default_timeout;
  output_limit = max_output_bytes;
}

pub record Collector (W : Type 0) : Type 0 where
  pub deps : Dependencies W

unfoldable pub new_collector_with_dependencies : {W : Type 0} → Dependencies W → Collector W
unfolding default_options
new_collector_with_dependencies deps = record {
  deps = record deps {
    validation_path =
        if is_empty deps.validation_path
        then default_options.validation_path
        else deps.validation_path;
    health_path =
        if is_empty deps.health_path then default_options.health_path else deps.health_path;
  };
}

-- `NewCollectorWithOptions`: `boundaries` holds `execute` and `time.Now`.
unfoldable pub new_collector_with_options : {W : Type 0} → Dependencies W → Options → Collector W
unfolding new_collector_with_dependencies
new_collector_with_options boundaries options = new_collector_with_dependencies (record boundaries {
  validation_path = options.validation_path;
  health_path = options.health_path;
  timeout = options.timeout;
  output_limit = options.output_limit;
})

unfoldable pub new_collector : {W : Type 0} → Dependencies W → Collector W
unfolding new_collector_with_options
new_collector boundaries = new_collector_with_options boundaries default_options

-- A status, and the error of `healthStatus` for an exit code that it does not know.
abbrev pub StatusMapper : Type 0
StatusMapper = ℤ → Bytes × Option Error

unfoldable pub validation_status : StatusMapper
validation_status code = if int_eq code (pos 0) then (lit "passed", none) else (lit "failed", none)

unfoldable pub health_status : StatusMapper
health_status code =
    if int_eq code (pos 0)
    then (lit "healthy", none)
    else if int_eq code (pos 1)
    then (lit "degraded", none)
    else if int_eq code (pos 2)
    then (lit "critical", none)
    else (lit "error", some (text (lit "unsupported health exit code " ++ show_int code)))

-- `b.Sub(a).Milliseconds()` on nanoseconds.
unfoldable pub milliseconds : ℕ → ℕ → ℤ
milliseconds a b = if leb a b then pos ((b - a) / 1000000) else of_negative ((a - b) / 1000000)

-- `%v` of an `error` that may be nil.
abbrev show_error : Option Error → Bytes
show_error none = lit "<nil>"
show_error (some e) = error_text e

-- The last two branches of `run`: the exit code, if there is one, and the status that it maps to.
unfoldable pub finish : Bytes → StatusMapper → Execution → Check → Check × List Warning
finish source map_status execution result = elim execution.exit_code [
  | none ↦ (
    record result { status = lit "error" },
    record {
      source = source;
      message = lit "check terminated without a normal exit: " ++ show_error execution.error;
    }
        ∷ [],
  )
  | some code ↦
      let mapped = map_status code in
      (
        record result { exit_code = some code; status = mapped.0 },
        elim mapped.1 [
          | none ↦ []
          | some e ↦ record { source = source; message = error_text e } ∷ []
        ],
      )
]

module _ {W : Type 0} (c : Collector W) where
  -- `run` behind the execution: `late` says that the deadline had passed.
  unfoldable pub classify :
      Bytes → Bytes → StatusMapper → Execution → Bool → Option Error → Check → Check × List Warning
  unfolding finish
  classify source path map_status execution late cancelled result = elim cancelled [
    | some e ↦ (
      record result { status = lit "error" },
      record { source = source; message = lit "check cancelled: " ++ error_text e } ∷ [],
    )
    | none ↦
        if late
        then (
          record result { status = lit "timeout" },
          record {
            source = source;
            message = lit "check timed out after " ++ c.deps.show_duration c.deps.timeout;
          }
              ∷ [],
        )
        else if execution.started
        then finish source map_status execution result
        else (
          record result { status = lit "unavailable" },
          record {
            source = source;
            message = lit "execute " ++ (path ++ (lit ": " ++ show_error execution.error));
          }
              ∷ [],
        )
  ]

  unfoldable pub run : Bytes → Bytes → StatusMapper → W → (Check × List Warning) × W
  unfolding milliseconds
  run name path map_status w =
      let (started_at, w1) = c.deps.now w in
      let (execution, late, w2) = c.deps.execute c.deps.timeout path c.deps.output_limit w1 in
      let (ended_at, w3) = c.deps.now w2 in
      let result : Check = record {
        available = execution.started;
        status = [];
        exit_code = none;
        duration_ms = milliseconds started_at ended_at;
        output = execution.output;
        truncated = execution.truncated;
      } in
      (
        classify (lit "checks." ++ name) path map_status execution late (c.deps.cancelled w3)
            result,
        w3,
      )

  unfoldable pub collect_checks : W → (Checks × List Warning) × W
  unfolding run
  collect_checks w =
      let (validation, w1) = run (lit "validation") c.deps.validation_path validation_status w in
      let (health, w2) = run (lit "health") c.deps.health_path health_status w1 in
      ((record { validation = validation.0; health = health.0 }, validation.1 ++ health.1), w2)

-- A process of `os/exec`: the error of its start, or the chunks that it writes to its output, the
-- error of `Wait`, and its exit code, which is negative when it did not exit normally.
pub record Process : Type 0 where
  pub start_error : Option Error
  pub chunks : List Bytes
  pub wait_error : Option Error
  pub process_exit : ℤ

-- `execute` on the process that its command starts.
pub execute : Process → ℕ → Execution
execute p output_limit = elim p.start_error [
  | some e ↦
      let output = new_limited_buffer output_limit in
      record {
        started = false;
        exit_code = none;
        output = buffer_text output;
        truncated = output.truncated;
        error = some e;
      }
  | none ↦
      let output = write_all (new_limited_buffer output_limit) p.chunks in
      record {
        started = true;
        exit_code = if int_lt p.process_exit (pos 0) then none else some p.process_exit;
        output = buffer_text output;
        truncated = output.truncated;
        error = p.wait_error;
      }
]
