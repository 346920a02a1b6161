-- ===== src/Lib.antt =====
-- A model of lts-agent, the agent that reports a node to LTS Core.
--
-- One run of the agent collects a report of the node, runs two check scripts, exchanges up to three
-- JSON messages with LTS Core, and prints the report. The parts and the files that model them:
--
-- - internal/coresync/sync.go: `Sync` (Synchronizer.Sync and its stages, register, heartbeat,
--   desiredState), `Sync.Files` (loadState, readSecret, validateSecretFile, fingerprint, writeState),
--   `Sync.State` and `Sync.Token` (the state document, the registration response, their patterns).
-- - internal/core/client.go: `Client` (doJSON and all that it calls), over the network of `Client.Net`,
--   and New in `Client.Options` and `Client.Setup`.
-- - internal/desired/desired.go: `Desired`.
-- - internal/config/config.go: `Config`, and the documents of the file in `Config.Wire`.
-- - internal/check/check.go: `Check`, and its limitedBuffer in `Check.Buffer`.
-- - internal/role/role.go: `Role`. internal/identifier/identifier.go: `Identifier`.
-- - internal/system/system.go: `System`. internal/lbi/lbi.go: `Lbi`.
-- - internal/agent/agent.go: `Agent`, over the interfaces of its collectors, and the text of the
--   report in `Agent.Output`.
-- - internal/app/app.go: `App` (the types, the logger, ensureDesiredState) and `App.Run` (Run).
-- - cmd/lts-agent/main.go: `Main`, which puts the models of all parts together.
-- - internal/inventory/types.go: `Inventory`, and the JSON made of the types in `Inventory.Json`.
--
-- `Main` gives `App` its factories: one runs `Agent` on `System`, `Lbi`, `Role` and `Check`, the other
-- builds a `Client` and `Sync` on it. `Sync` calls `Client`, which calls the network. `Desired` is the
-- target that a response is decoded into. `Role` and `Desired` share `Identifier`. The child modules
-- of a part hold what is proved of it, by topic, and its `Tests` run it on concrete inputs. `Base`
-- holds the shared helpers. A sequence of cycles, in `Sync.Again`, stands for runs of the program one
-- after the other.
--
-- How the code is written here. A string or a slice of bytes is a list of numbers. A slice or a
-- pointer that may be nil is an `Option`. Code that can fail returns a `Result`, whose errors keep
-- what `errors.Is` and `errors.As` look for: the sentinels, the HTTP status and the wrapping. Code
-- with effects is an `Action`, a function of a state of the outside world. The filesystem, the
-- network, `url.Parse`, `crypto/x509`, the clock, the context, SHA-256, the scripts and uname are
-- parameters of the model, in the records `Dependencies`, `Web`, `Trust` and `Outside`. A map is an
-- association list. A log is the list of the records that pass the level. A defer and an early
-- return are helpers of their own, named after the part of the function behind them.
--
-- The Go library that the code's results depend on is in `Go`: `encoding/json` (`Go.Json`), `%q`
-- (`Go.Quote`), `strconv.Unquote` of a text in double quotes (`Go.Unquote`), the functions of
-- `strings` and of `path/filepath` on absolute paths (`Go.Strings`, `Go.Filepath`), `regexp` for
-- the classes, repetitions and sequences that the patterns use (`Go.Regexp`), UTF-8 (`Go.Utf8`), the
-- set and `sort.Strings` (`Go.Sets`). An integer is unbounded; the decoder refuses what does not fit
-- into 64 bits. The recursion of the JSON reader is on fuel, of which one more than the length of the
-- text is given: every value and every member takes at least one byte of it (`Go.Json.Parse.Fuel`).
-- So is the loop of `Unquote`, with as much (`Go.Unquote.Enough`).
--
-- What the model leaves out. The texts of the errors of `encoding/json` are shortened, since no code
-- looks at them. A `json.RawMessage` is the parsed value. The reader has no limit on the nesting of
-- values, and a duplicate key with arrays does not reuse the first array. `%q` shows every
-- character beyond ASCII as it is. `Milliseconds` of the difference of two times does not saturate.
-- The mutex of limitedBuffer is left out: a write is one step. The texts of the errors of
-- `strconv.Unquote` are one text. What a line of the log says of the time is left out, and so are
-- errors in writing the log, which the code ignores. A duration is an integer without bounds: those
-- of a loaded configuration fit into 64 bits. Of `http.Client` and its transport only what `New` sets
-- is kept, where `CheckRedirect` is the flag that says whether redirects are followed; the proxy and
-- the rest of `http.DefaultTransport` belong to the function that sends. A negative limit of a check
-- counts as 0, which no loaded configuration has. Not modelled are the scripts, the packaging and
-- the tests of both, which hold no logic of the agent.
pub mod Base
pub mod Go
pub mod Identifier
pub mod Inventory
pub mod Desired
pub mod Check
pub mod Config
pub mod Client
pub mod Sync
pub mod Role
pub mod Lbi
pub mod System
pub mod Agent
pub mod App
pub mod Main
