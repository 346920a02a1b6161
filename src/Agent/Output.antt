-- ===== src/Agent/Output.antt =====
-- internal/agent/agent.go: the report as JSON.
use lts_agent.Base.{Bytes, lit}
use lts_agent.Go.Action.{Action, wrapped}
use lts_agent.Go.Json.Indent.{encode_indented}
use lts_agent.Inventory.{Report}
use lts_agent.Inventory.Json.{report_value}
use lts_agent.Agent.{Agent, collect_report}

-- The text that is written. No value of a report fails to encode.
abbrev pub report_text : Report → Bytes
report_text report = encode_indented (report_value report)

-- `write` is the `Write` method of the writer.
unfoldable pub write_report_json :
    {W : Type 0} → Report → (Bytes → Action W (Unit {0})) → Action W (Unit {0})
write_report_json report write =
    wrapped (lit "encode inventory JSON: ") (write (report_text report))

-- The method `WriteJSON`.
unfoldable pub write_json :
    {W : Type 0} → Agent W → (Bytes → Action W (Unit {0})) → Action W (Unit {0})
unfolding write_report_json
write_json agent write w =
    let (report, w') = collect_report agent w in write_report_json report write w'
