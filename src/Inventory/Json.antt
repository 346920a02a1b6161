-- ===== src/Inventory/Json.antt =====
-- The JSON of internal/inventory/types.go: the field names and `omitempty` of its tags.
use lts_agent.Base.{Bytes, List, [], ◌∷◌, Option, none, some, lit, is_empty, if◌then◌else◌}
use lts_agent.Go.Numbers.{ℤ, pos, int_eq, show_int}
use lts_agent.Go.Json.Value.{
  Value, null, bool, num, str, arr, obj, Items, nil, cons, Fields, end, field,
}
use lts_agent.Inventory.{
  Warning, Operation, Core, Check, Checks, DesiredState, Assignment, System, Lbi, Report,
}

abbrev pub int_value : ℤ → Value
int_value n = num (show_int n)

strings_items : List Bytes → Items
strings_items [] = nil
strings_items (s ∷ l) = cons (str s) (strings_items l)

-- A slice: nil is `null`.
strings_value : Option (List Bytes) → Value
unfolding strings_items
strings_value none = null
strings_value (some l) = arr (strings_items l)

-- `omitempty` on a string, an integer and a pointer.
omit_text : Bytes → Bytes → Fields → Fields
omit_text name s rest = if is_empty s then rest else field name (str s) rest

omit_int : Bytes → ℤ → Fields → Fields
omit_int name n rest = if int_eq n (pos 0) then rest else field name (int_value n) rest

omit_nil : {A : Type 0} → Bytes → (A → Value) → Option A → Fields → Fields
omit_nil name make none rest = rest
omit_nil name make (some a) rest = field name (make a) rest

operation_value : Operation → Value
operation_value o =
    obj (field (lit "attempted") (bool o.attempted) (field (lit "status") (str o.status) end))

core_value : Core → Value
unfolding omit_text operation_value
core_value c = obj (
    field (lit "enabled") (bool c.enabled) (
      field (lit "registered") (bool c.registered) (
        omit_text (lit "node_id") c.node_id (
          field (lit "registration") (operation_value c.registration) (
            field (lit "heartbeat") (operation_value c.heartbeat)
              (field (lit "desired_state") (operation_value c.desired_state) end))))))

check_value : Check → Value
unfolding omit_nil
check_value c = obj (
    field (lit "available") (bool c.available) (
      field (lit "status") (str c.status) (
        omit_nil (lit "exit_code") int_value c.exit_code (
          field (lit "duration_ms") (int_value c.duration_ms) (
            field (lit "output") (str c.output)
              (field (lit "truncated") (bool c.truncated) end))))))

desired_state_value : DesiredState → Value
unfolding omit_int omit_text strings_value
desired_state_value d = obj (
    field (lit "available") (bool d.available) (
      omit_int (lit "schema_version") d.schema_version (
        omit_text (lit "revision") d.revision (
          field (lit "roles") (strings_value d.roles)
            (field (lit "capabilities") (strings_value d.capabilities) end)))))

assignment_value : Assignment → Value
unfolding omit_int strings_value
assignment_value a = obj (
    field (lit "available") (bool a.available) (
      omit_int (lit "schema_version") a.schema_version (
        field (lit "roles") (strings_value a.roles)
          (field (lit "capabilities") (strings_value a.capabilities) end))))

lbi_value : Lbi → Value
unfolding omit_text
lbi_value l = obj (
    field (lit "available") (bool l.available) (
      omit_text (lit "name") l.name (
        omit_text (lit "short") l.short (
          omit_text (lit "version") l.version (
            omit_text (lit "build") l.build (
              omit_text (lit "base_os") l.base_os
                (omit_text (lit "maintainer") l.maintainer end)))))))

system_value : System → Value
system_value s = obj (
    field (lit "os") (str s.os) (
      field (lit "kernel") (str s.kernel) (
        field (lit "architecture") (str s.architecture)
          (field (lit "timezone") (str s.timezone) end))))

warning_items : List Warning → Items
warning_items [] = nil
warning_items (w ∷ ws) =
    cons (obj (field (lit "source") (str w.source) (field (lit "message") (str w.message) end)))
      (warning_items ws)

checks_value : Checks → Value
unfolding check_value
checks_value c = obj (
    field (lit "validation") (check_value c.validation)
      (field (lit "health") (check_value c.health) end))

omit_warnings : List Warning → Fields
unfolding warning_items
omit_warnings ws = if is_empty ws then end else field (lit "warnings") (arr (warning_items ws)) end

-- The fields of a report, in order.
pub report_fields : Report → Fields
unfolding lbi_value system_value assignment_value checks_value desired_state_value core_value
    omit_warnings omit_nil
report_fields r = field (lit "agent") (obj (field (lit "version") (str r.agent.version) end)) (
    field (lit "node") (obj (field (lit "hostname") (str r.node.hostname) end)) (
      field (lit "lbi") (lbi_value r.lbi) (
        field (lit "system") (system_value r.system) (
          field (lit "assignment") (assignment_value r.assignment) (
            field (lit "checks") (checks_value r.checks) (
              omit_nil (lit "desired_state") desired_state_value r.desired_state
                (omit_nil (lit "core") core_value r.core (omit_warnings r.warnings))))))))

unfoldable pub report_value : Report → Value
unfolding report_fields
report_value r = obj (report_fields r)
