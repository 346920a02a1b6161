-- ===== src/Go/Json/Value.antt =====
-- JSON values. A number keeps its literal; the fields of an object keep their order.
use lts_agent.Base.{Bytes, Bool, true, false}

mutual
  pub data Value : Type 0 where
    null : Value
    bool : Bool → Value
    num : Bytes → Value
    str : Bytes → Value
    arr : Items → Value
    obj : Fields → Value

  pub data Items : Type 0 where
    nil : Items
    cons : Value → Items → Items

  pub data Fields : Type 0 where
    end : Fields
    field : Bytes → Value → Fields → Fields

unfoldable pub is_null : Value → Bool
is_null null = true
is_null _ = false
