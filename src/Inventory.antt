-- ===== src/Inventory.antt =====
-- internal/inventory/types.go: the JSON document that the agent emits.
--
-- A slice that may be nil is an `Option` of a list, and so is a pointer.
pub mod Json
use lts_agent.Base.{Bool, Bytes, List, Option}
use lts_agent.Go.Numbers.{ℤ}

pub record Warning : Type 0 where
  pub source : Bytes
  pub message : Bytes

pub record Operation : Type 0 where
  pub attempted : Bool
  pub status : Bytes

pub record Core : Type 0 where
  pub enabled : Bool
  pub registered : Bool
  pub node_id : Bytes
  pub registration : Operation
  pub heartbeat : Operation
  pub desired_state : Operation

pub record Check : Type 0 where
  pub available : Bool
  pub status : Bytes
  pub exit_code : Option ℤ
  pub duration_ms : ℤ
  pub output : Bytes
  pub truncated : Bool

pub record Checks : Type 0 where
  pub validation : Check
  pub health : Check

pub record DesiredState : Type 0 where
  pub available : Bool
  pub schema_version : ℤ
  pub revision : Bytes
  pub roles : Option (List Bytes)
  pub capabilities : Option (List Bytes)

pub record Assignment : Type 0 where
  pub available : Bool
  pub schema_version : ℤ
  pub roles : Option (List Bytes)
  pub capabilities : Option (List Bytes)

pub record System : Type 0 where
  pub os : Bytes
  pub kernel : Bytes
  pub architecture : Bytes
  pub timezone : Bytes

pub record Lbi : Type 0 where
  pub available : Bool
  pub name : Bytes
  pub short : Bytes
  pub version : Bytes
  pub build : Bytes
  pub base_os : Bytes
  pub maintainer : Bytes

pub record Agent : Type 0 where
  pub version : Bytes

pub record Node : Type 0 where
  pub hostname : Bytes

pub record Report : Type 0 where
  pub agent : Agent
  pub node : Node
  pub lbi : Lbi
  pub system : System
  pub assignment : Assignment
  pub checks : Checks
  pub desired_state : Option DesiredState
  pub core : Option Core
  pub warnings : List Warning
