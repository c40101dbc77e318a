-- ===== src/Dag/Types.antt =====
-- internal/agent/dag/types.go: nodes, lifecycle states, events and the result of a run.
-- `R` stands for RunFn, `V` for the `any` that a node returns, `E` for `error`.
use go_research.Prelude.{Str, Map, List, Option}
use go_research.Prelude.Int.{ℤ}

pub data State : Type 0 where
  pending ready running succeeded failed cancelled : State

pub record Node (R : Type 0) : Type 0 where
  pub id : Str
  pub name : Str
  pub depends_on : List Str
  -- `none` is a nil RunFn
  pub run : Option R
  pub max_retry : ℤ
  -- a time.Duration, in nanoseconds
  pub timeout : ℤ

pub data EventType : Type 0 where
  node_started node_succeeded node_failed node_retrying node_cancelled : EventType

-- `none` is the nil that the Go zero value holds.
pub record Event (V E : Type 0) : Type 0 where
  pub type : EventType
  pub node_id : Str
  pub name : Str
  pub attempt : ℤ
  pub result : Option V
  pub error : Option E
  pub elapsed : ℤ

pub record Result (V : Type 0) : Type 0 where
  pub outputs : Map V
  pub states : Map State
