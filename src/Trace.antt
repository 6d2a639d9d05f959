-- ===== src/Trace.antt =====
-- src/trace.rs: the trace vocabularies, the recorder, and replay. The JSON text of a trace is
-- written and read by serde_json, and is not modelled.
pub mod Replay
use beetree.Prelude.{ℕ, Option, none, some, List, [], ◌∷◌, ◌++◌}
use beetree.Key.{Key}
use beetree.Message.{Value, UpsertOp}
use beetree.Node.{NodeId, Bound}
use beetree.Engine.{Params, KvEngine}

-- The closed vocabulary of the first milestone.
pub data OpKind : Type 0 where
  insert : Key → Value → OpKind

pub data TraceEvent : Type 0 where
  op : ℕ → OpKind → TraceEvent
  get : Key → TraceEvent
  flush_decision : NodeId → List ℕ → ℕ → TraceEvent

-- The complete vocabulary.
pub data OpKind2 : Type 0 where
  insert : Key → Value → OpKind2
  delete : Key → OpKind2
  upsert : Key → UpsertOp → OpKind2

pub data TraceEvent2 : Type 0 where
  op : ℕ → OpKind2 → TraceEvent2
  get : Key → TraceEvent2
  scan : Bound → Bound → TraceEvent2
  flush_decision : NodeId → List ℕ → ℕ → TraceEvent2

pub record Recorder : Type 0 where
  pub v1 : List TraceEvent
  pub v2 : List TraceEvent2

abbrev pub default : Recorder
default = record { v1 = []; v2 = [] }

-- The events of the closed vocabulary that an operation leaves.
unfoldable pub v1_op : ℕ → OpKind2 → List TraceEvent
v1_op seq (OpKind2.insert key value) = TraceEvent.op seq (OpKind.insert key value) ∷ []
v1_op seq (OpKind2.delete key) = []
v1_op seq (OpKind2.upsert key o) = []

-- `Recorder::op`, `get`, `scan` and `flush_decision`: one push feeds both views.
unfoldable pub record_op : ℕ → OpKind2 → Recorder → Recorder
unfolding v1_op
record_op seq o r = record { v1 = r.v1 ++ v1_op seq o; v2 = r.v2 ++ TraceEvent2.op seq o ∷ [] }

unfoldable pub record_get : Key → Recorder → Recorder
record_get key r = record {
  v1 = r.v1 ++ TraceEvent.get key ∷ [];
  v2 = r.v2 ++ TraceEvent2.get key ∷ [];
}

-- The closed vocabulary has no scan.
unfoldable pub record_scan : Bound → Bound → Recorder → Recorder
record_scan lo hi r = record { v1 = r.v1; v2 = r.v2 ++ TraceEvent2.scan lo hi ∷ [] }

unfoldable pub record_flush_decision : NodeId → List ℕ → ℕ → Recorder → Recorder
record_flush_decision node child_occupancies chosen r = record {
  v1 = r.v1 ++ TraceEvent.flush_decision node child_occupancies chosen ∷ [];
  v2 = r.v2 ++ TraceEvent2.flush_decision node child_occupancies chosen ∷ [];
}

-- `replay`: the operations of a trace of the closed vocabulary, in order.
module _ {E : Type 0} (engine : KvEngine E) where
  unfoldable pub replay_from : E → List TraceEvent → Option E
  replay_from e [] = some e
  replay_from e (TraceEvent.op seq (OpKind.insert key value) ∷ events) =
      elim (engine.insert key value e) [ none ↦ none | some e' ↦ replay_from e' events ]
  replay_from e (TraceEvent.get key ∷ events) = replay_from e events
  replay_from e (TraceEvent.flush_decision node occupancies chosen ∷ events) = replay_from e events

  unfoldable pub replay : Params → List TraceEvent → Option E
  unfolding replay_from
  replay params events = elim (engine.new params) [ none ↦ none | some e ↦ replay_from e events ]

  -- The call that a recorded operation stands for.
  unfoldable pub perform : OpKind2 → E → Option E
  perform (OpKind2.insert key value) e = engine.insert key value e
  perform (OpKind2.delete key) e = engine.delete key e
  perform (OpKind2.upsert key o) e = engine.upsert key o e

  -- `replay2`: the operations of a complete trace, in order.
  unfoldable pub replay2_from : E → List TraceEvent2 → Option E
  unfolding perform
  replay2_from e [] = some e
  replay2_from e (TraceEvent2.op seq o ∷ events) = elim (perform o e) [
    | none ↦ none
    | some e' ↦ replay2_from e' events
  ]
  replay2_from e (TraceEvent2.get key ∷ events) = replay2_from e events
  replay2_from e (TraceEvent2.scan lo hi ∷ events) = replay2_from e events
  replay2_from e (TraceEvent2.flush_decision node occupancies chosen ∷ events) =
      replay2_from e events

  unfoldable pub replay2 : Params → List TraceEvent2 → Option E
  unfolding replay2_from
  replay2 params events = elim (engine.new params) [ none ↦ none | some e ↦ replay2_from e events ]
