-- ===== src/Trace/Replay.antt =====
-- Replay over traces that are joined.
use beetree.Prelude.{◌≡◌, refl, Option, none, some, List, [], ◌∷◌, ◌++◌, Option-cases, inl, inr}
use beetree.Engine.{KvEngine}
use beetree.Trace.{TraceEvent2, perform, replay2_from}

abbrev pub then_replay : {E : Type 0} → KvEngine E → Option E → List TraceEvent2 → Option E
then_replay engine none events = none
then_replay engine (some e) events = replay2_from engine e events

module _ {E : Type 0} (engine : KvEngine E) where
  pub replay2_from-append :
      (e : E) (xs ys : List TraceEvent2)
      → replay2_from engine e (xs ++ ys) ≡ then_replay engine (replay2_from engine e xs) ys
  unfolding replay2_from
  replay2_from-append e [] ys = refl
  replay2_from-append e (TraceEvent2.op seq o ∷ xs) ys = elim (Option-cases (perform engine o e)) [
    | inl h ↦ rw (h, replay2_from)
    | inr (e', h) ↦ rw (h, replay2_from) (replay2_from-append e' xs ys)
  ]
  replay2_from-append e (TraceEvent2.get key ∷ xs) ys = replay2_from-append e xs ys
  replay2_from-append e (TraceEvent2.scan lo hi ∷ xs) ys = replay2_from-append e xs ys
  replay2_from-append e (TraceEvent2.flush_decision node occupancies chosen ∷ xs) ys =
      replay2_from-append e xs ys
