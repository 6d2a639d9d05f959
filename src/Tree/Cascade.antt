-- ===== src/Tree/Cascade.antt =====
-- src/betree.rs: `flush_with`, the cascade of flushes on an explicit stack, round by round.
use beetree.Prelude.{
  ℕ, zero, suc, Bool, true, false, Option, none, some, List, [], ◌∷◌, length, leb, if◌then◌else◌,
  ◌>>=◌,
}
use beetree.Node.{NodeId, internal, leaf, Delivery, Outcome, splits, removed}
use beetree.Policy.{FlushPolicy}
use beetree.Trace.{record_flush_decision}
use beetree.Tree.Arena.{BeTree, node_at, buffer_len}
use beetree.Tree.Split.{split_if_needed, integrate_splits}
use beetree.Tree.Flush.{apply_batch, remove_child, settle, find_buffered, pick_and_extract}

-- What one round of the cascade leads to: another round with this stack, top first, or the end.
pub data Progress (P : Type 0) : Type 0 where
  again : List NodeId → BeTree P → Progress P
  done : Outcome → BeTree P → Progress P

module _ {P : Type 0} where
  -- The outcome of a node goes to its parent, the next on the stack, or to the caller.
  unfoldable pub hand_over : NodeId → List NodeId → Outcome → BeTree P → Option (Progress P)
  hand_over top [] outcome s = some (done outcome s)
  hand_over top (parent ∷ rest) (splits promoted) s = do
    s' ← integrate_splits parent promoted s
    some (again (parent ∷ rest) s')
  hand_over top (parent ∷ rest) removed s = do
    s' ← remove_child parent top s
    some (again (parent ∷ rest) s')

  -- The node fits: it settles.
  unfoldable pub finish : NodeId → List NodeId → BeTree P → Option (Progress P)
  unfolding hand_over
  finish top rest s = do (outcome, s') ← settle top s; hand_over top rest outcome s'

  -- Drain mode: the first child whose subtree still holds messages.
  unfoldable pub buffered_child : NodeId → BeTree P → Option (Option NodeId)
  buffered_child id s = do
    node ← node_at s id
    elim node [
      | leaf entries ↦ some none
      | internal pivots children buffer ↦ find_buffered children s
    ]

  -- The buffer is within the threshold.
  unfoldable pub rest_round : ℕ → NodeId → List NodeId → BeTree P → Option (Progress P)
  unfolding finish buffered_child
  rest_round (suc threshold) top rest s = finish top rest s
  rest_round zero top rest s = elim (buffered_child top s) [
    | none ↦ none
    | some none ↦ finish top rest s
    | some (some child) ↦ some (again (child ∷ top ∷ rest) s)
  ]

  -- What a delivery asks of the flushing node.
  unfoldable pub after_delivery :
      NodeId → List NodeId → NodeId → Delivery → BeTree P → Option (Progress P)
  after_delivery top rest child (Delivery.internal true) s = some (again (child ∷ top ∷ rest) s)
  after_delivery top rest child (Delivery.leaf true) s = do
    s' ← remove_child top child s
    some (again (top ∷ rest) s')
  after_delivery top rest child other s = do
    (promoted, s') ← split_if_needed child s
    s'' ← integrate_splits top promoted s'
    some (again (top ∷ rest) s'')

  -- `self.trace.flush_decision(..)` where the flush is traced.
  unfoldable pub note_decision : Bool → NodeId → List ℕ → ℕ → BeTree P → BeTree P
  note_decision true node occupancies chosen s = record s {
    trace = record_flush_decision node occupancies chosen s.trace;
  }
  note_decision false node occupancies chosen s = s

module _ {P : Type 0} (choose : FlushPolicy P) where
  -- The buffer is over the threshold: one batch goes down.
  unfoldable pub flush_round : ℕ → Bool → NodeId → List NodeId → BeTree P → Option (Progress P)
  unfolding after_delivery note_decision
  flush_round threshold trace_flushes top rest s = do
    (x, s') ← pick_and_extract choose top (length rest) trace_flushes s
    let noted = note_decision trace_flushes top x.occupancies x.chosen s'
    (delivery, s'') ← apply_batch x.child x.batch threshold noted
    after_delivery top rest x.child delivery s''

  unfoldable pub round : ℕ → Bool → List NodeId → BeTree P → Option (Progress P)
  unfolding rest_round flush_round
  round threshold trace_flushes [] s = none
  round threshold trace_flushes (top ∷ rest) s = do
    len ← buffer_len top s
    if leb len threshold
        then rest_round threshold top rest s
        else flush_round threshold trace_flushes top rest s

  unfoldable pub flush_loop : ℕ → ℕ → Bool → List NodeId → BeTree P → Option (Outcome × BeTree P)
  unfolding round
  flush_loop zero threshold trace_flushes flushing s = none
  flush_loop (suc f) threshold trace_flushes flushing s =
      elim (round threshold trace_flushes flushing s) [
        | none ↦ none
        | some (again flushing' s') ↦ flush_loop f threshold trace_flushes flushing' s'
        | some (done outcome s') ↦ some (outcome, s')
      ]

  unfoldable pub flush_with : ℕ → NodeId → ℕ → Bool → BeTree P → Option (Outcome × BeTree P)
  unfolding flush_loop
  flush_with fuel id threshold trace_flushes s = flush_loop fuel threshold trace_flushes (id ∷ []) s
