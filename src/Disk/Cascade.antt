-- ===== src/Disk/Cascade.antt =====
-- src/disk.rs: `flush_with`, the cascade of flushes on an explicit stack, round by round. The nodes of
-- the stack are pinned against eviction. `visits` and `fuel` are fuel.
use beetree.Prelude.{
  ℕ, zero, suc, Bool, true, false, Option, none, some, List, [], ◌∷◌, length, leb, if◌then◌else◌,
  ◌>>=◌,
}
use beetree.Node.{NodeId, Delivery, Outcome, splits, removed}
use beetree.Policy.{FlushPolicy}
use beetree.Trace.{record_flush_decision}
use beetree.Vfs.Counting.{Vfs}
use beetree.Format.{Codec}
use beetree.Disk.{DiskEngine, DiskResult}
use beetree.Disk.Arena.{loaded}
use beetree.Disk.Load.{with_ok}
use beetree.Disk.Get.{then_walk, children_of}
use beetree.Disk.Split.{split_if_needed, integrate_splits}
use beetree.Disk.Flush.{
  buffer_len, apply_batch, remove_child, settle, find_buffered, pick_and_extract,
}

-- What one round of the cascade leads to: another round with this stack, top first, or the end.
pub data Progress : Type 0 where
  again : List NodeId → Progress
  done : Outcome → Progress

module _ {D P : Type 0} where
  -- The outcome of a node goes to its parent, the next on the stack, or to the caller.
  unfoldable pub hand_over :
      NodeId
      → List NodeId
      → Outcome
      → DiskEngine D P
      → Option (DiskResult Progress × DiskEngine D P)
  hand_over top [] outcome s = some (DiskResult.ok (done outcome), s)
  hand_over top (parent ∷ rest) (splits promoted) s =
      with_ok (again (parent ∷ rest)) (integrate_splits parent promoted s)
  hand_over top (parent ∷ rest) removed s =
      with_ok (again (parent ∷ rest)) (remove_child parent top s)

  -- The node fits: it settles.
  unfoldable pub finish :
      NodeId → List NodeId → DiskEngine D P → Option (DiskResult Progress × DiskEngine D P)
  unfolding hand_over
  finish top rest s = do (outcome, s') ← settle top s; hand_over top rest outcome s'

  -- What a delivery asks of the flushing node.
  unfoldable pub after_delivery :
      NodeId
      → List NodeId
      → NodeId
      → Delivery
      → DiskEngine D P
      → Option (DiskResult Progress × DiskEngine D P)
  after_delivery top rest child (Delivery.internal true) s =
      some (DiskResult.ok (again (child ∷ top ∷ rest)), s)
  after_delivery top rest child (Delivery.leaf true) s =
      with_ok (again (top ∷ rest)) (remove_child top child s)
  after_delivery top rest child other s = do
    (promoted, s') ← split_if_needed child s
    with_ok (again (top ∷ rest)) (integrate_splits top promoted s')

  -- `self.trace.flush_decision(..)` where the flush is traced.
  unfoldable pub note_decision : Bool → NodeId → List ℕ → ℕ → DiskEngine D P → DiskEngine D P
  note_decision true node occupancies chosen s = record s {
    trace = record_flush_decision node occupancies chosen s.trace;
  }
  note_decision false node occupancies chosen s = s

module _ {D P : Type 0} (vfs : Vfs D) (c : Codec) where
  -- The buffer is within the threshold. Drain mode first looks for a child whose subtree holds
  -- messages.
  unfoldable pub rest_round :
      ℕ → ℕ → NodeId → List NodeId → DiskEngine D P → Option (DiskResult Progress × DiskEngine D P)
  unfolding finish
  rest_round visits (suc threshold) top rest s = finish top rest s
  rest_round visits zero top rest s = do
    node ← loaded top s
    then_walk (find_buffered vfs c visits (children_of node) (top ∷ rest) s) λ found s'.
        elim found [
          | none ↦ finish top rest s'
          | some child ↦ some (DiskResult.ok (again (child ∷ top ∷ rest)), s')
        ]

  module _ (choose : FlushPolicy P) where
    -- The buffer is over the threshold: one batch goes down.
    unfoldable pub flush_round :
        ℕ
        → Bool
        → NodeId
        → List NodeId
        → DiskEngine D P
        → Option (DiskResult Progress × DiskEngine D P)
    unfolding after_delivery note_decision
    flush_round threshold trace_flushes top rest s = do
      (x, s') ← pick_and_extract choose top (length rest) trace_flushes s
      let noted = note_decision trace_flushes top x.occupancies x.chosen s'
      then_walk (apply_batch vfs c x.child x.batch (top ∷ rest) threshold noted)
          λ delivery s''. after_delivery top rest x.child delivery s''

    unfoldable pub round :
        ℕ → ℕ → Bool → List NodeId → DiskEngine D P → Option (DiskResult Progress × DiskEngine D P)
    unfolding rest_round flush_round
    round visits threshold trace_flushes [] s = none
    round visits threshold trace_flushes (top ∷ rest) s = do
      len ← buffer_len top s
      if leb len threshold
          then rest_round visits threshold top rest s
          else flush_round threshold trace_flushes top rest s

    unfoldable pub flush_loop :
        ℕ
        → ℕ
        → ℕ
        → Bool
        → List NodeId
        → DiskEngine D P
        → Option (DiskResult Outcome × DiskEngine D P)
    unfolding round
    flush_loop zero visits threshold trace_flushes flushing s = none
    flush_loop (suc fuel) visits threshold trace_flushes flushing s =
        then_walk (round visits threshold trace_flushes flushing s) λ progress s'. elim progress [
          | again flushing' ↦ flush_loop fuel visits threshold trace_flushes flushing' s'
          | done outcome ↦ some (DiskResult.ok outcome, s')
        ]

    unfoldable pub flush_with :
        ℕ → ℕ → NodeId → ℕ → Bool → DiskEngine D P → Option (DiskResult Outcome × DiskEngine D P)
    unfolding flush_loop
    flush_with fuel visits id threshold trace_flushes s =
        flush_loop fuel visits threshold trace_flushes (id ∷ []) s
