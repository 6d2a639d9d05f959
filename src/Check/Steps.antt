-- ===== src/Check/Steps.antt =====
-- One round of the checker's walk, by what it finds at the top of the stack.
use beetree.Prelude.{
  ℕ, suc, ◌≡◌, sym, ◌∙◌, Option, none, some, List, ◌∷◌, arith, inl, inr, Option-cases,
}
use beetree.Key.{Key}
use beetree.BTreeMap.{BTreeMap}
use beetree.Message.{Message}
use beetree.Node.{NodeId, Node, LeafEntry, internal, leaf}
use beetree.Check.{
  LeafDepths, Checked, passed, failed, Frame, enter, undo, apply_overlay, push_children, note_leaf,
  walk,
}
use beetree.Check.Violation.{InvariantViolation}
use beetree.Check.Nodes.{NodeSource, check_leaf, check_internal}

refused :
    {v : InvariantViolation} {d : LeafDepths}
    → Path (Option (Checked LeafDepths)) (some (failed v)) (some (passed d))
    → ⊥
refused e = cc

no_panic : {d : LeafDepths} → Path (Option (Checked LeafDepths)) none (some (passed d)) → ⊥
no_panic e = cc

module _ (f : ℕ) (src : NodeSource) (id : NodeId) (lower upper : Option Key) (depth : ℕ)
    (overlay : BTreeMap ℕ) (stack : List Frame) (above : BTreeMap ℕ) (depths : LeafDepths) where
  abbrev here : Option (Checked LeafDepths)
  here = walk (suc f) src (enter id lower upper depth overlay ∷ stack) above depths

  abbrev pub overlaid : BTreeMap ℕ
  overlaid = (apply_overlay overlay above).0

  abbrev pub undo_frame : Frame
  undo_frame = undo (apply_overlay overlay above).1

  -- What an accepted round at a node has found.
  pub data Visited (final : LeafDepths) : Type 0 where
    at_leaf :
        (entries : BTreeMap LeafEntry)
        → src.node id ≡ some (leaf entries)
        → check_leaf src id lower upper overlaid entries ≡ none
        → walk f src (undo_frame ∷ stack) overlaid (note_leaf depth depths) ≡ some (passed final)
        → Visited final
    at_internal :
        (pivots : List Key) (children : List NodeId) (buffer : BTreeMap Message)
        (pushed : List Frame)
        → src.node id ≡ some (internal pivots children buffer)
        → check_internal src id lower upper overlaid pivots children buffer ≡ none
        → push_children pivots buffer lower upper depth 0 children (undo_frame ∷ stack)
          ≡ some pushed
        → walk f src pushed overlaid depths ≡ some (passed final)
        → Visited final

  walk_absent : src.node id ≡ none → here ≡ none
  unfolding walk
  walk_absent e = rw e

  walk-leaf_failed :
      (entries : BTreeMap LeafEntry) (v : InvariantViolation)
      → src.node id ≡ some (leaf entries)
      → check_leaf src id lower upper overlaid entries ≡ some v
      → here ≡ some (failed v)
  unfolding walk
  walk-leaf_failed entries v e c = ground arith

  pub walk-leaf :
      (entries : BTreeMap LeafEntry)
      → src.node id ≡ some (leaf entries)
      → check_leaf src id lower upper overlaid entries ≡ none
      → here ≡ walk f src (undo_frame ∷ stack) overlaid (note_leaf depth depths)
  unfolding walk
  walk-leaf entries e c = ground arith

  walk-internal_failed :
      (pivots : List Key) (children : List NodeId) (buffer : BTreeMap Message)
      (v : InvariantViolation)
      → src.node id ≡ some (internal pivots children buffer)
      → check_internal src id lower upper overlaid pivots children buffer ≡ some v
      → here ≡ some (failed v)
  unfolding walk
  walk-internal_failed pivots children buffer v e c = ground arith

  walk-internal_panics :
      (pivots : List Key) (children : List NodeId) (buffer : BTreeMap Message)
      → src.node id ≡ some (internal pivots children buffer)
      → check_internal src id lower upper overlaid pivots children buffer ≡ none
      → push_children pivots buffer lower upper depth 0 children (undo_frame ∷ stack) ≡ none
      → here ≡ none
  unfolding walk
  walk-internal_panics pivots children buffer e c p = ground arith

  pub walk-internal :
      (pivots : List Key) (children : List NodeId) (buffer : BTreeMap Message) (pushed : List Frame)
      → src.node id ≡ some (internal pivots children buffer)
      → check_internal src id lower upper overlaid pivots children buffer ≡ none
      → push_children pivots buffer lower upper depth 0 children (undo_frame ∷ stack) ≡ some pushed
      → here ≡ walk f src pushed overlaid depths
  unfolding walk
  walk-internal pivots children buffer pushed e c p = ground arith

  module _ {final : LeafDepths} (accepted : here ≡ some (passed final)) where
    reach_leaf : (entries : BTreeMap LeafEntry) → src.node id ≡ some (leaf entries) → Visited final
    reach_leaf entries e = elim (Option-cases (check_leaf src id lower upper overlaid entries)) [
      | inl c ↦ at_leaf entries e c (sym (walk-leaf entries e c) ∙ accepted)
      | inr (v, c) ↦ absurd (refused (sym (walk-leaf_failed entries v e c) ∙ accepted))
    ]

    reach_pushed :
        (pivots : List Key) (children : List NodeId) (buffer : BTreeMap Message)
        → src.node id ≡ some (internal pivots children buffer)
        → check_internal src id lower upper overlaid pivots children buffer ≡ none
        → Visited final
    reach_pushed pivots children buffer e c =
        elim (Option-cases
          (push_children pivots buffer lower upper depth 0 children (undo_frame ∷ stack))) [
            | inl p ↦
                absurd
                  (no_panic (sym (walk-internal_panics pivots children buffer e c p) ∙ accepted))
            | inr (pushed, p) ↦
                at_internal pivots children buffer pushed e c p
                  (sym (walk-internal pivots children buffer pushed e c p) ∙ accepted)
          ]

    reach_internal :
        (pivots : List Key) (children : List NodeId) (buffer : BTreeMap Message)
        → src.node id ≡ some (internal pivots children buffer)
        → Visited final
    reach_internal pivots children buffer e =
        elim (Option-cases (check_internal src id lower upper overlaid pivots children buffer)) [
          | inl c ↦ reach_pushed pivots children buffer e c
          | inr (v, c) ↦
              absurd (refused (sym (walk-internal_failed pivots children buffer v e c) ∙ accepted))
        ]

    reach_node : (node : Node) → src.node id ≡ some node → Visited final
    reach_node (leaf entries) e = reach_leaf entries e
    reach_node (internal pivots children buffer) e = reach_internal pivots children buffer e

    pub visited : Visited final
    visited = elim (Option-cases (src.node id)) [
      | inl e ↦ absurd (no_panic (sym (walk_absent e) ∙ accepted))
      | inr (node, e) ↦ reach_node node e
    ]
