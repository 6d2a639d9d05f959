-- ===== src/Check/Reports.antt =====
-- The checker reports on corrupt nodes and does not panic on them.
use beetree.Prelude.{
  ℕ, suc, ◌+◌, ◌≡◌, ◌≤◌, refl, ◌∙◌, Option, none, some, List, [], ◌∷◌, arith, true, false, length,
  AllOf,
}
use beetree.Key.{Key}
use beetree.BTreeMap.{BTreeMap}
use beetree.Message.{Message}
use beetree.Node.{NodeId}
use beetree.Node.Routing.{AllPivots, IsAscending}
use beetree.Check.{Frame, enter, undo, push_children, starts_after}
use beetree.Check.Nodes.{NodeSource, in_range, check_internal}
use beetree.Check.Valid.{left_of, right_of, check_internal-none}
use beetree.Check.Passes.{child_lower-some, child_in_order, child_overlay_total, push_children_cons}

-- The bounds of a frame are in order.
abbrev pub IsInOrder : Frame → Type 0
IsInOrder (enter id lower upper depth overlay) = starts_after lower upper ≡ false
IsInOrder (undo entries) = Unit

module _ (pivots : List Key) (buffer : BTreeMap Message) (lower upper : Option Key) (depth : ℕ)
    (ascending : IsAscending pivots)
    (within : AllPivots (λ p. in_range p lower upper ≡ true) pivots)
    (in_order : starts_after lower upper ≡ false) where
  pushes :
      (i : ℕ) (children : List NodeId) (stack : List Frame)
      → i + length children ≤ length pivots + 1
      → AllOf IsInOrder stack
      → (pushed : List Frame) × (push_children pivots buffer lower upper depth i children stack
          ≡ some pushed)
        × AllOf IsInOrder pushed
  unfolding push_children
  pushes i [] stack le a = (stack, refl, a)
  pushes i (c ∷ children) stack le a =
      let lo = left_of pivots lower i in
      let hi = right_of pivots upper i in
      let ordered = child_in_order pivots lower upper i ascending within in_order in
      let slice = child_overlay_total lo hi buffer ordered in
      let rest =
        pushes (suc i) children (enter c lo hi (depth + 1) slice.0 ∷ stack) (omega (arith, le))
          (ordered, a) in
      (
        rest.0,
        push_children_cons pivots buffer lower upper depth i c children stack
              (child_lower-some pivots lower i (omega (arith, le))) slice.1
            ∙ rest.1,
        rest.2,
      )

-- On any tree, a corrupt one too: where an internal node passes its checks and its own bounds are in
-- order, its children are queued without a panic, and the bounds of every queued frame are in order.
pub push_children_total :
    (src : NodeSource) (id : NodeId) (lower upper : Option Key) (above : BTreeMap ℕ)
    (pivots : List Key) (children : List NodeId) (buffer : BTreeMap Message) (depth : ℕ)
    (stack : List Frame)
    → check_internal src id lower upper above pivots children buffer ≡ none
    → starts_after lower upper ≡ false
    → AllOf IsInOrder stack
    → (pushed : List Frame) × (push_children pivots buffer lower upper depth 0 children stack
        ≡ some pushed)
      × AllOf IsInOrder pushed
push_children_total src id lower upper above pivots children buffer depth stack passed in_order a =
    let checked = check_internal-none src id lower upper above pivots children buffer passed in
    pushes pivots buffer lower upper depth checked.0 checked.4 in_order 0 children stack
      (omega (arith, checked.1)) a
