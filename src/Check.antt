-- ===== src/Check.antt =====
-- src/check.rs: the invariant checker, a walk with a stack of frames.
pub mod Violation
pub mod Nodes
pub mod Valid
pub mod Overlay
pub mod Steps
pub mod Depth
pub mod Walked
pub mod Subtrees
pub mod Sound
pub mod Passes
pub mod Reports
pub mod Through
pub mod Complete
pub mod Sources
pub mod Spine
pub mod Trees
use beetree.Prelude.{
  ℕ, zero, suc, ◌+◌, ◌-◌, Bool, true, false, not, ◌&&◌, Option, none, some, List, [], ◌∷◌, length,
  get_elem?, map, min, ltb, leb, ◌==◌, if◌then◌else◌, ◌>>=◌,
}
use beetree.Bytes.{u64_mod}
use beetree.Key.{Key, key_lt, key_le}
use beetree.BTreeMap
use beetree.BTreeMap.{BTreeMap}
use beetree.BTreeMap.Lookup.{or_else}
use beetree.Message
use beetree.Message.{Message}
use beetree.Node.{
  NodeId, Node, internal, leaf, LeafEntry, Bound, included, excluded, unbounded, range,
}
use beetree.Engine.{Params}
use Violation.{CapacityKind, InvariantViolation}
use Nodes.{
  NodeSource, in_range, leaf_seqs, buffer_seqs, check_fresh, check_leaf, check_internal,
  check_order,
}

pub record LeafDepths : Type 0 where
  pub shallowest : ℕ
  pub deepest : ℕ

-- `Result<A, InvariantViolation>`.
pub data Checked (A : Type 0) : Type 0 where
  passed : A → Checked A
  failed : InvariantViolation → Checked A

-- A unit of pending work.
pub data Frame : Type 0 where
  enter : (id : NodeId) (lower upper : Option Key) (depth : ℕ) (overlay : BTreeMap ℕ) → Frame
  undo : (entries : List (Key × Option ℕ)) → Frame

-- The messages of the overlay enter the map of the newest sequence numbers above; what each of
-- them replaced, in the order of the overlay.
unfoldable pub apply_overlay : BTreeMap ℕ → BTreeMap ℕ → BTreeMap ℕ × List (Key × Option ℕ)
apply_overlay [] above = (above, [])
apply_overlay ((key, seq) ∷ overlay) above =
    let rest = apply_overlay overlay (BTreeMap.insert key seq above) in
    (rest.0, (key, BTreeMap.get key above) ∷ rest.1)

unfoldable pub put_back : Key → Option ℕ → BTreeMap ℕ → BTreeMap ℕ
put_back key none above = BTreeMap.remove key above
put_back key (some seq) above = BTreeMap.insert key seq above

-- The entries of an `Undo` frame, the last one first.
unfoldable pub restore : List (Key × Option ℕ) → BTreeMap ℕ → BTreeMap ℕ
unfolding put_back
restore [] above = above
restore ((key, previous) ∷ entries) above = put_back key previous (restore entries above)

-- The bounds of child `i`; its left pivot panics out of range.
unfoldable pub child_lower : List Key → Option Key → ℕ → Option (Option Key)
child_lower pivots lower zero = some lower
child_lower pivots lower (suc i) = do p ← get_elem? pivots i; some (some p)

abbrev pub child_upper : List Key → Option Key → ℕ → Option Key
child_upper pivots upper i = or_else (get_elem? pivots i) upper

abbrev pub lower_bound : Option Key → Bound
lower_bound none = unbounded
lower_bound (some lo) = included lo

abbrev pub upper_bound : Option Key → Bound
upper_bound none = unbounded
upper_bound (some hi) = excluded hi

-- `BTreeMap::range` panics where the range starts after its end.
abbrev pub starts_after : Option Key → Option Key → Bool
starts_after none upper = false
starts_after (some lo) none = false
starts_after (some lo) (some hi) = key_lt hi lo

-- The buffer's messages for a child.
unfoldable pub child_overlay : Option Key → Option Key → BTreeMap Message → Option (BTreeMap ℕ)
unfolding range
child_overlay lower upper buffer =
    if starts_after lower upper
    then none
    else some (buffer_seqs (range (lower_bound lower) (upper_bound upper) buffer))

-- The children from index `i` on: each goes on top of the stack.
unfoldable pub push_children :
    List Key
    → BTreeMap Message
    → Option Key
    → Option Key
    → ℕ
    → ℕ
    → List NodeId
    → List Frame
    → Option (List Frame)
unfolding child_lower child_overlay
push_children pivots buffer lower upper depth i [] stack = some stack
push_children pivots buffer lower upper depth i (child ∷ children) stack = do
  lo ← child_lower pivots lower i
  let hi = child_upper pivots upper i
  overlay ← child_overlay lo hi buffer
  push_children pivots buffer lower upper depth (suc i) children
      (enter child lo hi (depth + 1) overlay ∷ stack)

abbrev pub note_leaf : ℕ → LeafDepths → LeafDepths
note_leaf depth depths = record {
  shallowest = min depths.shallowest depth;
  deepest = if ltb depths.deepest depth then depth else depths.deepest;
}

-- The loop of `check_tree`, with a round of fuel for each frame and one for the empty stack.
unfoldable pub walk :
    ℕ → NodeSource → List Frame → BTreeMap ℕ → LeafDepths → Option (Checked LeafDepths)
unfolding apply_overlay restore check_leaf check_internal push_children
walk zero src stack above depths = none
walk (suc f) src [] above depths = some (passed depths)
walk (suc f) src (undo entries ∷ stack) above depths =
    walk f src stack (restore entries above) depths
walk (suc f) src (enter id lower upper depth overlay ∷ stack) above depths = do
  let applied = apply_overlay overlay above
  let rest = undo applied.1 ∷ stack
  node ← src.node id
  elim node [
    | leaf entries ↦ elim (check_leaf src id lower upper applied.0 entries) [
      | some violation ↦ some (failed violation)
      | none ↦ walk f src rest applied.0 (note_leaf depth depths)
    ]
    | internal pivots children buffer ↦
        elim (check_internal src id lower upper applied.0 pivots children buffer) [
          | some violation ↦ some (failed violation)
          | none ↦ (do
            stack' ← push_children pivots buffer lower upper depth 0 children rest
            walk f src stack' applied.0 depths)
        ]
  ]

unfoldable pub check_tree : ℕ → NodeSource → Option (Checked LeafDepths)
unfolding walk
check_tree f src =
    walk f src (enter src.root none none 1 [] ∷ []) []
      (record { shallowest = u64_mod - 1; deepest = 0 })

-- I6: every leaf at the same depth.
unfoldable pub check_depths : LeafDepths → Option InvariantViolation
check_depths depths =
    if depths.shallowest == depths.deepest
    then none
    else some (InvariantViolation.uneven_leaf_depth depths.shallowest depths.deepest)

-- `check_invariants`: what is found wrong first, if anything.
unfoldable pub check_invariants : ℕ → NodeSource → Option (Option InvariantViolation)
unfolding check_tree check_depths
check_invariants f src = do
  checked ← check_tree f src
  elim checked [
    | passed depths ↦ some (check_depths depths)
    | failed violation ↦ some (some violation)
  ]
