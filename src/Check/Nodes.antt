-- ===== src/Check/Nodes.antt =====
-- src/check.rs: what the checker demands of one node.
use beetree.Prelude.{
  ℕ, ◌+◌, Bool, true, not, ◌&&◌, Option, none, some, List, [], ◌∷◌, length, map, ltb, leb, ◌==◌,
  if◌then◌else◌,
}
use beetree.Key.{Key, key_lt, key_le}
use beetree.BTreeMap
use beetree.BTreeMap.{BTreeMap}
use beetree.BTreeMap.Lookup.{or_else}
use beetree.Message
use beetree.Message.{Message}
use beetree.Node.{NodeId, Node, LeafEntry}
use beetree.Engine.{Params}
use beetree.Check.Violation.{CapacityKind, InvariantViolation}

-- How the checker finds nodes. `none` is a panic: the id is not resident.
pub record NodeSource : Type 0 where
  pub root : NodeId
  pub params : Params
  pub node : NodeId → Option Node

-- `None` bounds are -inf and +inf.
unfoldable pub in_range : Key → Option Key → Option Key → Bool
in_range key none none = true
in_range key none (some hi) = key_lt key hi
in_range key (some lo) none = key_le lo key
in_range key (some lo) (some hi) = key_le lo key && key_lt key hi

-- The keys of a node with their sequence numbers.
abbrev pub leaf_seqs : BTreeMap LeafEntry → BTreeMap ℕ
leaf_seqs entries = map (λ e. (e.0, (e.1).seq)) entries

abbrev pub buffer_seqs : BTreeMap Message → BTreeMap ℕ
buffer_seqs buffer = map (λ e. (e.0, Message.seq e.1)) buffer

-- I3 for one key: `none` is a pass.
unfoldable pub check_fresh : Key → ℕ → Option ℕ → Option InvariantViolation
check_fresh key seq none = none
check_fresh key seq (some above) =
    if leb above seq then some (InvariantViolation.stale_ancestor key above seq) else none

-- I1 and I3 for the keys of a node, in order.
unfoldable pub check_keys :
    NodeId → Option Key → Option Key → BTreeMap ℕ → BTreeMap ℕ → Option InvariantViolation
unfolding in_range check_fresh
check_keys id lower upper above [] = none
check_keys id lower upper above ((key, seq) ∷ keys) =
    let rest = check_keys id lower upper above keys in
    if in_range key lower upper
    then or_else (check_fresh key seq (BTreeMap.get key above)) rest
    else some (InvariantViolation.key_outside_owned_range id key)

-- I2: the pivots from index `i` on, `p` being the one before them.
unfoldable pub check_order : NodeId → ℕ → Key → List Key → Option InvariantViolation
check_order id i p [] = none
check_order id i p (q ∷ pivots) =
    let rest = check_order id (i + 1) q pivots in
    if key_le q p then some (InvariantViolation.pivots_out_of_order id i) else rest

unfoldable pub check_pivot_order : NodeId → List Key → Option InvariantViolation
unfolding check_order
check_pivot_order id [] = none
check_pivot_order id (p ∷ pivots) = check_order id 1 p pivots

unfoldable pub check_pivot_range :
    NodeId → Option Key → Option Key → List Key → Option InvariantViolation
unfolding in_range
check_pivot_range id lower upper [] = none
check_pivot_range id lower upper (pivot ∷ pivots) =
    let rest = check_pivot_range id lower upper pivots in
    if in_range pivot lower upper
    then rest
    else some (InvariantViolation.key_outside_owned_range id pivot)

unfoldable pub check_capacity : NodeId → CapacityKind → ℕ → ℕ → Option InvariantViolation
check_capacity id kind occupancy limit =
    if ltb limit occupancy
    then some (InvariantViolation.over_capacity id kind occupancy limit)
    else none

unfoldable pub check_leaf :
    NodeSource
    → NodeId
    → Option Key
    → Option Key
    → BTreeMap ℕ
    → BTreeMap LeafEntry
    → Option InvariantViolation
unfolding check_capacity check_keys
check_leaf src id lower upper above entries =
    or_else (check_capacity id CapacityKind.leaf (length entries) src.params.leaf_capacity) (
      if length entries == 0 && not (id == src.root)
      then some (InvariantViolation.empty_non_root_leaf id)
      else check_keys id lower upper above (leaf_seqs entries))

unfoldable pub check_internal :
    NodeSource
    → NodeId
    → Option Key
    → Option Key
    → BTreeMap ℕ
    → List Key
    → List NodeId
    → BTreeMap Message
    → Option InvariantViolation
unfolding check_pivot_order check_capacity check_pivot_range check_keys
check_internal src id lower upper above pivots children buffer =
    or_else (check_pivot_order id pivots) (
      if length children == length pivots + 1
      then or_else (check_capacity id CapacityKind.fanout (length children) src.params.fanout) (
          or_else (check_capacity id CapacityKind.buffer (length buffer) src.params.buffer_capacity)
            (or_else (check_pivot_range id lower upper pivots)
              (check_keys id lower upper above (buffer_seqs buffer))))
      else some (InvariantViolation.pivot_child_mismatch id (length pivots) (length children)))
