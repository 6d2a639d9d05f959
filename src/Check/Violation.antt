-- ===== src/Check/Violation.antt =====
-- src/types.rs: what the invariant checker reports.
use beetree.Prelude.{ℕ}
use beetree.Key.{Key}
use beetree.Node.{NodeId}

pub data CapacityKind : Type 0 where
  buffer : CapacityKind
  leaf : CapacityKind
  fanout : CapacityKind

pub data InvariantViolation : Type 0 where
  key_outside_owned_range : (node : NodeId) (key : Key) → InvariantViolation
  pivots_out_of_order : (node : NodeId) (index : ℕ) → InvariantViolation
  pivot_child_mismatch : (node : NodeId) (pivots children : ℕ) → InvariantViolation
  stale_ancestor : (key : Key) (ancestor_seq descendant_seq : ℕ) → InvariantViolation
  uncoalesced_buffer : (node : NodeId) (key : Key) → InvariantViolation
  over_capacity : (node : NodeId) (kind : CapacityKind) (occupancy limit : ℕ) → InvariantViolation
  empty_non_root_leaf : (node : NodeId) → InvariantViolation
  uneven_leaf_depth : (shallowest deepest : ℕ) → InvariantViolation
