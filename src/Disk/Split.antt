-- ===== src/Disk/Split.antt =====
-- src/disk.rs: splitting a resident node, and hanging the pieces into its parent. `none` is a panic.
use beetree.Prelude.{Option, none, some, List, [], ◌∷◌, length, ltb, if◌then◌else◌, ◌>>=◌}
use beetree.Key.{Key}
use beetree.BTreeMap.{BTreeMap}
use beetree.Message.{Message}
use beetree.Node.{NodeId, Node, internal, leaf, LeafEntry, partition_sizes}
use beetree.Tree.Split.{Piece, pieces_of, split_contents, hang_splits}
use beetree.Disk.{DiskEngine}
use beetree.Disk.Arena.{loaded, loaded_mut, put_node, alloc_dirty}

module _ {D P : Type 0} where
  -- New leaves for the right pieces; the separator is the smallest key of the right piece.
  unfoldable pub alloc_leaves :
      List (BTreeMap LeafEntry) → DiskEngine D P → Option (List (Key × NodeId) × DiskEngine D P)
  alloc_leaves [] s = some ([], s)
  alloc_leaves ([] ∷ pieces) s = none
  alloc_leaves (((pivot, e) ∷ piece) ∷ pieces) s = do
    (new_id, s') ← alloc_dirty (leaf ((pivot, e) ∷ piece)) s
    (promoted, s'') ← alloc_leaves pieces s'
    some ((pivot, new_id) ∷ promoted, s'')

  -- The entries are taken out of the leaf before the first piece comes back.
  unfoldable pub split_leaf :
      NodeId → BTreeMap LeafEntry → DiskEngine D P → Option (List (Key × NodeId) × DiskEngine D P)
  unfolding alloc_leaves
  split_leaf id entries s = do
    (node, s1) ← loaded_mut id s
    s2 ← put_node id (leaf []) s1
    sizes ← partition_sizes (length entries) s.params.leaf_capacity
    (emptied, s3) ← loaded_mut id s2
    elim (pieces_of sizes entries) [
      | [] ↦ none
      | first ∷ pieces ↦ (do s4 ← put_node id (leaf first) s3; alloc_leaves pieces s4)
    ]

  unfoldable pub alloc_pieces :
      List Piece → DiskEngine D P → Option (List (Key × NodeId) × DiskEngine D P)
  alloc_pieces [] s = some ([], s)
  alloc_pieces (piece ∷ pieces) s = do
    (new_id, s') ← alloc_dirty (internal piece.pivots piece.children piece.buffer) s
    (promoted, s'') ← alloc_pieces pieces s'
    some ((piece.pivot, new_id) ∷ promoted, s'')

  -- The contents are taken out of the node before the first piece comes back.
  unfoldable pub split_internal :
      NodeId
      → List Key
      → List NodeId
      → BTreeMap Message
      → DiskEngine D P
      → Option (List (Key × NodeId) × DiskEngine D P)
  unfolding alloc_pieces
  split_internal id pivots children buffer s = do
    (node, s1) ← loaded_mut id s
    s2 ← put_node id (internal [] [] []) s1
    (first, pieces) ← split_contents s.params.fanout pivots children buffer
    (emptied, s3) ← loaded_mut id s2
    s4 ← put_node id first s3
    alloc_pieces pieces s4

  -- The promoted pieces of a node, none where it fits.
  unfoldable pub split_node :
      NodeId → Node → DiskEngine D P → Option (List (Key × NodeId) × DiskEngine D P)
  unfolding split_leaf split_internal
  split_node id (leaf entries) s =
      if ltb s.params.leaf_capacity (length entries) then split_leaf id entries s else some ([], s)
  split_node id (internal pivots children buffer) s =
      if ltb s.params.fanout (length children)
      then split_internal id pivots children buffer s
      else some ([], s)

  unfoldable pub split_if_needed :
      NodeId → DiskEngine D P → Option (List (Key × NodeId) × DiskEngine D P)
  unfolding split_node
  split_if_needed id s = do node ← loaded id s; split_node id node s

  unfoldable pub integrate_splits :
      NodeId → List (Key × NodeId) → DiskEngine D P → Option (DiskEngine D P)
  integrate_splits id [] s = some s
  integrate_splits id (first ∷ promoted) s = do
    (node, s') ← loaded_mut id s
    elim node [
      | leaf entries ↦ none
      | internal pivots children buffer ↦ (do
        (pivots', children') ← hang_splits (first ∷ promoted) pivots children
        put_node id (internal pivots' children' buffer) s')
    ]
