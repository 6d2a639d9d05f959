-- ===== src/Tree/Split.antt =====
-- src/betree.rs: splitting an overfull node, and hanging the pieces into its parent.
pub mod Leaf
pub mod Hang
use beetree.Prelude.{
  ℕ, zero, suc, ◌+◌, ◌-◌, Option, none, some, List, [], ◌∷◌, length, get_elem?, take, drop, ltb,
  if◌then◌else◌, ◌>>=◌,
}
use beetree.Key.{Key, key_lt}
use beetree.BTreeMap.{BTreeMap, below, split_off}
use beetree.Message.{Message}
use beetree.Node.{NodeId, Node, internal, leaf, LeafEntry, partition_point, partition_sizes}
use beetree.Tree.Arena.{BeTree, node_at, set_node, mark_dirty, alloc, insert_at, slice}

-- `iter.by_ref().take(size)` for each size in turn.
unfoldable pub pieces_of {ℓ} : {A : Type ℓ} → List ℕ → List A → List (List A)
pieces_of [] items = []
pieces_of (size ∷ sizes) items = take size items ∷ pieces_of sizes (drop size items)

-- The children range of each piece: its first child, and how many.
unfoldable pub starts_from : ℕ → List ℕ → List (ℕ × ℕ)
starts_from acc [] = []
starts_from acc (size ∷ sizes) = (acc, size) ∷ starts_from (acc + size) sizes

-- A right piece of an internal node: the pivot that moves up, and the piece's contents.
pub record Piece : Type 0 where
  pub pivot : Key
  pub pivots : List Key
  pub children : List NodeId
  pub buffer : BTreeMap Message

-- The right pieces, peeled off the buffer from right to left, and the buffer that is left.
unfoldable pub peel :
    List Key
    → List NodeId
    → List (ℕ × ℕ)
    → BTreeMap Message
    → Option (List Piece × BTreeMap Message)
peel pivots children [] buffer = some ([], buffer)
peel pivots children ((zero, size) ∷ rest) buffer = none
peel pivots children ((suc before, size) ∷ rest) buffer = do
  (pieces, left) ← peel pivots children rest buffer
  pivot ← get_elem? pivots before
  piece_pivots ← slice (suc before) (suc before + size - 1) pivots
  piece_children ← slice (suc before) (suc before + size) children
  let piece : Piece = record {
    pivot = pivot;
    pivots = piece_pivots;
    children = piece_children;
    buffer = split_off pivot left;
  }
  some (piece ∷ pieces, below pivot left)

-- The first piece, which stays in the node, and the right pieces.
unfoldable pub split_contents :
    ℕ → List Key → List NodeId → BTreeMap Message → Option (Node × List Piece)
unfolding peel starts_from
split_contents fanout pivots children buffer = do
  sizes ← partition_sizes (length children) fanout
  elim (starts_from 0 sizes) [
    | [] ↦ none
    | (start, size) ∷ rest ↦ (do
      (pieces, left) ← peel pivots children rest buffer
      first_pivots ← slice 0 (size - 1) pivots
      first_children ← slice 0 size children
      some (internal first_pivots first_children left, pieces))
  ]

module _ {P : Type 0} where
  -- New leaves for the right pieces; the separator is the smallest key of the right piece.
  unfoldable pub alloc_leaves :
      List (BTreeMap LeafEntry) → BeTree P → Option (List (Key × NodeId) × BeTree P)
  unfolding alloc
  alloc_leaves [] s = some ([], s)
  alloc_leaves ([] ∷ pieces) s = none
  alloc_leaves (((pivot, e) ∷ piece) ∷ pieces) s =
      let (new_id, s') = alloc (leaf ((pivot, e) ∷ piece)) s in
      do (promoted, s'') ← alloc_leaves pieces s'; some ((pivot, new_id) ∷ promoted, s'')

  unfoldable pub split_leaf :
      NodeId → BTreeMap LeafEntry → BeTree P → Option (List (Key × NodeId) × BeTree P)
  unfolding pieces_of
  split_leaf id entries s = do
    s' ← mark_dirty id s
    sizes ← partition_sizes (length entries) s.params.leaf_capacity
    elim (pieces_of sizes entries) [
      | [] ↦ none
      | first ∷ pieces ↦ alloc_leaves pieces (set_node id (leaf first) s')
    ]

  unfoldable pub alloc_pieces : List Piece → BeTree P → List (Key × NodeId) × BeTree P
  unfolding alloc
  alloc_pieces [] s = ([], s)
  alloc_pieces (piece ∷ pieces) s =
      let (new_id, s') = alloc (internal piece.pivots piece.children piece.buffer) s in
      let (promoted, s'') = alloc_pieces pieces s' in ((piece.pivot, new_id) ∷ promoted, s'')

  unfoldable pub split_internal :
      NodeId
      → List Key
      → List NodeId
      → BTreeMap Message
      → BeTree P
      → Option (List (Key × NodeId) × BeTree P)
  split_internal id pivots children buffer s = do
    s' ← mark_dirty id s
    (first, pieces) ← split_contents s.params.fanout pivots children buffer
    some (alloc_pieces pieces (set_node id first s'))

  -- The promoted pieces of a node, none where it fits.
  unfoldable pub split_node : NodeId → Node → BeTree P → Option (List (Key × NodeId) × BeTree P)
  split_node id (leaf entries) s =
      if ltb s.params.leaf_capacity (length entries) then split_leaf id entries s else some ([], s)
  split_node id (internal pivots children buffer) s =
      if ltb s.params.fanout (length children)
      then split_internal id pivots children buffer s
      else some ([], s)

  unfoldable pub split_if_needed : NodeId → BeTree P → Option (List (Key × NodeId) × BeTree P)
  unfolding split_node
  split_if_needed id s = do node ← node_at s id; split_node id node s

-- Each promoted piece goes in before the first pivot that is not below its own.
unfoldable pub hang_splits :
    List (Key × NodeId) → List Key → List NodeId → Option (List Key × List NodeId)
hang_splits [] pivots children = some (pivots, children)
hang_splits ((pivot, new_child) ∷ promoted) pivots children =
    let pos = partition_point (λ p. key_lt p pivot) pivots in
    do
      pivots' ← insert_at pos pivot pivots
      children' ← insert_at (pos + 1) new_child children
      hang_splits promoted pivots' children'

module _ {P : Type 0} where
  unfoldable pub integrate_splits : NodeId → List (Key × NodeId) → BeTree P → Option (BeTree P)
  unfolding hang_splits
  integrate_splits id [] s = some s
  integrate_splits id (first ∷ promoted) s = do
    s' ← mark_dirty id s
    node ← node_at s' id
    elim node [
      | leaf entries ↦ none
      | internal pivots children buffer ↦ (do
        (pivots', children') ← hang_splits (first ∷ promoted) pivots children
        some (set_node id (internal pivots' children' buffer) s'))
    ]
