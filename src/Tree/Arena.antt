-- ===== src/Tree/Arena.antt =====
-- src/betree.rs: the state of a tree and its arena of nodes. `none` is a panic, such as an index
-- out of range.
use beetree.Prelude.{
  ℕ, zero, suc, ◌+◌, ◌-◌, Bool, true, ◌&&◌, Option, none, some, List, [], ◌∷◌, ◌++◌, length,
  get_elem?, set, take, drop, leb, if◌then◌else◌, ◌>>=◌,
}
use beetree.Node.{NodeId, Node, internal, leaf}
use beetree.Engine.{Params}
use beetree.Trace.{Recorder}

-- `P` is the state of the flush policy.
pub record BeTree (P : Type 0) : Type 0 where
  pub params : Params
  pub nodes : List Node
  pub dirty : List Bool
  pub root : NodeId
  pub next_seq : ℕ
  pub ops_since_commit : ℕ
  pub policy : P
  pub trace : Recorder

-- `self.nodes[id]`.
abbrev pub node_at : {P : Type 0} → BeTree P → NodeId → Option Node
node_at s id = get_elem? s.nodes id

module _ {P : Type 0} where
  -- A write to `self.nodes[id]`, after the index was read.
  unfoldable pub set_node : NodeId → Node → BeTree P → BeTree P
  set_node id node s = record s { nodes = set s.nodes id node }

  unfoldable pub mark_dirty : NodeId → BeTree P → Option (BeTree P)
  mark_dirty id s = do old ← get_elem? s.dirty id; some (record s { dirty = set s.dirty id true })

  -- The id of the new node, and the tree with it: new nodes are born dirty.
  unfoldable pub alloc : Node → BeTree P → NodeId × BeTree P
  alloc node s =
      (length s.nodes, record s { nodes = s.nodes ++ node ∷ []; dirty = s.dirty ++ true ∷ [] })

  unfoldable pub buffer_len : NodeId → BeTree P → Option ℕ
  buffer_len id s = do
    node ← node_at s id
    elim node [ internal pivots children buffer ↦ some (length buffer) | leaf entries ↦ none ]

  unfoldable pub node_count : BeTree P → ℕ
  node_count s = length s.nodes

  -- `height`: the walk down the first children, a round of fuel for each level.
  unfoldable pub height_loop : ℕ → NodeId → BeTree P → Option ℕ
  height_loop zero id s = none
  height_loop (suc f) id s = do
    node ← node_at s id
    elim node [
      | leaf entries ↦ some 1
      | internal pivots children buffer ↦ elim children [
        | [] ↦ none
        | c ∷ cs ↦ (do h ← height_loop f c s; some (h + 1))
      ]
    ]

  unfoldable pub height : BeTree P → Option ℕ
  unfolding height_loop
  height s = height_loop (length s.nodes) s.root s

module _ {ℓ} {A : Type ℓ} where
  -- `Vec::insert`, which panics past the end.
  unfoldable pub insert_at : ℕ → A → List A → Option (List A)
  insert_at zero a xs = some (a ∷ xs)
  insert_at (suc i) a [] = none
  insert_at (suc i) a (x ∷ xs) = do ys ← insert_at i a xs; some (x ∷ ys)

  -- `Vec::remove`, which panics out of range.
  unfoldable pub remove_at : ℕ → List A → Option (List A)
  remove_at i [] = none
  remove_at zero (x ∷ xs) = some xs
  remove_at (suc i) (x ∷ xs) = do ys ← remove_at i xs; some (x ∷ ys)

  -- `xs[from..to]`, which panics out of range.
  unfoldable pub slice : ℕ → ℕ → List A → Option (List A)
  slice from to xs =
      if leb from to && leb to (length xs) then some (take (to - from) (drop from xs)) else none
