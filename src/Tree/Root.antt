-- ===== src/Tree/Root.antt =====
-- src/betree.rs: settling the root after a write, the public writes, and construction.
use beetree.Prelude.{
  ℕ, zero, suc, ◌+◌, ◌%◌, Bool, true, false, ◌&&◌, Option, none, some, [], ◌∷◌, map, leb,
  if◌then◌else◌, ◌>>=◌,
}
use beetree.Bytes.{u64_mod}
use beetree.Key.{Key}
use beetree.Message.{Value, UpsertOp, Message, put}
use beetree.Node.{Node, internal, leaf, Outcome, splits, removed, apply_to_leaf, coalesce_into}
use beetree.Engine.{Params}
use beetree.Policy.{FlushPolicy}
use beetree.Trace.{OpKind2, record_op, default}
use beetree.Tree.Arena.{BeTree, node_at, set_node, mark_dirty, alloc}
use beetree.Tree.Split.{split_if_needed}
use beetree.Tree.Cascade.{flush_with}

abbrev empty_leaf : Node
empty_leaf = leaf []

module _ {P : Type 0} where
  -- A fresh node becomes the root.
  unfoldable pub new_root : Node → BeTree P → BeTree P
  unfolding alloc
  new_root node s = let (id, s') = alloc node s in record s' { root = id }

  -- Root collapse: a lone child of an empty-buffered root becomes the root.
  unfoldable pub collapse : ℕ → BeTree P → Option (BeTree P)
  collapse zero s = none
  collapse (suc f) s = elim (node_at s s.root) [
    | none ↦ none
    | some (internal pivots (child ∷ []) []) ↦ collapse f (record s { root = child })
    | some other ↦ some s
  ]

-- The message meets the root.
unfoldable pub at_root : Key → Message → Node → Node
at_root key message (leaf entries) = leaf (apply_to_leaf entries key message)
at_root key message (internal pivots children buffer) =
    internal pivots children (coalesce_into buffer key message)

module _ {P : Type 0} (choose : FlushPolicy P) where
  -- The outcome of the root: by a flush, or by a split of a root leaf.
  unfoldable pub root_outcome : ℕ → ℕ → Bool → BeTree P → Option (Outcome × BeTree P)
  root_outcome fuel threshold trace_flushes s = elim (node_at s s.root) [
    | none ↦ none
    | some (internal pivots children buffer) ↦
        flush_with choose fuel s.root threshold trace_flushes s
    | some (leaf entries) ↦ (do
      (promoted, s') ← split_if_needed s.root s
      some (splits promoted, s'))
  ]

  -- The settling loop: until nothing is promoted, or the tree is empty.
  unfoldable pub grow : ℕ → ℕ → Bool → BeTree P → Option (BeTree P)
  unfolding root_outcome new_root
  grow zero threshold trace_flushes s = none
  grow (suc f) threshold trace_flushes s = elim (root_outcome f threshold trace_flushes s) [
    | none ↦ none
    | some (removed, s') ↦ some (new_root empty_leaf s')
    | some (splits [], s') ↦ some s'
    | some (splits (first ∷ promoted), s') ↦
        let pivots = map (λ p. p.0) (first ∷ promoted) in
        let children = s'.root ∷ map (λ p. p.1) (first ∷ promoted) in
        grow f threshold trace_flushes (new_root (internal pivots children []) s')
  ]

  unfoldable pub restore_root_with : ℕ → ℕ → Bool → BeTree P → Option (BeTree P)
  unfolding grow
  restore_root_with fuel threshold trace_flushes s = do
    s' ← grow fuel threshold trace_flushes s
    collapse fuel s'

  unfoldable pub restore_root : ℕ → BeTree P → Option (BeTree P)
  unfolding restore_root_with
  restore_root fuel s = restore_root_with fuel s.params.buffer_capacity true s

  unfoldable pub drain : ℕ → BeTree P → Option (BeTree P)
  unfolding restore_root_with
  drain fuel s = restore_root_with fuel 0 false s

  unfoldable pub apply_root : ℕ → Key → Message → BeTree P → Option (BeTree P)
  unfolding at_root restore_root
  apply_root fuel key message s = do
    s' ← mark_dirty s.root s
    node ← node_at s' s.root
    restore_root fuel (set_node s.root (at_root key message node) s')

-- The counters and the trace of a public write.
unfoldable pub stamp : {P : Type 0} → OpKind2 → BeTree P → ℕ × BeTree P
unfolding record_op
stamp o s =
    let seq = (s.next_seq + 1) % u64_mod in
    (
      seq,
      record s {
        next_seq = seq;
        ops_since_commit = (s.ops_since_commit + 1) % u64_mod;
        trace = record_op seq o s.trace;
      },
    )

-- The public writes.
module _ {P : Type 0} (choose : FlushPolicy P) where
  unfoldable pub insert : ℕ → Key → Value → BeTree P → Option (BeTree P)
  unfolding stamp apply_root
  insert fuel key value s =
      let (seq, s') = stamp (OpKind2.insert key value) s in
      apply_root choose fuel key (put seq value) s'

  unfoldable pub delete : ℕ → Key → BeTree P → Option (BeTree P)
  unfolding stamp apply_root
  delete fuel key s =
      let (seq, s') = stamp (OpKind2.delete key) s in
      apply_root choose fuel key (Message.delete seq) s'

  unfoldable pub upsert : ℕ → Key → UpsertOp → BeTree P → Option (BeTree P)
  unfolding stamp apply_root
  upsert fuel key o s =
      let (seq, s') = stamp (OpKind2.upsert key o) s in
      apply_root choose fuel key (Message.upsert seq o) s'

-- `BeTree::with_policy`: the assertion on the parameters, and the empty tree.
unfoldable pub with_policy : {P : Type 0} → Params → P → Option (BeTree P)
with_policy params policy =
    if leb 2 params.fanout && leb 1 params.buffer_capacity && leb 1 params.leaf_capacity
    then some (record {
      params = params;
      nodes = leaf [] ∷ [];
      dirty = true ∷ [];
      root = 0;
      next_seq = 0;
      ops_since_commit = 0;
      policy = policy;
      trace = default;
    })
    else none
