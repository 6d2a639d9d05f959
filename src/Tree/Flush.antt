-- ===== src/Tree/Flush.antt =====
-- src/betree.rs: extracting a batch, delivering it, reclaiming emptied children, and the cascade.
pub mod Extraction
pub mod Delivered
pub mod Removal
use beetree.Prelude.{
  ℕ, zero, suc, ◌+◌, ◌-◌, Bool, true, false, ◌||◌, ◌==◌, Option, none, some, List, [], ◌∷◌, ◌++◌,
  length, get_elem?, set, replicate, ltb, leb, if◌then◌else◌, ◌>>=◌,
}
use mathlib.Core.List.{reverse}
use beetree.Key.{Key}
use beetree.BTreeMap.{BTreeMap, below, split_off, append}
use beetree.Message.{Message}
use beetree.Node.{
  NodeId, Node, internal, leaf, LeafEntry, route, Delivery, Outcome, splits, removed, apply_to_leaf,
  coalesce_into,
}
use beetree.Policy.{FlushCtx, FlushPolicy, pick, entry_bytes, count_at}
use beetree.Trace.{record_flush_decision}
use beetree.Tree.Arena.{BeTree, node_at, set_node, mark_dirty, buffer_len, remove_at}
use beetree.Tree.Split.{split_if_needed, integrate_splits}

-- `xs[i] += n`.
unfoldable pub bump : ℕ → ℕ → List ℕ → Option (List ℕ)
bump i n xs = do old ← get_elem? xs i; some (set xs i (old + n))

-- The pending messages of each child, and their bytes.
unfoldable pub tally : List Key → BTreeMap Message → List ℕ → List ℕ → Option (List ℕ × List ℕ)
unfolding bump
tally pivots [] occupancies bytes = some (occupancies, bytes)
tally pivots ((key, message) ∷ buffer) occupancies bytes =
    let child = route pivots key in
    do
      occupancies' ← bump child 1 occupancies
      bytes' ← bump child (entry_bytes key message) bytes
      tally pivots buffer occupancies' bytes'

-- `children.iter().map(|&c| self.dirty[c])`.
unfoldable pub dirty_flags : List Bool → List NodeId → Option (List Bool)
dirty_flags dirty [] = some []
dirty_flags dirty (c ∷ children) = do
  flag ← get_elem? dirty c
  flags ← dirty_flags dirty children
  some (flag ∷ flags)

-- The messages at or above the left pivot of the chosen child, and the rest.
unfoldable pub cut_left :
    List Key → ℕ → BTreeMap Message → Option (BTreeMap Message × BTreeMap Message)
cut_left pivots zero buffer = some (buffer, [])
cut_left pivots (suc i) buffer = do
  pivot ← get_elem? pivots i
  some (split_off pivot buffer, below pivot buffer)

-- What is at or above the right pivot goes back to the buffer.
unfoldable pub cut_right :
    Option Key → BTreeMap Message → BTreeMap Message → BTreeMap Message × BTreeMap Message
cut_right none batch rest = (batch, rest)
cut_right (some hi) batch rest = (below hi batch, append rest (split_off hi batch))

-- The batch of the chosen child, and the buffer that is left.
unfoldable pub extract :
    List Key → ℕ → BTreeMap Message → Option (BTreeMap Message × BTreeMap Message)
unfolding cut_left cut_right
extract pivots chosen buffer = do
  (batch, rest) ← cut_left pivots chosen buffer
  some (cut_right (get_elem? pivots chosen) batch rest)

unfoldable pub deliver_leaf : BTreeMap LeafEntry → BTreeMap Message → BTreeMap LeafEntry
deliver_leaf entries [] = entries
deliver_leaf entries ((key, message) ∷ batch) =
    deliver_leaf (apply_to_leaf entries key message) batch

unfoldable pub deliver_buffer : BTreeMap Message → BTreeMap Message → BTreeMap Message
deliver_buffer buffer [] = buffer
deliver_buffer buffer ((key, message) ∷ batch) =
    deliver_buffer (coalesce_into buffer key message) batch

abbrev pub is_empty {ℓ} : {A : Type ℓ} → List A → Bool
is_empty [] = true
is_empty (x ∷ xs) = false

-- The two lists of a node without its child at an index: the pivot on the left of the child goes
-- with it, or else the one on its right.
unfoldable pub drop_pivot : ℕ → List Key → Option (List Key)
drop_pivot (suc at) pivots = remove_at at pivots
drop_pivot zero [] = some []
drop_pivot zero (p ∷ pivots) = some pivots

unfoldable pub position : NodeId → List NodeId → Option ℕ
position child [] = none
position child (c ∷ children) =
    if c == child then some 0 else (do at ← position child children; some (suc at))

-- What one extraction returns.
pub record Extracted : Type 0 where
  pub chosen : ℕ
  pub child : NodeId
  pub occupancies : List ℕ
  pub batch : BTreeMap Message

module _ {P : Type 0} where
  -- The assertion on the policy's choice, and the extraction itself.
  unfoldable pub extract_chosen :
      NodeId
      → List Key
      → List NodeId
      → BTreeMap Message
      → List ℕ
      → ℕ
      → BeTree P
      → Option (Extracted × BeTree P)
  unfolding extract
  extract_chosen id pivots children buffer occupancies chosen s =
      if ltb 0 (count_at occupancies chosen)
      then (do
        s' ← mark_dirty id s
        (batch, rest) ← extract pivots chosen buffer
        child ← get_elem? children chosen
        some (
          record { chosen = chosen; child = child; occupancies = occupancies; batch = batch },
          set_node id (internal pivots children rest) s',
        ))
      else none

  -- A delivery to the child, and what it did.
  unfoldable pub deliver : NodeId → Node → BTreeMap Message → ℕ → BeTree P → Delivery × BeTree P
  unfolding deliver_leaf deliver_buffer
  deliver child_id (leaf entries) batch threshold s =
      let entries' = deliver_leaf entries batch in
      (Delivery.leaf (is_empty entries'), set_node child_id (leaf entries') s)
  deliver child_id (internal pivots children buffer) batch threshold s =
      let buffer' = deliver_buffer buffer batch in
      (
        Delivery.internal (ltb threshold (length buffer')),
        set_node child_id (internal pivots children buffer') s,
      )

  unfoldable pub apply_batch :
      NodeId → BTreeMap Message → ℕ → BeTree P → Option (Delivery × BeTree P)
  apply_batch child_id batch threshold s = do
    s' ← mark_dirty child_id s
    node ← node_at s' child_id
    some (deliver child_id node batch threshold s')

  unfoldable pub remove_child : NodeId → NodeId → BeTree P → Option (BeTree P)
  unfolding drop_pivot position
  remove_child parent child s = do
    s' ← mark_dirty parent s
    node ← node_at s' parent
    elim node [
      | leaf entries ↦ none
      | internal pivots children buffer ↦ (do
        at ← position child children
        children' ← remove_at at children
        pivots' ← drop_pivot at pivots
        some (set_node parent (internal pivots' children' buffer) s'))
    ]

  -- A flushed node's word to its parent.
  unfoldable pub settle : NodeId → BeTree P → Option (Outcome × BeTree P)
  settle id s = elim (node_at s id) [
    | some (internal pivots [] buffer) ↦ some (removed, s)
    | some other ↦ (do (promoted, s') ← split_if_needed id s; some (splits promoted, s'))
    | none ↦ none
  ]

  -- Does a buffer of the subtree hold messages? A round of fuel for each node.
  unfoldable pub has_messages_loop : ℕ → List NodeId → BeTree P → Option Bool
  has_messages_loop f [] s = some false
  has_messages_loop zero (n ∷ stack) s = none
  has_messages_loop (suc f) (n ∷ stack) s = elim (node_at s n) [
    | none ↦ none
    | some (leaf entries) ↦ has_messages_loop f stack s
    | some (internal pivots children []) ↦ has_messages_loop f (reverse children ++ stack) s
    | some (internal pivots children (m ∷ buffer)) ↦ some true
  ]

  unfoldable pub subtree_has_messages : NodeId → BeTree P → Option Bool
  unfolding has_messages_loop
  subtree_has_messages id s = has_messages_loop (length s.nodes) (id ∷ []) s

  -- The first child whose subtree holds messages.
  unfoldable pub find_buffered : List NodeId → BeTree P → Option (Option NodeId)
  find_buffered [] s = some none
  find_buffered (c ∷ children) s =
      let rest = find_buffered children s in
      do held ← subtree_has_messages c s; if held then some (some c) else rest

-- `pick_and_extract`, with the policy's choice function.
module _ {P : Type 0} (choose : FlushPolicy P) where
  -- The choice: by the policy from a fresh context, or by the greedy rule.
  unfoldable pub choose_child :
      NodeId
      → ℕ
      → Bool
      → List NodeId
      → BTreeMap Message
      → List ℕ
      → List ℕ
      → BeTree P
      → Option (ℕ × BeTree P)
  unfolding dirty_flags
  choose_child id depth false children buffer occupancies bytes s = some (pick occupancies, s)
  choose_child id depth true children buffer occupancies bytes s = do
    flags ← dirty_flags s.dirty children
    let ctx : FlushCtx = record {
      node = id;
      depth = depth;
      child_pending = occupancies;
      child_pending_bytes = bytes;
      child_dirty = flags;
      buffer_total = length buffer;
      ops_since_commit = s.ops_since_commit;
    }
    let (chosen, policy') = choose s.policy ctx
    some (chosen, record s { policy = policy' })

  unfoldable pub pick_and_extract : NodeId → ℕ → Bool → BeTree P → Option (Extracted × BeTree P)
  unfolding tally choose_child extract_chosen
  pick_and_extract id depth policy_mode s = do
    node ← node_at s id
    elim node [
      | leaf entries ↦ none
      | internal pivots children buffer ↦ (do
        let zeros = replicate (length children) 0
        (occupancies, bytes) ← tally pivots buffer zeros zeros
        (chosen, s') ← choose_child id depth policy_mode children buffer occupancies bytes s
        extract_chosen id pivots children buffer occupancies chosen s')
    ]
