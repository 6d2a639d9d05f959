-- ===== src/Disk/Flush.antt =====
-- src/disk.rs: extracting a batch, delivering it to a child that may have to be loaded, and reclaiming
-- emptied children. `visits` is fuel; `none` is a panic, and also means that it ran out.
use mathlib.Core.List.{reverse}
use beetree.Prelude.{
  ℕ, zero, suc, Bool, true, false, Option, none, some, List, [], ◌∷◌, ◌++◌, length, get_elem?,
  replicate, ltb, if◌then◌else◌, ◌>>=◌,
}
use beetree.BTreeMap.{BTreeMap}
use beetree.Message.{Message}
use beetree.Node.{NodeId, internal, leaf, Delivery, Outcome, splits, removed}
use beetree.Policy.{FlushCtx, FlushPolicy, pick, count_at}
use beetree.Tree.Arena.{remove_at}
use beetree.Tree.Flush.{
  tally, extract, Extracted, deliver_leaf, deliver_buffer, is_empty, drop_pivot, position,
}
use beetree.Vfs.Counting.{Vfs}
use beetree.Format.{Codec}
use beetree.Disk.{DiskEngine, DiskResult}
use beetree.Disk.Arena.{is_dirty, loaded, loaded_mut, put_node, release_slot}
use beetree.Disk.Load.{ensure_loaded}
use beetree.Disk.Get.{then_walk}
use beetree.Disk.Split.{split_if_needed}

module _ {D P : Type 0} where
  unfoldable pub buffer_len : NodeId → DiskEngine D P → Option ℕ
  buffer_len id s = do
    node ← loaded id s
    elim node [ internal pivots children buffer ↦ some (length buffer) | leaf entries ↦ none ]

  -- A child that is not resident is clean.
  unfoldable pub dirty_flags : List NodeId → DiskEngine D P → Option (List Bool)
  dirty_flags [] s = some []
  dirty_flags (c ∷ children) s = do
    flag ← is_dirty c s
    flags ← dirty_flags children s
    some (flag ∷ flags)

  -- The assertion on the policy's choice, and the extraction itself.
  unfoldable pub extract_chosen :
      NodeId → List ℕ → ℕ → DiskEngine D P → Option (Extracted × DiskEngine D P)
  extract_chosen id occupancies chosen s =
      if ltb 0 (count_at occupancies chosen)
      then (do
        (node, s') ← loaded_mut id s
        elim node [
          | leaf entries ↦ none
          | internal pivots children buffer ↦ (do
            (batch, rest) ← extract pivots chosen buffer
            child ← get_elem? children chosen
            s'' ← put_node id (internal pivots children rest) s'
            some (
              record { chosen = chosen; child = child; occupancies = occupancies; batch = batch },
              s'',
            ))
        ])
      else none

  -- A delivery to a resident child, and what it did.
  unfoldable pub deliver :
      NodeId → BTreeMap Message → ℕ → DiskEngine D P → Option (Delivery × DiskEngine D P)
  deliver child_id batch threshold s = do
    (node, s') ← loaded_mut child_id s
    elim node [
      | leaf entries ↦ (do
        let entries' = deliver_leaf entries batch
        s'' ← put_node child_id (leaf entries') s'
        some (Delivery.leaf (is_empty entries'), s''))
      | internal pivots children buffer ↦ (do
        let buffer' = deliver_buffer buffer batch
        s'' ← put_node child_id (internal pivots children buffer') s'
        some (Delivery.internal (ltb threshold (length buffer')), s''))
    ]

  unfoldable pub remove_child : NodeId → NodeId → DiskEngine D P → Option (DiskEngine D P)
  remove_child parent child s = do
    (node, s') ← loaded_mut parent s
    elim node [
      | leaf entries ↦ none
      | internal pivots children buffer ↦ (do
        at ← position child children
        children' ← remove_at at children
        pivots' ← drop_pivot at pivots
        s'' ← put_node parent (internal pivots' children' buffer) s'
        release_slot child s'')
    ]

  -- A flushed node's word to its parent.
  unfoldable pub settle : NodeId → DiskEngine D P → Option (Outcome × DiskEngine D P)
  settle id s = elim (loaded id s) [
    | some (internal pivots [] buffer) ↦ some (removed, s)
    | some other ↦ (do (promoted, s') ← split_if_needed id s; some (splits promoted, s'))
    | none ↦ none
  ]

module _ {D P : Type 0} (vfs : Vfs D) (c : Codec) where
  unfoldable pub apply_batch :
      NodeId
      → BTreeMap Message
      → List NodeId
      → ℕ
      → DiskEngine D P
      → Option (DiskResult Delivery × DiskEngine D P)
  unfolding deliver
  apply_batch child_id batch pins threshold s =
      then_walk (ensure_loaded vfs c child_id pins s) λ done s'. (do
        (delivery, s'') ← deliver child_id batch threshold s'
        some (DiskResult.ok delivery, s''))

  -- Does a buffer of the subtrees on the stack, top first, hold messages?
  unfoldable pub has_messages_loop :
      ℕ → List NodeId → List NodeId → DiskEngine D P → Option (DiskResult Bool × DiskEngine D P)
  has_messages_loop zero stack pins s = none
  has_messages_loop (suc visits) [] pins s = some (DiskResult.ok false, s)
  has_messages_loop (suc visits) (n ∷ stack) pins s =
      then_walk (ensure_loaded vfs c n pins s) λ done s'. elim (loaded n s') [
        | none ↦ none
        | some (leaf entries) ↦ has_messages_loop visits stack pins s'
        | some (internal pivots children []) ↦
            has_messages_loop visits (reverse children ++ stack) pins s'
        | some (internal pivots children (m ∷ buffer)) ↦ some (DiskResult.ok true, s')
      ]

  unfoldable pub subtree_has_messages :
      ℕ → NodeId → List NodeId → DiskEngine D P → Option (DiskResult Bool × DiskEngine D P)
  unfolding has_messages_loop
  subtree_has_messages visits id pins s = has_messages_loop visits (id ∷ []) pins s

  -- The first child whose subtree holds messages; the flushing nodes and the child are pinned.
  unfoldable pub find_buffered :
      ℕ
      → List NodeId
      → List NodeId
      → DiskEngine D P
      → Option (DiskResult (Option NodeId) × DiskEngine D P)
  unfolding subtree_has_messages
  find_buffered visits [] flushing s = some (DiskResult.ok none, s)
  find_buffered visits (child ∷ children) flushing s =
      then_walk (subtree_has_messages visits child (child ∷ flushing) s) λ held s'. elim held [
        | true ↦ some (DiskResult.ok (some child), s')
        | false ↦ find_buffered visits children flushing s'
      ]

-- `pick_and_extract`, with the policy's choice function.
module _ {D P : Type 0} (choose : FlushPolicy P) where
  -- The choice: by the policy from a fresh context, or by the greedy rule.
  unfoldable pub choose_child :
      NodeId
      → ℕ
      → Bool
      → List NodeId
      → BTreeMap Message
      → List ℕ
      → List ℕ
      → DiskEngine D P
      → Option (ℕ × DiskEngine D P)
  unfolding dirty_flags
  choose_child id depth false children buffer occupancies bytes s = some (pick occupancies, s)
  choose_child id depth true children buffer occupancies bytes s = do
    flags ← dirty_flags children s
    let ctx : FlushCtx = record {
      node = id;
      depth = depth;
      child_pending = occupancies;
      child_pending_bytes = bytes;
      child_dirty = flags;
      buffer_total = length buffer;
      ops_since_commit = s.ops_since_commit;
    }
    let (chosen, policy') = choose s.policy ctx
    some (chosen, record s { policy = policy' })

  unfoldable pub pick_and_extract :
      NodeId → ℕ → Bool → DiskEngine D P → Option (Extracted × DiskEngine D P)
  unfolding choose_child extract_chosen
  pick_and_extract id depth policy_mode s = do
    node ← loaded id s
    elim node [
      | leaf entries ↦ none
      | internal pivots children buffer ↦ (do
        let zeros = replicate (length children) 0
        (occupancies, bytes) ← tally pivots buffer zeros zeros
        (chosen, s') ← choose_child id depth policy_mode children buffer occupancies bytes s
        extract_chosen id occupancies chosen s')
    ]
