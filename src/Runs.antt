-- ===== src/Runs.antt =====
-- A test run of the tree, checked by evaluation.
use beetree.Prelude.{
  ℕ, zero, suc, ◌*◌, ◌%◌, ◌≡◌, refl, Option, none, some, List, [], ◌∷◌, length, ◌>>=◌,
}
use beetree.BTreeMap
use beetree.Message.{Value, add, apply, coalesce, seq}
use beetree.Policy.{greedy, pick, entry_bytes}
use beetree.Node.{
  included, excluded, route, apply_to_leaf, coalesce_into, apply_chain, range_is_empty, clip_lower,
  clip_upper, range, partition_sizes, partition_point,
}
use beetree.Tree.Arena.{
  BeTree, height, set_node, mark_dirty, alloc, buffer_len, insert_at, remove_at, slice,
}
use beetree.Tree.Root
use beetree.Tree.Root.{insert, with_policy, collapse, restore_root_with}
use beetree.Tree.Get.{get}
use beetree.Tree.Scan.{scan}
use beetree.Key.{Key, cmp}
use beetree.Trace.{record_op, record_get, record_scan, record_flush_decision}
use beetree.Tree.Split.{
  pieces_of, starts_from, split_contents, alloc_leaves, split_leaf, alloc_pieces, split_internal,
  split_if_needed, integrate_splits, peel,
}
use beetree.Tree.Flush.{
  apply_batch, remove_child, settle, find_buffered, subtree_has_messages, pick_and_extract, deliver,
}
use beetree.Tree.Cascade.{flush_with}

abbrev key : ℕ → Key
key n = n ∷ []

-- A run through every public operation: 31 inserts, 10 deletes and an upsert under tiny
-- capacities, read back by `get` and `scan`.
fill : ℕ → BeTree (Unit {0}) → Option (BeTree (Unit {0}))
unfolding insert
fill zero s = some s
fill (suc n) s = do s' ← insert greedy 300 (key ((n * 7) % 31)) (n ∷ []) s; fill n s'

erase : ℕ → BeTree (Unit {0}) → Option (BeTree (Unit {0}))
unfolding Root.delete
erase zero s = some s
erase (suc n) s = do s' ← Root.delete greedy 300 (key n) s; erase n s'

answers : Option (ℕ × List (Option Value) × ℕ)
unfolding fill erase with_policy Root.upsert get scan height
answers = do
  s ← with_policy (record { fanout = 2; buffer_capacity = 2; leaf_capacity = 2 }) tt
  s1 ← fill 31 s
  s2 ← erase 10 s1
  s3 ← Root.upsert greedy 300 (key 20) (add 5) s2
  h ← height s3
  (a, s4) ← get (key 14) s3
  (b, s5) ← get (key 3) s4
  (l, s6) ← scan 1000 (included (key 8)) (excluded (key 16)) s5
  some (h, a ∷ b ∷ [], length l)

run_answers : answers ≡ some (6, some (2 ∷ []) ∷ none ∷ [], 6)
unfolding answers cmp BTreeMap.get BTreeMap.insert BTreeMap.remove BTreeMap.below BTreeMap.split_off
    BTreeMap.append BTreeMap.retain apply coalesce seq route apply_to_leaf coalesce_into apply_chain
    range_is_empty clip_lower clip_upper range partition_sizes partition_point pick entry_bytes
    record_op record_get record_scan record_flush_decision set_node mark_dirty alloc buffer_len
    insert_at remove_at slice pieces_of starts_from split_contents alloc_leaves split_leaf
    alloc_pieces split_internal split_if_needed integrate_splits peel apply_batch remove_child
    settle find_buffered subtree_has_messages pick_and_extract flush_with collapse restore_root_with
    deliver
run_answers = refl
