-- ===== src/Examples/Mirror.antt =====
-- The same writes on the disk engine and on a tree in memory: a split, a flush and a removal.
use beetree.Prelude.{
  ℕ, zero, suc, ◌≡◌, refl, some, none, List, [], ◌∷◌, get_elem?, true, arith, Option,
}
use mathlib.Core.Path.{ap}
use beetree.Engine.{Params}
use beetree.Message.{add}
use beetree.Node
use beetree.Policy.{greedy}
use beetree.Trace
use beetree.Tree.Arena.{BeTree}
use beetree.Vfs.{FaultyState}
use beetree.Vfs.Counting.{faulty}
use beetree.Disk.{DiskEngine, DiskResult, NodeSlot, Resident}
use beetree.Disk.Mirror.Relation.{IsMirror, Reaches}
use beetree.Disk.Mirror.Pick.{IsBlind}
use beetree.Disk.Mirror.Runs.{Write, insert, delete, upsert, disk_run, tree_run, disk_run-tree_run}
use beetree.Examples.Codec.{numbers}
use beetree.Examples.Disk.{engine}

abbrev params : Params
params = record { fanout = 2; buffer_capacity = 1; leaf_capacity = 1 }

abbrev pub small_engine : DiskEngine FaultyState (Unit {0})
small_engine = record engine { params = params }

abbrev small_tree : BeTree (Unit {0})
small_tree = record {
  params = params;
  nodes = Node.leaf [] ∷ [];
  dirty = true ∷ [];
  root = 0;
  next_seq = 3;
  ops_since_commit = 3;
  policy = tt;
  trace = Trace.default;
}

abbrev writes : List Write
writes =
    insert (1 ∷ []) (7 ∷ [])
    ∷ insert (2 ∷ []) (8 ∷ [])
    ∷ delete (1 ∷ [])
    ∷ upsert (2 ∷ []) (add 1)
    ∷ []

abbrev pub engine_after :
    Option (DiskResult (Unit {0}) × DiskEngine FaultyState (Unit {0}))
    → DiskEngine FaultyState (Unit {0})
engine_after none = engine
engine_after (some (done, s)) = s

abbrev finished : DiskEngine FaultyState (Unit {0})
finished = engine_after (disk_run faulty numbers greedy 9 9 writes small_engine)

ran : disk_run faulty numbers greedy 9 9 writes small_engine ≡ some (DiskResult.ok tt, finished)
unfolding disk_run beetree.Disk.Write.try_insert beetree.Disk.Write.try_delete
    beetree.Disk.Write.try_upsert beetree.Disk.Load.ensure_loaded beetree.Disk.Cache.touch
    beetree.Disk.Arena.loaded_mut beetree.Disk.Arena.put_node beetree.Disk.Arena.loaded
    beetree.Disk.Arena.release_slot beetree.Tree.Root.at_root beetree.Disk.Split.split_if_needed
    beetree.Disk.Split.integrate_splits beetree.Tree.Split.hang_splits Node.apply_to_leaf
    Node.coalesce_into Node.route beetree.BTreeMap.insert beetree.BTreeMap.remove
    beetree.BTreeMap.get beetree.BTreeMap.split_off beetree.BTreeMap.below beetree.BTreeMap.append
    beetree.Key.cmp Node.partition_sizes beetree.Tree.Split.pieces_of beetree.Disk.Arena.alloc_dirty
    beetree.Disk.Cascade.flush_with beetree.Disk.Flush.buffer_len beetree.Disk.Flush.settle
    beetree.Disk.Flush.pick_and_extract beetree.Disk.Flush.apply_batch
    beetree.Disk.Flush.remove_child beetree.Message.coalesce beetree.Policy.pick
    beetree.Tree.Flush.tally beetree.Tree.Flush.extract beetree.Tree.Flush.deliver_leaf
    beetree.Tree.Flush.deliver_buffer beetree.Tree.Flush.drop_pivot beetree.Tree.Flush.position
    beetree.Tree.Arena.remove_at beetree.Disk.Arena.is_dirty beetree.Message.apply
ran = refl

node_in : Option NodeSlot → Option Node.Node
node_in (some (NodeSlot.loaded_slot r)) = some r.node
node_in other = none

small-IsMirror : IsMirror small_tree small_engine
unfolding node_in
small-IsMirror = record {
  same = record { count = refl; held = held; in_memory = in_memory };
  dirties = refl;
  unbounded = refl;
  params = refl;
  positive = omega arith;
  root = refl;
  next_seq = refl;
  ops = refl;
  policy = refl;
  trace = refl;
}
  where
    held :
        (id : Node.NodeId) (r : Resident)
        → get_elem? small_engine.slots id ≡ some (NodeSlot.loaded_slot r)
        → get_elem? small_tree.nodes id ≡ some r.node
    held zero r e = ap node_in e
    held (suc n) r e = cc

    in_memory :
        (id offset : ℕ) → get_elem? small_engine.slots id ≡ some (NodeSlot.on_disk offset) → ⊥
    in_memory zero offset e = cc
    in_memory (suc n) offset e = cc

greedy-IsBlind : IsBlind greedy
greedy-IsBlind p ctx flags = refl

disk_run-tree_run_example : Reaches (tree_run greedy 9 writes small_tree) finished
disk_run-tree_run_example =
    disk_run-tree_run faulty numbers greedy greedy-IsBlind 9 9 writes small_tree small_engine
      finished small-IsMirror ran
