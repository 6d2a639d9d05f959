-- ===== src/Examples/Poison.antt =====
-- A write that meets a corrupt record: the first write fits the buffer of the root, the second one
-- flushes to a child whose offset lies outside the data region.
use beetree.Prelude.{◌≡◌, ◌⊎◌, refl, some, none, true, List, [], ◌∷◌}
use beetree.Message
use beetree.Node
use beetree.Policy.{greedy}
use beetree.Vfs.{FaultyState}
use beetree.Vfs.Counting.{faulty}
use beetree.Disk.{DiskEngine, DiskResult, NodeSlot, corrupt_node}
use beetree.Disk.Mirror.Runs.{Write, insert, disk_run}
use beetree.Disk.Poison.Writes.{IsPrefix, IsRefusing, disk_run-err}
use beetree.Examples.Codec.{numbers}
use beetree.Examples.Mirror.{small_engine, engine_after}

abbrev astray : DiskEngine FaultyState (Unit {0})
astray = record small_engine {
  slots =
      NodeSlot.loaded_slot (record {
        node = Node.internal ((5 ∷ []) ∷ []) (1 ∷ 2 ∷ []) [];
        dirty = true;
        disk_offset = none;
        bytes = 0;
        last_tick = 0;
      })
      ∷ NodeSlot.on_disk 0
      ∷ NodeSlot.on_disk 0
      ∷ [];
}

abbrev two_writes : List Write
two_writes = insert (1 ∷ []) (7 ∷ []) ∷ insert (2 ∷ []) (8 ∷ []) ∷ []

abbrev failed : DiskEngine FaultyState (Unit {0})
failed = engine_after (disk_run faulty numbers greedy 9 9 two_writes astray)

fails :
    disk_run faulty numbers greedy 9 9 two_writes astray
    ≡ some (DiskResult.err (corrupt_node 0), failed)
unfolding disk_run beetree.Disk.Write.try_insert beetree.Disk.Write.try_delete
    beetree.Disk.Write.try_upsert beetree.Disk.Load.ensure_loaded beetree.Disk.Load.read_record
    beetree.Disk.Cache.touch beetree.Disk.Arena.loaded_mut beetree.Disk.Arena.put_node
    beetree.Disk.Arena.loaded beetree.Disk.Arena.release_slot beetree.Tree.Root.at_root
    beetree.Disk.Split.split_if_needed beetree.Disk.Split.integrate_splits
    beetree.Tree.Split.hang_splits Node.apply_to_leaf Node.coalesce_into Node.route
    beetree.BTreeMap.insert beetree.BTreeMap.remove beetree.BTreeMap.get beetree.BTreeMap.split_off
    beetree.BTreeMap.below beetree.BTreeMap.append beetree.Key.cmp Node.partition_sizes
    beetree.Tree.Split.pieces_of beetree.Disk.Arena.alloc_dirty beetree.Disk.Cascade.flush_with
    beetree.Disk.Flush.buffer_len beetree.Disk.Flush.settle beetree.Disk.Flush.pick_and_extract
    beetree.Disk.Flush.apply_batch beetree.Disk.Flush.remove_child beetree.Message.coalesce
    beetree.Policy.pick beetree.Tree.Flush.tally beetree.Tree.Flush.extract
    beetree.Tree.Flush.deliver_leaf beetree.Tree.Flush.deliver_buffer beetree.Tree.Flush.drop_pivot
    beetree.Tree.Flush.position beetree.Tree.Arena.remove_at beetree.Disk.Arena.is_dirty
    beetree.Message.apply
fails = refl

disk_run-err_example :
    IsPrefix faulty numbers greedy 9 9 two_writes astray failed ⊎ IsRefusing faulty numbers failed
disk_run-err_example =
    disk_run-err faulty numbers greedy 9 9 two_writes astray failed (corrupt_node 0) fails
