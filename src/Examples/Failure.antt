-- ===== src/Examples/Failure.antt =====
-- A second commit whose last sync fails, and leaves a torn superblock.
use beetree.Prelude.{◌≡◌, ◌⊎◌, refl, sym, inl, true, some, [], ◌∷◌, arith}
use mathlib.Core.Path.{subst}
use beetree.Bytes.{le_bytes, to_le_bytes, from_le_bytes, wrapping_add}
use beetree.U64Map
use beetree.Vfs.{FaultyState, Fate}
use beetree.Vfs.Faulty.{from_image, fail_nth_sync, write_all_at, write_at, sync, apply_window}
use beetree.Vfs.Crash.{start, after_arm}
use beetree.Vfs.Counting.{faulty}
use beetree.Format.{invalid, encode_slot, decode_slot, superblock_slot_size}
use beetree.Disk.{DiskEngine, DiskResult, io, poisoned_engine}
use beetree.Disk.Arena.{is_dirty, loaded}
use beetree.Disk.Commit.{collect, serialize, resolve_offset}
use beetree.Disk.Publish.{publish, superblock_of, commit}
use beetree.Disk.Poison.{commit-poisoned}
use beetree.Disk.Recovery.{slot_status}
use beetree.Disk.Recovery.Atomic.{IsOlder}
use beetree.Disk.Recovery.Written.{HoldsCommitted, IsSound, CrashesTo}
use beetree.Disk.Recovery.Aborted.{publish-lost}
use beetree.Examples.Codec.{numbers, numbers-IsCodec, put_node, put_superblock, sum}
use beetree.Examples.Disk.{first, file, engine, batch, state_after, active, other, batch-IsSound}

-- The second sync fails, and of the superblock the first hundred bytes became durable.
abbrev failing : DiskEngine FaultyState (Unit {0})
failing = record engine { vfs = fail_nth_sync 1 (Fate.tear 100 ∷ []) (from_image file) }

abbrev lost : DiskEngine FaultyState (Unit {0})
lost = state_after (publish faulty numbers batch failing)

failing-HoldsCommitted : HoldsCommitted numbers first 0 superblock_slot_size failing
unfolding from_image fail_nth_sync encode_slot put_superblock to_le_bytes
failing-HoldsCommitted = record {
  device = record {
    slots = inl (refl, refl);
    active = active;
    older = subst (IsOlder first) (sym other) tt;
    within = omega arith;
    start_lt = omega arith;
    long = omega arith;
    spared = λ i l. tt;
  };
  generation = refl;
  next_slot = refl;
}

failing-IsSound : IsSound batch failing
unfolding fail_nth_sync from_image resolve_offset
failing-IsSound = record {
  fits = batch-IsSound.fits;
  counts = batch-IsSound.counts;
  root = batch-IsSound.root;
  fanout = batch-IsSound.fanout;
  buffer_capacity = batch-IsSound.buffer_capacity;
  leaf_capacity = batch-IsSound.leaf_capacity;
}

lost_run : publish faulty numbers batch failing ≡ some (DiskResult.err io, lost)
unfolding publish le_bytes faulty write_all_at from_image fail_nth_sync write_at sync apply_window
    resolve_offset U64Map.get encode_slot put_superblock wrapping_add to_le_bytes
lost_run = refl

torn : slot_status numbers lost.vfs.durable superblock_slot_size ≡ invalid
unfolding publish le_bytes faulty write_all_at from_image fail_nth_sync write_at sync apply_window
    resolve_offset U64Map.get encode_slot put_superblock wrapping_add to_le_bytes decode_slot sum
    from_le_bytes
torn = refl

publish-lost_example :
    CrashesTo numbers first (Fate.drop ∷ []) lost.vfs
    ⊎ CrashesTo numbers (superblock_of batch 8201 failing) (Fate.drop ∷ []) lost.vfs
unfolding resolve_offset U64Map.get
publish-lost_example =
    publish-lost numbers first 0 superblock_slot_size batch failing lost io 8201 (Fate.drop ∷ [])
      numbers-IsCodec (after_arm 1 (Fate.tear 100 ∷ []) start) failing-HoldsCommitted
      failing-IsSound refl (inl (subst (IsOlder first) (sym torn) tt)) lost_run

-- A whole commit whose first sync fails.
abbrev refused : DiskEngine FaultyState (Unit {0})
refused = record engine { vfs = fail_nth_sync 0 [] (from_image file) }

abbrev poisoned : DiskEngine FaultyState (Unit {0})
poisoned = state_after (commit faulty numbers refused)

commit-poisoned_example :
    (poisoned.poisoned ≡ true)
    × (commit faulty numbers poisoned ≡ some (DiskResult.err poisoned_engine, poisoned))
unfolding commit is_dirty collect loaded serialize put_node le_bytes faulty write_all_at
    fail_nth_sync from_image write_at sync apply_window U64Map.get U64Map.insert encode_slot
    put_superblock to_le_bytes wrapping_add
commit-poisoned_example = commit-poisoned faulty numbers refused poisoned io refl
