-- ===== src/Examples/Records.antt =====
-- Records read from a file, and a commit of a dirty root above a dirty node above a clean one.
use beetree.Prelude.{
  ◌-◌, ◌≢◌, AllOf, ℕ, ◌≡◌, ◌⊎◌, refl, some, List, [], ◌∷◌, ◌++◌, length, arith, some_inj, Distinct,
}
use beetree.Bytes.{le_bytes, to_le_bytes, wrapping_add}
use beetree.U64Map
use beetree.Node
use beetree.Node.{NodeId}
use beetree.Vfs.{FaultyState, Fate}
use beetree.Vfs.Faulty.{from_image, crash_image_at, write_all_at, write_at, sync, apply_window}
use beetree.Vfs.Crash.{start}
use beetree.Vfs.Counting.{faulty}
use beetree.Format.{DiskNode, Superblock, superblock_slot_size, encode_slot, encode_node}
use beetree.Disk.{DiskEngine, DiskResult, NodeSlot, Resident, corrupt_node}
use beetree.Disk.Arena.{loaded}
use beetree.Disk.Cache.{enforce_budget}
use beetree.Disk.Load.{read_record}
use beetree.Disk.Load.Records.{IsRecord, read_record-IsRecord}
use beetree.Disk.Load.RoundTrip.{read_record-record_bytes}
use beetree.Disk.Commit.{Batch, serialize, empty_batch, resolve_offset, record_bytes}
use beetree.Disk.Commit.Stored.{AreStored}
use beetree.Disk.Commit.Serialized.{serialize-AreStored}
use beetree.Disk.Publish.{publish}
use beetree.Disk.Recovery.{recover}
use beetree.Disk.Recovery.Written.{HoldsCommitted, IsSound}
use beetree.Disk.Recovery.Readable.{AreRead, publish-read_record}
use beetree.Examples.Codec.{numbers, numbers-IsCodec, put_node, put_superblock, sum}
use beetree.Examples.Disk.{engine, first, dirty_root, state_after, engine-HoldsCommitted}

read_record-record_bytes_example :
    read_record faulty numbers 8192 engine ≡ some (DiskResult.ok (DiskNode.leaf [], 1))
unfolding encode_node put_node from_image encode_slot put_superblock to_le_bytes le_bytes
read_record-record_bytes_example =
    read_record-record_bytes numbers engine 8192 (DiskNode.leaf []) (1 ∷ []) numbers-IsCodec refl
      (omega arith) refl (omega arith) (omega arith) (omega arith) (omega arith)

-- An offset inside the record, where no record starts.
read_record-IsRecord_example :
    (read_record faulty numbers 8193 engine ≡ some (DiskResult.err (corrupt_node 8193)))
    ⊎ ((node : DiskNode) × (len : ℕ) × (read_record faulty numbers 8193 engine
          ≡ some (DiskResult.ok (node, len)))
        × IsRecord numbers engine.vfs.view engine.watermark 8193 node len)
unfolding from_image encode_slot put_superblock to_le_bytes le_bytes
read_record-IsRecord_example = read_record-IsRecord numbers engine (omega arith) (omega arith) 8193

-- The root has a dirty child, whose child stands on disk.
abbrev above : NodeId → Resident
above child = record dirty_root { node = Node.internal [] (child ∷ []) [] }

abbrev grown_engine : DiskEngine FaultyState (Unit {0})
grown_engine = record engine {
  slots =
      NodeSlot.loaded_slot (above 1) ∷ NodeSlot.loaded_slot (above 2) ∷ NodeSlot.on_disk 8192 ∷ [];
}

-- The records: of node 1 first, which points at the leaf, and then of the root, which points at it.
abbrev payload_of : ℕ → List ℕ
payload_of offset = 2 ∷ to_le_bytes offset

abbrev two_records : Batch
two_records = record {
  buf = record_bytes numbers (payload_of 8192) ++ record_bytes numbers (payload_of 8201);
  assigned = (0, 8218) ∷ (1, 8201) ∷ [];
  record_lens = (0, 17) ∷ (1, 17) ∷ [];
}

made :
    serialize numbers (1 ∷ 0 ∷ []) 8201 empty_batch grown_engine ≡ some (DiskResult.ok two_records)
unfolding serialize loaded put_node le_bytes to_le_bytes U64Map.insert U64Map.get wrapping_add sum
    resolve_offset
made = refl

-- Each node stands below the one before it.
abbrev parent : NodeId → NodeId
parent id = id - 1

abbrev IsBelow : NodeId → List NodeId → Type 0
IsBelow id children =
    Distinct children × AllOf (λ child. (parent child ≡ id) × (child ≢ 0)) children

distinct : Distinct {A = ℕ} (1 ∷ 0 ∷ [])
distinct = (((λ e. cc), tt), (tt, tt))

serialize-AreStored_example : AreStored numbers grown_engine 8201 (1 ∷ 0 ∷ []) two_records
unfolding le_bytes to_le_bytes
serialize-AreStored_example =
    serialize-AreStored numbers grown_engine 8201 (1 ∷ 0 ∷ []) two_records distinct made
      (omega arith)

abbrev published : DiskEngine FaultyState (Unit {0})
published = state_after (publish faulty numbers two_records grown_engine)

runs :
    publish faulty numbers two_records grown_engine
    ≡ some (DiskResult.ok (record { nodes_written = 2; bytes_written = 4130 }), published)
unfolding publish le_bytes faulty write_all_at from_image write_at sync apply_window resolve_offset
    U64Map.get encode_slot put_superblock wrapping_add to_le_bytes enforce_budget
runs = refl

grown_engine-HoldsCommitted : HoldsCommitted numbers first 0 superblock_slot_size grown_engine
grown_engine-HoldsCommitted = record {
  device = engine-HoldsCommitted.device;
  generation = refl;
  next_slot = refl;
}

two_records-IsSound : IsSound two_records grown_engine
unfolding resolve_offset U64Map.get le_bytes to_le_bytes
two_records-IsSound = record {
  fits = omega arith;
  counts = omega arith;
  root = λ offset h. (omega (arith, some_inj h), omega (arith, some_inj h));
  fanout = omega arith;
  buffer_capacity = omega arith;
  leaf_capacity = omega arith;
}

publish-read_record_example :
    (new : Superblock) × (img : List ℕ) × (resolve_offset grown_engine.root two_records.assigned
        grown_engine
      ≡ some new.root_offset)
    × (crash_image_at (length published.vfs.log) (Fate.drop ∷ []) published.vfs ≡ some img)
    × (recover numbers img ≡ DiskResult.ok new)
    × AreRead numbers grown_engine (1 ∷ 0 ∷ []) two_records new img (some 64) tt
publish-read_record_example =
    publish-read_record numbers first 0 superblock_slot_size (1 ∷ 0 ∷ []) two_records grown_engine
      published (record { nodes_written = 2; bytes_written = 4130 }) (some 64) tt (Fate.drop ∷ [])
      numbers-IsCodec start grown_engine-HoldsCommitted two_records-IsSound distinct made runs
