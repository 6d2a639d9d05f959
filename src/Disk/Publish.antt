-- ===== src/Disk/Publish.antt =====
-- src/disk.rs: `commit`. `publish_data` and `publish_root` are the writes and syncs of the device,
-- `adopt` is the change of the state in memory.
use beetree.Prelude.{
  ℕ, suc, ◌%◌, true, false, ◌==◌, Option, none, some, List, [], ◌∷◌, length, get_elem?, set,
  if◌then◌else◌, ◌>>=◌,
}
use beetree.Bytes.{wrapping_add, wrapping_sub}
use beetree.Node.{NodeId}
use beetree.U64Map
use beetree.U64Map.{U64Map}
use beetree.Vfs.Counting.{Vfs}
use beetree.Format.{
  Codec, Superblock, encode_slot, superblock_slot_size, magic_bytes, current_version,
}
use beetree.Disk.{
  DiskEngine, io, poisoned_engine, DiskResult, loaded_slot, on_disk, freed, CommitStats, Resident,
  NodeSlot,
}
use beetree.Disk.Cache.{enforce_budget}
use beetree.Disk.Arena.{is_dirty, record_of}
use beetree.Disk.Load.{from_io}
use beetree.Disk.Commit.{Batch, empty_batch, collect, resolve_offset, serialize}

-- `SUPERBLOCK_SLOTS[generation % 2]`.
abbrev pub slot_of : ℕ → ℕ
slot_of generation = if generation % 2 == 0 then 0 else superblock_slot_size

module _ {D : Type 0} (vfs : Vfs D) where
  unfoldable pub write_bytes : ℕ → List ℕ → D → Option (DiskResult (Unit {0}) × D)
  write_bytes off bytes d = do
    (answer, d') ← vfs.write_all_at off bytes d
    result ← from_io (some answer)
    some (result, d')

  unfoldable pub write_data : ℕ → List ℕ → D → Option (DiskResult (Unit {0}) × D)
  unfolding write_bytes
  write_data base [] d = some (DiskResult.ok tt, d)
  write_data base (b ∷ buf) d = write_bytes base (b ∷ buf) d

  unfoldable pub sync_device : D → Option (DiskResult (Unit {0}) × D)
  sync_device d = do (answer, d') ← vfs.sync d; result ← from_io (some answer); some (result, d')

-- The next step on a device, where the last one succeeded.
abbrev pub on_device :
    {D : Type 0}
    → Option (DiskResult (Unit {0}) × D)
    → (D → Option (DiskResult (Unit {0}) × D))
    → Option (DiskResult (Unit {0}) × D)
on_device none f = none
on_device (some (DiskResult.err e, d)) f = some (DiskResult.err e, d)
on_device (some (DiskResult.ok a, d)) f = f d

module _ {D : Type 0} (vfs : Vfs D) where
  -- The data, if any, and its sync.
  unfoldable pub publish_data : ℕ → List ℕ → D → Option (DiskResult (Unit {0}) × D)
  unfolding write_data sync_device
  publish_data base buf d = on_device (write_data vfs base buf d) (sync_device vfs)

  -- The bytes of the superblock, unless its encoding fails, and the second sync.
  unfoldable pub publish_root : ℕ → Option (List ℕ) → D → Option (DiskResult (Unit {0}) × D)
  unfolding write_bytes sync_device
  publish_root slot none d = some (DiskResult.err io, d)
  publish_root slot (some bytes) d = on_device (write_bytes vfs slot bytes d) (sync_device vfs)

module _ {D P : Type 0} where
  -- A node that was written: it is clean, and its new record is the one that the engine knows.
  abbrev pub cleaned : NodeId → ℕ → ℕ → Resident → DiskEngine D P → DiskEngine D P
  cleaned id offset exact r s = record s {
    slots =
        set s.slots id
          (loaded_slot (record r { dirty = false; disk_offset = some offset; bytes = exact }));
    cache = record s.cache { bytes = wrapping_add (wrapping_sub s.cache.bytes r.bytes) exact };
    offsets = U64Map.insert offset id (record_of r s.offsets);
  }

  abbrev pub clean_slot :
      NodeId → ℕ → U64Map ℕ → DiskEngine D P → NodeSlot → Option (DiskEngine D P)
  clean_slot id offset record_lens s (on_disk o) = none
  clean_slot id offset record_lens s freed = none
  clean_slot id offset record_lens s (loaded_slot r) = do
    exact ← U64Map.get id record_lens
    some (cleaned id offset exact r s)

  unfoldable pub clean : NodeId → ℕ → U64Map ℕ → DiskEngine D P → Option (DiskEngine D P)
  clean id offset record_lens s = do
    slot ← get_elem? s.slots id
    clean_slot id offset record_lens s slot

  unfoldable pub clean_all : U64Map ℕ → U64Map ℕ → DiskEngine D P → Option (DiskEngine D P)
  unfolding clean
  clean_all [] record_lens s = some s
  clean_all ((id, offset) ∷ assigned) record_lens s = do
    s' ← clean id offset record_lens s
    clean_all assigned record_lens s'

  -- The new generation is durable.
  unfoldable pub adopt : Batch → DiskEngine D P → Option (DiskResult CommitStats × DiskEngine D P)
  unfolding clean_all
  adopt batch s = do
    s' ← clean_all batch.assigned batch.record_lens (record s {
      watermark = wrapping_add s.watermark (length batch.buf);
      next_generation = wrapping_add s.next_generation 1;
    })
    s'' ← enforce_budget [] none s'
    let stats : CommitStats = record {
      nodes_written = length batch.assigned;
      bytes_written = wrapping_add (length batch.buf) superblock_slot_size;
    }
    some (DiskResult.ok stats, record s'' { ops_since_commit = 0 })

  unfoldable pub superblock_of : Batch → ℕ → DiskEngine D P → Superblock
  superblock_of batch root_offset s = record {
    magic = magic_bytes;
    format_version = current_version;
    params = s.params;
    last_seq = s.next_seq;
    generation = s.next_generation;
    root_offset = root_offset;
    watermark = wrapping_add s.watermark (length batch.buf);
  }

  -- What the device answered is the answer of the commit, unless all went well.
  abbrev pub unless_failed :
      Option (DiskResult (Unit {0}) × D)
      → DiskEngine D P
      → (DiskEngine D P → Option (DiskResult CommitStats × DiskEngine D P))
      → Option (DiskResult CommitStats × DiskEngine D P)
  unless_failed none s f = none
  unless_failed (some (DiskResult.err e, d)) s f = some (DiskResult.err e, record s { vfs = d })
  unless_failed (some (DiskResult.ok a, d)) s f = f (record s { vfs = d })

  unfoldable pub dirty_nodes : DiskEngine D P → Option (List NodeId)
  dirty_nodes s = do
    dirty ← is_dirty s.root s
    if dirty then collect (suc (suc (length s.slots))) (s.root ∷ []) [] s else some []

module _ {D P : Type 0} (vfs : Vfs D) (c : Codec) where
  unfoldable pub publish : Batch → DiskEngine D P → Option (DiskResult CommitStats × DiskEngine D P)
  unfolding publish_data publish_root adopt superblock_of
  publish batch s = unless_failed (publish_data vfs s.watermark batch.buf s.vfs) s λ s1. (do
    root_offset ← resolve_offset s.root batch.assigned s1
    let sb = superblock_of batch root_offset s1
    unless_failed (publish_root vfs (slot_of s.next_generation) (encode_slot c sb) s1.vfs) s1
        (adopt batch))

  unfoldable pub commit_inner : DiskEngine D P → Option (DiskResult CommitStats × DiskEngine D P)
  unfolding publish dirty_nodes
  commit_inner s = do
    pre ← dirty_nodes s
    answer ← serialize c pre s.watermark empty_batch s
    elim answer [
      | DiskResult.err e ↦ some (DiskResult.err e, s)
      | DiskResult.ok batch ↦ publish batch s
    ]

  -- An error poisons the engine.
  abbrev pub poison_on_error :
      DiskResult CommitStats × DiskEngine D P → DiskResult CommitStats × DiskEngine D P
  poison_on_error (DiskResult.ok stats, s) = (DiskResult.ok stats, s)
  poison_on_error (DiskResult.err e, s) = (DiskResult.err e, record s { poisoned = true })

  unfoldable pub commit : DiskEngine D P → Option (DiskResult CommitStats × DiskEngine D P)
  unfolding commit_inner
  commit s =
      if s.poisoned
      then some (DiskResult.err poisoned_engine, s)
      else commit_inner s >>= λ answer. some (poison_on_error answer)
