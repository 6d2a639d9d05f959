-- ===== src/Disk/Open.antt =====
-- src/disk.rs: `create` and `open`, over any file system.
use beetree.Prelude.{
  ℕ, ◌+◌, Bool, true, false, ◌&&◌, Option, none, some, List, [], ◌∷◌, ltb, leb, if◌then◌else◌,
  ◌>>=◌,
}
use beetree.Bytes.{wrapping_add}
use beetree.Node.{Node}
use beetree.Engine.{Params}
use beetree.Trace.{default}
use beetree.Vfs.Counting.{Vfs}
use beetree.Format.{
  Codec, Superblock, SlotStatus, valid, wrong_version, invalid, decode_slot, superblock_slots,
  superblock_slot_size, data_start, params_ok,
}
use beetree.Disk.{
  DiskEngine, no_valid_superblock, unsupported_version, not_empty, DiskResult, loaded_slot, on_disk,
  no_cache, Resident, est_bytes,
}
use beetree.Disk.Cache.{touch}
use beetree.Disk.Load.{and_then, from_io}
use beetree.Disk.Publish.{commit}

-- What the slots that were read so far have shown.
pub record Found : Type 0 where
  pub best : Option Superblock
  pub foreign : Option ℕ

abbrev pub nothing_found : Found
nothing_found = record { best = none; foreign = none }

-- `best.is_none_or(|b| sb.generation > b.generation)`.
abbrev pub is_newer : Option Superblock → Superblock → Bool
is_newer none sb = true
is_newer (some b) sb = ltb b.generation sb.generation

unfoldable pub consider : ℕ → SlotStatus → Found → Found
consider file_len (valid sb) found =
    if leb sb.watermark file_len && is_newer found.best sb
    then record found { best = some sb }
    else found
consider file_len (wrong_version v) found = record found { foreign = some v }
consider file_len invalid found = found

-- The engine that resumes from a superblock, with the root not loaded yet.
unfoldable pub resumed : {D P : Type 0} → D → Option ℕ → P → Superblock → DiskEngine D P
resumed vfs cache_budget policy sb = record {
  params = sb.params;
  vfs = vfs;
  slots = on_disk sb.root_offset ∷ [];
  root = 0;
  next_seq = sb.last_seq;
  next_generation = wrapping_add sb.generation 1;
  watermark = sb.watermark;
  poisoned = false;
  cache = record no_cache { budget = cache_budget };
  offsets = (sb.root_offset, 0) ∷ [];
  ops_since_commit = 0;
  policy = policy;
  trace = default;
}

unfoldable pub first_engine : {D P : Type 0} → D → Params → Option ℕ → P → DiskEngine D P
first_engine vfs params cache_budget policy =
    let root_leaf : Node = Node.leaf [] in
    let bytes = est_bytes root_leaf in
    let root : Resident = record {
      node = root_leaf;
      dirty = true;
      disk_offset = none;
      bytes = bytes;
      last_tick = 0;
    } in
    record {
      params = params;
      vfs = vfs;
      slots = loaded_slot root ∷ [];
      root = 0;
      next_seq = 0;
      next_generation = 0;
      watermark = data_start;
      poisoned = false;
      cache = record no_cache { budget = cache_budget; bytes = bytes; resident = 1 };
      offsets = [];
      ops_since_commit = 0;
      policy = policy;
      trace = default;
    }

-- The superblock to resume from.
unfoldable pub verdict : Found → DiskResult Superblock
verdict found = elim found.foreign [
  | some v ↦ DiskResult.err (unsupported_version v)
  | none ↦ elim found.best [
    | none ↦ DiskResult.err no_valid_superblock
    | some sb ↦ DiskResult.ok sb
  ]
]

module _ {D : Type 0} (vfs : Vfs D) (c : Codec) where
  unfoldable pub read_slots : ℕ → List ℕ → D → Found → Option (DiskResult Found)
  unfolding consider
  read_slots file_len [] d found = some (DiskResult.ok found)
  read_slots file_len (off ∷ offs) d found = elim (ltb file_len (off + superblock_slot_size)) [
    | true ↦ read_slots file_len offs d found
    | false ↦
        and_then (from_io (vfs.read_exact_at off superblock_slot_size d))
          (λ slot. read_slots file_len offs d (consider file_len (decode_slot c slot) found))
  ]

  module _ {P : Type 0} where
    -- The torn tail beyond the committed watermark is dropped.
    unfoldable pub truncate : Option ℕ → P → D → Superblock → Option (DiskResult (DiskEngine D P))
    unfolding resumed
    truncate cache_budget policy d sb = do
      (answer, d') ← vfs.set_len sb.watermark d
      and_then (from_io (some answer))
          (λ done. some (DiskResult.ok (resumed d' cache_budget policy sb)))

    unfoldable pub open_on_with : D → Option ℕ → P → Option (DiskResult (DiskEngine D P))
    unfolding read_slots verdict truncate
    open_on_with d cache_budget policy = and_then (from_io (some (vfs.len d))) λ file_len.
        and_then (read_slots file_len superblock_slots d nothing_found)
          λ found. and_then (some (verdict found)) (truncate cache_budget policy d)

    unfoldable pub first_commit : DiskEngine D P → Option (DiskResult (DiskEngine D P))
    first_commit s = do
      s' ← touch 0 s
      (answer, s'') ← commit vfs c s'
      and_then (some answer) (λ stats. some (DiskResult.ok s''))

    unfoldable pub create_on_with : D → Params → Option ℕ → P → Option (DiskResult (DiskEngine D P))
    unfolding first_engine first_commit params_ok
    create_on_with d params cache_budget policy =
        if params_ok params
        then and_then (from_io (some (vfs.len d))) (λ len.
          if ltb 0 len
          then some (DiskResult.err (not_empty len))
          else first_commit (first_engine d params cache_budget policy))
        else none
