-- ===== src/Disk.antt =====
-- src/disk.rs: the state of the disk engine, its errors, and the sizes of nodes.
pub mod Cache
pub mod Arena
pub mod Load
pub mod Commit
pub mod Publish
pub mod Get
pub mod Poison
pub mod Full
pub mod Split
pub mod Flush
pub mod Cascade
pub mod Write
pub mod Scan
pub mod Mirror
pub mod Open
pub mod Recovery
use beetree.Prelude.{ℕ, ◌+◌, ◌*◌, ◌%◌, Bool, Option, List, [], ◌∷◌, length}
use beetree.Bytes.{u64_mod}
use beetree.Key.{Key}
use beetree.BTreeMap.{BTreeMap}
use beetree.Message.{Message, put, delete, upsert}
use beetree.Node.{NodeId, Node, internal, leaf, LeafEntry}
use beetree.Engine.{Params}
use beetree.Trace.{Recorder}
use beetree.U64Map.{U64Map}

-- The reason of a corruption is a text, and is left out.
pub data DiskError : Type 0 where
  io : DiskError
  corrupt_node : (offset : ℕ) → DiskError
  no_valid_superblock : DiskError
  unsupported_version : (found : ℕ) → DiskError
  not_empty : (len : ℕ) → DiskError
  node_too_large : (bytes : ℕ) → DiskError
  poisoned_engine : DiskError

pub data DiskResult (A : Type 0) : Type 0 where
  ok : A → DiskResult A
  err : DiskError → DiskResult A

pub record CommitStats : Type 0 where
  pub nodes_written : ℕ
  pub bytes_written : ℕ

pub record Resident : Type 0 where
  pub node : Node
  pub dirty : Bool
  pub disk_offset : Option ℕ
  pub bytes : ℕ
  pub last_tick : ℕ

pub data NodeSlot : Type 0 where
  loaded_slot : Resident → NodeSlot
  on_disk : (offset : ℕ) → NodeSlot
  freed : NodeSlot

pub record CacheStats : Type 0 where
  pub hits : ℕ
  pub misses : ℕ
  pub evictions : ℕ
  pub overcommit_events : ℕ
  pub resident_bytes : ℕ

pub record NodeCache : Type 0 where
  pub budget : Option ℕ
  pub bytes : ℕ
  pub resident : ℕ
  pub tick : ℕ
  pub lru : List (NodeId × ℕ)
  pub hits : ℕ
  pub misses : ℕ
  pub evictions : ℕ
  pub overcommit_events : ℕ

-- `D` is the device behind the file system, `P` the state of the flush policy.
pub record DiskEngine (D P : Type 0) : Type 0 where
  pub params : Params
  pub vfs : D
  pub slots : List NodeSlot
  pub root : NodeId
  pub next_seq : ℕ
  pub next_generation : ℕ
  pub watermark : ℕ
  pub poisoned : Bool
  pub cache : NodeCache
  pub offsets : U64Map NodeId
  pub ops_since_commit : ℕ
  pub policy : P
  pub trace : Recorder

abbrev pub no_cache : NodeCache
no_cache = record {
  budget = Option.none;
  bytes = 0;
  resident = 0;
  tick = 0;
  lru = [];
  hits = 0;
  misses = 0;
  evictions = 0;
  overcommit_events = 0;
}

-- What the entries of a leaf, the pivots and the messages of an internal node add up to.
unfoldable pub entries_bytes : BTreeMap LeafEntry → ℕ
entries_bytes [] = 0
entries_bytes ((k, e) ∷ entries) = 24 + length k + length e.value + entries_bytes entries

unfoldable pub pivots_bytes : List Key → ℕ
pivots_bytes [] = 0
pivots_bytes (p ∷ pivots) = 8 + length p + pivots_bytes pivots

unfoldable pub message_size : Message → ℕ
message_size (put seq value) = 20 + length value
message_size (delete seq) = 12
message_size (upsert seq op) = 24

unfoldable pub buffer_bytes : BTreeMap Message → ℕ
unfolding message_size
buffer_bytes [] = 0
buffer_bytes ((k, m) ∷ buffer) = 12 + length k + message_size m + buffer_bytes buffer

-- The sums wrap at 2 ^ 64.
unfoldable pub est_bytes : Node → ℕ
unfolding entries_bytes pivots_bytes buffer_bytes
est_bytes (leaf entries) = (16 + entries_bytes entries) % u64_mod
est_bytes (internal pivots children buffer) =
    (28 + pivots_bytes pivots + 8 * length children + buffer_bytes buffer) % u64_mod
