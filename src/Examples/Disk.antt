-- ===== src/Examples/Disk.antt =====
-- A concrete device of the disk engine, and its second commit.
use beetree.Prelude.{
  ℕ, ◌≡◌, refl, inl, true, false, Option, none, some, List, [], ◌∷◌, ◌++◌, length, replicate, arith,
  sym, some_inj, take,
}
use mathlib.Core.Path.{subst}
use beetree.Bytes.{le_bytes, to_le_bytes, from_le_bytes, wrapping_add, wrapping_sub}
use beetree.U64Map
use beetree.Engine.{default_params}
use beetree.Node.{Node}
use beetree.Trace
use beetree.Vfs.{FaultyState, Fate}
use beetree.Vfs.Faulty.{from_image, write_all_at, write_at, sync, apply_window}
use beetree.Vfs.Crash.{Reachable, start}
use beetree.Vfs.Counting.{faulty}
use beetree.Format.{
  Superblock, valid, invalid, wrong_version, decode_slot, bytes_eq, encode_slot, magic_bytes,
  current_version, superblock_slot_size,
}
use beetree.Disk.{DiskEngine, DiskResult, CommitStats, NodeSlot, Resident, no_cache}
use beetree.Disk.Cache.{enforce_budget, examine, push_tick, stamped, contains}
use beetree.Disk.Cache.Safety.{IsSettled}
use beetree.Disk.Cache.Budget.{enforce_budget-IsSettled, must_stay}
use beetree.Disk.Open.{open_on_with}
use beetree.Format.Slots.{
  IsSane, decode_slot-encode_slot, decode_slot-IsSane, decode_slot-wrong_version,
}
use beetree.Disk.Commit.{Batch, resolve_offset, record_bytes}
use beetree.Disk.Publish.{publish, superblock_of}
use beetree.Disk.Recovery.{slot_status, opened}
use beetree.Disk.Recovery.Answers.{Answers, open_on_with-Answers}
use beetree.Disk.Recovery.Commit.{IsPublished}
use beetree.Disk.Recovery.Atomic.{IsOlder}
use beetree.Disk.Recovery.Written.{HoldsCommitted, IsSound, CrashesTo}
use beetree.Disk.Recovery.Durable.{publish-crash}
use beetree.Examples.Codec.{numbers, numbers-IsCodec, put_superblock, take_superblock, sum}

abbrev pub or_empty : Option (List ℕ) → List ℕ
or_empty none = []
or_empty (some bytes) = bytes

abbrev pub first : Superblock
first = record {
  magic = magic_bytes;
  format_version = current_version;
  params = default_params;
  last_seq = 0;
  generation = 0;
  root_offset = 8192;
  watermark = 8201;
}

abbrev pub empty_leaf : List ℕ
empty_leaf = record_bytes numbers (1 ∷ [])

-- The first generation: its superblock, an empty slot, and the record of an empty leaf.
abbrev pub file : List ℕ
file = or_empty (encode_slot numbers first) ++ (replicate superblock_slot_size 0 ++ empty_leaf)

abbrev pub dirty_root : Resident
dirty_root = record {
  node = Node.leaf [];
  dirty = true;
  disk_offset = some 8192;
  bytes = 16;
  last_tick = 0;
}

abbrev pub engine : DiskEngine FaultyState (Unit {0})
engine = record {
  params = default_params;
  vfs = from_image file;
  slots = NodeSlot.loaded_slot dirty_root ∷ [];
  root = 0;
  next_seq = 3;
  next_generation = 1;
  watermark = 8201;
  poisoned = false;
  cache = no_cache;
  offsets = [];
  ops_since_commit = 3;
  policy = tt;
  trace = Trace.default;
}

abbrev pub batch : Batch
batch = record { buf = empty_leaf; assigned = (0, 8201) ∷ []; record_lens = (0, 9) ∷ [] }

-- The engine after a commit.
abbrev pub state_after :
    Option (DiskResult CommitStats × DiskEngine FaultyState (Unit {0}))
    → DiskEngine FaultyState (Unit {0})
state_after none = engine
state_after (some (answer, s)) = s

abbrev pub committed : DiskEngine FaultyState (Unit {0})
committed = state_after (publish faulty numbers batch engine)

pub active : slot_status numbers file 0 ≡ valid first
unfolding encode_slot put_superblock to_le_bytes decode_slot sum from_le_bytes take_superblock
    bytes_eq
active = refl

pub other : slot_status numbers file superblock_slot_size ≡ invalid
unfolding encode_slot put_superblock to_le_bytes decode_slot sum from_le_bytes
other = refl

pub engine-HoldsCommitted : HoldsCommitted numbers first 0 superblock_slot_size engine
unfolding from_image encode_slot put_superblock to_le_bytes
engine-HoldsCommitted = record {
  device = record {
    slots = inl (refl, refl);
    active = active;
    older = subst (IsOlder first) (sym other) tt;
    within = omega arith;
    start_lt = omega arith;
    long = omega arith;
    spared = λ i l. tt;
  };
  generation = refl;
  next_slot = refl;
}

pub batch-IsSound : IsSound batch engine
unfolding resolve_offset U64Map.get le_bytes
batch-IsSound = record {
  fits = omega arith;
  counts = omega arith;
  root = λ offset h. (omega (arith, some_inj h), omega (arith, some_inj h));
  fanout = omega arith;
  buffer_capacity = omega arith;
  leaf_capacity = omega arith;
}

pub run :
    publish faulty numbers batch engine
    ≡ some (DiskResult.ok (record { nodes_written = 1; bytes_written = 4105 }), committed)
unfolding publish le_bytes faulty write_all_at from_image write_at sync apply_window resolve_offset
    U64Map.get encode_slot put_superblock wrapping_add to_le_bytes enforce_budget
run = refl

-- The second commit, and a crash at any point that applies nothing of what is pending.
publish-crash_example :
    (p : IsPublished numbers batch engine committed) × CrashesTo numbers first
      (Fate.drop ∷ [])
      engine.vfs
    × CrashesTo numbers first (Fate.drop ∷ []) p.written.after_data
    × CrashesTo numbers first (Fate.drop ∷ []) p.written.after_sync
    × CrashesTo numbers
        (superblock_of batch p.written.root_offset engine)
        (Fate.drop ∷ [])
        committed.vfs
    × HoldsCommitted numbers
        (superblock_of batch p.written.root_offset engine)
        superblock_slot_size
        0
        committed
    × Reachable file committed.vfs
publish-crash_example =
    publish-crash numbers first 0 superblock_slot_size batch engine committed
      (record { nodes_written = 1; bytes_written = 4105 }) (Fate.drop ∷ []) numbers-IsCodec start
      engine-HoldsCommitted batch-IsSound run

first_slot : encode_slot numbers first ≡ some (or_empty (encode_slot numbers first))
unfolding encode_slot put_superblock to_le_bytes
first_slot = refl

first-IsSane : IsSane first
first-IsSane = record {
  magic = refl;
  version = refl;
  root_start = omega arith;
  root_end = omega arith;
  fanout = omega arith;
  buffer_capacity = omega arith;
  leaf_capacity = omega arith;
}

decode_slot-encode_slot_example :
    (length (or_empty (encode_slot numbers first)) ≡ superblock_slot_size)
    × (decode_slot numbers (or_empty (encode_slot numbers first)) ≡ valid first)
decode_slot-encode_slot_example =
    decode_slot-encode_slot numbers first (or_empty (encode_slot numbers first)) numbers-IsCodec
      first-IsSane first_slot

-- The bytes of a slot, read from the file.
decode_slot-IsSane_example : IsSane first
unfolding encode_slot put_superblock to_le_bytes
decode_slot-IsSane_example =
    decode_slot-IsSane numbers (take superblock_slot_size file) first active

-- A slot of version 1.
abbrev past : Superblock
past = record first { format_version = 1 }

decode_slot-wrong_version_example :
    decode_slot numbers (or_empty (encode_slot numbers past)) ≡ wrong_version 1
unfolding encode_slot put_superblock to_le_bytes
decode_slot-wrong_version_example =
    decode_slot-wrong_version numbers past (or_empty (encode_slot numbers past)) numbers-IsCodec
      refl (λ e. omega arith) refl

open_on_with-Answers_example :
    (r : DiskResult Superblock) × (open_on_with faulty numbers (from_image file) (some 64) tt
      ≡ some (opened (from_image file) (some 64) tt r))
    × Answers
        (length (from_image file).view)
        (slot_status numbers (from_image file).view 0)
        (slot_status numbers (from_image file).view superblock_slot_size)
        r
unfolding from_image encode_slot put_superblock to_le_bytes le_bytes
open_on_with-Answers_example =
    open_on_with-Answers numbers (from_image file) (some 64) tt (omega arith)

-- Two clean nodes and a dirty one over a budget of 20 bytes.
abbrev clean_leaf : ℕ → Resident
clean_leaf tick = record {
  node = Node.leaf [];
  dirty = false;
  disk_offset = some 8192;
  bytes = 16;
  last_tick = tick;
}

abbrev crowded : DiskEngine FaultyState (Unit {0})
crowded = record engine {
  slots =
      NodeSlot.loaded_slot (clean_leaf 1)
      ∷ NodeSlot.loaded_slot (clean_leaf 2)
      ∷ NodeSlot.loaded_slot dirty_root
      ∷ [];
  cache = record no_cache {
    budget = some 20;
    bytes = 48;
    resident = 3;
    tick = 2;
    lru = (0, 1) ∷ (1, 2) ∷ [];
  };
}

abbrev settled : Option (DiskEngine FaultyState (Unit {0})) → DiskEngine FaultyState (Unit {0})
settled none = engine
settled (some s) = s

-- The first node is pinned, the second one goes.
enforce_budget-IsSettled_example :
    IsSettled (must_stay (0 ∷ []) none) crowded (settled (enforce_budget (0 ∷ []) none crowded))
unfolding enforce_budget wrapping_add wrapping_sub push_tick stamped contains examine
enforce_budget-IsSettled_example =
    enforce_budget-IsSettled (0 ∷ []) none crowded (settled (enforce_budget (0 ∷ []) none crowded))
      refl
