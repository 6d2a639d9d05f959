-- ===== src/Vfs.antt =====
-- src/vfs.rs: the fault-injecting device, its log, and what a crash does to an operation that was
-- not synced. A handle shares its device with its clones, so the device is the state that every
-- operation takes and returns.
pub mod Faulty
pub mod Counting
pub mod Transparent
pub mod Replay
pub mod Crash
pub mod Synced
pub mod Survival
use beetree.Prelude.{ℕ, Bool, Option, List}

-- What a crash does to one operation that was not synced.
pub data Fate : Type 0 where
  drop : Fate
  apply : Fate
  zero : Fate
  tear : (seed : ℕ) → Fate

-- An entry of the public log: offsets and lengths.
pub data VfsOp : Type 0 where
  write_op : (off len : ℕ) → VfsOp
  set_len_op : (len : ℕ) → VfsOp
  sync_op : (failed : Bool) → VfsOp

-- An entry of the internal log, with the bytes of a write.
pub data LogEntry : Type 0 where
  write : (off : ℕ) (data_bytes : List ℕ) → LogEntry
  set_len : (len : ℕ) → LogEntry
  sync_ok : LogEntry
  sync_failed : (fates : List Fate) → LogEntry

pub record FaultyState : Type 0 where
  pub view : List ℕ
  pub durable : List ℕ
  pub initial : List ℕ
  pub log : List LogEntry
  pub window_start : ℕ
  pub fail_sync : Option (ℕ × List Fate)

-- `io::Result`, with the kinds of errors that the device reports.
pub data IoResult (A : Type 0) : Type 0 where
  ok : (value : A) → IoResult A
  unexpected_eof : IoResult A
  other : IoResult A
