-- ===== src/Vfs/Counting.antt =====
-- src/vfs.rs: the trait `Vfs` as a record of operations on a device's state, and the wrapper
-- `CountingVfs`. A request that panics is `none`; each counter wraps at 2 ^ 64.
use beetree.Prelude.{ℕ, Option, some, List, length, ◌>>=◌}
use beetree.Bytes.{wrapping_add}
use beetree.Vfs.{FaultyState, IoResult, ok}
use beetree.Vfs.Faulty

-- A file system on devices `D`, whose state a read leaves as it is. The counters of `CountingVfs`, which
-- a read changes, stand beside the device. A write and a change of length of the fault injector always succeed.
pub record Vfs (D : Type 0) : Type 0 where
  pub read_exact_at : ℕ → ℕ → D → Option (IoResult (List ℕ))
  pub write_all_at : ℕ → List ℕ → D → Option (IoResult Unit × D)
  pub sync : D → Option (IoResult Unit × D)
  pub len : D → IoResult ℕ
  pub set_len : ℕ → D → Option (IoResult Unit × D)

unfoldable pub faulty : Vfs FaultyState
unfolding Faulty.len
faulty = record {
  read_exact_at = Faulty.read_exact_at;
  write_all_at = λ off bytes s. Faulty.write_all_at off bytes s >>= λ s'. some (ok tt, s');
  sync = Faulty.sync;
  len = λ s. ok (Faulty.len s);
  set_len = λ n s. some (ok tt, Faulty.set_len n s);
}

pub record IoStats : Type 0 where
  pub read_ops : ℕ
  pub read_bytes : ℕ
  pub write_ops : ℕ
  pub write_bytes : ℕ
  pub syncs : ℕ
  pub set_lens : ℕ

pub record CountingVfs (D : Type 0) : Type 0 where
  pub inner : D
  pub stats : IoStats

abbrev pub no_stats : IoStats
no_stats = record {
  read_ops = 0;
  read_bytes = 0;
  write_ops = 0;
  write_bytes = 0;
  syncs = 0;
  set_lens = 0;
}

module _ {D : Type 0} where
  unfoldable pub counting : D → CountingVfs D
  counting inner = record { inner = inner; stats = no_stats }

  -- The answer of the wrapped device, with the new counters.
  abbrev pub wrap : IoStats → Option (IoResult Unit × D) → Option (IoResult Unit × CountingVfs D)
  wrap stats answer = do
    (result, inner) ← answer
    some (result, record { inner = inner; stats = stats })

  -- The counters stand in a cell, so a read changes them too.
  unfoldable pub counted_read :
      Vfs D → ℕ → ℕ → CountingVfs D → Option (IoResult (List ℕ) × CountingVfs D)
  counted_read vfs off count s =
      let stats : IoStats = record s.stats {
        read_ops = wrapping_add s.stats.read_ops 1;
        read_bytes = wrapping_add s.stats.read_bytes count;
      } in
      do result ← vfs.read_exact_at off count s.inner; some (result, record s { stats = stats })

  unfoldable pub counted_write :
      Vfs D → ℕ → List ℕ → CountingVfs D → Option (IoResult Unit × CountingVfs D)
  counted_write vfs off bytes s =
      let stats : IoStats = record s.stats {
        write_ops = wrapping_add s.stats.write_ops 1;
        write_bytes = wrapping_add s.stats.write_bytes (length bytes);
      } in
      wrap stats (vfs.write_all_at off bytes s.inner)

  unfoldable pub counted_sync : Vfs D → CountingVfs D → Option (IoResult Unit × CountingVfs D)
  counted_sync vfs s =
      let stats : IoStats = record s.stats { syncs = wrapping_add s.stats.syncs 1 } in
      wrap stats (vfs.sync s.inner)

  unfoldable pub counted_len : Vfs D → CountingVfs D → IoResult ℕ
  counted_len vfs s = vfs.len s.inner

  unfoldable pub counted_set_len :
      Vfs D → ℕ → CountingVfs D → Option (IoResult Unit × CountingVfs D)
  counted_set_len vfs n s =
      let stats : IoStats = record s.stats { set_lens = wrapping_add s.stats.set_lens 1 } in
      wrap stats (vfs.set_len n s.inner)
