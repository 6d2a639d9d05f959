-- ===== src/Examples/Crash.antt =====
-- Concrete histories of the fault-injecting device.
use beetree.Prelude.{ℕ, ◌≡◌, refl, false, inl, none, some, List, [], ◌∷◌, length, get_elem?, arith}
use beetree.Vfs.{Fate, LogEntry, FaultyState, ok}
use beetree.Vfs.Faulty.{apply_window, crash_image_at, from_image, write_all_at, write_at, sync}
use beetree.Vfs.Crash.{Reachable, start, after_write, after_sync, crash_image_at-durable}
use beetree.Vfs.Synced.{sync-crash_image_at}
use beetree.Vfs.Survival.{crash_image_at-survives}
use beetree.Vfs.Faulty.{new_device}
use beetree.Vfs.Counting.{faulty, counting}
use beetree.Vfs.Transparent.{
  Request, write_request, sync_request, read_request, len_request, set_len_request, run_with, serve,
  serve_counted, settle, total, run_with-counting,
}

-- A device with one byte, three more written and synced, and two pending after a gap.
abbrev written : FaultyState
written = record {
  view = 7 ∷ 1 ∷ 2 ∷ 3 ∷ [];
  durable = 7 ∷ [];
  initial = 7 ∷ [];
  log = LogEntry.write 1 (1 ∷ 2 ∷ 3 ∷ []) ∷ [];
  window_start = 0;
  fail_sync = none;
}

abbrev synced : FaultyState
synced = record {
  view = 7 ∷ 1 ∷ 2 ∷ 3 ∷ [];
  durable = 7 ∷ 1 ∷ 2 ∷ 3 ∷ [];
  initial = 7 ∷ [];
  log = LogEntry.write 1 (1 ∷ 2 ∷ 3 ∷ []) ∷ LogEntry.sync_ok ∷ [];
  window_start = 2;
  fail_sync = none;
}

abbrev pending : FaultyState
pending = record {
  view = 7 ∷ 1 ∷ 2 ∷ 3 ∷ 0 ∷ 8 ∷ 9 ∷ [];
  durable = 7 ∷ 1 ∷ 2 ∷ 3 ∷ [];
  initial = 7 ∷ [];
  log = LogEntry.write 1 (1 ∷ 2 ∷ 3 ∷ []) ∷ LogEntry.sync_ok ∷ LogEntry.write 5 (8 ∷ 9 ∷ []) ∷ [];
  window_start = 2;
  fail_sync = none;
}

written-Reachable : Reachable (7 ∷ []) written
unfolding from_image write_all_at write_at
written-Reachable = after_write 1 (1 ∷ 2 ∷ 3 ∷ []) start refl

synced-Reachable : Reachable (7 ∷ []) synced
unfolding sync apply_window
synced-Reachable = after_sync {result = ok tt} written-Reachable refl

pending-Reachable : Reachable (7 ∷ []) pending
unfolding write_all_at write_at
pending-Reachable = after_write 5 (8 ∷ 9 ∷ []) synced-Reachable refl

-- A torn write after the sync.
crash_image_at-durable_example :
    crash_image_at 3 (Fate.tear 1 ∷ []) pending
    ≡ apply_window
        (7 ∷ 1 ∷ 2 ∷ 3 ∷ [])
        (LogEntry.write 5 (8 ∷ 9 ∷ []) ∷ [])
        (Fate.tear 1 ∷ [])
        false
crash_image_at-durable_example = crash_image_at-durable pending-Reachable (Fate.tear 1 ∷ [])

sync-crash_image_at_example :
    (s' : FaultyState) × (sync pending ≡ some (ok tt, s'))
    × ((fates : List Fate)
        → crash_image_at (length s'.log) fates s' ≡ some (7 ∷ 1 ∷ 2 ∷ 3 ∷ 0 ∷ 8 ∷ 9 ∷ []))
sync-crash_image_at_example =
    sync-crash_image_at pending-Reachable (tt, (tt, (tt, tt))) (λ fates e. cc)

crash_image_at-survives_example :
    (img : List ℕ) × (crash_image_at 3 (Fate.zero ∷ []) pending ≡ some img)
    × (get_elem? img 3 ≡ some 3)
crash_image_at-survives_example =
    crash_image_at-survives pending-Reachable 3 (Fate.zero ∷ []) (omega arith)
      ((omega arith, inl (omega arith)), tt)

-- The image that the torn write leaves.
torn_image : crash_image_at 3 (Fate.tear 1 ∷ []) pending ≡ some (7 ∷ 1 ∷ 2 ∷ 3 ∷ 0 ∷ 8 ∷ [])
unfolding crash_image_at apply_window
torn_image = refl

abbrev requests : List Request
requests =
    write_request 1 (1 ∷ 2 ∷ [])
    ∷ sync_request
    ∷ read_request 0 2
    ∷ len_request
    ∷ set_len_request 2
    ∷ read_request 1 2
    ∷ []

run_with-counting_example :
    run_with (serve_counted faulty) requests (counting new_device)
    ≡ settle (total requests) (run_with (serve faulty) requests new_device)
run_with-counting_example = run_with-counting faulty requests new_device
