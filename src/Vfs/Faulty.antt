-- ===== src/Vfs/Faulty.antt =====
-- src/vfs.rs: `FaultyVfs`. `none` is a panic: an offset and a length whose sum does not fit in 64
-- bits (the slice that is written then ends before it starts), a failed assertion, or a sync entry
-- inside a window.
use beetree.Prelude.{
  ℕ, zero, suc, ◌+◌, ◌-◌, ◌%◌, Bool, true, false, ◌||◌, Option, none, some, List, [], ◌∷◌, ◌++◌,
  length, get_elem?, take, replicate, ltb, leb, map, if◌then◌else◌, ◌>>=◌,
}
use beetree.Prelude
use mathlib.Core.List.{reverse}
use beetree.Bytes.{u64_mod}
use beetree.Vfs.{
  Fate, VfsOp, write_op, set_len_op, sync_op, LogEntry, FaultyState, IoResult, ok, unexpected_eof,
  other,
}

-- `Vec::resize` with zeros.
abbrev pub resize : ℕ → List ℕ → List ℕ
resize len buf = take len buf ++ replicate (len - length buf) 0

-- Copies the bytes to an offset, with zeros in any gap.
unfoldable pub write_at : ℕ → List ℕ → List ℕ → Option (List ℕ)
write_at off bytes buf =
    if ltb (off + length bytes) u64_mod
    then (let end = off + length bytes in
        let grown = if ltb (length buf) end then resize end buf else buf in
        some (take off grown ++ bytes ++ Prelude.drop end grown))
    else none

-- One operation of a window under its fate.
unfoldable pub apply_entry : LogEntry → Fate → List ℕ → Option (List ℕ)
unfolding write_at
apply_entry (LogEntry.write off bytes) Fate.drop buf = some buf
apply_entry (LogEntry.write off bytes) Fate.apply buf = write_at off bytes buf
apply_entry (LogEntry.write off bytes) Fate.zero buf = write_at off (replicate (length bytes) 0) buf
apply_entry (LogEntry.write off bytes) (Fate.tear seed) buf =
    write_at off (take (seed % (length bytes + 1)) bytes) buf
apply_entry (LogEntry.set_len len) Fate.drop buf = some buf
apply_entry (LogEntry.set_len len) fate buf = some (resize len buf)
apply_entry LogEntry.sync_ok fate buf = none
apply_entry (LogEntry.sync_failed fates) fate buf = none

-- The fate of the operation at an index: a missing one is `apply`, and so are all of a good sync.
unfoldable pub fate_at : List Fate → Bool → ℕ → Fate
fate_at fates true op_index = Fate.apply
fate_at fates false op_index = elim (get_elem? fates op_index) [
  | none ↦ Fate.apply
  | some fate ↦ fate
]

unfoldable pub apply_from : ℕ → List LogEntry → List Fate → Bool → List ℕ → Option (List ℕ)
unfolding apply_entry fate_at
apply_from op_index [] fates all buf = some buf
apply_from op_index (entry ∷ window) fates all buf = do
  buf' ← apply_entry entry (fate_at fates all op_index) buf
  apply_from (suc op_index) window fates all buf'

unfoldable pub apply_window : List ℕ → List LogEntry → List Fate → Bool → Option (List ℕ)
unfolding apply_from
apply_window buf window fates all = apply_from 0 window fates all buf

-- `log[from..to]`.
abbrev pub between : ℕ → ℕ → List LogEntry → List LogEntry
between from to log = take (to - from) (Prelude.drop from log)

-- The replay of the log up to the last sync: where the pending window starts, and the image.
unfoldable pub replay_syncs : List LogEntry → ℕ → ℕ → List LogEntry → List ℕ → Option (ℕ × List ℕ)
unfolding apply_window
replay_syncs log i wstart [] img = some (wstart, img)
replay_syncs log i wstart (LogEntry.write off bytes ∷ entries) img =
    replay_syncs log (suc i) wstart entries img
replay_syncs log i wstart (LogEntry.set_len len ∷ entries) img =
    replay_syncs log (suc i) wstart entries img
replay_syncs log i wstart (LogEntry.sync_ok ∷ entries) img = do
  img' ← apply_window img (between wstart i log) [] true
  replay_syncs log (suc i) (suc i) entries img'
replay_syncs log i wstart (LogEntry.sync_failed fates ∷ entries) img = do
  img' ← apply_window img (between wstart i log) fates false
  replay_syncs log (suc i) (suc i) entries img'

unfoldable pub crash_image_at : ℕ → List Fate → FaultyState → Option (List ℕ)
unfolding replay_syncs
crash_image_at pos fates s =
    if leb pos (length s.log)
    then (do
      (wstart, img) ← replay_syncs s.log 0 0 (take pos s.log) s.initial
      apply_window img (between wstart pos s.log) fates false)
    else none

unfoldable pub from_image : List ℕ → FaultyState
from_image image = record {
  view = image;
  durable = image;
  initial = image;
  log = [];
  window_start = 0;
  fail_sync = none;
}

abbrev pub new_device : FaultyState
unfolding from_image
new_device = from_image []

abbrev pub op_of : LogEntry → VfsOp
op_of (LogEntry.write off bytes) = write_op off (length bytes)
op_of (LogEntry.set_len len) = set_len_op len
op_of LogEntry.sync_ok = sync_op false
op_of (LogEntry.sync_failed fates) = sync_op true

unfoldable pub op_log : FaultyState → List VfsOp
op_log s = map op_of s.log

unfoldable pub log_len : FaultyState → ℕ
log_len s = length s.log

-- How many entries there are before the first sync of a reversed log.
abbrev pub pending_count : List LogEntry → ℕ
pending_count [] = 0
pending_count (LogEntry.sync_ok ∷ entries) = 0
pending_count (LogEntry.sync_failed fates ∷ entries) = 0
pending_count (entry ∷ entries) = suc (pending_count entries)

unfoldable pub window_len_at : ℕ → FaultyState → Option ℕ
window_len_at pos s =
    if leb pos (length s.log) then some (pending_count (reverse (take pos s.log))) else none

unfoldable pub fail_nth_sync : ℕ → List Fate → FaultyState → FaultyState
fail_nth_sync skip fates s = record s { fail_sync = some (skip, fates) }

unfoldable pub fail_next_sync : List Fate → FaultyState → FaultyState
unfolding fail_nth_sync
fail_next_sync fates s = fail_nth_sync 0 fates s

-- The bytes that a read of `count` bytes fills in. The sum of its bounds wraps.
unfoldable pub read_exact_at : ℕ → ℕ → FaultyState → Option (IoResult (List ℕ))
read_exact_at off count s =
    let end = (off + count) % u64_mod in
    if ltb (length s.view) end
    then some unexpected_eof
    else if leb off end
    then some (ok (take count (Prelude.drop off s.view)))
    else none

-- No pending write meets the bytes from `a1` up to `a2`; the ends wrap.
unfoldable pub disjoint : ℕ → ℕ → List LogEntry → Bool
disjoint a1 a2 [] = true
disjoint a1 a2 (LogEntry.write o d ∷ entries) =
    let rest = disjoint a1 a2 entries in
    if leb a2 o || leb ((o + length d) % u64_mod) a1 then rest else false
disjoint a1 a2 (entry ∷ entries) = disjoint a1 a2 entries

unfoldable pub write_all_at : ℕ → List ℕ → FaultyState → Option FaultyState
unfolding disjoint
write_all_at off bytes s =
    if disjoint off ((off + length bytes) % u64_mod) (Prelude.drop s.window_start s.log)
    then (do
      view ← write_at off bytes s.view
      some (record s { view = view; log = s.log ++ LogEntry.write off bytes ∷ [] }))
    else none

-- The end of a sync: the window becomes durable under its fates, and the log gets its entry.
abbrev pub close_window :
    LogEntry → List Fate → Bool → Option (ℕ × List Fate) → FaultyState → Option FaultyState
close_window entry fates all armed s = do
  durable ← apply_window s.durable (Prelude.drop s.window_start s.log) fates all
  some (record s {
    durable = durable;
    log = s.log ++ entry ∷ [];
    window_start = length (s.log ++ entry ∷ []);
    fail_sync = armed;
  })

abbrev pub sync_with : Option (ℕ × List Fate) → FaultyState → Option (IoResult Unit × FaultyState)
sync_with none s = do s' ← close_window LogEntry.sync_ok [] true none s; some (ok tt, s')
sync_with (some (zero, fates)) s = do
  s' ← close_window (LogEntry.sync_failed fates) fates false none s
  some (other, s')
sync_with (some (suc skip, fates)) s = do
  s' ← close_window LogEntry.sync_ok [] true (some (skip, fates)) s
  some (ok tt, s')

unfoldable pub sync : FaultyState → Option (IoResult Unit × FaultyState)
sync s = sync_with s.fail_sync s

unfoldable pub len : FaultyState → ℕ
len s = length s.view

unfoldable pub set_len : ℕ → FaultyState → FaultyState
set_len new_len s = record s {
  view = resize new_len s.view;
  log = s.log ++ LogEntry.set_len new_len ∷ [];
}
