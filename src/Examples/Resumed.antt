-- ===== src/Examples/Resumed.antt =====
-- A crash while a record and a change of length are pending above the committed bytes.
use beetree.Prelude.{
  ℕ, ◌≡◌, ◌<◌, refl, sym, Option, none, some, List, [], ◌∷◌, ◌++◌, length, arith, inl, AllOf, drop,
}
use mathlib.Core.Path.{subst}
use beetree.Bytes.{le_bytes, to_le_bytes, from_le_bytes}
use beetree.Vfs.{FaultyState, Fate, ok, IoResult}
use beetree.Vfs.Faulty.{
  from_image, write_all_at, write_at, set_len, sync, apply_window, crash_image_at,
}
use beetree.Vfs.Crash.{Reachable, start, after_write, after_sync, after_set_len}
use beetree.Vfs.Survival.{Spares}
use beetree.Format.{valid, invalid, superblock_slot_size, decode_slot, bytes_eq, encode_slot}
use beetree.Disk.Recovery.{slot_status, recover}
use beetree.Disk.Recovery.Crash.{LiesWithin, crash_image_at-recover}
use beetree.Examples.Codec.{numbers, put_superblock, take_superblock, sum}
use beetree.Examples.Disk.{file, first, empty_leaf}

abbrev device_or_file : Option FaultyState → FaultyState
device_or_file none = from_image file
device_or_file (some s) = s

abbrev second : Option (IoResult Unit × FaultyState) → FaultyState
second none = from_image file
second (some (answer, s)) = s

-- A record behind the committed one, synced, and then written again and cut off, which is pending.
abbrev appended : FaultyState
appended = device_or_file (write_all_at 8201 empty_leaf (from_image file))

abbrev synced : FaultyState
synced = second (sync appended)

abbrev rewritten : FaultyState
rewritten = device_or_file (write_all_at 8201 (5 ∷ 6 ∷ 7 ∷ []) synced)

abbrev pending : FaultyState
pending = set_len 8203 rewritten

-- The write is torn after its first byte, the cut is made.
abbrev fates : List Fate
fates = Fate.tear 1 ∷ Fate.apply ∷ []

pending-Reachable : Reachable file pending
unfolding from_image write_all_at write_at sync apply_window le_bytes encode_slot put_superblock
    to_le_bytes
pending-Reachable = after_set_len 8203 (
    after_write 8201 (5 ∷ 6 ∷ 7 ∷ [])
      (after_sync {result = ok tt} (after_write 8201 empty_leaf start refl) refl) refl)

-- The crash changes the file.
torn : crash_image_at (length pending.log) fates pending ≡ some (file ++ 5 ∷ 0 ∷ [])
unfolding from_image write_all_at write_at sync set_len apply_window le_bytes encode_slot
    put_superblock to_le_bytes crash_image_at
torn = refl

active : slot_status numbers pending.durable 0 ≡ valid first
unfolding from_image write_all_at write_at sync set_len apply_window le_bytes encode_slot
    put_superblock to_le_bytes decode_slot sum from_le_bytes take_superblock bytes_eq
active = refl

other : slot_status numbers pending.durable superblock_slot_size ≡ invalid
unfolding from_image write_all_at write_at sync set_len apply_window le_bytes encode_slot
    put_superblock to_le_bytes decode_slot sum from_le_bytes
other = refl

spared : (i : ℕ) → i < 8201 → AllOf (Spares i) (drop pending.window_start pending.log)
unfolding from_image write_all_at write_at sync set_len apply_window le_bytes
spared i l = ((omega arith, inl l), (omega (arith, l), tt))

crash_image_at-recover_example :
    (img : List ℕ) × (crash_image_at (length pending.log) fates pending ≡ some img)
    × (recover numbers img ≡ recover numbers pending.durable)
unfolding from_image write_all_at write_at sync set_len apply_window le_bytes encode_slot
    put_superblock to_le_bytes
crash_image_at-recover_example =
    crash_image_at-recover numbers pending-Reachable 8201 fates (omega arith) (omega arith) spared
      (subst (LiesWithin 8201) (sym active) (omega arith)) (subst (LiesWithin 8201) (sym other) tt)
