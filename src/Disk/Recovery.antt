-- ===== src/Disk/Recovery.antt =====
-- src/disk.rs, `open`: which superblock the bytes of a file resume from.
pub mod Answers
pub mod Crash
pub mod Device
pub mod Atomic
pub mod Root
pub mod Commit
pub mod Written
pub mod Durable
pub mod Failed
pub mod Lost
pub mod Aborted
pub mod Readable
use beetree.Prelude.{
  ℕ, ◌+◌, ◌%◌, ◌≤◌, ◌<◌, ◌≡◌, refl, sym, ap, ◌∙◌, Bool, true, false, Option, none, some, List, [],
  ◌∷◌, length, take, drop, ltb, leb, lt→ltb, le→leb, ltb→lt, leb→le, if◌then◌else◌, Bool-cases, inl,
  inr, ◌>>=◌, arith,
}
use mathlib.Core.Path.{subst}
use beetree.Bytes.{u64_mod}
use beetree.Vfs.{FaultyState, IoResult}
use beetree.Vfs.Faulty
use beetree.Vfs.Faulty.{read_exact_at}
use beetree.Vfs.Counting.{Vfs, faulty}
use beetree.Format.{
  Codec, Superblock, SlotStatus, valid, wrong_version, invalid, decode_slot, superblock_slots,
  superblock_slot_size,
}
use beetree.Disk.{DiskEngine, DiskResult}
use beetree.Disk.Load.{and_then, from_io}
use beetree.Disk.Open.{
  Found, nothing_found, consider, read_slots, verdict, truncate, open_on_with, resumed,
}

-- What stands in a slot of a file; a slot that the file does not hold shows nothing.
abbrev pub slot_status : Codec → List ℕ → ℕ → SlotStatus
slot_status c file off =
    if ltb (length file) (off + superblock_slot_size)
    then invalid
    else decode_slot c (take superblock_slot_size (drop off file))

-- Both slots are considered in order.
abbrev pub found_in : Codec → List ℕ → Found
found_in c file =
    consider (length file) (slot_status c file superblock_slot_size)
      (consider (length file) (slot_status c file 0) nothing_found)

-- The superblock that a file resumes from.
unfoldable pub recover : Codec → List ℕ → DiskResult Superblock
recover c file = verdict (found_in c file)

pub read_exact_at_lem :
    (off count : ℕ) (s : FaultyState)
    → off + count ≤ length s.view
    → length s.view < u64_mod
    → read_exact_at off count s ≡ some (IoResult.ok (take count (drop off s.view)))
unfolding read_exact_at
read_exact_at_lem off count s h h' =
    let whole : (off + count) % u64_mod ≡ off + count = omega arith in rw whole (ground (arith, h))

read_slots_lem :
    (c : Codec) (off : ℕ) (offs : List ℕ) (s : FaultyState) (found : Found)
    → length s.view < u64_mod
    → read_slots faulty c (length s.view) (off ∷ offs) s found
      ≡ read_slots faulty c
          (length s.view)
          offs
          s
          (consider (length s.view) (slot_status c s.view off) found)
unfolding read_slots consider faulty
read_slots_lem c off offs s found h =
    elim (Bool-cases (ltb (length s.view) (off + superblock_slot_size))) [
      | inl short ↦ rw (short, read_slots) refl
      | inr long ↦
          let fits : off + superblock_slot_size ≤ length s.view = ground (arith, long) in
          let read = read_exact_at_lem off superblock_slot_size s fits h in
          rw (long, read_slots)
            (ap
              (λ o. and_then (from_io o) (λ slot.
                read_slots faulty c (length s.view) offs s
                  (consider (length s.view) (decode_slot c slot) found)))
              read)
    ]

read_slots_nil :
    (c : Codec) (len : ℕ) (s : FaultyState) (found : Found)
    → read_slots faulty c len [] s found ≡ some (DiskResult.ok found)
unfolding read_slots
read_slots_nil c len s found = refl

read_slots_both :
    (c : Codec) (s : FaultyState)
    → length s.view < u64_mod
    → read_slots faulty c (length s.view) superblock_slots s nothing_found
      ≡ some (DiskResult.ok (found_in c s.view))
read_slots_both c s h =
    read_slots_lem c 0 (superblock_slot_size ∷ []) s nothing_found h
    ∙ read_slots_lem c superblock_slot_size [] s _ h
    ∙ read_slots_nil c (length s.view) s (found_in c s.view)

-- What `open` answers for a verdict on the slots.
abbrev pub opened :
    {P : Type 0}
    → FaultyState
    → Option ℕ
    → P
    → DiskResult Superblock
    → DiskResult (DiskEngine FaultyState P)
opened s cache_budget policy (DiskResult.err e) = DiskResult.err e
opened s cache_budget policy (DiskResult.ok sb) =
    DiskResult.ok (resumed (Faulty.set_len sb.watermark s) cache_budget policy sb)

module _ {P : Type 0} (c : Codec) (s : FaultyState) (cache_budget : Option ℕ) (policy : P) where
  truncate_lem :
      (r : DiskResult Superblock)
      → and_then (some r) (truncate faulty c cache_budget policy s)
        ≡ some (opened s cache_budget policy r)
  unfolding truncate faulty
  truncate_lem (DiskResult.err e) = refl
  truncate_lem (DiskResult.ok sb) = refl

  -- On a file shorter than 2 ^ 64 bytes, opening never panics: it answers with the error, or it
  -- resumes from the superblock, that the bytes of the file determine, and cuts the file off at the
  -- watermark of that superblock.
  pub open_on_with-recover :
      length s.view < u64_mod
      → open_on_with faulty c s cache_budget policy
        ≡ some (opened s cache_budget policy (recover c s.view))
  unfolding open_on_with faulty recover Faulty.len
  open_on_with-recover h =
      ap
        (λ o.
          and_then o
            (λ found. and_then (some (verdict found)) (truncate faulty c cache_budget policy s)))
        (read_slots_both c s h)
      ∙ truncate_lem (verdict (found_in c s.view))
