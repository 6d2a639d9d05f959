-- ===== src/Disk/Recovery/Answers.antt =====
-- src/disk.rs: what `open` answers, described by the two slots of the file alone.
use beetree.Prelude.{
  ℕ, ◌≤◌, ◌<◌, ◌≡◌, ◌⊎◌, inl, inr, refl, Option, some, length, arith, leb, ltb, Bool-cases, leb→le,
}
use beetree.Bytes.{u64_mod}
use beetree.Vfs.{FaultyState}
use beetree.Vfs.Counting.{faulty}
use beetree.Format.{
  Codec, Superblock, SlotStatus, valid, wrong_version, invalid, superblock_slot_size,
}
use beetree.Disk.{DiskError, DiskResult, no_valid_superblock, unsupported_version}
use beetree.Disk.Open.{nothing_found, consider, verdict, open_on_with}
use beetree.Disk.Recovery.{slot_status, recover, opened, open_on_with-recover}

-- A slot shows nothing that could be resumed from: a superblock that points beyond the file, or no
-- superblock.
abbrev pub IsUnusable : ℕ → SlotStatus → Type 0
IsUnusable len (valid sb) = len < sb.watermark
IsUnusable len (wrong_version v) = ⊥
IsUnusable len invalid = Unit

-- A slot shows nothing that is newer than `sb`.
abbrev pub IsNoNewer : ℕ → Superblock → SlotStatus → Type 0
IsNoNewer len sb (valid other) = (len < other.watermark) ⊎ (other.generation ≤ sb.generation)
IsNoNewer len sb (wrong_version v) = ⊥
IsNoNewer len sb invalid = Unit

-- What a file of length `len` with these two slots resumes from: the newest superblock that it
-- holds whole, where no slot is of another version; another version is refused.
abbrev pub Answers : ℕ → SlotStatus → SlotStatus → DiskResult Superblock → Type 0
Answers len s0 s1 (DiskResult.ok sb) =
    ((s0 ≡ valid sb) ⊎ (s1 ≡ valid sb))
    × (sb.watermark ≤ len)
    × IsNoNewer len sb s0
    × IsNoNewer len sb s1
Answers len s0 s1 (DiskResult.err (unsupported_version v)) =
    (s0 ≡ wrong_version v) ⊎ (s1 ≡ wrong_version v)
Answers len s0 s1 (DiskResult.err no_valid_superblock) = IsUnusable len s0 × IsUnusable len s1
Answers len s0 s1 (DiskResult.err DiskError.io) = ⊥
Answers len s0 s1 (DiskResult.err (DiskError.corrupt_node offset)) = ⊥
Answers len s0 s1 (DiskResult.err (DiskError.not_empty n)) = ⊥
Answers len s0 s1 (DiskResult.err (DiskError.node_too_large n)) = ⊥
Answers len s0 s1 (DiskResult.err DiskError.poisoned_engine) = ⊥

verdict-Answers :
    (len : ℕ) (s0 s1 : SlotStatus)
    → Answers len s0 s1 (verdict (consider len s1 (consider len s0 nothing_found)))
unfolding verdict consider
verdict-Answers len (valid a) (valid b) = elim (Bool-cases (leb a.watermark len)) [
  | inl ea ↦ elim (Bool-cases (leb b.watermark len)) [
    | inl eb ↦ elim (Bool-cases (ltb a.generation b.generation)) [
      | inl lt ↦
          rw (ea, eb, lt)
            (inr refl, leb→le b.watermark len eb, ground (arith, lt), ground (arith, lt))
      | inr ge ↦
          rw (ea, eb, ge)
            (inl refl, leb→le a.watermark len ea, ground (arith, ge), ground (arith, ge))
    ]
    | inr eb ↦
        rw (ea, eb) (inl refl, leb→le a.watermark len ea, ground (arith, eb), ground (arith, eb))
  ]
  | inr ea ↦ elim (Bool-cases (leb b.watermark len)) [
    | inl eb ↦
        rw (ea, eb) (inr refl, leb→le b.watermark len eb, ground (arith, ea), ground (arith, ea))
    | inr eb ↦ rw (ea, eb) (ground (arith, ea), ground (arith, eb))
  ]
]
verdict-Answers len (valid a) (wrong_version v) = inr refl
verdict-Answers len (valid a) invalid = elim (Bool-cases (leb a.watermark len)) [
  | inl ea ↦ rw ea (inl refl, leb→le a.watermark len ea, ground arith, tt)
  | inr ea ↦ rw ea (ground (arith, ea), tt)
]
verdict-Answers len (wrong_version v) (valid b) = elim (Bool-cases (leb b.watermark len)) [
  | inl eb ↦ rw eb (inl refl)
  | inr eb ↦ rw eb (inl refl)
]
verdict-Answers len (wrong_version v) (wrong_version w) = inr refl
verdict-Answers len (wrong_version v) invalid = inl refl
verdict-Answers len invalid (valid b) = elim (Bool-cases (leb b.watermark len)) [
  | inl eb ↦ rw eb (inr refl, leb→le b.watermark len eb, tt, ground arith)
  | inr eb ↦ rw eb (tt, ground (arith, eb))
]
verdict-Answers len invalid (wrong_version w) = inr refl
verdict-Answers len invalid invalid = (tt, tt)

-- On a file shorter than 2 ^ 64 bytes, opening never panics. It resumes from a superblock that one of
-- the slots holds, that points at no more than the file, and that no superblock of the other slot
-- exceeds, and then cuts the file off at its watermark; or it refuses with the version of a slot
-- that is of another version; or it finds that neither slot shows anything it could resume from.
pub open_on_with-Answers :
    {P : Type 0} (c : Codec) (s : FaultyState) (cache_budget : Option ℕ) (policy : P)
    → length s.view < u64_mod
    → (r : DiskResult Superblock) × (open_on_with faulty c s cache_budget policy
        ≡ some (opened s cache_budget policy r))
      × Answers
          (length s.view)
          (slot_status c s.view 0)
          (slot_status c s.view superblock_slot_size)
          r
unfolding recover
open_on_with-Answers c s cache_budget policy h = (
  recover c s.view,
  open_on_with-recover c s cache_budget policy h,
  verdict-Answers (length s.view) (slot_status c s.view 0)
      (slot_status c s.view superblock_slot_size),
)
