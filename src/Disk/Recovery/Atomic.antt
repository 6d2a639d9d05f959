-- ===== src/Disk/Recovery/Atomic.antt =====
-- src/disk.rs on the device of src/vfs.rs: a commit is atomic under crashes.
use beetree.Prelude.{
  ℕ, ◌+◌, ◌≤◌, ◌<◌, ◌≡◌, ◌⊎◌, inl, inr, sym, ap, ◌∙◌, some, List, [], length, drop, arith, AllOf,
  some_inj,
}
use mathlib.Core.Path.{subst}
use beetree.Vfs.{FaultyState, Fate}
use beetree.Vfs.Faulty.{crash_image_at}
use beetree.Vfs.Crash.{Reachable, after_write, after_sync, Reachable-IsReplayed}
use beetree.Vfs.Survival.{Spares}
use beetree.Vfs.Counting.{faulty}
use beetree.Format.{
  Codec, Superblock, SlotStatus, valid, wrong_version, invalid, superblock_slot_size, data_start,
}
use beetree.Disk.{DiskResult}
use beetree.Disk.Open.{consider, verdict, nothing_found}
use beetree.Disk.Publish.{write_bytes, sync_device}
use beetree.Disk.Recovery.{slot_status, recover}
use beetree.Disk.Recovery.Crash.{IsKept, crash_image_at-IsKept, slot_status-kept}
use beetree.Disk.Recovery.Device.{
  write_bytes-write_all_at, Spares-write_all_at, write_all_at-durable, sync_device-durable,
}

-- A slot shows nothing, or a superblock of an earlier generation.
abbrev pub IsOlder : Superblock → SlotStatus → Type 0
IsOlder sb (valid old) = old.generation < sb.generation
IsOlder sb (wrong_version v) = ⊥
IsOlder sb invalid = Unit

-- The two slots, in one order or the other.
abbrev pub AreSlots : ℕ → ℕ → Type 0
AreSlots a b = ((a ≡ 0) × (b ≡ superblock_slot_size)) ⊎ ((a ≡ superblock_slot_size) × (b ≡ 0))

newest_first :
    (len : ℕ) (sb : Superblock) (other : SlotStatus)
    → sb.watermark ≤ len
    → IsOlder sb other
    → verdict (consider len other (consider len (valid sb) nothing_found)) ≡ DiskResult.ok sb
unfolding verdict consider
newest_first len sb (valid old) h older = ground (arith, h, older)
newest_first len sb (wrong_version v) h older = absurd older
newest_first len sb invalid h older = ground (arith, h)

newest_last :
    (len : ℕ) (sb : Superblock) (other : SlotStatus)
    → sb.watermark ≤ len
    → IsOlder sb other
    → verdict (consider len (valid sb) (consider len other nothing_found)) ≡ DiskResult.ok sb
unfolding verdict consider
newest_last len sb (valid old) h older = ground (arith, h, older)
newest_last len sb (wrong_version v) h older = absurd older
newest_last len sb invalid h older = ground (arith, h)

-- A file resumes from the newest superblock that it holds.
pub recover_newest :
    (c : Codec) (file : List ℕ) (a b : ℕ) (sb : Superblock)
    → AreSlots a b
    → slot_status c file a ≡ valid sb
    → sb.watermark ≤ length file
    → IsOlder sb (slot_status c file b)
    → recover c file ≡ DiskResult.ok sb
unfolding recover
recover_newest c file a b sb (inl (ea, eb)) active h older =
    let s0 : slot_status c file 0 ≡ valid sb =
      subst (λ o. slot_status c file o ≡ valid sb) ea active in
    ap
      (λ st. verdict (
        consider (length file) (slot_status c file superblock_slot_size)
          (consider (length file) st nothing_found)))
      s0
    ∙ newest_first (length file) sb (slot_status c file superblock_slot_size) h
        (subst (λ o. IsOlder sb (slot_status c file o)) eb older)
recover_newest c file a b sb (inr (ea, eb)) active h older =
    let s1 = subst (λ o. slot_status c file o ≡ valid sb) ea active in
    ap
      (λ st.
        verdict
          (consider (length file) st (consider (length file) (slot_status c file 0) nothing_found)))
      s1
    ∙ newest_last (length file) sb (slot_status c file 0) h
        (subst (λ o. IsOlder sb (slot_status c file o)) eb older)

pub AreSlots-fit :
    (a b n : ℕ)
    → AreSlots a b
    → data_start ≤ n
    → (a + superblock_slot_size ≤ n) × (b + superblock_slot_size ≤ n)
AreSlots-fit a b n (inl (ea, eb)) h = (omega arith, omega arith)
AreSlots-fit a b n (inr (ea, eb)) h = (omega arith, omega arith)

-- A device that holds a committed state: the newest superblock stands in slot `a`, its data ends at
-- `n`, and no pending operation touches what is below `n`.
pub record IsCommitted (c : Codec) (sb : Superblock) (a b n : ℕ) (s : FaultyState) : Type 0 where
  pub slots : AreSlots a b
  pub active : slot_status c s.durable a ≡ valid sb
  pub older : IsOlder sb (slot_status c s.durable b)
  pub within : sb.watermark ≤ n
  pub start_lt : data_start < n
  pub long : n ≤ length s.durable
  pub spared : (i : ℕ) → i < n → AllOf (Spares i) (drop s.window_start s.log)

module _ (c : Codec) (sb : Superblock) (a b n : ℕ) where
  -- A file that keeps the bytes below `n` resumes from the committed superblock.
  recover-committed :
      (s : FaultyState) (file : List ℕ)
      → IsCommitted c sb a b n s
      → IsKept n s.durable file
      → recover c file ≡ DiskResult.ok sb
  recover-committed s file h kept =
      let fit = AreSlots-fit a b n h.slots (omega (arith, h.start_lt)) in
      let status : (off : ℕ)
          → off + superblock_slot_size ≤ n
          → slot_status c file off ≡ slot_status c s.durable off =
        λ off f.
          slot_status-kept c off s.durable file (omega (arith, h.long)) (omega (arith, kept.long))
            (λ i l m. kept.same i (omega arith)) in
      recover_newest c file a b sb h.slots (status a fit.0 ∙ h.active)
        (omega (arith, h.within, kept.long)) (subst (IsOlder sb) (sym (status b fit.1)) h.older)

  -- A crash of a committed device, with any fates, resumes from the committed superblock.
  pub IsCommitted-crash :
      {image : List ℕ} (s : FaultyState)
      → Reachable image s
      → IsCommitted c sb a b n s
      → (fates : List Fate)
      → (img : List ℕ) × (crash_image_at (length s.log) fates s ≡ some img)
        × (recover c img ≡ DiskResult.ok sb)
  IsCommitted-crash s r h fates =
      let (img, e, kept) =
        crash_image_at-IsKept r n fates (omega (arith, h.start_lt)) h.long h.spared in
      (img, e, recover-committed s img h kept)

  -- A write at or above `n` keeps the device committed.
  pub IsCommitted-write :
      {image : List ℕ} (off : ℕ) (bytes : List ℕ) (s s' : FaultyState)
      (answer : DiskResult (Unit {0}))
      → Reachable image s
      → IsCommitted c sb a b n s
      → n ≤ off
      → write_bytes faulty off bytes s ≡ some (answer, s')
      → IsCommitted c sb a b n s' × Reachable image s'
  IsCommitted-write off bytes s s' answer r h above e =
      let w = write_bytes-write_all_at off bytes s s' answer e in
      let same = write_all_at-durable off bytes s s' w in
      (
        record {
          slots = h.slots;
          active = subst (λ d. slot_status c d a ≡ valid sb) (sym same) h.active;
          older = subst (λ d. IsOlder sb (slot_status c d b)) (sym same) h.older;
          within = h.within;
          start_lt = h.start_lt;
          long = subst (λ d. n ≤ length d) (sym same) h.long;
          spared = λ i l.
              Spares-write_all_at i off bytes s s' (Reachable-IsReplayed r).start_le w
                (inl (omega arith)) (h.spared i l);
        },
        after_write off bytes r w,
      )

  -- A sync that succeeds keeps the device committed, and leaves nothing pending.
  pub IsCommitted-sync :
      {image : List ℕ} (s s' : FaultyState)
      → Reachable image s
      → IsCommitted c sb a b n s
      → sync_device faulty s ≡ some (DiskResult.ok tt, s')
      → IsCommitted c sb a b n s' × Reachable image s' × (drop s'.window_start s'.log ≡ [])
  IsCommitted-sync s s' r h e =
      let (e1, crash, all, window) = sync_device-durable s s' r e in
      let (img, ei, kept') =
        crash_image_at-IsKept r n [] (omega (arith, h.start_lt)) h.long h.spared in
      let kept = subst (IsKept n s.durable) (some_inj (sym ei ∙ crash)) kept' in
      let fit = AreSlots-fit a b n h.slots (omega (arith, h.start_lt)) in
      let status : (off : ℕ)
          → off + superblock_slot_size ≤ n
          → slot_status c s'.durable off ≡ slot_status c s.durable off =
        λ off f.
          slot_status-kept c off s.durable s'.durable (omega (arith, h.long))
            (omega (arith, kept.long)) (λ i l m. kept.same i (omega arith)) in
      (
        record {
          slots = h.slots;
          active = status a fit.0 ∙ h.active;
          older = subst (IsOlder sb) (sym (status b fit.1)) h.older;
          within = h.within;
          start_lt = h.start_lt;
          long = kept.long;
          spared = λ i l. subst (AllOf (Spares i)) (sym window) tt;
        },
        after_sync r e1,
        window,
      )
