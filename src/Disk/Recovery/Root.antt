-- ===== src/Disk/Recovery/Root.antt =====
-- src/disk.rs on the device of src/vfs.rs: the second half of a commit, which publishes a root.
use beetree.Prelude.{
  ℕ, ◌+◌, ◌-◌, ◌≤◌, ◌<◌, ◌≡◌, ◌⊎◌, inl, inr, sym, ap, ◌∙◌, some, List, [], length, take, drop,
  get_elem?, arith, ltb-false, if◌then◌else◌, AllOf, some_inj, lt_of_get_elem?, get_elem?-in_range,
}
use mathlib.Core.Path.{subst}
use beetree.Vfs.{FaultyState, Fate}
use beetree.Vfs.Faulty.{crash_image_at, write_all_at}
use beetree.Vfs.Crash.{Reachable, after_write, after_sync, Reachable-IsReplayed}
use beetree.Vfs.Survival.{Spares, crash_image_at-survives}
use beetree.Vfs.Counting.{faulty}
use beetree.Format.{
  Codec, IsCodec, Superblock, valid, invalid, decode_slot, encode_slot, superblock_slot_size,
  data_start,
}
use beetree.Format.Slots.{IsSane, decode_slot-encode_slot}
use beetree.Disk.{DiskResult}
use beetree.Disk.Publish.{write_bytes, sync_device}
use beetree.Disk.Recovery.{slot_status, recover}
use beetree.Disk.Recovery.Crash.{slot_status-kept}
use beetree.Disk.Recovery.Device.{
  write_bytes-write_all_at, Spares-write_all_at, write_all_at-durable, sync_device-durable,
  sync_device-write,
}
use beetree.Disk.Recovery.Atomic.{IsOlder, AreSlots, AreSlots-fit, IsCommitted, recover_newest}

-- A device that is committed, with nothing pending, before the superblock `new`, encoded as `slot`,
-- goes to its slot `b`.
pub record IsReady (c : Codec) (sb new : Superblock) (a b n : ℕ) (slot : List ℕ) (s : FaultyState)
    : Type 0 where
  pub committed : IsCommitted c sb a b n s
  pub settled : drop s.window_start s.log ≡ []
  pub laws : IsCodec c
  pub sane : IsSane new
  pub encoded : encode_slot c new ≡ some slot
  pub newer : sb.generation < new.generation
  pub reaches : n ≤ new.watermark
  pub covered : new.watermark ≤ length s.durable

AreSlots-swap : (a b : ℕ) → AreSlots a b → AreSlots b a
AreSlots-swap a b (inl (ea, eb)) = inr (eb, ea)
AreSlots-swap a b (inr (ea, eb)) = inl (eb, ea)

-- An index of slot `a`, or beyond the slots, is none of slot `b`.
apart_from :
    (a b i : ℕ)
    → AreSlots a b
    → ((a ≤ i) × (i < a + superblock_slot_size)) ⊎ (data_start ≤ i)
    → (i < b) ⊎ (b + superblock_slot_size ≤ i)
apart_from a b i (inl (ea, eb)) (inl h) = inl (omega arith)
apart_from a b i (inl (ea, eb)) (inr h) = inr (omega arith)
apart_from a b i (inr (ea, eb)) (inl h) = inr (omega arith)
apart_from a b i (inr (ea, eb)) (inr h) = inr (omega arith)

module _ (c : Codec) (sb new : Superblock) (a b n : ℕ) (slot : List ℕ) {image : List ℕ}
    (s s3 : FaultyState) (r : Reachable image s) (ready : IsReady c sb new a b n slot s)
    (written : write_bytes faulty b slot s ≡ some (DiskResult.ok tt, s3)) where
  slot_long : length slot ≡ superblock_slot_size
  slot_long = (decode_slot-encode_slot c new slot ready.laws ready.sane ready.encoded).0

  root_write : write_all_at b slot s ≡ some s3
  root_write = write_bytes-write_all_at b slot s s3 (DiskResult.ok tt) written

  -- The bytes outside slot `b` survive.
  root_survives :
      (fates : List Fate) (i : ℕ)
      → i < length s.durable
      → (i < b) ⊎ (b + superblock_slot_size ≤ i)
      → (img : List ℕ) × (crash_image_at (length s3.log) fates s3 ≡ some img)
        × (get_elem? img i ≡ get_elem? s.durable i)
  root_survives fates i h apart =
      let same = write_all_at-durable b slot s s3 root_write in
      let apart' : (i < b) ⊎ (b + length slot ≤ i) =
        subst (λ k. (i < b) ⊎ (b + k ≤ i)) (sym slot_long) apart in
      let (img, e, v) =
        crash_image_at-survives (after_write b slot r root_write) i fates
          (subst (λ d. i < length d) (sym same) h)
          (Spares-write_all_at i b slot s s3 (Reachable-IsReplayed r).start_le root_write apart'
            (subst (AllOf (Spares i)) (sym ready.settled) tt)) in
      (img, e, v ∙ ap (λ d. get_elem? d i) same)

  -- A crash in between leaves slot `a`, and a file that is no shorter.
  root_crash :
      (fates : List Fate)
      → (img : List ℕ) × (crash_image_at (length s3.log) fates s3 ≡ some img)
        × (length s.durable ≤ length img)
        × (slot_status c img a ≡ valid sb)
  root_crash fates =
      let k = ready.committed in
      let last = length s.durable - 1 in
      let beyond : data_start ≤ last = omega (arith, k.start_lt, k.long) in
      let (img, e, v) =
        root_survives fates last (omega (arith, k.start_lt, k.long))
          (apart_from a b last k.slots (inr beyond)) in
      let (x, at) = get_elem?-in_range s.durable last (omega (arith, k.start_lt, k.long)) in
      let long : length s.durable ≤ length img =
        omega (arith, lt_of_get_elem? img last (v ∙ at), k.start_lt, k.long) in
      let fit = (AreSlots-fit a b n k.slots (omega (arith, k.start_lt))).0 in
      let byte : (i : ℕ)
          → a ≤ i
          → i < a + superblock_slot_size
          → get_elem? img i ≡ get_elem? s.durable i =
        λ i l m.
          let (img', e', v') =
            root_survives fates i (omega (arith, k.long)) (apart_from a b i k.slots (inl (l, m))) in
          subst (λ f. get_elem? f i ≡ get_elem? s.durable i) (some_inj (sym e' ∙ e)) v' in
      (
        img,
        e,
        long,
        slot_status-kept c a s.durable img (omega (arith, k.long)) (omega (arith, k.long)) byte
            ∙ k.active,
      )

  -- The sync of the superblock keeps the bytes outside slot `b`.
  pub sync_device-kept :
      (s4 : FaultyState)
      → sync_device faulty s3 ≡ some (DiskResult.ok tt, s4)
      → (i : ℕ) → i < length s.durable
      → (i < b) ⊎ (b + superblock_slot_size ≤ i)
      → get_elem? s4.durable i ≡ get_elem? s.durable i
  sync_device-kept s4 e i h apart =
      let (e1, crash, all, window) =
        sync_device-durable s3 s4 (after_write b slot r root_write) e in
      let (img, ei, same) = root_survives [] i h apart in
      subst (λ f. get_elem? f i ≡ get_elem? s.durable i) (some_inj (sym ei ∙ crash)) same

  -- A crash between the write of the superblock and its sync resumes from the old superblock or
  -- from the new one, where a torn slot decodes as nothing, as an earlier superblock or as the new
  -- one.
  pub write_bytes-crash :
      (fates : List Fate)
      → ((img : List ℕ)
          → crash_image_at (length s3.log) fates s3 ≡ some img
          → IsOlder sb (slot_status c img b) ⊎ (slot_status c img b ≡ valid new))
      → (img : List ℕ) × (crash_image_at (length s3.log) fates s3 ≡ some img)
        × ((recover c img ≡ DiskResult.ok sb) ⊎ (recover c img ≡ DiskResult.ok new))
  write_bytes-crash fates detected =
      let k = ready.committed in
      let (img, e, long, active) = root_crash fates in
      (
        img,
        e,
        elim (detected img e) [
          | inl older ↦
              inl
                (recover_newest c img a b sb k.slots active (omega (arith, k.within, k.long)) older)
          | inr fresh ↦ inr (
              recover_newest c img b a new (AreSlots-swap a b k.slots) fresh
                (omega (arith, ready.covered)) (subst (IsOlder new) (sym active) ready.newer))
        ],
      )

  -- The sync of the superblock commits the new generation.
  pub sync_device-IsCommitted :
      (s4 : FaultyState)
      → sync_device faulty s3 ≡ some (DiskResult.ok tt, s4)
      → IsCommitted c new b a new.watermark s4
        × Reachable image s4
        × (drop s4.window_start s4.log ≡ [])
  sync_device-IsCommitted s4 e =
      let k = ready.committed in
      let r3 = after_write b slot r root_write in
      let (e1, crash, all, window) = sync_device-durable s3 s4 r3 e in
      let (img, ei, long', active') = root_crash [] in
      let file : img ≡ s4.durable = some_inj (sym ei ∙ crash) in
      let long : length s.durable ≤ length s4.durable =
        subst (λ f. length s.durable ≤ length f) file long' in
      let old = subst (λ f. slot_status c f a ≡ valid sb) file active' in
      let (far, same) = sync_device-write b slot s s3 s4 r root_write e in
      let fit = (AreSlots-fit a b n k.slots (omega (arith, k.start_lt))).1 in
      let fresh : slot_status c s4.durable b ≡ valid new =
        ap
          (λ t.
            if t then invalid else decode_slot c (take superblock_slot_size (drop b s4.durable)))
          (ltb-false (length s4.durable) (b + superblock_slot_size) (omega (arith, k.long)))
        ∙ ap (decode_slot c) (subst (λ m. take m (drop b s4.durable) ≡ slot) slot_long same)
        ∙ (decode_slot-encode_slot c new slot ready.laws ready.sane ready.encoded).1 in
      (
        record {
          slots = AreSlots-swap a b k.slots;
          active = fresh;
          older = subst (IsOlder new) (sym old) ready.newer;
          within = omega arith;
          start_lt = omega (arith, k.start_lt, ready.reaches);
          long = omega (arith, ready.covered);
          spared = λ i l. subst (AllOf (Spares i)) (sym window) tt;
        },
        after_sync r3 e1,
        window,
      )
