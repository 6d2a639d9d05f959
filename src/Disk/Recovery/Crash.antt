-- ===== src/Disk/Recovery/Crash.antt =====
-- src/disk.rs and src/vfs.rs: what a file resumes from after a crash.
use beetree.Prelude.{
  ltb-false, ◌-◌, ℕ, ◌+◌, ◌≤◌, ◌<◌, ◌≡◌, refl, sym, ap, ◌∙◌, some, List, length, take, drop,
  get_elem?, if◌then◌else◌, arith, take-drop_cong, AllOf, lt_of_get_elem?, get_elem?-in_range,
  some_inj,
}
use mathlib.Core.Path.{subst}
use beetree.Vfs.{FaultyState, Fate}
use beetree.Vfs.Faulty.{crash_image_at}
use beetree.Vfs.Crash.{Reachable}
use beetree.Vfs.Survival.{Spares, crash_image_at-survives}
use beetree.Format.{
  Codec, SlotStatus, valid, wrong_version, invalid, decode_slot, superblock_slot_size, data_start,
}
use beetree.Disk.Open.{Found, consider, verdict, nothing_found}
use beetree.Disk.Recovery.{slot_status, recover}

-- The bytes below `n` that a device keeps are in the file of a crash.
pub record IsKept (n : ℕ) (before after : List ℕ) : Type 0 where
  pub long : n ≤ length after
  pub same : (i : ℕ) → i < n → get_elem? after i ≡ get_elem? before i

-- A slot whose bytes are kept keeps its status.
pub slot_status-kept :
    (c : Codec) (off : ℕ) (f g : List ℕ)
    → off + superblock_slot_size ≤ length f
    → off + superblock_slot_size ≤ length g
    → ((i : ℕ) → off ≤ i → i < off + superblock_slot_size → get_elem? g i ≡ get_elem? f i)
    → slot_status c g off ≡ slot_status c f off
slot_status-kept c off f g h k e =
    let read : List ℕ → SlotStatus =
      λ file. decode_slot c (take superblock_slot_size (drop off file)) in
    let here : (file : List ℕ)
        → off + superblock_slot_size ≤ length file
        → slot_status c file off ≡ read file =
      λ file l.
        ap (λ b. if b then invalid else read file)
          (ltb-false (length file) (off + superblock_slot_size) l) in
    here g k
    ∙ ap (decode_slot c) (take-drop_cong superblock_slot_size off g f k h e)
    ∙ sym (here f h)

-- A valid superblock lies within `n` bytes.
abbrev pub LiesWithin : ℕ → SlotStatus → Type 0
LiesWithin n (valid sb) = sb.watermark ≤ n
LiesWithin n (wrong_version v) = Unit
LiesWithin n invalid = Unit

consider_cong :
    (n l m : ℕ) (status : SlotStatus) (found : Found)
    → LiesWithin n status
    → n ≤ l
    → n ≤ m
    → consider l status found ≡ consider m status found
unfolding consider
consider_cong n l m (valid sb) found h hl hm =
    ap (λ b. if b then record found { best = some sb } else found) (ground (arith, h))
consider_cong n l m (wrong_version v) found h hl hm = refl
consider_cong n l m invalid found h hl hm = refl

-- Bytes that no pending operation touches are kept by every crash.
pub crash_image_at-IsKept :
    {image : List ℕ} {s : FaultyState}
    → Reachable image s
    → (n : ℕ) (fates : List Fate) → 0 < n
    → n ≤ length s.durable
    → ((i : ℕ) → i < n → AllOf (Spares i) (drop s.window_start s.log))
    → (img : List ℕ) × (crash_image_at (length s.log) fates s ≡ some img) × IsKept n s.durable img
crash_image_at-IsKept {s = s} r n fates pos long spared =
    let byte : (i : ℕ)
        → i < n
        → (img : List ℕ) × (crash_image_at (length s.log) fates s ≡ some img)
          × (get_elem? img i ≡ get_elem? s.durable i) =
      λ i l. crash_image_at-survives r i fates (omega arith) (spared i l) in
    let (img, e, last) = byte (n - 1) (omega arith) in
    let same : (i : ℕ) → i < n → get_elem? img i ≡ get_elem? s.durable i = λ i l.
      let (img', e', b) = byte i l in
      subst (λ f. get_elem? f i ≡ get_elem? s.durable i) (some_inj (sym e' ∙ e)) b in
    let (v, at) = get_elem?-in_range s.durable (n - 1) (omega arith) in
    (img, e, record { long = omega (arith, lt_of_get_elem? img (n - 1) (last ∙ at)); same = same })

-- Both slots keep their status, and so does what the file resumes from.
recover-IsKept :
    (c : Codec) (n : ℕ) (f g : List ℕ)
    → data_start ≤ n
    → n ≤ length f
    → IsKept n f g
    → LiesWithin n (slot_status c f 0)
    → LiesWithin n (slot_status c f superblock_slot_size)
    → recover c g ≡ recover c f
unfolding recover
recover-IsKept c n f g start long kept within0 within1 =
    let status : (off : ℕ)
        → off + superblock_slot_size ≤ n
        → slot_status c g off ≡ slot_status c f off =
      λ off fits.
        slot_status-kept c off f g (omega arith) (omega (arith, kept.long))
          (λ i l m. kept.same i (omega arith)) in
    let s0 = status 0 (omega arith) in
    let s1 = status superblock_slot_size (omega arith) in
    ap verdict (
      ap
        (λ st.
          consider (length g) (slot_status c g superblock_slot_size)
            (consider (length g) st nothing_found))
        s0
      ∙ ap (λ st. consider (length g) st (consider (length g) (slot_status c f 0) nothing_found)) s1
      ∙ ap (consider (length g) (slot_status c f superblock_slot_size)) (
          consider_cong n (length g) (length f) (slot_status c f 0) nothing_found within0 kept.long
            long)
      ∙ consider_cong n (length g) (length f) (slot_status c f superblock_slot_size) _ within1
          kept.long long)

-- On a device that requests have led to from an image: when no pending operation touches the first
-- `n` durable bytes, which hold both slots and all that their superblocks point at, a crash with any
-- fates leaves a file that resumes from the same superblock, or refuses with the same error, as
-- the durable bytes do.
pub crash_image_at-recover :
    {image : List ℕ} {s : FaultyState} (c : Codec)
    → Reachable image s
    → (n : ℕ) (fates : List Fate) → data_start ≤ n
    → n ≤ length s.durable
    → ((i : ℕ) → i < n → AllOf (Spares i) (drop s.window_start s.log))
    → LiesWithin n (slot_status c s.durable 0)
    → LiesWithin n (slot_status c s.durable superblock_slot_size)
    → (img : List ℕ) × (crash_image_at (length s.log) fates s ≡ some img)
      × (recover c img ≡ recover c s.durable)
crash_image_at-recover {s = s} c r n fates start long spared within0 within1 =
    let (img, e, kept) = crash_image_at-IsKept r n fates (omega arith) long spared in
    (img, e, recover-IsKept c n s.durable img start long kept within0 within1)
