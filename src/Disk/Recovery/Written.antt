-- ===== src/Disk/Recovery/Written.antt =====
-- src/disk.rs on the device of src/vfs.rs: a commit up to the write of its superblock.
use beetree.Prelude.{
  ℕ, ◌+◌, ◌≤◌, ◌<◌, ◌≡◌, ◌⊎◌, inl, inr, refl, sym, ap, some, List, [], ◌∷◌, length, drop, arith,
  some_inj,
}
use mathlib.Core.Path.{subst}
use beetree.Bytes.{u64_mod, wrapping_add}
use beetree.Vfs.{FaultyState, Fate}
use beetree.Vfs.Faulty.{crash_image_at}
use beetree.Vfs.Crash.{Reachable}
use beetree.Vfs.Counting.{faulty}
use beetree.Format.{Codec, IsCodec, Superblock, valid, data_start, record_header_size}
use beetree.Format.Slots.{IsSane}
use beetree.Disk.{DiskEngine, DiskResult}
use beetree.Disk.Commit.{Batch, resolve_offset}
use beetree.Disk.Publish.{write_data, write_bytes, sync_device, superblock_of, slot_of}
use beetree.Disk.Recovery.{slot_status, recover}
use beetree.Disk.Recovery.Device.{write_bytes-write_all_at, sync_device-write}
use beetree.Disk.Recovery.Atomic.{IsOlder, IsCommitted, IsCommitted-write, IsCommitted-sync}
use beetree.Disk.Recovery.Root.{IsReady, write_bytes-crash}
use beetree.Disk.Recovery.Commit.{IsWritten}

-- An engine whose device holds the superblock `sb` in slot `a`, and which commits to slot `b` next.
pub record HoldsCommitted {P : Type 0} (c : Codec) (sb : Superblock) (a b : ℕ)
    (s : DiskEngine FaultyState P) : Type 0 where
  pub device : IsCommitted c sb a b s.watermark s.vfs
  pub generation : s.next_generation ≡ sb.generation + 1
  pub next_slot : slot_of s.next_generation ≡ b

-- What the records of a commit are: they end, and the generations stay, below 2 ^ 64, the root's
-- record lies in the data that there is then, and the parameters are legal.
pub record IsSound {P : Type 0} (batch : Batch) (s : DiskEngine FaultyState P) : Type 0 where
  pub fits : s.watermark + length batch.buf < u64_mod
  pub counts : s.next_generation + 1 < u64_mod
  pub root :
      (offset : ℕ)
      → resolve_offset s.root batch.assigned s ≡ some offset
      → (data_start ≤ offset) × (offset + record_header_size ≤ s.watermark + length batch.buf)
  pub fanout : 2 ≤ s.params.fanout
  pub buffer_capacity : 1 ≤ s.params.buffer_capacity
  pub leaf_capacity : 1 ≤ s.params.leaf_capacity

-- A crash of the device, with these fates, leaves a file that resumes from `sb`.
abbrev pub CrashesTo : Codec → Superblock → List Fate → FaultyState → Type 0
CrashesTo c sb fates s =
    (img : List ℕ) × (crash_image_at (length s.log) fates s ≡ some img)
    × (recover c img ≡ DiskResult.ok sb)

pub IsCommitted-data :
    (c : Codec) (sb : Superblock) (a b n : ℕ) {image : List ℕ} (buf : List ℕ) (s s' : FaultyState)
    → Reachable image s
    → IsCommitted c sb a b n s
    → write_data faulty n buf s ≡ some (DiskResult.ok tt, s')
    → IsCommitted c sb a b n s' × Reachable image s'
unfolding write_data
IsCommitted-data c sb a b n [] s s' r h e =
    let same = ap (λ p. p.1) (some_inj e) in
    (subst (IsCommitted c sb a b n) same h, subst (Reachable _) same r)
IsCommitted-data c sb a b n (x ∷ buf) s s' r h e =
    IsCommitted-write c sb a b n n (x ∷ buf) s s' (DiskResult.ok tt) r h (omega arith) e

-- The data that was written and synced is within the durable bytes.
data_covered :
    (c : Codec) (sb : Superblock) (a b n : ℕ) {image : List ℕ} (buf : List ℕ)
    (s s1 s2 : FaultyState)
    → Reachable image s
    → IsCommitted c sb a b n s2
    → write_data faulty n buf s ≡ some (DiskResult.ok tt, s1)
    → sync_device faulty s1 ≡ some (DiskResult.ok tt, s2)
    → n + length buf ≤ length s2.durable
unfolding write_data
data_covered c sb a b n [] s s1 s2 r h e e' = omega (arith, h.long)
data_covered c sb a b n (x ∷ buf) s s1 s2 r h e e' =
    (sync_device-write n (x ∷ buf) s s1 s2 r
      (write_bytes-write_all_at n (x ∷ buf) s s1 (DiskResult.ok tt) e) e').0

module _ {P : Type 0} (c : Codec) (laws : IsCodec c) (sb : Superblock) (a b : ℕ) (batch : Batch)
    {image : List ℕ} (s : DiskEngine FaultyState P) (r : Reachable image s.vfs)
    (holds : HoldsCommitted c sb a b s) (sound : IsSound batch s) (w : IsWritten c batch s) where
  abbrev pub new : Superblock
  new = superblock_of batch w.root_offset s

  pub new_watermark : new.watermark ≡ s.watermark + length batch.buf
  unfolding superblock_of wrapping_add
  new_watermark = omega (arith, sound.fits)

  pub new_generation : new.generation ≡ s.next_generation
  unfolding superblock_of
  new_generation = refl

  pub new-IsSane : IsSane new
  unfolding superblock_of
  new-IsSane =
      let (start, end) = sound.root w.root_offset w.resolved in
      record {
        magic = refl;
        version = refl;
        root_start = start;
        root_end = subst (λ end. w.root_offset + record_header_size ≤ end) (sym new_watermark) end;
        fanout = sound.fanout;
        buffer_capacity = sound.buffer_capacity;
        leaf_capacity = sound.leaf_capacity;
      }

  pub with_data : IsCommitted c sb a b s.watermark w.after_data × Reachable image w.after_data
  with_data =
      IsCommitted-data c sb a b s.watermark batch.buf s.vfs w.after_data r holds.device
        w.data_written

  pub with_sync :
      IsCommitted c sb a b s.watermark w.after_sync
      × Reachable image w.after_sync
      × (drop w.after_sync.window_start w.after_sync.log ≡ [])
  with_sync =
      IsCommitted-sync c sb a b s.watermark w.after_data w.after_sync with_data.1 with_data.0
        w.data_synced

  pub ready : IsReady c sb new a b s.watermark w.slot w.after_sync
  ready = record {
    committed = with_sync.0;
    settled = with_sync.2;
    laws = laws;
    sane = new-IsSane;
    encoded = w.encoded;
    newer = omega (arith, new_generation, holds.generation);
    reaches = omega (arith, new_watermark);
    covered = omega (
      arith,
      new_watermark,
      data_covered c sb a b s.watermark batch.buf s.vfs w.after_data w.after_sync r with_sync.0
          w.data_written w.data_synced,
    );
  }

  pub root_written :
      write_bytes faulty b w.slot w.after_sync ≡ some (DiskResult.ok tt, w.after_root)
  root_written =
      subst (λ o. write_bytes faulty o w.slot w.after_sync ≡ some (DiskResult.ok tt, w.after_root))
        holds.next_slot w.root_written

  -- Where a torn slot decodes as nothing, as an earlier superblock or as the new one, a crash
  -- between the write of the superblock and its sync resumes from the old superblock or from the
  -- new one.
  pub IsWritten-torn :
      (fates : List Fate)
      → ((img : List ℕ)
          → crash_image_at (length w.after_root.log) fates w.after_root ≡ some img
          → IsOlder sb (slot_status c img b) ⊎ (slot_status c img b ≡ valid new))
      → CrashesTo c sb fates w.after_root ⊎ CrashesTo c new fates w.after_root
  IsWritten-torn fates detected =
      let (img, e, answer) =
        write_bytes-crash c sb new a b s.watermark w.slot w.after_sync w.after_root with_sync.1
          ready root_written fates detected in
      elim answer [ inl old ↦ inl (img, e, old) | inr fresh ↦ inr (img, e, fresh) ]
