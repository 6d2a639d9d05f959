-- ===== src/Disk/Recovery/Durable.antt =====
-- src/disk.rs on the device of src/vfs.rs: a commit and its crashes.
use beetree.Prelude.{ℕ, ◌+◌, ◌≡◌, inl, inr, sym, ap, ◌∙◌, some, List, [], length, drop, arith}
use mathlib.Core.Path.{subst}
use beetree.Bytes.{wrapping_add}
use beetree.Vfs.{FaultyState, Fate}
use beetree.Vfs.Crash.{Reachable}
use beetree.Vfs.Counting.{faulty}
use beetree.Format.{Codec, IsCodec, Superblock}
use beetree.Disk.{DiskEngine, DiskResult, CommitStats}
use beetree.Disk.Commit.{Batch}
use beetree.Disk.Publish.{superblock_of, publish, slot_of}
use beetree.Disk.Recovery.Atomic.{AreSlots, IsCommitted, IsCommitted-crash}
use beetree.Disk.Recovery.Root.{sync_device-IsCommitted}
use beetree.Disk.Recovery.Written.{
  HoldsCommitted, IsSound, CrashesTo, new_watermark, new_generation, with_data, with_sync, ready,
  root_written,
}
use beetree.Disk.Recovery.Commit.{IsPublished, publish-IsPublished}

slot_of_next : (a b g : ℕ) → AreSlots a b → slot_of g ≡ b → slot_of (g + 1) ≡ a
slot_of_next a b g slots h = elim slots [
  | inl (ea, eb) ↦ ground (arith, h, ea, eb)
  | inr (ea, eb) ↦ ground (arith, h, ea, eb)
]

module _ {P : Type 0} (c : Codec) (laws : IsCodec c) (sb : Superblock) (a b : ℕ) (batch : Batch)
    {image : List ℕ} (s t : DiskEngine FaultyState P) (r : Reachable image s.vfs)
    (holds : HoldsCommitted c sb a b s) (sound : IsSound batch s)
    (p : IsPublished c batch s t) where
  abbrev fresh : Superblock
  fresh = superblock_of batch p.written.root_offset s

  fresh_watermark : fresh.watermark ≡ s.watermark + length batch.buf
  fresh_watermark = new_watermark c laws sb a b batch s r holds sound p.written

  pub after_commit :
      IsCommitted c fresh b a fresh.watermark t.vfs
      × Reachable image t.vfs
      × (drop t.vfs.window_start t.vfs.log ≡ [])
  after_commit =
      let w = p.written in
      sync_device-IsCommitted c sb fresh a b s.watermark w.slot w.after_sync w.after_root
        (with_sync c laws sb a b batch s r holds sound w).1
        (ready c laws sb a b batch s r holds sound w)
        (root_written c laws sb a b batch s r holds sound w) t.vfs p.root_synced

  committed_next : HoldsCommitted c fresh b a t
  unfolding wrapping_add
  committed_next = record {
    device =
        subst (λ w. IsCommitted c fresh b a w t.vfs)
          (fresh_watermark ∙ sym (p.watermark ∙ omega (arith, sound.fits))) after_commit.0;
    generation = omega (
      arith,
      p.generation,
      sound.counts,
      new_generation c laws sb a b batch s r holds sound p.written,
    );
    next_slot =
        ap slot_of (p.generation ∙ omega (arith, sound.counts))
        ∙ slot_of_next a b s.next_generation holds.device.slots holds.next_slot;
  }

-- A commit that succeeds, on a device that holds the superblock `sb`, where the records and generations
-- end below 2 ^ 64, the root's record lies in the data and the parameters are legal: a crash before it, after the
-- data was written, and after the data was synced, with any fates, resumes from `sb`; a crash after
-- it resumes from the superblock of this commit, which the device now holds in the other slot.
pub publish-crash :
    {P : Type 0} (c : Codec) (sb : Superblock) (a b : ℕ) (batch : Batch) {image : List ℕ}
    (s t : DiskEngine FaultyState P) (stats : CommitStats) (fates : List Fate)
    → IsCodec c
    → Reachable image s.vfs
    → HoldsCommitted c sb a b s
    → IsSound batch s
    → publish faulty c batch s ≡ some (DiskResult.ok stats, t)
    → (p : IsPublished c batch s t) × CrashesTo c sb fates s.vfs
      × CrashesTo c sb fates p.written.after_data
      × CrashesTo c sb fates p.written.after_sync
      × CrashesTo c (superblock_of batch p.written.root_offset s) fates t.vfs
      × HoldsCommitted c (superblock_of batch p.written.root_offset s) b a t
      × Reachable image t.vfs
publish-crash c sb a b batch s t stats fates laws r holds sound run =
    let p = publish-IsPublished c batch s t stats run in
    let written = with_data c laws sb a b batch s r holds sound p.written in
    let synced = with_sync c laws sb a b batch s r holds sound p.written in
    let fresh = after_commit c laws sb a b batch s t r holds sound p in
    let new = superblock_of batch p.written.root_offset s in
    (
      p,
      IsCommitted-crash c sb a b s.watermark s.vfs r holds.device fates,
      IsCommitted-crash c sb a b s.watermark p.written.after_data written.1 written.0 fates,
      IsCommitted-crash c sb a b s.watermark p.written.after_sync synced.1 synced.0 fates,
      IsCommitted-crash c new b a new.watermark t.vfs fresh.1 fresh.0 fates,
      committed_next c laws sb a b batch s t r holds sound p,
      fresh.1,
    )
