-- ===== src/Disk/Recovery/Aborted.antt =====
-- src/disk.rs on the device of src/vfs.rs: crashes after a commit that failed.
use beetree.Prelude.{ℕ, ◌≡◌, ◌⊎◌, inl, inr, sym, ◌∙◌, some, List, some_inj}
use mathlib.Core.Path.{subst}
use beetree.Vfs.{FaultyState, Fate}
use beetree.Vfs.Crash.{Reachable, after_write}
use beetree.Vfs.Counting.{faulty}
use beetree.Format.{Codec, IsCodec, Superblock, valid}
use beetree.Disk.{DiskEngine, DiskResult, DiskError}
use beetree.Disk.Commit.{Batch, resolve_offset}
use beetree.Disk.Publish.{write_data, sync_device, superblock_of, publish, slot_of}
use beetree.Disk.Recovery.{slot_status, recover}
use beetree.Disk.Recovery.Device.{write_bytes-write_all_at}
use beetree.Disk.Recovery.Atomic.{IsOlder, IsCommitted-sync, IsCommitted-crash}
use beetree.Disk.Recovery.Commit.{IsWritten}
use beetree.Disk.Recovery.Written.{
  HoldsCommitted, IsSound, CrashesTo, IsCommitted-data, with_sync, IsWritten-torn,
}
use beetree.Disk.Recovery.Failed.{IsFailed, sync_device-IsFailed, crash_image_at-settled}
use beetree.Disk.Recovery.Lost.{no_data, no_root, no_sync, publish-Failure}

-- What one crash before a failed sync resumes from, every crash after it does.
CrashesTo-IsFailed :
    (c : Codec) (sb : Superblock) {image : List ℕ} (s s' : FaultyState) (failed : IsFailed s s')
    → Reachable image s'
    → CrashesTo c sb failed.fates s
    → (fates : List Fate) → CrashesTo c sb fates s'
CrashesTo-IsFailed c sb s s' failed r (img, e, answer) fates = (
  s'.durable,
  crash_image_at-settled s' r failed.settled fates,
  subst (λ f. recover c f ≡ DiskResult.ok sb) (some_inj (sym e ∙ failed.image)) answer,
)

module _ {P : Type 0} (c : Codec) (laws : IsCodec c) (sb : Superblock) (a b : ℕ) (batch : Batch)
    {image : List ℕ} (s t : DiskEngine FaultyState P) (r : Reachable image s.vfs)
    (holds : HoldsCommitted c sb a b s) (sound : IsSound batch s) where
  no_data-CrashesTo :
      (d : FaultyState) (e : DiskError) (fates : List Fate)
      → write_data faulty s.watermark batch.buf s.vfs ≡ some (DiskResult.ok tt, d)
      → sync_device faulty d ≡ some (DiskResult.err e, t.vfs)
      → CrashesTo c sb fates t.vfs
  no_data-CrashesTo d e fates written failed =
      let (k, rd) =
        IsCommitted-data c sb a b s.watermark batch.buf s.vfs d r holds.device written in
      let (lost, rt) = sync_device-IsFailed d t.vfs e rd failed in
      CrashesTo-IsFailed c sb d t.vfs lost rt
        (IsCommitted-crash c sb a b s.watermark d rd k lost.fates) fates

  no_root-CrashesTo :
      (d : FaultyState) (fates : List Fate)
      → write_data faulty s.watermark batch.buf s.vfs ≡ some (DiskResult.ok tt, d)
      → sync_device faulty d ≡ some (DiskResult.ok tt, t.vfs)
      → CrashesTo c sb fates t.vfs
  no_root-CrashesTo d fates written synced =
      let (k, rd) =
        IsCommitted-data c sb a b s.watermark batch.buf s.vfs d r holds.device written in
      let (k', rt, settled) = IsCommitted-sync c sb a b s.watermark d t.vfs rd k synced in
      IsCommitted-crash c sb a b s.watermark t.vfs rt k' fates

  no_sync-CrashesTo :
      (w : IsWritten c batch s) (e : DiskError) (fates : List Fate)
      → sync_device faulty w.after_root ≡ some (DiskResult.err e, t.vfs)
      → IsOlder sb (slot_status c t.vfs.durable b)
        ⊎ (slot_status c t.vfs.durable b ≡ valid (superblock_of batch w.root_offset s))
      → CrashesTo c sb fates t.vfs ⊎ CrashesTo c (superblock_of batch w.root_offset s) fates t.vfs
  no_sync-CrashesTo w e fates failed detected =
      let new = superblock_of batch w.root_offset s in
      let r2 = (with_sync c laws sb a b batch s r holds sound w).1 in
      let slot = slot_of s.next_generation in
      let r3 = after_write slot w.slot r2 (
        write_bytes-write_all_at slot w.slot w.after_sync w.after_root (DiskResult.ok tt)
          w.root_written) in
      let (lost, rt) = sync_device-IsFailed w.after_root t.vfs e r3 failed in
      let torn = IsWritten-torn c laws sb a b batch s r holds sound w lost.fates (λ img at.
        subst (λ f. IsOlder sb (slot_status c f b) ⊎ (slot_status c f b ≡ valid new))
          (some_inj (sym lost.image ∙ at)) detected) in
      elim torn [
        | inl old ↦ inl (CrashesTo-IsFailed c sb w.after_root t.vfs lost rt old fates)
        | inr fresh ↦ inr (CrashesTo-IsFailed c new w.after_root t.vfs lost rt fresh fates)
      ]

-- A commit that fails, on a device that holds the superblock `sb`, where the records and generations end
-- below 2 ^ 64, the root's record lies in the data and the parameters are legal, and where the slot that it writes shows
-- nothing, an earlier superblock or the new one in what the failure left durable: every crash after
-- it resumes from `sb` or from the superblock of this commit.
pub publish-lost :
    {P : Type 0} (c : Codec) (sb : Superblock) (a b : ℕ) (batch : Batch) {image : List ℕ}
    (s t : DiskEngine FaultyState P) (e : DiskError) (root_offset : ℕ) (fates : List Fate)
    → IsCodec c
    → Reachable image s.vfs
    → HoldsCommitted c sb a b s
    → IsSound batch s
    → resolve_offset s.root batch.assigned s ≡ some root_offset
    → IsOlder sb (slot_status c t.vfs.durable b)
      ⊎ (slot_status c t.vfs.durable b ≡ valid (superblock_of batch root_offset s))
    → publish faulty c batch s ≡ some (DiskResult.err e, t)
    → CrashesTo c sb fates t.vfs ⊎ CrashesTo c (superblock_of batch root_offset s) fates t.vfs
publish-lost c sb a b batch s t e root_offset fates laws r holds sound resolved detected run =
    elim (publish-Failure c batch s t e run) [
      | no_data d x e1 e2 ↦
          inl (no_data-CrashesTo c laws sb a b batch s t r holds sound d x fates e1 e2)
      | no_root d e1 e2 ↦
          inl (no_root-CrashesTo c laws sb a b batch s t r holds sound d fates e1 e2)
      | no_sync w x failed ↦
          let same : root_offset ≡ w.root_offset = some_inj (sym resolved ∙ w.resolved) in
          subst
            (λ o. CrashesTo c sb fates t.vfs ⊎ CrashesTo c (superblock_of batch o s) fates t.vfs)
            (sym same)
            (no_sync-CrashesTo c laws sb a b batch s t r holds sound w x fates failed (
              subst
                (λ o.
                  IsOlder sb (slot_status c t.vfs.durable b)
                  ⊎ (slot_status c t.vfs.durable b ≡ valid (superblock_of batch o s)))
                same detected))
    ]
