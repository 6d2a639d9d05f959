-- ===== src/Disk/Recovery/Readable.antt =====
-- src/disk.rs on the device of src/vfs.rs: the records of a commit after a crash.
use beetree.Prelude.{
  ℕ, ◌+◌, ◌-◌, ◌≤◌, ◌<◌, ◌≡◌, inr, refl, sym, ap, ◌∙◌, Option, some, List, [], ◌∷◌, length, take,
  drop, replicate, arith, some_inj, AllOf, AllOf-imp, Distinct, take-drop_within, take-drop_cong,
  drop-drop, take-append, take-take, length-take,
}
use mathlib.Core.Path.{subst}
use beetree.Bytes.{u64_mod}
use beetree.Node.{NodeId}
use beetree.Vfs.{FaultyState, Fate}
use beetree.Vfs.Faulty.{crash_image_at, from_image, set_len, resize}
use beetree.Vfs.Crash.{Reachable}
use beetree.Vfs.Survival.{length-resize}
use beetree.Vfs.Counting.{faulty}
use beetree.Format.{Codec, IsCodec, Superblock, record_header_size, data_start}
use beetree.Disk.{DiskEngine, DiskResult, CommitStats}
use beetree.Disk.Commit.{Batch, resolve_offset, empty_batch, serialize}
use beetree.U64Map
use beetree.U64Map.{U64Map}
use beetree.U64Map.Lookup.{AllOf-get}
use beetree.Disk.Commit.Stored.{IsStored, AreStored}
use beetree.Disk.Commit.Serialized.{serialize-AreStored}
use beetree.Disk.Load.{read_record}
use beetree.Disk.Load.Records.{bytes_at}
use beetree.Disk.Load.RoundTrip.{read_record-record_bytes}
use beetree.Disk.Open.{resumed}
use beetree.Disk.Publish.{write_data, superblock_of, publish, sync_device}
use beetree.Disk.Recovery.{recover}
use beetree.Disk.Recovery.Crash.{crash_image_at-IsKept}
use beetree.Disk.Recovery.Device.{sync_device-write, write_bytes-write_all_at}
use beetree.Disk.Recovery.Atomic.{AreSlots-fit, IsCommitted-crash}
use beetree.Disk.Recovery.Root.{sync_device-kept, sync_device-IsCommitted}
use beetree.Disk.Recovery.Commit.{IsWritten, IsPublished, publish-IsPublished}
use beetree.Disk.Recovery.Written.{
  HoldsCommitted, IsSound, new_watermark, with_sync, ready, root_written,
}
use beetree.Disk.Recovery.Durable.{after_commit}

-- The bytes of a buffer that a file holds from `base` on.
bytes_at-buffer :
    (base off n : ℕ) (buf file : List ℕ)
    → bytes_at base (length buf) file ≡ buf
    → base ≤ off
    → off + n ≤ base + length buf
    → bytes_at off n file ≡ bytes_at (off - base) n buf
bytes_at-buffer base off n buf file e h k =
    ap (λ o. take n (drop o file)) (omega (arith, h))
    ∙ ap (take n) (drop-drop base (off - base) file)
    ∙ take-drop_within (off - base) n (length buf) (drop base file) buf e (omega (arith, h, k))

-- A file that was cut off keeps the bytes that are left.
bytes_at-resize :
    (off n len : ℕ) (file : List ℕ)
    → len ≤ length file
    → off + n ≤ len
    → bytes_at off n (resize len file) ≡ bytes_at off n file
bytes_at-resize off n len file h k =
    take-drop_within off n len (resize len file) (take len file)
      (take-append len (take len file) (replicate (len - length file) 0)
          (omega (arith, h, length-take len file))
        ∙ take-take len len file (omega arith))
      k
    ∙ sym (take-drop_within off n len file (take len file) refl k)

-- A record of a batch whose buffer the file holds is read from an engine that resumes there.
read_record-IsStored :
    {D P Q : Type 0} (c : Codec) (s : DiskEngine D P) (base : ℕ) (buf file : List ℕ)
    (sb : Superblock) (cache_budget : Option ℕ) (policy : Q) (assigned : U64Map ℕ) (id : NodeId)
    (offset : ℕ)
    → IsCodec c
    → data_start ≤ base
    → base + length buf ≡ sb.watermark
    → sb.watermark ≤ length file
    → sb.watermark < u64_mod
    → bytes_at base (length buf) file ≡ buf
    → (h : IsStored c s base buf assigned id offset)
    → read_record faulty c offset
        (resumed (set_len sb.watermark (from_image file)) cache_budget policy sb)
      ≡ some (DiskResult.ok (h.on_disk, length h.payload))
unfolding resumed set_len from_image
read_record-IsStored c s base buf file sb cache_budget policy assigned id offset laws start ends
      long small e h =
    let n = record_header_size + length h.payload in
    let resized = length-resize sb.watermark file in
    read_record-record_bytes c
      (resumed (set_len sb.watermark (from_image file)) cache_budget policy sb) offset h.on_disk
      h.payload laws h.encoded h.short
      (bytes_at-resize offset n sb.watermark file long (omega (arith, h.end, ends))
        ∙ bytes_at-buffer base offset n buf file e h.start (omega (arith, h.end))
        ∙ h.bytes)
      (omega (arith, start, h.start)) (omega (arith, h.end, ends)) (omega (arith, resized))
      (omega (arith, resized, small))

-- The buffer that was written and synced stands in the durable bytes.
data_durable :
    {image : List ℕ} (n : ℕ) (buf : List ℕ) (s s1 s2 : FaultyState)
    → Reachable image s
    → write_data faulty n buf s ≡ some (DiskResult.ok tt, s1)
    → sync_device faulty s1 ≡ some (DiskResult.ok tt, s2)
    → bytes_at n (length buf) s2.durable ≡ buf
unfolding write_data
data_durable n [] s s1 s2 r e e' = refl
data_durable n (x ∷ buf) s s1 s2 r e e' =
    (sync_device-write n (x ∷ buf) s s1 s2 r
      (write_bytes-write_all_at n (x ∷ buf) s s1 (DiskResult.ok tt) e) e').1

module _ {P : Type 0} (c : Codec) (laws : IsCodec c) (sb : Superblock) (a b : ℕ) (batch : Batch)
    {image : List ℕ} (s t : DiskEngine FaultyState P) (r : Reachable image s.vfs)
    (holds : HoldsCommitted c sb a b s) (sound : IsSound batch s)
    (p : IsPublished c batch s t) where
  w : IsWritten c batch s
  w = p.written

  -- The sync of the superblock keeps the buffer.
  buffer_durable : bytes_at s.watermark (length batch.buf) t.vfs.durable ≡ batch.buf
  unfolding w
  buffer_durable =
      let synced = with_sync c laws sb a b batch s r holds sound w in
      let k = ready c laws sb a b batch s r holds sound w in
      let root = root_written c laws sb a b batch s r holds sound w in
      let done =
        sync_device-IsCommitted c sb (superblock_of batch w.root_offset s) a b s.watermark w.slot
          w.after_sync w.after_root synced.1 k root t.vfs p.root_synced in
      let marks = new_watermark c laws sb a b batch s r holds sound w in
      let fit = AreSlots-fit a b data_start k.committed.slots (omega arith) in
      take-drop_cong (length batch.buf) s.watermark t.vfs.durable w.after_sync.durable
        (omega (arith, done.0.long, marks)) (omega (arith, k.covered, marks))
        (λ i l m.
          sync_device-kept c sb (superblock_of batch w.root_offset s) a b s.watermark w.slot
            w.after_sync w.after_root synced.1 k root t.vfs p.root_synced i
            (omega (arith, k.covered, marks)) (inr (omega (arith, fit.1, k.committed.start_lt, l))))
      ∙ data_durable s.watermark batch.buf s.vfs w.after_data w.after_sync r w.data_written
          w.data_synced

  -- Every crash keeps the buffer, and resumes from the new superblock.
  buffer_crash :
      (fates : List Fate)
      → (img : List ℕ) × (crash_image_at (length t.vfs.log) fates t.vfs ≡ some img)
        × (recover c img ≡ DiskResult.ok (superblock_of batch w.root_offset s))
        × (s.watermark + length batch.buf ≤ length img)
        × (bytes_at s.watermark (length batch.buf) img ≡ batch.buf)
  unfolding w
  buffer_crash fates =
      let new = superblock_of batch w.root_offset s in
      let (k, rt, settled) = after_commit c laws sb a b batch s t r holds sound p in
      let marks = new_watermark c laws sb a b batch s r holds sound w in
      let (img, e, kept) =
        crash_image_at-IsKept rt new.watermark fates (omega (arith, k.start_lt)) k.long k.spared in
      let (img', e', answer) = IsCommitted-crash c new b a new.watermark t.vfs rt k fates in
      (
        img,
        e,
        subst (λ f. recover c f ≡ DiskResult.ok new) (some_inj (sym e' ∙ e)) answer,
        omega (arith, kept.long, marks),
        take-drop_cong (length batch.buf) s.watermark img t.vfs.durable
              (omega (arith, kept.long, marks)) (omega (arith, k.long, marks))
              (λ i l m. kept.same i (omega (arith, marks)))
            ∙ buffer_durable,
      )

-- What the engine that resumes from a file reads at an offset: the record of that node.
abbrev pub IsRead :
    {P Q : Type 0}
    → Codec
    → DiskEngine FaultyState P
    → Batch
    → Superblock
    → List ℕ
    → Option ℕ
    → Q
    → NodeId
    → ℕ
    → Type 0
IsRead c s batch sb file cache_budget policy id offset =
    (h : IsStored c s s.watermark batch.buf batch.assigned id offset) × (read_record faulty c offset
        (resumed (set_len sb.watermark (from_image file)) cache_budget policy sb)
      ≡ some (DiskResult.ok (h.on_disk, length h.payload)))

-- Every one of these nodes has an offset, where its record is read, and so is the record of every node
-- that has an offset.
pub record AreRead {P Q : Type 0} (c : Codec) (s : DiskEngine FaultyState P) (ids : List NodeId)
    (batch : Batch) (sb : Superblock) (file : List ℕ) (cache_budget : Option ℕ) (policy : Q)
    : Type 0 where
  pub listed :
      AllOf
        (λ id.
          (offset : ℕ) × (U64Map.get id batch.assigned ≡ some offset)
          × IsRead c s batch sb file cache_budget policy id offset)
        ids
  pub records : AllOf (λ q. IsRead c s batch sb file cache_budget policy q.0 q.1) batch.assigned

AreStored-AreRead :
    {P Q : Type 0} (c : Codec) (s : DiskEngine FaultyState P) (ids : List NodeId) (batch : Batch)
    (sb : Superblock) (file : List ℕ) (cache_budget : Option ℕ) (policy : Q)
    → ((id : NodeId) (offset : ℕ)
        → IsStored c s s.watermark batch.buf batch.assigned id offset
        → IsRead c s batch sb file cache_budget policy id offset)
    → AreStored c s s.watermark ids batch
    → AreRead c s ids batch sb file cache_budget policy
AreStored-AreRead c s ids batch sb file cache_budget policy read stored =
    let records = AllOf-imp (λ q h. read q.0 q.1 h) batch.assigned stored.records in
    record {
      listed =
          AllOf-imp
            (λ id h. (
              h.0,
              h.1,
              AllOf-get (λ q. IsRead c s batch sb file cache_budget policy q.0 q.1) id h.0
                  batch.assigned records h.1,
            ))
            ids stored.listed;
      records = records;
    }

-- A commit that succeeds, of the records of distinct nodes, on a device that holds a superblock, where
-- the records and generations stay below 2 ^ 64, the root's record lies in the data and the parameters
-- are legal: every crash after it leaves a file that resumes from a superblock of the root's offset.
-- Each node of the commit has an offset, where the engine that resumes there reads that node as it was
-- written, with the offset of each child's record, in turn, in place of the child: the one assigned by
-- this commit where the child is dirty, the stored one where it is not.
pub publish-read_record :
    {P Q : Type 0} (c : Codec) (sb : Superblock) (a b : ℕ) (ids : List NodeId) (batch : Batch)
    {image : List ℕ} (s t : DiskEngine FaultyState P) (stats : CommitStats)
    (cache_budget : Option ℕ) (policy : Q) (fates : List Fate)
    → IsCodec c
    → Reachable image s.vfs
    → HoldsCommitted c sb a b s
    → IsSound batch s
    → Distinct ids
    → serialize c ids s.watermark empty_batch s ≡ some (DiskResult.ok batch)
    → publish faulty c batch s ≡ some (DiskResult.ok stats, t)
    → (new : Superblock) × (img : List ℕ) × (resolve_offset s.root batch.assigned s
        ≡ some new.root_offset)
      × (crash_image_at (length t.vfs.log) fates t.vfs ≡ some img)
      × (recover c img ≡ DiskResult.ok new)
      × AreRead c s ids batch new img cache_budget policy
unfolding w superblock_of
publish-read_record c sb a b ids batch s t stats cache_budget policy fates laws r holds sound
      distinct made run =
    let p = publish-IsPublished c batch s t stats run in
    let new = superblock_of batch p.written.root_offset s in
    let (img, e, answer, long, buffer) =
      buffer_crash c laws sb a b batch s t r holds sound p fates in
    let marks = new_watermark c laws sb a b batch s r holds sound p.written in
    (
      new,
      img,
      p.written.resolved,
      e,
      answer,
      AreStored-AreRead c s ids batch new img cache_budget policy
          (λ id offset h. (
            h,
            read_record-IsStored c s s.watermark batch.buf img new cache_budget policy
                batch.assigned id offset laws (omega (arith, holds.device.start_lt)) (sym marks)
                (omega (arith, marks, long)) (omega (arith, marks, sound.fits)) buffer h,
          ))
          (serialize-AreStored c s s.watermark ids batch distinct made sound.fits),
    )
