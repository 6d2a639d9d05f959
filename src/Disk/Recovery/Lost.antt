-- ===== src/Disk/Recovery/Lost.antt =====
-- src/disk.rs on the device of src/vfs.rs: what a commit that failed leaves.
use beetree.Prelude.{
  ℕ, ◌≡◌, ◌≢◌, ◌⊎◌, inl, inr, refl, sym, ap, Option, none, some, List, [], ◌∷◌, bind_some, some_inj,
  Option-cases,
}
use mathlib.Core.Path.{subst}
use beetree.Vfs.{FaultyState}
use beetree.Vfs.Faulty.{write_all_at}
use beetree.Vfs.Counting.{faulty}
use beetree.Format.{Codec, encode_slot}
use beetree.Disk.{DiskEngine, DiskResult, DiskError, CommitStats}
use beetree.Disk.Cache.{enforce_budget}
use beetree.Disk.Commit.{Batch, resolve_offset}
use beetree.Disk.Publish.{
  write_bytes, write_data, sync_device, on_device, publish_data, publish_root, adopt, clean_all,
  superblock_of, unless_failed, publish, slot_of,
}
use beetree.Disk.Recovery.Commit.{IsWritten, on_device-ok, with_vfs}

-- Where a commit failed: at the sync of its data, at the encoding of its superblock, or at the sync
-- of its superblock.
pub data Failure {P : Type 0} (c : Codec) (batch : Batch) (s t : DiskEngine FaultyState P)
    : Type 0 where
  no_data :
      (d : FaultyState) (e : DiskError)
      → write_data faulty s.watermark batch.buf s.vfs ≡ some (DiskResult.ok tt, d)
      → sync_device faulty d ≡ some (DiskResult.err e, t.vfs)
      → Failure c batch s t
  no_root :
      (d : FaultyState)
      → write_data faulty s.watermark batch.buf s.vfs ≡ some (DiskResult.ok tt, d)
      → sync_device faulty d ≡ some (DiskResult.ok tt, t.vfs)
      → Failure c batch s t
  no_sync :
      (w : IsWritten c batch s) (e : DiskError)
      → sync_device faulty w.after_root ≡ some (DiskResult.err e, t.vfs)
      → Failure c batch s t

ok_ne_err :
    {A D : Type 0} (e : DiskError) (a : A) (d d' : D)
    → ◌≢◌ {A = DiskResult A × D} (DiskResult.ok a, d) (DiskResult.err e, d')
ok_ne_err e a d d' h = cc (ap (λ p. p.0) h)

-- Steps of which one failed.
on_device-err :
    {D : Type 0} (o : Option (DiskResult (Unit {0}) × D))
    (f : D → Option (DiskResult (Unit {0}) × D)) (e : DiskError) (d' : D)
    → on_device o f ≡ some (DiskResult.err e, d')
    → (o ≡ some (DiskResult.err e, d'))
      ⊎ ((d : D) × (o ≡ some (DiskResult.ok tt, d)) × (f d ≡ some (DiskResult.err e, d')))
on_device-err none f e d' h = cc
on_device-err (some (DiskResult.err x, d)) f e d' h = inl h
on_device-err (some (DiskResult.ok a, d)) f e d' h = inr (d, refl, h)

abbrev without_stats : DiskResult CommitStats → DiskResult (Unit {0})
without_stats (DiskResult.ok stats) = DiskResult.ok tt
without_stats (DiskResult.err e) = DiskResult.err e

unless_failed-err :
    {D P : Type 0} (o : Option (DiskResult (Unit {0}) × D)) (s t : DiskEngine D P) (e : DiskError)
    (f : DiskEngine D P → Option (DiskResult CommitStats × DiskEngine D P))
    → unless_failed o s f ≡ some (DiskResult.err e, t)
    → (o ≡ some (DiskResult.err e, t.vfs))
      ⊎ ((d : D) × (o ≡ some (DiskResult.ok tt, d))
          × (f (record s { vfs = d }) ≡ some (DiskResult.err e, t)))
unless_failed-err none s t e f h = cc
unless_failed-err (some (DiskResult.err x, d)) s t e f h =
    inl (ap some (ap (λ p. (without_stats p.0, p.1.vfs)) (some_inj h)))
unless_failed-err (some (DiskResult.ok a, d)) s t e f h = inr (d, refl, h)

adopt_ne_err :
    {D P : Type 0} (batch : Batch) (s t : DiskEngine D P) (e : DiskError)
    → adopt batch s ≡ some (DiskResult.err e, t)
    → ⊥
unfolding adopt
adopt_ne_err batch s t e h =
    let (u, e1, h') = bind_some (clean_all batch.assigned batch.record_lens _) h in
    let (v, e2, h'') = bind_some (enforce_budget [] none u) h' in ok_ne_err e _ _ t (some_inj h'')

-- A write of the device answers with success.
write_bytes-ok :
    (off : ℕ) (bytes : List ℕ) (s s' : FaultyState) (answer : DiskResult (Unit {0}))
    → write_bytes faulty off bytes s ≡ some (answer, s')
    → answer ≡ DiskResult.ok tt
unfolding write_bytes faulty
write_bytes-ok off bytes s s' answer h = elim (Option-cases (write_all_at off bytes s)) [
  | inl e ↦ cc (rw e at h)
  | inr (q, e) ↦ sym (ap (λ p. p.0) (some_inj (rw e at h)))
]

write_data-ok :
    (off : ℕ) (bytes : List ℕ) (s s' : FaultyState) (answer : DiskResult (Unit {0}))
    → write_data faulty off bytes s ≡ some (answer, s')
    → answer ≡ DiskResult.ok tt
unfolding write_data
write_data-ok off [] s s' answer h = sym (ap (λ p. p.0) (some_inj h))
write_data-ok off (x ∷ bytes) s s' answer h = write_bytes-ok off (x ∷ bytes) s s' answer h

ok_ne_err_answer :
    (e : DiskError) → ◌≢◌ {A = DiskResult (Unit {0})} (DiskResult.err e) (DiskResult.ok tt)
ok_ne_err_answer e h = cc

-- The superblock was not encoded, or its sync failed.
publish_root-err :
    (slot : ℕ) (o : Option (List ℕ)) (d d' : FaultyState) (e : DiskError)
    → publish_root faulty slot o d ≡ some (DiskResult.err e, d')
    → (d ≡ d')
      ⊎ ((bytes : List ℕ) × (d1 : FaultyState) × (o ≡ some bytes)
          × (write_bytes faulty slot bytes d ≡ some (DiskResult.ok tt, d1))
          × (sync_device faulty d1 ≡ some (DiskResult.err e, d')))
unfolding publish_root
publish_root-err slot none d d' e h = inl (ap (λ p. p.1) (some_inj h))
publish_root-err slot (some bytes) d d' e h =
    elim (on_device-err (write_bytes faulty slot bytes d) (sync_device faulty) e d' h) [
      | inl wrong ↦
          absurd (ok_ne_err_answer e (write_bytes-ok slot bytes d d' (DiskResult.err e) wrong))
      | inr (d1, e1, e2) ↦ inr (bytes, d1, refl, e1, e2)
    ]

pub publish-Failure :
    {P : Type 0} (c : Codec) (batch : Batch) (s t : DiskEngine FaultyState P) (e : DiskError)
    → publish faulty c batch s ≡ some (DiskResult.err e, t)
    → Failure c batch s t
unfolding publish publish_data resolve_offset superblock_of
publish-Failure c batch s t e h =
    elim (unless_failed-err (publish_data faulty s.watermark batch.buf s.vfs) s t e _ h) [
      | inl failed ↦
          elim (on_device-err (write_data faulty s.watermark batch.buf s.vfs) (sync_device faulty) e
            t.vfs failed) [
              | inl wrong ↦ absurd (
                  ok_ne_err_answer e
                    (write_data-ok s.watermark batch.buf s.vfs t.vfs (DiskResult.err e) wrong))
              | inr (d1, e1, e2) ↦ no_data d1 e e1 e2
            ]
      | inr (d2, done, h1) ↦
          let (d1, e1, e2) =
            on_device-ok (write_data faulty s.watermark batch.buf s.vfs) (sync_device faulty) d2
              done in
          let (root_offset, er, h2) =
            bind_some (resolve_offset s.root batch.assigned (with_vfs s d2)) h1 in
          let s1 = with_vfs s d2 in
          let slot = encode_slot c (superblock_of batch root_offset s1) in
          elim (unless_failed-err (publish_root faulty (slot_of s.next_generation) slot d2) s1 t e
            (adopt batch) h2) [
              | inl failed ↦
                  elim (publish_root-err (slot_of s.next_generation) slot d2 t.vfs e failed) [
                    | inl same ↦
                        no_root d1 e1
                          (subst (λ d. sync_device faulty d1 ≡ some (DiskResult.ok tt, d)) same e2)
                    | inr (bytes, d3, es, e3, e4) ↦
                        no_sync
                          (record {
                            after_data = d1;
                            after_sync = d2;
                            after_root = d3;
                            root_offset = root_offset;
                            slot = bytes;
                            resolved = er;
                            encoded = es;
                            data_written = e1;
                            data_synced = e2;
                            root_written = e3;
                          })
                          e e4
                  ]
              | inr (d4, all, h3) ↦ absurd (adopt_ne_err batch (with_vfs s1 d4) t e h3)
            ]
    ]
