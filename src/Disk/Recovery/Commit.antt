-- ===== src/Disk/Recovery/Commit.antt =====
-- src/disk.rs on the device of src/vfs.rs: a whole commit.
use beetree.Prelude.{
  ℕ, ◌≡◌, ◌≢◌, refl, sym, ap, ◌∙◌, Option, none, some, List, [], ◌∷◌, length, get_elem?, bind_some,
  some_inj,
}
use mathlib.Core.Path.{subst}
use beetree.Bytes.{wrapping_add}
use beetree.U64Map
use beetree.U64Map.{U64Map}
use beetree.Vfs.{FaultyState}
use beetree.Vfs.Counting.{faulty}
use beetree.Format.{Codec, encode_slot}
use beetree.Disk.{
  DiskEngine, DiskResult, DiskError, NodeSlot, loaded_slot, on_disk, freed, CommitStats, io,
}
use beetree.Disk.Cache.{enforce_budget}
use beetree.Disk.Cache.Budget.{enforce_budget-IsSettled}
use beetree.Disk.Commit.{Batch, resolve_offset}
use beetree.Disk.Publish.{
  write_bytes, write_data, sync_device, on_device, publish_data, publish_root, clean, clean_slot,
  clean_all, adopt, superblock_of, unless_failed, publish, slot_of,
}

err_ne_ok :
    {A D : Type 0} (e : DiskError) (d d' : D) {a : A}
    → ◌≢◌ {A = DiskResult A × D} (DiskResult.err e, d) (DiskResult.ok a, d')
err_ne_ok e d d' h = cc (ap (λ p. p.0) h)

-- Steps that all succeeded.
pub on_device-ok :
    {D : Type 0} (o : Option (DiskResult (Unit {0}) × D))
    (f : D → Option (DiskResult (Unit {0}) × D)) (d' : D)
    → on_device o f ≡ some (DiskResult.ok tt, d')
    → (d : D) × (o ≡ some (DiskResult.ok tt, d)) × (f d ≡ some (DiskResult.ok tt, d'))
on_device-ok none f d' h = cc
on_device-ok (some (DiskResult.err e, d)) f d' h = absurd (err_ne_ok e d d' (some_inj h))
on_device-ok (some (DiskResult.ok a, d)) f d' h = (d, refl, h)

module _ {D P : Type 0} where
  unless_failed-ok :
      (o : Option (DiskResult (Unit {0}) × D)) (s s' : DiskEngine D P)
      (f : DiskEngine D P → Option (DiskResult CommitStats × DiskEngine D P)) (stats : CommitStats)
      → unless_failed o s f ≡ some (DiskResult.ok stats, s')
      → (d : D) × (o ≡ some (DiskResult.ok tt, d))
        × (f (record s { vfs = d }) ≡ some (DiskResult.ok stats, s'))
  unless_failed-ok none s s' f stats h = cc
  unless_failed-ok (some (DiskResult.err e, d)) s s' f stats h =
      absurd (err_ne_ok e (record s { vfs = d }) s' (some_inj h))
  unless_failed-ok (some (DiskResult.ok a, d)) s s' f stats h = (d, refl, h)

  -- The device, the watermark and the next generation.
  abbrev pub header : DiskEngine D P → D × ℕ × ℕ
  header s = (s.vfs, s.watermark, s.next_generation)

  header-clean_slot :
      (id offset : ℕ) (lens : U64Map ℕ) (s t : DiskEngine D P) (slot : NodeSlot)
      → clean_slot id offset lens s slot ≡ some t
      → header t ≡ header s
  header-clean_slot id offset lens s t (on_disk o) h = cc
  header-clean_slot id offset lens s t freed h = cc
  header-clean_slot id offset lens s t (loaded_slot r) h =
      let (exact, e, h') = bind_some (U64Map.get id lens) h in ap header (sym (some_inj h'))

  header-clean :
      (id offset : ℕ) (lens : U64Map ℕ) (s t : DiskEngine D P)
      → clean id offset lens s ≡ some t
      → header t ≡ header s
  unfolding clean
  header-clean id offset lens s t h =
      let (slot, at, h') = bind_some (get_elem? s.slots id) h in
      header-clean_slot id offset lens s t slot h'

  header-clean_all :
      (assigned lens : U64Map ℕ) (s t : DiskEngine D P)
      → clean_all assigned lens s ≡ some t
      → header t ≡ header s
  unfolding clean_all
  header-clean_all [] lens s t h = ap header (sym (some_inj h))
  header-clean_all ((id, offset) ∷ assigned) lens s t h =
      let (u, e, h') = bind_some (clean id offset lens s) h in
      header-clean_all assigned lens u t h' ∙ header-clean id offset lens s u e

  header-adopt :
      (batch : Batch) (s t : DiskEngine D P) (stats : CommitStats)
      → adopt batch s ≡ some (DiskResult.ok stats, t)
      → header t
        ≡ (s.vfs, wrapping_add s.watermark (length batch.buf), wrapping_add s.next_generation 1)
  unfolding adopt
  header-adopt batch s t stats h =
      let (u, e, h') = bind_some (clean_all batch.assigned batch.record_lens _) h in
      let (v, e', h'') = bind_some (enforce_budget [] none u) h' in
      ap (λ p. header p.1) (sym (some_inj h''))
      ∙ ap header (enforce_budget-IsSettled [] none u v e').frame
      ∙ header-clean_all batch.assigned batch.record_lens _ u e

abbrev pub with_vfs : {D P : Type 0} → DiskEngine D P → D → DiskEngine D P
with_vfs s d = record s { vfs = d }

-- What a commit has done to the device when its superblock is written, but not synced.
pub record IsWritten {P : Type 0} (c : Codec) (batch : Batch) (s : DiskEngine FaultyState P)
    : Type 0 where
  pub after_data : FaultyState
  pub after_sync : FaultyState
  pub after_root : FaultyState
  pub root_offset : ℕ
  pub slot : List ℕ
  pub resolved : resolve_offset s.root batch.assigned s ≡ some root_offset
  pub encoded : encode_slot c (superblock_of batch root_offset s) ≡ some slot
  pub data_written :
      write_data faulty s.watermark batch.buf s.vfs ≡ some (DiskResult.ok tt, after_data)
  pub data_synced : sync_device faulty after_data ≡ some (DiskResult.ok tt, after_sync)
  pub root_written :
      write_bytes faulty (slot_of s.next_generation) slot after_sync
      ≡ some (DiskResult.ok tt, after_root)

-- What a commit that succeeded has done to the device.
pub record IsPublished {P : Type 0} (c : Codec) (batch : Batch) (s t : DiskEngine FaultyState P)
    : Type 0 where
  pub written : IsWritten c batch s
  pub root_synced : sync_device faulty written.after_root ≡ some (DiskResult.ok tt, t.vfs)
  pub watermark : t.watermark ≡ wrapping_add s.watermark (length batch.buf)
  pub generation : t.next_generation ≡ wrapping_add s.next_generation 1

publish_root-ok :
    (slot : ℕ) (o : Option (List ℕ)) (d d' : FaultyState)
    → publish_root faulty slot o d ≡ some (DiskResult.ok tt, d')
    → (bytes : List ℕ) × (d1 : FaultyState) × (o ≡ some bytes)
      × (write_bytes faulty slot bytes d ≡ some (DiskResult.ok tt, d1))
      × (sync_device faulty d1 ≡ some (DiskResult.ok tt, d'))
unfolding publish_root
publish_root-ok slot none d d' h = absurd (err_ne_ok io d d' (some_inj h))
publish_root-ok slot (some bytes) d d' h =
    let (d1, e1, e2) = on_device-ok (write_bytes faulty slot bytes d) (sync_device faulty) d' h in
    (bytes, d1, refl, e1, e2)

pub publish-IsPublished :
    {P : Type 0} (c : Codec) (batch : Batch) (s t : DiskEngine FaultyState P) (stats : CommitStats)
    → publish faulty c batch s ≡ some (DiskResult.ok stats, t)
    → IsPublished c batch s t
unfolding publish publish_data resolve_offset superblock_of
publish-IsPublished c batch s t stats h =
    let (d2, e, h1) =
      unless_failed-ok (publish_data faulty s.watermark batch.buf s.vfs) s t _ stats h in
    let (d1, e1, e2) =
      on_device-ok (write_data faulty s.watermark batch.buf s.vfs) (sync_device faulty) d2 e in
    let (root_offset, er, h2) =
      bind_some (resolve_offset s.root batch.assigned (record s { vfs = d2 })) h1 in
    let s1 = with_vfs s d2 in
    let (d4, e4, h3) =
      unless_failed-ok
        (publish_root faulty (slot_of s.next_generation)
          (encode_slot c (superblock_of batch root_offset s1)) d2)
        s1 t (adopt batch) stats h2 in
    let (slot, d3, es, e3, e3') =
      publish_root-ok (slot_of s.next_generation)
        (encode_slot c (superblock_of batch root_offset s1)) d2 d4 e4 in
    let adopted = header-adopt batch (with_vfs s1 d4) t stats h3 in
    record {
      written = record {
        after_data = d1;
        after_sync = d2;
        after_root = d3;
        root_offset = root_offset;
        slot = slot;
        resolved = er;
        encoded = es;
        data_written = e1;
        data_synced = e2;
        root_written = e3;
      };
      root_synced =
          subst (λ d. sync_device faulty d3 ≡ some (DiskResult.ok tt, d))
            (sym (ap (λ p. p.0) adopted)) e3';
      watermark = ap (λ p. p.1) adopted;
      generation = ap (λ p. p.2) adopted;
    }
