-- ===== src/Disk/Commit/Serialized.antt =====
-- src/disk.rs, `commit_inner`: the nodes of a commit are serialized one after the other.
use beetree.Prelude.{
  ℕ, ◌+◌, ◌-◌, ◌^◌, ◌≤◌, ◌<◌, ◌≡◌, ◌≢◌, inl, inr, refl, sym, ap, ◌∙◌, none, some, List, [], ◌∷◌,
  ◌++◌, length, take, drop, ltb, arith, bind_some, some_inj, Bool-cases, AllOf, drop-append_exact,
  take-length, AllOf-imp, Distinct, length-append,
}
use mathlib.Core.Path.{subst}
use beetree.Bytes.{u64_mod, wrapping_add}
use beetree.Node.{NodeId, Node}
use beetree.U64Map
use beetree.U64Map.{U64Map}
use beetree.U64Map.Lookup.{get-insert_self, get-insert_ne, AllOf-insert}
use beetree.Disk.Commit.Pointers.{IsWrittenAs-keep, disk_node-IsWrittenAs}
use beetree.Format.{Codec, DiskNode, encode_node, record_header_size}
use beetree.Disk.{DiskEngine, DiskResult, DiskError}
use beetree.Disk.Arena.{loaded}
use beetree.Disk.Commit.{
  Batch, empty_batch, disk_node, record_bytes, add_record, node_payload, serialize,
}
use beetree.Disk.Commit.Stored.{
  IsStored, AreStored, IsStored-append, none_ne_some, AllOf-all, err_ne_ok, value_ok, and_then-ok,
  length-record_bytes, encoding_ok, fresh_after,
}

module _ {D P : Type 0} (c : Codec) (s : DiskEngine D P) (base : ℕ) where
  -- What a payload is.
  node_payload_parts :
      (id : NodeId) (assigned : U64Map ℕ) (payload : List ℕ)
      → node_payload c id assigned s ≡ some (DiskResult.ok payload)
      → (node : Node) × (on_disk : DiskNode) × (loaded id s ≡ some node)
        × (disk_node node assigned s ≡ some on_disk)
        × (encode_node c on_disk ≡ some payload)
  unfolding node_payload
  node_payload_parts id assigned payload h =
      let (node, e, h1) = bind_some (loaded id s) h in
      let (on_disk, e', h2) = bind_some (disk_node node assigned s) h1 in
      (node, on_disk, e, e', encoding_ok (encode_node c on_disk) payload h2)

  -- The batch after one more record.
  add_record_parts :
      (id : NodeId) (batch batch' : Batch) (payload : List ℕ)
      → add_record c id base batch payload ≡ some (DiskResult.ok batch')
      → (length payload < 2 ^ 32)
        × (batch'.buf ≡ batch.buf ++ record_bytes c payload)
        × (batch'.assigned ≡ U64Map.insert id (wrapping_add base (length batch.buf)) batch.assigned)
  unfolding add_record
  add_record_parts id batch batch' payload h =
      elim (Bool-cases (ltb (2 ^ 32 - 1) (length payload))) [
        | inl long ↦
            absurd (
              err_ne_ok (DiskError.node_too_large (length payload)) batch'
                (some_inj (rw long at h)))
        | inr short ↦
            let same = value_ok _ batch' (some_inj (rw short at h)) in
            (ground (arith, short), sym (ap (λ b. b.buf) same), sym (ap (λ b. b.assigned) same))
      ]

  abbrev RecordsOf : List ℕ → U64Map ℕ → Type 0
  RecordsOf buf assigned = AllOf (λ p. IsStored c s base buf assigned p.0 p.1) assigned

  -- The record that joins a batch with room in the file.
  added_record :
      (id : NodeId) (batch : Batch) (payload : List ℕ) (m : U64Map ℕ)
      → node_payload c id batch.assigned s ≡ some (DiskResult.ok payload)
      → length payload < 2 ^ 32
      → base + length (batch.buf ++ record_bytes c payload) < u64_mod
      → ((k : NodeId) (v : ℕ) → U64Map.get k batch.assigned ≡ some v → U64Map.get k m ≡ some v)
      → IsStored c s base
          (batch.buf ++ record_bytes c payload)
          m
          id
          (wrapping_add base (length batch.buf))
  unfolding wrapping_add
  added_record id batch payload m got short fits keeps =
      let (node, written, e1, e2, e3) = node_payload_parts id batch.assigned payload got in
      let grown = length-append batch.buf (record_bytes c payload) in
      let long = length-record_bytes c payload in
      let rec = record_bytes c payload in
      let at : wrapping_add base (length batch.buf) ≡ base + length batch.buf =
        omega (arith, fits, grown) in
      record {
        node = node;
        on_disk = written;
        payload = payload;
        resident = e1;
        resolved =
            IsWrittenAs-keep s batch.assigned m keeps node written
              (disk_node-IsWrittenAs s batch.assigned node written e2);
        encoded = e3;
        short = short;
        start = omega (arith, at);
        end = omega (arith, at, grown, long);
        bytes =
            ap (λ k. take (record_header_size + length payload) (drop k (batch.buf ++ rec)))
              (omega (arith, at))
            ∙ ap (take (record_header_size + length payload))
                (drop-append_exact (length batch.buf) batch.buf rec refl)
            ∙ take-length rec (record_header_size + length payload) (omega (arith, long));
      }

  -- The batch after one more record, of a node that has no offset yet.
  RecordsOf-add :
      (id : NodeId) (batch batch' : Batch) (payload : List ℕ)
      → node_payload c id batch.assigned s ≡ some (DiskResult.ok payload)
      → add_record c id base batch payload ≡ some (DiskResult.ok batch')
      → base + length batch'.buf < u64_mod
      → U64Map.get id batch.assigned ≡ none
      → RecordsOf batch.buf batch.assigned
      → RecordsOf batch'.buf batch'.assigned
  RecordsOf-add id batch batch' payload got added fits fresh h =
      let (short, ebuf, eassigned) = add_record_parts id batch batch' payload added in
      let rec = record_bytes c payload in
      let offset = wrapping_add base (length batch.buf) in
      let m = U64Map.insert id offset batch.assigned in
      let keeps : (k : NodeId) (v : ℕ)
          → U64Map.get k batch.assigned ≡ some v
          → U64Map.get k m ≡ some v =
        λ k v e.
          get-insert_ne k id offset batch.assigned
            (λ same. none_ne_some (sym fresh ∙ ap (λ j. U64Map.get j batch.assigned) same ∙ e))
          ∙ e in
      let room : base + length (batch.buf ++ rec) < u64_mod =
        subst (λ buf. base + length buf < u64_mod) ebuf fits in
      let last = added_record id batch payload m got short room keeps in
      let before =
        AllOf-imp (λ p h'. IsStored-append c s base batch.buf rec batch.assigned m p.0 p.1 keeps h')
          batch.assigned h in
      let all =
        AllOf-insert (λ p. IsStored c s base (batch.buf ++ rec) m p.0 p.1) id offset batch.assigned
          last before in
      subst (λ buf. RecordsOf buf batch'.assigned) (sym ebuf)
        (subst (RecordsOf (batch.buf ++ rec)) (sym eassigned) all)

  -- What serializing distinct nodes, none of which has an offset yet, leaves.
  pub record IsGrown (ids : List NodeId) (batch batch' : Batch) : Type 0 where
    pub longer : length batch.buf ≤ length batch'.buf
    pub keeps :
        (k : NodeId)
        → AllOf (λ id. id ≢ k) ids
        → U64Map.get k batch'.assigned ≡ U64Map.get k batch.assigned
    pub listed : AllOf (λ id. (offset : ℕ) × (U64Map.get id batch'.assigned ≡ some offset)) ids

  -- One record more, and the rest.
  IsGrown-cons :
      (id : NodeId) (ids : List NodeId) (batch mid batch' : Batch) (payload : List ℕ)
      → AllOf (λ k. id ≢ k) ids
      → add_record c id base batch payload ≡ some (DiskResult.ok mid)
      → IsGrown ids mid batch'
      → IsGrown (id ∷ ids) batch batch'
  IsGrown-cons id ids batch mid batch' payload others added rest =
      let (short, ebuf, eassigned) = add_record_parts id batch mid payload added in
      let offset = wrapping_add base (length batch.buf) in
      record {
        longer = omega (
          arith,
          rest.longer,
          ap (λ l. length l) ebuf,
          length-append batch.buf (record_bytes c payload),
        );
        keeps = λ k away.
            rest.keeps k away.1
            ∙ ap (U64Map.get k) eassigned
            ∙ get-insert_ne k id offset batch.assigned away.0;
        listed = (
          (
            offset,
            rest.keeps id (AllOf-imp (λ k differ e. differ (sym e)) ids others)
                ∙ ap (U64Map.get id) eassigned
                ∙ get-insert_self id offset batch.assigned,
          ),
          rest.listed,
        );
      }

  serialize-IsGrown :
      (ids : List NodeId) (batch batch' : Batch)
      → Distinct ids
      → serialize c ids base batch s ≡ some (DiskResult.ok batch')
      → IsGrown ids batch batch'
  unfolding serialize
  serialize-IsGrown [] batch batch' distinct h =
      let same = value_ok batch batch' (some_inj h) in
      record {
        longer = subst (λ b. length batch.buf ≤ length b.buf) same (omega arith);
        keeps = λ k away. ap (λ b. U64Map.get k b.assigned) (sym same);
        listed = tt;
      }
  serialize-IsGrown (id ∷ ids) batch batch' distinct h =
      let (payload, got, h1) = and_then-ok (node_payload c id batch.assigned s) _ batch' h in
      let (mid, added, h2) = and_then-ok (add_record c id base batch payload) _ batch' h1 in
      IsGrown-cons id ids batch mid batch' payload distinct.0 added
        (serialize-IsGrown ids mid batch' distinct.1 h2)

  serialize-RecordsOf :
      (ids : List NodeId) (batch batch' : Batch)
      → Distinct ids
      → AllOf (λ id. U64Map.get id batch.assigned ≡ none) ids
      → serialize c ids base batch s ≡ some (DiskResult.ok batch')
      → base + length batch'.buf < u64_mod
      → RecordsOf batch.buf batch.assigned
      → RecordsOf batch'.buf batch'.assigned
  unfolding serialize
  serialize-RecordsOf [] batch batch' distinct fresh h fits stored =
      subst (λ b. RecordsOf b.buf b.assigned) (value_ok batch batch' (some_inj h)) stored
  serialize-RecordsOf (id ∷ ids) batch batch' distinct fresh h fits stored =
      let (payload, got, h1) = and_then-ok (node_payload c id batch.assigned s) _ batch' h in
      let (mid, added, h2) = and_then-ok (add_record c id base batch payload) _ batch' h1 in
      let (short, ebuf, eassigned) = add_record_parts id batch mid payload added in
      let grown = serialize-IsGrown ids mid batch' distinct.1 h2 in
      serialize-RecordsOf ids mid batch' distinct.1
        (fresh_after _ id ids batch mid distinct.0 fresh.1 eassigned) h2 fits
        (RecordsOf-add id batch mid payload got added (omega (arith, fits, grown.longer)) fresh.0
          stored)

-- The serialization of distinct nodes that succeeds, in a file that stays below 2 ^ 64 bytes: each of
-- the nodes has an offset, and at every offset assigned the buffer holds the whole record of that node,
-- below 2 ^ 32 bytes long. In it stands, for each child in turn, the offset of the child's record: the
-- one assigned by this serialization where the child is dirty, the stored one where it is not.
pub serialize-AreStored :
    {D P : Type 0} (c : Codec) (s : DiskEngine D P) (base : ℕ) (ids : List NodeId) (batch : Batch)
    → Distinct ids
    → serialize c ids base empty_batch s ≡ some (DiskResult.ok batch)
    → base + length batch.buf < u64_mod
    → AreStored c s base ids batch
unfolding U64Map.get
serialize-AreStored c s base ids batch distinct h fits = record {
  listed = (serialize-IsGrown c s base ids empty_batch batch distinct h).listed;
  records =
      serialize-RecordsOf c s base ids empty_batch batch distinct (AllOf-all (λ id. refl) ids) h
        fits tt;
}
