-- ===== src/Disk/Commit/Stored.antt =====
-- src/disk.rs, `commit_inner`: the records of a commit.
use beetree.Prelude.{
  ℕ, ◌+◌, ◌-◌, ◌^◌, ◌≤◌, ◌<◌, ◌≡◌, ◌≢◌, refl, ap, ◌∙◌, Option, none, some, List, [], ◌∷◌, ◌++◌,
  length, take, drop, arith, some_inj, AllOf, take-append, drop-append, length-append, length-drop,
}
use beetree.Bytes.{le_bytes}
use beetree.Node.{NodeId, Node}
use beetree.U64Map
use beetree.U64Map.{U64Map}
use beetree.U64Map.Lookup.{get-insert_ne}
use beetree.Disk.Commit.Pointers.{IsWrittenAs, IsWrittenAs-keep}
use beetree.Format.{Codec, DiskNode, encode_node, record_header_size}
use beetree.Disk.{DiskEngine, DiskResult, DiskError}
use beetree.Disk.Arena.{loaded}
use beetree.Disk.Load.{and_then}
use beetree.Disk.Load.Records.{bytes_at}
use beetree.Disk.Commit.{Batch, record_bytes}

-- A record of a batch: it lies in the buffer, which starts at `base` of the file, and holds the node of
-- that id. In place of each child stands the offset of the child's record: for a dirty child the one
-- that `assigned` has for it.
pub record IsStored {D P : Type 0} (c : Codec) (s : DiskEngine D P) (base : ℕ) (buf : List ℕ)
    (assigned : U64Map ℕ) (id : NodeId) (offset : ℕ) : Type 0 where
  pub node : Node
  pub on_disk : DiskNode
  pub payload : List ℕ
  pub resident : loaded id s ≡ some node
  pub resolved : IsWrittenAs s assigned node on_disk
  pub encoded : encode_node c on_disk ≡ some payload
  pub short : length payload < 2 ^ 32
  pub start : base ≤ offset
  pub end : offset + record_header_size + length payload ≤ base + length buf
  pub bytes :
      bytes_at (offset - base) (record_header_size + length payload) buf ≡ record_bytes c payload

-- The records of a batch of these nodes: every node has an offset, and at every offset that is assigned
-- stands the record of its node.
pub record AreStored {D P : Type 0} (c : Codec) (s : DiskEngine D P) (base : ℕ) (ids : List NodeId)
    (batch : Batch) : Type 0 where
  pub listed : AllOf (λ id. (offset : ℕ) × (U64Map.get id batch.assigned ≡ some offset)) ids
  pub records : AllOf (λ p. IsStored c s base batch.buf batch.assigned p.0 p.1) batch.assigned

pub err_ne_ok :
    {A : Type 0} (e : DiskError) (a : A)
    → ◌≢◌ {A = DiskResult A} (DiskResult.err e) (DiskResult.ok a)
err_ne_ok e a h = cc

abbrev value_or : {A : Type 0} → A → DiskResult A → A
value_or a (DiskResult.ok b) = b
value_or a (DiskResult.err e) = a

pub value_ok : {A : Type 0} (a b : A) → DiskResult.ok a ≡ DiskResult.ok b → a ≡ b
value_ok a b h = ap (value_or a) h

pub and_then-ok :
    {A B : Type 0} (o : Option (DiskResult A)) (f : A → Option (DiskResult B)) (b : B)
    → and_then o f ≡ some (DiskResult.ok b)
    → (a : A) × (o ≡ some (DiskResult.ok a)) × (f a ≡ some (DiskResult.ok b))
and_then-ok none f b h = cc
and_then-ok (some (DiskResult.err e)) f b h = absurd (err_ne_ok e b (some_inj h))
and_then-ok (some (DiskResult.ok a)) f b h = (a, refl, h)

pub length-record_bytes :
    (c : Codec) (payload : List ℕ)
    → length (record_bytes c payload) ≡ record_header_size + length payload
unfolding le_bytes
length-record_bytes c payload = omega arith

-- A record stays as it is when the buffer grows, and other nodes get offsets.
pub IsStored-append :
    {D P : Type 0} (c : Codec) (s : DiskEngine D P) (base : ℕ) (buf more : List ℕ) (m m' : U64Map ℕ)
    (id : NodeId) (offset : ℕ)
    → ((k : NodeId) (v : ℕ) → U64Map.get k m ≡ some v → U64Map.get k m' ≡ some v)
    → IsStored c s base buf m id offset
    → IsStored c s base (buf ++ more) m' id offset
IsStored-append c s base buf more m m' id offset keeps h =
    let n = record_header_size + length h.payload in
    record {
      node = h.node;
      on_disk = h.on_disk;
      payload = h.payload;
      resident = h.resident;
      resolved = IsWrittenAs-keep s m m' keeps h.node h.on_disk h.resolved;
      encoded = h.encoded;
      short = h.short;
      start = h.start;
      end = omega (arith, h.end, length-append buf more);
      bytes =
          ap (take n) (drop-append (offset - base) buf more (omega (arith, h.end, h.start)))
          ∙ take-append n (drop (offset - base) buf) more
              (omega (arith, h.end, h.start, length-drop (offset - base) buf))
          ∙ h.bytes;
    }

pub encoding_ok :
    (o : Option (List ℕ)) (payload : List ℕ)
    → ◌≡◌ {A = Option (DiskResult (List ℕ))}
        (some (elim o [ none ↦ DiskResult.err DiskError.io | some bytes ↦ DiskResult.ok bytes ]))
        (some (DiskResult.ok payload))
    → o ≡ some payload
encoding_ok none payload h = absurd (err_ne_ok DiskError.io payload (some_inj h))
encoding_ok (some bytes) payload h = ap some (value_ok bytes payload (some_inj h))

pub none_ne_some : {A : Type 0} {a : A} → Path (Option A) none (some a) → ⊥
none_ne_some e = cc

pub AllOf-all : {A : Type 0} {Q : A → Type 0} → ((a : A) → Q a) → (xs : List A) → AllOf Q xs
AllOf-all f [] = tt
AllOf-all f (x ∷ xs) = (f x, AllOf-all f xs)

-- The other nodes have no offset yet.
pub fresh_after :
    (offset : ℕ) (id : NodeId) (ids : List NodeId) (batch mid : Batch)
    → AllOf (λ k. id ≢ k) ids
    → AllOf (λ k. U64Map.get k batch.assigned ≡ none) ids
    → mid.assigned ≡ U64Map.insert id offset batch.assigned
    → AllOf (λ k. U64Map.get k mid.assigned ≡ none) ids
fresh_after offset id [] batch mid away fresh e = tt
fresh_after offset id (k ∷ ids) batch mid away fresh e = (
  ap (U64Map.get k) e ∙ get-insert_ne k id offset batch.assigned away.0 ∙ fresh.0,
  fresh_after offset id ids batch mid away.1 fresh.1 e,
)
