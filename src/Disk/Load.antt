-- ===== src/Disk/Load.antt =====
-- src/disk.rs: reading and validating a record, and loading a node on first access.
pub mod Records
pub mod RoundTrip
use beetree.Prelude.{
  ℕ, ◌+◌, ◌-◌, Bool, true, false, ◌&&◌, ◌||◌, ◌==◌, Option, none, some, List, [], ◌∷◌, length,
  get_elem?, set, take, drop, ltb, leb, if◌then◌else◌, ◌>>=◌,
}
use beetree.Bytes.{wrapping_add, from_le_bytes}
use beetree.Node.{NodeId, Node}
use beetree.Vfs.{IoResult}
use beetree.Vfs.Counting.{Vfs}
use beetree.Format.{Codec, DiskNode, decode_node, data_start, record_header_size}
use beetree.Disk.{DiskEngine, io, corrupt_node, DiskResult, loaded_slot, on_disk, freed, Resident}
use beetree.Disk.Cache.{touch, enforce_budget}
use beetree.Disk.Arena.{alloc_on_disk}

-- The next step of a computation that may panic or report an error.
abbrev pub and_then :
    {A B : Type 0} → Option (DiskResult A) → (A → Option (DiskResult B)) → Option (DiskResult B)
and_then none f = none
and_then (some (DiskResult.err e)) f = some (DiskResult.err e)
and_then (some (DiskResult.ok a)) f = f a

-- `?` on an `io::Result`.
abbrev pub from_io : {A : Type 0} → Option (IoResult A) → Option (DiskResult A)
from_io none = none
from_io (some (IoResult.ok a)) = some (DiskResult.ok a)
from_io (some IoResult.unexpected_eof) = some (DiskResult.err io)
from_io (some IoResult.other) = some (DiskResult.err io)

-- A state change that may panic, after which the answer is known.
abbrev pub with_ok : {A S : Type 0} → A → Option S → Option (DiskResult A × S)
with_ok a o = do s ← o; some (DiskResult.ok a, s)

-- Every child's record stands in the data region, below its parent's.
unfoldable pub children_below : ℕ → List ℕ → Bool
children_below offset [] = true
children_below offset (child ∷ children) =
    let rest = children_below offset children in
    if ltb child data_start || leb offset child then false else rest

-- `decode_node(&payload).map_err(corrupt)?`, with the length of the payload.
abbrev pub decoded : ℕ → ℕ → Option DiskNode → Option (DiskResult (DiskNode × ℕ))
decoded offset len none = some (DiskResult.err (corrupt_node offset))
decoded offset len (some node) = some (DiskResult.ok (node, len))

module _ {D P : Type 0} (vfs : Vfs D) (c : Codec) where
  -- The payload, under the header of its record.
  unfoldable pub read_payload : ℕ → ℕ → ℕ → DiskEngine D P → Option (DiskResult (DiskNode × ℕ))
  unfolding decode_node
  read_payload offset len stored_crc s =
      if ltb (s.watermark - (offset + record_header_size)) len
      then some (DiskResult.err (corrupt_node offset))
      else and_then (from_io (vfs.read_exact_at (offset + record_header_size) len s.vfs))
          (λ payload.
            if c.crc payload == stored_crc
            then decoded offset (length payload) (decode_node c payload)
            else some (DiskResult.err (corrupt_node offset)))

  unfoldable pub read_record : ℕ → DiskEngine D P → Option (DiskResult (DiskNode × ℕ))
  unfolding read_payload
  read_record offset s =
      if ltb offset data_start || ltb (s.watermark - record_header_size) offset
      then some (DiskResult.err (corrupt_node offset))
      else and_then (from_io (vfs.read_exact_at offset record_header_size s.vfs)) (λ header.
        read_payload offset (from_le_bytes (take 4 header)) (from_le_bytes (drop 4 header)) s)

module _ {D P : Type 0} where
  unfoldable pub alloc_children : List ℕ → DiskEngine D P → Option (List NodeId × DiskEngine D P)
  alloc_children [] s = some ([], s)
  alloc_children (offset ∷ offsets) s = do
    (id, s') ← alloc_on_disk offset s
    (ids, s'') ← alloc_children offsets s'
    some (id ∷ ids, s'')

  -- The node of a record, after the validation of its structure.
  unfoldable pub connect : ℕ → DiskNode → DiskEngine D P → Option (DiskResult Node × DiskEngine D P)
  unfolding alloc_children children_below
  connect offset (DiskNode.leaf entries) s = some (DiskResult.ok (Node.leaf entries), s)
  connect offset (DiskNode.internal pivots children buffer) s =
      if length children == length pivots + 1 && children_below offset children
      then (do
        (ids, s') ← alloc_children children s
        some (DiskResult.ok (Node.internal pivots ids buffer), s'))
      else some (DiskResult.err (corrupt_node offset), s)

  -- The slot of a node that was just read.
  unfoldable pub install :
      NodeId → ℕ → ℕ → List NodeId → Node → DiskEngine D P → Option (DiskEngine D P)
  install id offset payload_len pins node s = do
    slot ← get_elem? s.slots id
    let bytes = wrapping_add record_header_size payload_len
    let fresh : Resident = record {
      node = node;
      dirty = false;
      disk_offset = some offset;
      bytes = bytes;
      last_tick = 0;
    }
    s' ← touch id (record s {
      slots = set s.slots id (loaded_slot fresh);
      cache = record s.cache {
        bytes = wrapping_add s.cache.bytes bytes;
        resident = wrapping_add s.cache.resident 1;
        misses = wrapping_add s.cache.misses 1;
      };
    })
    enforce_budget pins (some id) s'

  -- What follows the reading of a record.
  unfoldable pub after_read :
      NodeId
      → ℕ
      → List NodeId
      → DiskEngine D P
      → Option (DiskResult (DiskNode × ℕ))
      → Option (DiskResult (Unit {0}) × DiskEngine D P)
  unfolding connect install
  after_read id offset pins s none = none
  after_read id offset pins s (some (DiskResult.err e)) = some (DiskResult.err e, s)
  after_read id offset pins s (some (DiskResult.ok (disk_node, len))) = do
    (answer, s') ← connect offset disk_node s
    elim answer [
      | DiskResult.err e ↦ some (DiskResult.err e, s')
      | DiskResult.ok node ↦ with_ok tt (install id offset len pins node s')
    ]

module _ {D P : Type 0} (vfs : Vfs D) (c : Codec) where
  unfoldable pub ensure_loaded :
      NodeId → List NodeId → DiskEngine D P → Option (DiskResult (Unit {0}) × DiskEngine D P)
  unfolding after_read
  ensure_loaded id pins s = do
    slot ← get_elem? s.slots id
    elim slot [
      | loaded_slot r ↦
          with_ok tt
            (touch id (record s { cache = record s.cache { hits = wrapping_add s.cache.hits 1 } }))
      | on_disk offset ↦ after_read id offset pins s (read_record vfs c offset s)
      | freed ↦ none
    ]
