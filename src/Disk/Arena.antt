-- ===== src/Disk/Arena.antt =====
-- src/disk.rs: the bookkeeping of slots, and access to resident nodes. `none` is a panic: an index
-- out of range, or a node that is not resident.
use beetree.Prelude.{
  ℕ, Bool, true, false, Option, none, some, [], ◌∷◌, ◌++◌, length, get_elem?, set, ◌>>=◌,
}
use beetree.Bytes.{wrapping_add, wrapping_sub}
use beetree.Node.{NodeId, Node}
use beetree.U64Map
use beetree.U64Map.{U64Map}
use beetree.Disk.{loaded_slot, on_disk, freed, DiskEngine, Resident, est_bytes}
use beetree.Disk.Cache.{touch}

-- The offset of a node's record, if it has one.
abbrev pub record_of : Resident → U64Map NodeId → U64Map NodeId
record_of r offsets = elim r.disk_offset [
  | none ↦ offsets
  | some offset ↦ U64Map.remove offset offsets
]

module _ {D P : Type 0} where
  unfoldable pub is_dirty : NodeId → DiskEngine D P → Option Bool
  is_dirty id s = do
    slot ← get_elem? s.slots id
    elim slot [ loaded_slot r ↦ some r.dirty | on_disk offset ↦ some false | freed ↦ some false ]

  unfoldable pub resident : NodeId → DiskEngine D P → Option Resident
  resident id s = do
    slot ← get_elem? s.slots id
    elim slot [ loaded_slot r ↦ some r | on_disk offset ↦ none | freed ↦ none ]

  unfoldable pub loaded : NodeId → DiskEngine D P → Option Node
  unfolding resident
  loaded id s = do r ← resident id s; some r.node

  -- The node, for a change of it; the estimate of its size is that of the node before the change.
  unfoldable pub loaded_mut : NodeId → DiskEngine D P → Option (Node × DiskEngine D P)
  unfolding resident
  loaded_mut id s = do
    r ← resident id s
    let est = est_bytes r.node
    some (
      r.node,
      record s {
        slots = set s.slots id (loaded_slot (record r { dirty = true; bytes = est }));
        cache = record s.cache { bytes = wrapping_add (wrapping_sub s.cache.bytes r.bytes) est };
      },
    )

  unfoldable pub alloc_dirty : Node → DiskEngine D P → Option (NodeId × DiskEngine D P)
  alloc_dirty node s = do
    let bytes = est_bytes node
    let fresh : Resident = record {
      node = node;
      dirty = true;
      disk_offset = none;
      bytes = bytes;
      last_tick = 0;
    }
    s' ← touch (length s.slots) (record s {
      slots = s.slots ++ loaded_slot fresh ∷ [];
      cache = record s.cache {
        bytes = wrapping_add s.cache.bytes bytes;
        resident = wrapping_add s.cache.resident 1;
      };
    })
    some (length s.slots, s')

  -- A new slot for a record.
  abbrev pub new_on_disk : ℕ → DiskEngine D P → NodeId × DiskEngine D P
  new_on_disk offset s = (
    length s.slots,
    record s {
      slots = s.slots ++ on_disk offset ∷ [];
      offsets = U64Map.insert offset (length s.slots) s.offsets;
    },
  )

  unfoldable pub alloc_on_disk : ℕ → DiskEngine D P → Option (NodeId × DiskEngine D P)
  alloc_on_disk offset s = elim (U64Map.get offset s.offsets) [
    | none ↦ some (new_on_disk offset s)
    | some id ↦ (do
      slot ← get_elem? s.slots id
      elim slot [
        | freed ↦ some (new_on_disk offset s)
        | loaded_slot r ↦ some (id, s)
        | on_disk o ↦ some (id, s)
      ])
  ]

  unfoldable pub release_slot : NodeId → DiskEngine D P → Option (DiskEngine D P)
  release_slot id s = do
    slot ← get_elem? s.slots id
    elim slot [
      | freed ↦ some s
      | loaded_slot r ↦ some (record s {
        slots = set s.slots id freed;
        cache = record s.cache {
          bytes = wrapping_sub s.cache.bytes r.bytes;
          resident = wrapping_sub s.cache.resident 1;
        };
        offsets = record_of r s.offsets;
      })
      | on_disk offset ↦
          some (record s { slots = set s.slots id freed; offsets = U64Map.remove offset s.offsets })
    ]

  -- A change of the contents of a resident node, behind `loaded_mut`.
  unfoldable pub put_node : NodeId → Node → DiskEngine D P → Option (DiskEngine D P)
  unfolding resident
  put_node id node s = do
    r ← resident id s
    some (record s { slots = set s.slots id (loaded_slot (record r { node = node })) })
