-- ===== src/Disk/Commit.antt =====
-- src/disk.rs: the first part of `commit`, which collects the records of the dirty nodes, children
-- first.
pub mod Pointers
pub mod Stored
pub mod Serialized
pub mod Collected
use beetree.Prelude.{
  ℕ, zero, suc, ◌^◌, ◌-◌, Option, none, some, List, [], ◌∷◌, ◌++◌, length, get_elem?, ltb,
  if◌then◌else◌, ◌>>=◌,
}
use mathlib.Core.List.{reverse}
use beetree.Bytes.{wrapping_add, le_bytes}
use beetree.Node.{NodeId, Node}
use beetree.U64Map
use beetree.U64Map.{U64Map}
use beetree.Format.{Codec, DiskNode, encode_node, record_header_size}
use beetree.Disk.{DiskEngine, io, node_too_large, DiskResult, loaded_slot, on_disk, freed}
use beetree.Disk.Arena.{is_dirty, loaded}
use beetree.Disk.Load.{and_then}

-- The records of one commit: their bytes, and the offset and length of each.
pub record Batch : Type 0 where
  pub buf : List ℕ
  pub assigned : U64Map ℕ
  pub record_lens : U64Map ℕ

abbrev pub empty_batch : Batch
empty_batch = record { buf = []; assigned = []; record_lens = [] }

module _ {D P : Type 0} where
  unfoldable pub dirty_among : List NodeId → DiskEngine D P → Option (List NodeId)
  dirty_among [] s = some []
  dirty_among (c ∷ children) s = do
    dirty ← is_dirty c s
    rest ← dirty_among children s
    some (if dirty then c ∷ rest else rest)

  -- The dirty children of a node that was visited.
  abbrev pub next_visits : Node → DiskEngine D P → Option (List NodeId)
  next_visits (Node.leaf entries) s = some []
  next_visits (Node.internal pivots children buffer) s = dirty_among children s

  -- The dirty nodes, the last visited first. The top of the stack `visit` stands first.
  unfoldable pub collect : ℕ → List NodeId → List NodeId → DiskEngine D P → Option (List NodeId)
  unfolding dirty_among
  collect zero visit visited s = none
  collect (suc f) [] visited s = some visited
  collect (suc f) (id ∷ visit) visited s = do
    node ← loaded id s
    children ← next_visits node s
    collect f (reverse children ++ visit) (id ∷ visited) s

  unfoldable pub resolve_offset : NodeId → U64Map ℕ → DiskEngine D P → Option ℕ
  resolve_offset id assigned s = do
    slot ← get_elem? s.slots id
    elim slot [
      | freed ↦ none
      | on_disk offset ↦ some offset
      | loaded_slot r ↦ if r.dirty then U64Map.get id assigned else r.disk_offset
    ]

  unfoldable pub resolve_all : List NodeId → U64Map ℕ → DiskEngine D P → Option (List ℕ)
  unfolding resolve_offset
  resolve_all [] assigned s = some []
  resolve_all (c ∷ children) assigned s = do
    offset ← resolve_offset c assigned s
    rest ← resolve_all children assigned s
    some (offset ∷ rest)

  unfoldable pub disk_node : Node → U64Map ℕ → DiskEngine D P → Option DiskNode
  unfolding resolve_all
  disk_node (Node.leaf entries) assigned s = some (DiskNode.leaf entries)
  disk_node (Node.internal pivots children buffer) assigned s = do
    offsets ← resolve_all children assigned s
    some (DiskNode.internal pivots offsets buffer)

module _ (c : Codec) where
  -- `[len][crc][payload]`.
  abbrev pub record_bytes : List ℕ → List ℕ
  record_bytes payload = le_bytes 4 (length payload) ++ (le_bytes 4 (c.crc payload) ++ payload)

  -- A payload joins the batch.
  unfoldable pub add_record : NodeId → ℕ → Batch → List ℕ → Option (DiskResult Batch)
  add_record id base batch payload =
      if ltb (2 ^ 32 - 1) (length payload)
      then some (DiskResult.err (node_too_large (length payload)))
      else some (
          DiskResult.ok (record {
            buf = batch.buf ++ record_bytes payload;
            assigned = U64Map.insert id (wrapping_add base (length batch.buf)) batch.assigned;
            record_lens =
                U64Map.insert id (wrapping_add record_header_size (length payload))
                  batch.record_lens;
          }))

  module _ {D P : Type 0} where
    unfoldable pub node_payload : NodeId → U64Map ℕ → DiskEngine D P → Option (DiskResult (List ℕ))
    unfolding disk_node encode_node
    node_payload id assigned s = do
      node ← loaded id s
      on_disk_node ← disk_node node assigned s
      some (elim (encode_node c on_disk_node) [
        | none ↦ DiskResult.err io
        | some payload ↦ DiskResult.ok payload
      ])

    unfoldable pub serialize : List NodeId → ℕ → Batch → DiskEngine D P → Option (DiskResult Batch)
    unfolding add_record node_payload
    serialize [] base batch s = some (DiskResult.ok batch)
    serialize (id ∷ ids) base batch s =
        and_then (node_payload id batch.assigned s) λ payload.
          and_then (add_record id base batch payload) λ batch'. serialize ids base batch' s
