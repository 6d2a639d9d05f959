-- ===== src/Disk/Commit/Pointers.antt =====
-- src/disk.rs, `node_payload` and `resolve_offset`: what a record says of the children of its node.
use beetree.Prelude.{
  ℕ, ◌≡◌, ◌⊎◌, inl, inr, refl, sym, Bool, true, false, Option, none, some, List, [], ◌∷◌, get_elem?,
  bind_some, some_inj, if◌then◌else◌,
}
use mathlib.Core.Path.{subst}
use beetree.Node.{NodeId, Node}
use beetree.U64Map
use beetree.U64Map.{U64Map}
use beetree.Format.{DiskNode}
use beetree.Disk.{DiskEngine, NodeSlot, loaded_slot, on_disk, freed}
use beetree.Disk.Commit.{resolve_offset, resolve_all, disk_node}

module _ {D P : Type 0} (s : DiskEngine D P) (assigned : U64Map ℕ) where
  -- The offset of a slot's record: a dirty node has the one that the commit assigned to it, any other
  -- the one where its record stands already.
  abbrev StandsAt : NodeId → ℕ → NodeSlot → Type 0
  StandsAt id offset freed = ⊥
  StandsAt id offset (on_disk stored) = stored ≡ offset
  StandsAt id offset (loaded_slot r) =
      ((r.dirty ≡ true) × (U64Map.get id assigned ≡ some offset))
      ⊎ ((r.dirty ≡ false) × (r.disk_offset ≡ some offset))

  pub record IsPointer (id : NodeId) (offset : ℕ) : Type 0 where
    pub slot : NodeSlot
    pub here : get_elem? s.slots id ≡ some slot
    pub stands : StandsAt id offset slot

  -- One offset for each child, in their order.
  abbrev pub ArePointers : List NodeId → List ℕ → Type 0
  ArePointers [] [] = Unit
  ArePointers [] (offset ∷ offsets) = ⊥
  ArePointers (id ∷ ids) [] = ⊥
  ArePointers (id ∷ ids) (offset ∷ offsets) = IsPointer id offset × ArePointers ids offsets

  -- What is written for a node: its contents, and the offsets of its children in place of their ids.
  abbrev pub IsWrittenAs : Node → DiskNode → Type 0
  IsWrittenAs (Node.leaf entries) written = written ≡ DiskNode.leaf entries
  IsWrittenAs (Node.internal pivots children buffer) written =
      (offsets : List ℕ) × ArePointers children offsets
      × (written ≡ DiskNode.internal pivots offsets buffer)

  by_dirt :
      (id : NodeId) (offset : ℕ) (dirty : Bool) (stored : Option ℕ)
      → (if dirty then U64Map.get id assigned else stored) ≡ some offset
      → ((dirty ≡ true) × (U64Map.get id assigned ≡ some offset))
        ⊎ ((dirty ≡ false) × (stored ≡ some offset))
  by_dirt id offset true stored h = inl (refl, h)
  by_dirt id offset false stored h = inr (refl, h)

  by_slot :
      (id : NodeId) (offset : ℕ) (slot : NodeSlot)
      → elim slot [
        | freed ↦ none
        | on_disk stored ↦ some stored
        | loaded_slot r ↦ if r.dirty then U64Map.get id assigned else r.disk_offset
      ]
        ≡ some offset
      → StandsAt id offset slot
  by_slot id offset freed h = cc
  by_slot id offset (on_disk stored) h = some_inj h
  by_slot id offset (loaded_slot r) h = by_dirt id offset r.dirty r.disk_offset h

  resolve_offset-IsPointer :
      (id : NodeId) (offset : ℕ) → resolve_offset id assigned s ≡ some offset → IsPointer id offset
  unfolding resolve_offset
  resolve_offset-IsPointer id offset h =
      let (slot, here, h') = bind_some (get_elem? s.slots id) h in
      record { slot = slot; here = here; stands = by_slot id offset slot h' }

  resolve_all-ArePointers :
      (ids : List NodeId) (offsets : List ℕ)
      → resolve_all ids assigned s ≡ some offsets
      → ArePointers ids offsets
  unfolding resolve_all
  resolve_all-ArePointers [] offsets h = subst (ArePointers []) (some_inj h) tt
  resolve_all-ArePointers (id ∷ ids) offsets h =
      let (offset, e, h1) = bind_some (resolve_offset id assigned s) h in
      let (rest, e', h2) = bind_some (resolve_all ids assigned s) h1 in
      subst (ArePointers (id ∷ ids)) (some_inj h2)
        (resolve_offset-IsPointer id offset e, resolve_all-ArePointers ids rest e')

  pub disk_node-IsWrittenAs :
      (node : Node) (written : DiskNode)
      → disk_node node assigned s ≡ some written
      → IsWrittenAs node written
  unfolding disk_node
  disk_node-IsWrittenAs (Node.leaf entries) written h = sym (some_inj h)
  disk_node-IsWrittenAs (Node.internal pivots children buffer) written h =
      let (offsets, e, h') = bind_some (resolve_all children assigned s) h in
      (offsets, resolve_all-ArePointers children offsets e, sym (some_inj h'))

-- A map that keeps what another one assigns keeps what the records say.
module _ {D P : Type 0} (s : DiskEngine D P) (m m' : U64Map ℕ)
    (keeps : (id : NodeId) (offset : ℕ)
      → U64Map.get id m ≡ some offset
      → U64Map.get id m' ≡ some offset) where
  StandsAt-keep :
      (id : NodeId) (offset : ℕ) (slot : NodeSlot)
      → StandsAt s m id offset slot
      → StandsAt s m' id offset slot
  StandsAt-keep id offset freed h = h
  StandsAt-keep id offset (on_disk stored) h = h
  StandsAt-keep id offset (loaded_slot r) (inl h) = inl (h.0, keeps id offset h.1)
  StandsAt-keep id offset (loaded_slot r) (inr h) = inr h

  ArePointers-keep :
      (ids : List NodeId) (offsets : List ℕ)
      → ArePointers s m ids offsets
      → ArePointers s m' ids offsets
  ArePointers-keep [] [] h = tt
  ArePointers-keep [] (offset ∷ offsets) h = h
  ArePointers-keep (id ∷ ids) [] h = h
  ArePointers-keep (id ∷ ids) (offset ∷ offsets) h = (
    record {
      slot = h.0.slot;
      here = h.0.here;
      stands = StandsAt-keep id offset h.0.slot h.0.stands;
    },
    ArePointers-keep ids offsets h.1,
  )

  pub IsWrittenAs-keep :
      (node : Node) (written : DiskNode)
      → IsWrittenAs s m node written
      → IsWrittenAs s m' node written
  IsWrittenAs-keep (Node.leaf entries) written h = h
  IsWrittenAs-keep (Node.internal pivots children buffer) written h =
      (h.0, ArePointers-keep children h.0 h.1, h.2)
