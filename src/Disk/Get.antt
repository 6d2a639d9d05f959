-- ===== src/Disk/Get.antt =====
-- src/disk.rs: `try_get` and the walks over the live tree, which load nodes on the way. `visits` is
-- fuel; `none` also means that it ran out.
pub mod Resident
use beetree.Prelude.{
  ℕ, zero, suc, ◌+◌, Option, none, some, List, [], ◌∷◌, ◌++◌, length, get_elem?, ◌>>=◌,
}
use mathlib.Core.List.{reverse}
use beetree.Bytes.{wrapping_add}
use beetree.Key.{Key}
use beetree.BTreeMap
use beetree.Message.{Value}
use beetree.Node.{NodeId, Node, internal, leaf, entry_value, route, apply_chain}
use beetree.Trace.{record_get}
use beetree.Tree.Get.{Step, at_buffer}
use beetree.Vfs.Counting.{Vfs}
use beetree.Format.{Codec}
use beetree.Disk.{DiskEngine, DiskResult, NodeSlot, loaded_slot, on_disk, freed}
use beetree.Disk.Arena.{loaded}
use beetree.Disk.Load.{ensure_loaded}

-- The next step of a walk, which stops at an error.
abbrev pub then_walk :
    {A B E : Type 0}
    → Option (DiskResult A × E)
    → (A → E → Option (DiskResult B × E))
    → Option (DiskResult B × E)
then_walk none f = none
then_walk (some (DiskResult.err e, s)) f = some (DiskResult.err e, s)
then_walk (some (DiskResult.ok a, s)) f = f a s

-- The children of a node.
unfoldable pub children_of : Node → List NodeId
children_of (leaf entries) = []
children_of (internal pivots children buffer) = children

-- The bytes that the cache counts for a slot.
unfoldable pub slot_bytes : NodeSlot → ℕ
slot_bytes (loaded_slot r) = r.bytes
slot_bytes (on_disk offset) = 0
slot_bytes freed = 0

module _ {D P : Type 0} (vfs : Vfs D) (c : Codec) where
  unfoldable pub try_get_loop :
      ℕ
      → Key
      → Option ℕ
      → NodeId
      → DiskEngine D P
      → Option (DiskResult (Option Value) × DiskEngine D P)
  unfolding at_buffer
  try_get_loop zero key chain id s = none
  try_get_loop (suc visits) key chain id s = then_walk (ensure_loaded vfs c id [] s) λ done s'. (do
    node ← loaded id s'
    elim node [
      | leaf entries ↦
          some (DiskResult.ok (apply_chain chain (entry_value (BTreeMap.get key entries))), s')
      | internal pivots children buffer ↦ elim (at_buffer chain (BTreeMap.get key buffer)) [
        | Step.stop value ↦ some (DiskResult.ok value, s')
        | Step.walk chain' ↦ (do
          child ← get_elem? children (route pivots key)
          try_get_loop visits key chain' child s')
      ]
    ])

  unfoldable pub try_get :
      ℕ → Key → DiskEngine D P → Option (DiskResult (Option Value) × DiskEngine D P)
  unfolding try_get_loop
  try_get visits key s =
      try_get_loop visits key none s.root (record s { trace = record_get key s.trace })

  -- The top of the stack stands first.
  unfoldable pub load_loop :
      ℕ → List NodeId → DiskEngine D P → Option (DiskResult (Unit {0}) × DiskEngine D P)
  unfolding children_of
  load_loop zero stack s = none
  load_loop (suc visits) [] s = some (DiskResult.ok tt, s)
  load_loop (suc visits) (id ∷ stack) s =
      then_walk (ensure_loaded vfs c id [] s) λ done s'. (do
        node ← loaded id s'
        load_loop visits (reverse (children_of node) ++ stack) s')

  unfoldable pub load_all : ℕ → DiskEngine D P → Option (DiskResult (Unit {0}) × DiskEngine D P)
  unfolding load_loop
  load_all visits s = load_loop visits (s.root ∷ []) s

  unfoldable pub live_loop :
      ℕ → List NodeId → ℕ → ℕ → DiskEngine D P → Option (DiskResult (ℕ × ℕ) × DiskEngine D P)
  unfolding children_of slot_bytes
  live_loop zero stack nodes bytes s = none
  live_loop (suc visits) [] nodes bytes s = some (DiskResult.ok (nodes, bytes), s)
  live_loop (suc visits) (id ∷ stack) nodes bytes s =
      then_walk (ensure_loaded vfs c id [] s) λ done s'. (do
        slot ← get_elem? s'.slots id
        node ← loaded id s'
        live_loop visits (reverse (children_of node) ++ stack) (wrapping_add nodes 1)
            (wrapping_add bytes (slot_bytes slot)) s')

  unfoldable pub live_walk : ℕ → DiskEngine D P → Option (DiskResult (ℕ × ℕ) × DiskEngine D P)
  unfolding live_loop
  live_walk visits s = live_loop visits (s.root ∷ []) 0 0 s

  unfoldable pub height_loop :
      ℕ → ℕ → NodeId → DiskEngine D P → Option (DiskResult ℕ × DiskEngine D P)
  height_loop zero height id s = none
  height_loop (suc visits) height id s = then_walk (ensure_loaded vfs c id [] s) λ done s'. (do
    node ← loaded id s'
    elim node [
      | leaf entries ↦ some (DiskResult.ok height, s')
      | internal pivots children buffer ↦ (do
        child ← get_elem? children 0
        height_loop visits (wrapping_add height 1) child s')
    ])

  unfoldable pub height : ℕ → DiskEngine D P → Option (DiskResult ℕ × DiskEngine D P)
  unfolding height_loop
  height visits s = height_loop visits 1 s.root s
