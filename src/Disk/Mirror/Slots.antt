-- ===== src/Disk/Mirror/Slots.antt =====
-- Releasing a slot and loading a node, on an engine that holds a tree's nodes in memory.
use beetree.Prelude.{
  ◌≡◌, ◌<◌, sym, ap, ◌∙◌, Option, none, some, List, length, get_elem?, set, lt_of_get_elem?,
  some_inj, bind_some,
}
use mathlib.Core.Path.{subst}
use beetree.Bytes.{wrapping_add, wrapping_sub}
use beetree.U64Map
use beetree.Node.{NodeId}
use beetree.Tree.Arena.{BeTree}
use beetree.Vfs.Counting.{Vfs}
use beetree.Format.{Codec}
use beetree.Disk.{DiskEngine, DiskResult, NodeSlot, loaded_slot, on_disk, freed}
use beetree.Disk.Cache.{touch}
use beetree.Disk.Arena.{release_slot, record_of}
use beetree.Disk.Load.{ensure_loaded, with_ok, after_read, read_record}
use beetree.Disk.Mirror.{IsSame, free-IsSame}
use beetree.Disk.Mirror.Relation.{IsMirror}
use beetree.Disk.Mirror.Steps.{touch-free}

module _ {D P : Type 0} where
  free_slot :
      (id : NodeId) (t : BeTree P) (s : DiskEngine D P)
      → IsMirror t s
      → id < length s.slots
      → IsSame t.nodes (set s.slots id freed)
  free_slot id t s m lt = free-IsSame t.nodes s.slots id m.same lt

  -- A release changes slots and the accounting only.
  abbrev released : NodeId → DiskEngine D P → NodeSlot → Option (DiskEngine D P)
  released id s freed = some s
  released id s (loaded_slot r) = some (record s {
    slots = set s.slots id freed;
    cache = record s.cache {
      bytes = wrapping_sub s.cache.bytes r.bytes;
      resident = wrapping_sub s.cache.resident 1;
    };
    offsets = record_of r s.offsets;
  })
  released id s (on_disk offset) =
      some (record s { slots = set s.slots id freed; offsets = U64Map.remove offset s.offsets })

  by_slot :
      (id : NodeId) (t : BeTree P) (s s' : DiskEngine D P) (slot : NodeSlot)
      → IsMirror t s
      → id < length s.slots
      → released id s slot ≡ some s'
      → IsMirror t s'
  by_slot id t s s' freed m lt k = subst (IsMirror t) (some_inj k) m
  by_slot id t s s' (loaded_slot r) m lt k = subst (IsMirror t) (some_inj k) (record {
    same = free-IsSame t.nodes s.slots id m.same lt;
    dirties = m.dirties;
    unbounded = m.unbounded;
    params = m.params;
    positive = m.positive;
    root = m.root;
    next_seq = m.next_seq;
    ops = m.ops;
    policy = m.policy;
    trace = m.trace;
  })
  by_slot id t s s' (on_disk offset) m lt k = subst (IsMirror t) (some_inj k) (record {
    same = free-IsSame t.nodes s.slots id m.same lt;
    dirties = m.dirties;
    unbounded = m.unbounded;
    params = m.params;
    positive = m.positive;
    root = m.root;
    next_seq = m.next_seq;
    ops = m.ops;
    policy = m.policy;
    trace = m.trace;
  })

  pub release_slot-IsMirror :
      (id : NodeId) (t : BeTree P) (s s' : DiskEngine D P)
      → IsMirror t s
      → release_slot id s ≡ some s'
      → IsMirror t s'
  unfolding release_slot
  release_slot-IsMirror id t s s' m h =
      let (slot, e, k) = bind_some (get_elem? s.slots id) h in
      by_slot id t s s' slot m (lt_of_get_elem? s.slots id e) k

module _ {D P : Type 0} (vfs : Vfs D) (c : Codec) where
  abbrev hit : DiskEngine D P → DiskEngine D P
  hit s = record s { cache = record s.cache { hits = wrapping_add s.cache.hits 1 } }

  IsMirror-hit : (t : BeTree P) (s : DiskEngine D P) → IsMirror t s → IsMirror t (hit s)
  IsMirror-hit t s m = record {
    same = m.same;
    dirties = m.dirties;
    unbounded = m.unbounded;
    params = m.params;
    positive = m.positive;
    root = m.root;
    next_seq = m.next_seq;
    ops = m.ops;
    policy = m.policy;
    trace = m.trace;
  }

  by_residence :
      (id : NodeId) (pins : List NodeId) (t : BeTree P) (s s' : DiskEngine D P) (slot : NodeSlot)
      {a : DiskResult (Unit {0})}
      → IsMirror t s
      → get_elem? s.slots id ≡ some slot
      → elim slot [
        | loaded_slot r ↦ with_ok tt (touch id (hit s))
        | on_disk offset ↦ after_read id offset pins s (read_record vfs c offset s)
        | freed ↦ none
      ]
        ≡ some (a, s')
      → IsMirror t s'
  by_residence id pins t s s' (loaded_slot r) m e k =
      let (s1, e1, k1) = bind_some (touch id (hit s)) k in
      subst (IsMirror t)
        (some_inj (sym (touch-free id (hit s) m.unbounded) ∙ e1) ∙ ap (λ p. p.1) (some_inj k1))
        (IsMirror-hit t s m)
  by_residence id pins t s s' (on_disk offset) m e k = absurd (m.same.in_memory id offset e)
  by_residence id pins t s s' freed m e k = cc

  -- Every node is in memory already.
  pub ensure_loaded-IsMirror :
      (id : NodeId) (pins : List NodeId) (t : BeTree P) (s s' : DiskEngine D P)
      {a : DiskResult (Unit {0})}
      → IsMirror t s
      → ensure_loaded vfs c id pins s ≡ some (a, s')
      → IsMirror t s'
  unfolding ensure_loaded
  ensure_loaded-IsMirror id pins t s s' m h =
      let (slot, e, k) = bind_some (get_elem? s.slots id) h in
      by_residence id pins t s s' slot m e k
