-- ===== src/Disk/Mirror/Steps.antt =====
-- The accesses of the engine to its nodes, against those of the tree.
use beetree.Prelude.{
  suc, ◌≡◌, ◌<◌, refl, sym, ap, ◌∙◌, true, Option, none, some, [], ◌∷◌, ◌++◌, arith, length,
  get_elem?, set, length-set, length-snoc, get_elem?-set_self, get_elem?-set_ne, get_elem?-in_range,
  lt_of_get_elem?, some_inj, bind_some, ◌>>=◌,
}
use mathlib.Core.Path.{subst}
use beetree.Node.{NodeId, Node}
use beetree.Tree.Arena.{BeTree, node_at, set_node, mark_dirty, alloc}
use beetree.Disk.{DiskEngine, NodeSlot, loaded_slot, on_disk, freed, Resident, est_bytes}
use beetree.Disk.Cache.{touch, push_tick, compact}
use beetree.Disk.Arena.{resident, loaded, loaded_mut, put_node, alloc_dirty}
use beetree.Disk.Mirror.{put-IsSame, snoc-IsSame}
use beetree.Disk.Mirror.Relation.{IsMirror}

mark_dirty_total :
    {P : Type 0} (id : NodeId) (t : BeTree P)
    → id < length t.dirty
    → mark_dirty id t ≡ some (record t { dirty = set t.dirty id true })
unfolding mark_dirty
mark_dirty_total id t lt = let (b, e) = get_elem?-in_range t.dirty id lt in rw e refl

module _ {D P : Type 0} where
  resident-slot :
      (id : NodeId) (s : DiskEngine D P) {r : Resident}
      → resident id s ≡ some r
      → get_elem? s.slots id ≡ some (loaded_slot r)
  unfolding resident
  resident-slot id s {r} h = go (bind_some (get_elem? s.slots id) h)
    where
      pick_loaded : NodeSlot → Option Resident
      pick_loaded (loaded_slot x) = some x
      pick_loaded (on_disk offset) = none
      pick_loaded freed = none

      go :
          (slot : NodeSlot) × (get_elem? s.slots id ≡ some slot) × (pick_loaded slot ≡ some r)
          → get_elem? s.slots id ≡ some (loaded_slot r)
      go (loaded_slot x, e, k) = e ∙ ap (λ y. some (loaded_slot y)) (some_inj k)
      go (on_disk offset, e, k) = cc
      go (freed, e, k) = cc

  -- A read.
  pub loaded-IsMirror :
      (id : NodeId) (t : BeTree P) (s : DiskEngine D P) {n : Node}
      → IsMirror t s
      → loaded id s ≡ some n
      → node_at t id ≡ some n
  unfolding loaded
  loaded-IsMirror id t s m h =
      let (r, e, k) = bind_some (resident id s) h in m.same.held id r (resident-slot id s e) ∙ k

  -- What a write access leaves.
  pub record IsMarked (id : NodeId) (n : Node) (t : BeTree P) (s' : DiskEngine D P) : Type 0 where
    pub marked : BeTree P
    pub marks : mark_dirty id t ≡ some marked
    pub reads : node_at marked id ≡ some n
    pub was : node_at t id ≡ some n
    pub mirror : IsMirror marked s'

  pub loaded_mut-IsMirror :
      (id : NodeId) (t : BeTree P) (s s' : DiskEngine D P) (n : Node)
      → IsMirror t s
      → loaded_mut id s ≡ some (n, s')
      → IsMarked id n t s'
  unfolding loaded_mut
  loaded_mut-IsMirror id t s s' n m h =
      let (r, e, k) = bind_some (resident id s) h in
      let slot = resident-slot id s e in
      let read = m.same.held id r slot in
      let lt = lt_of_get_elem? t.nodes id read in
      let r' : Resident = record r { dirty = true; bytes = est_bytes r.node } in
      record {
        marked = record t { dirty = set t.dirty id true };
        marks = mark_dirty_total id t (omega (arith, lt, m.dirties));
        reads = read ∙ ap (λ p. some p.0) (some_inj k);
        was = read ∙ ap (λ p. some p.0) (some_inj k);
        mirror =
            subst (IsMirror (record t { dirty = set t.dirty id true })) (ap (λ p. p.1) (some_inj k))
              (record {
                same =
                    put-IsSame t.nodes t.nodes s.slots id r' m.same
                      (lt_of_get_elem? s.slots id slot) refl read (λ j q. refl);
                dirties = length-set t.dirty id true ∙ m.dirties;
                unbounded = m.unbounded;
                params = m.params;
                positive = m.positive;
                root = m.root;
                next_seq = m.next_seq;
                ops = m.ops;
                policy = m.policy;
                trace = m.trace;
              });
      }

  -- A write to a resident node.
  pub put_node-IsMirror :
      (id : NodeId) (n : Node) (t : BeTree P) (s s' : DiskEngine D P)
      → IsMirror t s
      → put_node id n s ≡ some s'
      → IsMirror (set_node id n t) s'
  unfolding put_node set_node
  put_node-IsMirror id n t s s' m h =
      let (r, e, k) = bind_some (resident id s) h in
      let slot = resident-slot id s e in
      let lt = lt_of_get_elem? t.nodes id (m.same.held id r slot) in
      subst (IsMirror (set_node id n t)) (some_inj k) (record {
        same =
            put-IsSame t.nodes (set t.nodes id n) s.slots id (record r { node = n }) m.same
              (lt_of_get_elem? s.slots id slot) (length-set t.nodes id n)
              (get_elem?-set_self t.nodes id n lt) (λ j q. get_elem?-set_ne t.nodes n q);
        dirties = m.dirties ∙ sym (length-set t.nodes id n);
        unbounded = m.unbounded;
        params = m.params;
        positive = m.positive;
        root = m.root;
        next_seq = m.next_seq;
        ops = m.ops;
        policy = m.policy;
        trace = m.trace;
      })

  pub touch-free : (id : NodeId) (s : DiskEngine D P) → s.cache.budget ≡ none → touch id s ≡ some s
  unfolding touch
  touch-free id s free =
      ap (λ b. elim b [ none ↦ some s | some budget ↦ (do s' ← push_tick id s; compact s') ]) free

  -- A new node.
  pub alloc-IsMirror :
      (n : Node) (t : BeTree P) (s s' : DiskEngine D P) (id : NodeId)
      → IsMirror t s
      → alloc_dirty n s ≡ some (id, s')
      → (id ≡ (alloc n t).0) × IsMirror (alloc n t).1 s'
  unfolding alloc_dirty alloc
  alloc-IsMirror n t s s' id m h =
      let (s1, e, k) = bind_some (touch (length s.slots) _) h in
      let free = touch-free (length s.slots) _ m.unbounded in
      let at = some_inj (sym free ∙ e) in
      (
        ap (λ p. p.0) (sym (some_inj k)) ∙ m.same.count,
        subst (IsMirror (record t { nodes = t.nodes ++ n ∷ []; dirty = t.dirty ++ true ∷ [] }))
            (at ∙ ap (λ p. p.1) (some_inj k))
            (record {
              same = snoc-IsSame t.nodes s.slots _ m.same;
              dirties = length-snoc t.dirty true ∙ ap suc m.dirties ∙ sym (length-snoc t.nodes n);
              unbounded = m.unbounded;
              params = m.params;
              positive = m.positive;
              root = m.root;
              next_seq = m.next_seq;
              ops = m.ops;
              policy = m.policy;
              trace = m.trace;
            }),
      )
