-- ===== src/Disk/Mirror/Pick.antt =====
-- The choice of a flush target and the extraction: the engine does what the tree does.
use beetree.Prelude.{
  ℕ, ◌≡◌, ◌<◌, refl, sym, ap, ◌∙◌, Bool, true, false, Option, none, some, List, [], ◌∷◌, arith,
  length, get_elem?, get_elem?-in_range, lt_of_get_elem?, some_inj, bind_some, ◌>>=◌, ltb,
  if◌then◌else◌, replicate, if_some,
}
use mathlib.Core.Path.{subst}
use beetree.Key.{Key}
use beetree.BTreeMap.{BTreeMap}
use beetree.Message.{Message}
use beetree.Node.{NodeId, Node, internal, leaf}
use beetree.Policy.{FlushCtx, FlushPolicy, count_at}
use beetree.Tree.Arena.{BeTree, node_at, set_node, mark_dirty}
use beetree.Tree.Flush
use beetree.Tree.Flush.{tally, extract, Extracted}
use beetree.Disk.{DiskEngine}
use beetree.Disk.Arena.{loaded, loaded_mut, put_node, is_dirty}
use beetree.Disk.Flush as DiskFlush
use beetree.Disk.Mirror.Relation.{IsMirror, answer, bind_to, Follows}
use beetree.Disk.Mirror.Steps.{loaded-IsMirror, loaded_mut-IsMirror, put_node-IsMirror}

-- The policy does not look at which children are dirty.
abbrev pub IsBlind : {P : Type 0} → FlushPolicy P → Type 0
IsBlind {P = P} choose =
    (p : P) (ctx : FlushCtx) (flags : List Bool)
    → choose p (record ctx { child_dirty = flags }) ≡ choose p ctx

module _ {D P : Type 0} where
  is_dirty-lt :
      (id : NodeId) (s : DiskEngine D P) {b : Bool} → is_dirty id s ≡ some b → id < length s.slots
  unfolding is_dirty
  is_dirty-lt id s h = let a = bind_some (get_elem? s.slots id) h in lt_of_get_elem? s.slots id a.1

  dirty_flags_total :
      (children : List NodeId) (t : BeTree P) (s : DiskEngine D P) {flags : List Bool}
      → IsMirror t s
      → DiskFlush.dirty_flags children s ≡ some flags
      → (flags' : List Bool) × (Flush.dirty_flags t.dirty children ≡ some flags')
  unfolding DiskFlush.dirty_flags Flush.dirty_flags
  dirty_flags_total [] t s m h = ([], refl)
  dirty_flags_total (c ∷ children) t s m h =
      let a = bind_some (is_dirty c s) h in
      let b = bind_some (DiskFlush.dirty_flags children s) a.2 in
      let rest = dirty_flags_total children t s m b.1 in
      let lt = is_dirty-lt c s a.1 in
      let here = get_elem?-in_range t.dirty c (omega (arith, lt, m.dirties, m.same.count)) in
      (
        here.0 ∷ rest.0,
        bind_to (get_elem? t.dirty c) _ here.1
            (bind_to (Flush.dirty_flags t.dirty children) _ rest.1 refl),
      )

abbrev ctx_of : NodeId → ℕ → List ℕ → List ℕ → List Bool → BTreeMap Message → ℕ → FlushCtx
ctx_of id depth occupancies bytes flags buffer ops = record {
  node = id;
  depth = depth;
  child_pending = occupancies;
  child_pending_bytes = bytes;
  child_dirty = flags;
  buffer_total = length buffer;
  ops_since_commit = ops;
}

module _ {P : Type 0} (choose : FlushPolicy P) (blind : IsBlind choose) where
  same_choice :
      (id : NodeId) (depth : ℕ) (occupancies bytes : List ℕ) (flags flags' : List Bool)
      (buffer : BTreeMap Message) (ops ops' : ℕ) (p p' : P)
      → ops ≡ ops'
      → p ≡ p'
      → choose p' (ctx_of id depth occupancies bytes flags' buffer ops')
        ≡ choose p (ctx_of id depth occupancies bytes flags buffer ops)
  same_choice id depth occupancies bytes flags flags' buffer ops ops' p p' e k =
      blind p' (ctx_of id depth occupancies bytes flags buffer ops') flags'
      ∙ ap (λ o. choose p' (ctx_of id depth occupancies bytes flags buffer o)) (sym e)
      ∙ ap (λ q. choose q (ctx_of id depth occupancies bytes flags buffer ops)) (sym k)

module _ {D P : Type 0} (choose : FlushPolicy P) (blind : IsBlind choose) where
  policy-IsMirror :
      (t : BeTree P) (s : DiskEngine D P) (p : P)
      → IsMirror t s
      → IsMirror (record t { policy = p }) (record s { policy = p })
  policy-IsMirror t s p m = record {
    same = m.same;
    dirties = m.dirties;
    unbounded = m.unbounded;
    params = m.params;
    positive = m.positive;
    root = m.root;
    next_seq = m.next_seq;
    ops = m.ops;
    policy = refl;
    trace = m.trace;
  }

  choose_child-Follows :
      (id : NodeId) (depth : ℕ) (mode : Bool) (children : List NodeId) (buffer : BTreeMap Message)
      (occupancies bytes : List ℕ) (t : BeTree P) (s s' : DiskEngine D P) (chosen : ℕ)
      → IsMirror t s
      → DiskFlush.choose_child choose id depth mode children buffer occupancies bytes s
        ≡ some (chosen, s')
      → Follows
          (Flush.choose_child choose id depth mode children buffer occupancies bytes t)
          chosen
          s'
  unfolding DiskFlush.choose_child Flush.choose_child
  choose_child-Follows id depth false children buffer occupancies bytes t s s' chosen m h = record {
    after = t;
    runs = ap (λ p. some (p.0, t)) (some_inj h);
    mirror = subst (IsMirror t) (ap (λ p. p.1) (some_inj h)) m;
  }
  choose_child-Follows id depth true children buffer occupancies bytes t s s' chosen m h =
      let a = bind_some (DiskFlush.dirty_flags children s) h in
      let f = dirty_flags_total children t s m a.1 in
      let ctx = ctx_of id depth occupancies bytes a.0 buffer s.ops_since_commit in
      let q =
        same_choice choose blind id depth occupancies bytes a.0 f.0 buffer s.ops_since_commit
          t.ops_since_commit s.policy t.policy m.ops m.policy in
      subst
        (λ p.
          Follows (Flush.choose_child choose id depth true children buffer occupancies bytes t) p.0
            p.1)
        (some_inj a.2)
        (record {
          after = record t { policy = (choose s.policy ctx).1 };
          runs =
              bind_to (Flush.dirty_flags t.dirty children) _ f.1
                (ap (λ p. answer p.0 (record t { policy = p.1 })) q);
          mirror = policy-IsMirror t s (choose s.policy ctx).1 m;
        })

-- A choice changes no node.
nodes-choose_child :
    {P : Type 0} (choose : FlushPolicy P) (id : NodeId) (depth : ℕ) (mode : Bool)
    (children : List NodeId) (buffer : BTreeMap Message) (occupancies bytes : List ℕ) (t : BeTree P)
    {chosen : ℕ} {u : BeTree P}
    → Flush.choose_child choose id depth mode children buffer occupancies bytes t ≡ some (chosen, u)
    → u.nodes ≡ t.nodes
unfolding Flush.choose_child
nodes-choose_child choose id depth false children buffer occupancies bytes t h =
    sym (ap (λ p. p.1.nodes) (some_inj h))
nodes-choose_child choose id depth true children buffer occupancies bytes t h =
    let a = bind_some (Flush.dirty_flags t.dirty children) h in
    sym (ap (λ p. p.1.nodes) (some_inj a.2))

if_to :
    {A : Type 0} (b : Bool) (x y : Option A) {r : Option A}
    → b ≡ true
    → x ≡ r
    → (if b then x else y) ≡ r
if_to b x y e k = ap (λ c. if c then x else y) e ∙ k

module _ {D P : Type 0} where
  -- The extraction from a node behind a write access.
  abbrev extract_at :
      NodeId → List ℕ → ℕ → Node → DiskEngine D P → Option (Extracted × DiskEngine D P)
  extract_at id occupancies chosen n s = elim n [
    | leaf entries ↦ none
    | internal pivots children buffer ↦ extract pivots chosen buffer >>= λ p.
        get_elem? children chosen >>= λ child.
        put_node id (internal pivots children p.1) s >>= λ s1.
        answer (record { chosen = chosen; child = child; occupancies = occupancies; batch = p.0 })
          s1
  ]

  extract_chosen-Follows :
      (id : NodeId) (pivots : List Key) (children : List NodeId) (buffer : BTreeMap Message)
      (occupancies : List ℕ) (chosen : ℕ) (t : BeTree P) (s s' : DiskEngine D P) (x : Extracted)
      → IsMirror t s
      → node_at t id ≡ some (internal pivots children buffer)
      → DiskFlush.extract_chosen id occupancies chosen s ≡ some (x, s')
      → Follows (Flush.extract_chosen id pivots children buffer occupancies chosen t) x s'
  unfolding DiskFlush.extract_chosen Flush.extract_chosen
  extract_chosen-Follows id pivots children buffer occupancies chosen t s s' x m held h =
      let guard = if_some (ltb 0 (count_at occupancies chosen)) h in
      let a = bind_some (loaded_mut id s) guard.1 in
      let w = loaded_mut-IsMirror id t s a.0.1 a.0.0 m a.1 in
      let k : extract_at id occupancies chosen (internal pivots children buffer) a.0.1
          ≡ some (x, s') =
        subst (λ n. extract_at id occupancies chosen n a.0.1 ≡ answer x s')
          (some_inj (sym w.was ∙ held)) a.2 in
      let b = bind_some (extract pivots chosen buffer) k in
      let c = bind_some (get_elem? children chosen) b.2 in
      let d = bind_some (put_node id (internal pivots children b.0.1) a.0.1) c.2 in
      subst
        (λ p. Follows (Flush.extract_chosen id pivots children buffer occupancies chosen t) p.0 p.1)
        (some_inj d.2)
        (record {
          after = set_node id (internal pivots children b.0.1) w.marked;
          runs = if_to (ltb 0 (count_at occupancies chosen)) _ none guard.0 (
              bind_to (mark_dirty id t) _ w.marks (
                bind_to (extract pivots chosen buffer) _ b.1
                  (bind_to (get_elem? children chosen) _ c.1 refl)));
          mirror =
              put_node-IsMirror id (internal pivots children b.0.1) w.marked a.0.1 d.0 w.mirror d.1;
        })

module _ {D P : Type 0} (choose : FlushPolicy P) (blind : IsBlind choose) where
  pick_at :
      (id : NodeId) (depth : ℕ) (mode : Bool) (n : Node) (t : BeTree P) (s s' : DiskEngine D P)
      (x : Extracted)
      → IsMirror t s
      → node_at t id ≡ some n
      → elim n [
        | leaf entries ↦ none
        | internal pivots children buffer ↦
            tally pivots buffer (replicate (length children) 0) (replicate (length children) 0)
            >>= λ p. DiskFlush.choose_child choose id depth mode children buffer p.0 p.1 s >>= λ q.
                DiskFlush.extract_chosen id p.0 q.0 q.1
      ]
        ≡ some (x, s')
      → Follows (Flush.pick_and_extract choose id depth mode t) x s'
  unfolding Flush.pick_and_extract
  pick_at id depth mode (leaf entries) t s s' x m held h = cc
  pick_at id depth mode (internal pivots children buffer) t s s' x m held h =
      let zeros = replicate (length children) 0 in
      let a = bind_some (tally pivots buffer zeros zeros) h in
      let b =
        bind_some (DiskFlush.choose_child choose id depth mode children buffer a.0.0 a.0.1 s) a.2 in
      let f =
        choose_child-Follows choose blind id depth mode children buffer a.0.0 a.0.1 t s b.0.1 b.0.0
          m b.1 in
      let g =
        extract_chosen-Follows id pivots children buffer a.0.0 b.0.0 f.after b.0.1 s' x f.mirror
          (ap (λ ns. get_elem? ns id)
              (nodes-choose_child choose id depth mode children buffer a.0.0 a.0.1 t f.runs)
            ∙ held)
          b.2 in
      record {
        after = g.after;
        runs = bind_to (node_at t id) _ held (
            bind_to (tally pivots buffer zeros zeros) _ a.1 (
              bind_to (Flush.choose_child choose id depth mode children buffer a.0.0 a.0.1 t) _
                f.runs g.runs));
        mirror = g.mirror;
      }

  pub pick_and_extract-Follows :
      (id : NodeId) (depth : ℕ) (mode : Bool) (t : BeTree P) (s s' : DiskEngine D P) (x : Extracted)
      → IsMirror t s
      → DiskFlush.pick_and_extract choose id depth mode s ≡ some (x, s')
      → Follows (Flush.pick_and_extract choose id depth mode t) x s'
  unfolding DiskFlush.pick_and_extract
  pick_and_extract-Follows id depth mode t s s' x m h =
      let a = bind_some (loaded id s) h in
      pick_at id depth mode a.0 t s s' x m (loaded-IsMirror id t s m a.1) a.2
