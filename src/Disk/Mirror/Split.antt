-- ===== src/Disk/Mirror/Split.antt =====
-- Splitting and hanging: the engine does what the tree does.
use beetree.Prelude.{
  ◌≡◌, refl, sym, ap, ◌∙◌, Bool, true, false, Option, none, some, List, [], ◌∷◌, length, some_inj,
  bind_some, ◌>>=◌, ltb, if◌then◌else◌,
}
use mathlib.Core.Path.{subst}
use beetree.Key.{Key}
use beetree.BTreeMap.{BTreeMap}
use beetree.Message.{Message}
use beetree.Node.{NodeId, Node, internal, leaf, LeafEntry, partition_sizes}
use beetree.Tree.Arena.{BeTree, node_at, set_node, mark_dirty}
use beetree.Tree.Split
use beetree.Tree.Split.{Piece, pieces_of, split_contents, hang_splits}
use beetree.Disk.{DiskEngine}
use beetree.Disk.Arena.{loaded, loaded_mut, put_node}
use beetree.Disk.Split as DiskSplit
use beetree.Disk.Mirror.Relation.{IsMirror, bind_to, Follows, Reaches}
use beetree.Disk.Mirror.Steps.{loaded-IsMirror, loaded_mut-IsMirror, put_node-IsMirror}
use beetree.Disk.Mirror.Pieces.{rewrite-IsRewritten, alloc_leaves-Follows, alloc_pieces-Follows}

module _ {D P : Type 0} where
  first_leaf :
      (id : NodeId) (pieces : List (BTreeMap LeafEntry)) (t : BeTree P)
      (s s1 s2 s3 s' : DiskEngine D P) (a b : Node) (promoted : List (Key × NodeId))
      → IsMirror t s
      → loaded_mut id s ≡ some (a, s1)
      → put_node id (leaf []) s1 ≡ some s2
      → loaded_mut id s2 ≡ some (b, s3)
      → elim pieces [
        | [] ↦ none
        | first ∷ rest ↦ put_node id (leaf first) s3 >>= λ s4. DiskSplit.alloc_leaves rest s4
      ]
        ≡ some (promoted, s')
      → (u : BeTree P) × (mark_dirty id t ≡ some u)
        × Follows
            (elim pieces [
              | [] ↦ none
              | first ∷ rest ↦ Split.alloc_leaves rest (set_node id (leaf first) u)
            ])
            promoted
            s'
  first_leaf id [] t s s1 s2 s3 s' a b promoted m h1 h2 h3 k = cc
  first_leaf id (first ∷ rest) t s s1 s2 s3 s' a b promoted m h1 h2 h3 k =
      let x = bind_some (put_node id (leaf first) s3) k in
      let w = rewrite-IsRewritten id (leaf []) (leaf first) t s s1 s2 s3 x.0 a b m h1 h2 h3 x.1 in
      (
        w.marked,
        w.marks,
        alloc_leaves-Follows rest (set_node id (leaf first) w.marked) x.0 s' promoted w.mirror x.2,
      )

  split_leaf-Follows :
      (id : NodeId) (entries : BTreeMap LeafEntry) (t : BeTree P) (s s' : DiskEngine D P)
      (promoted : List (Key × NodeId))
      → IsMirror t s
      → DiskSplit.split_leaf id entries s ≡ some (promoted, s')
      → Follows (Split.split_leaf id entries t) promoted s'
  unfolding DiskSplit.split_leaf Split.split_leaf
  split_leaf-Follows id entries t s s' promoted m h =
      let a = bind_some (loaded_mut id s) h in
      let b = bind_some (put_node id (leaf []) a.0.1) a.2 in
      let c = bind_some (partition_sizes (length entries) s.params.leaf_capacity) b.2 in
      let d = bind_some (loaded_mut id b.0) c.2 in
      let f =
        first_leaf id (pieces_of c.0 entries) t s a.0.1 b.0 d.0.1 s' a.0.0 d.0.0 promoted m a.1 b.1
          d.1 d.2 in
      record {
        after = f.2.after;
        runs = bind_to (mark_dirty id t) _ f.1 (
            bind_to (partition_sizes (length entries) t.params.leaf_capacity) _
              (ap (λ p. partition_sizes (length entries) p.leaf_capacity) (sym m.params) ∙ c.1)
              f.2.runs);
        mirror = f.2.mirror;
      }

  split_internal-Follows :
      (id : NodeId) (pivots : List Key) (children : List NodeId) (buffer : BTreeMap Message)
      (t : BeTree P) (s s' : DiskEngine D P) (promoted : List (Key × NodeId))
      → IsMirror t s
      → DiskSplit.split_internal id pivots children buffer s ≡ some (promoted, s')
      → Follows (Split.split_internal id pivots children buffer t) promoted s'
  unfolding DiskSplit.split_internal Split.split_internal
  split_internal-Follows id pivots children buffer t s s' promoted m h =
      let a = bind_some (loaded_mut id s) h in
      let b = bind_some (put_node id (internal [] [] []) a.0.1) a.2 in
      let c = bind_some (split_contents s.params.fanout pivots children buffer) b.2 in
      let d = bind_some (loaded_mut id b.0) c.2 in
      let e = bind_some (put_node id c.0.0 d.0.1) d.2 in
      let w =
        rewrite-IsRewritten id (internal [] [] []) c.0.0 t s a.0.1 b.0 d.0.1 e.0 a.0.0 d.0.0 m a.1
          b.1 d.1 e.1 in
      let f =
        alloc_pieces-Follows c.0.1 (set_node id c.0.0 w.marked) e.0 s' promoted w.mirror e.2 in
      record {
        after = f.after;
        runs = bind_to (mark_dirty id t) _ w.marks (
            bind_to (split_contents t.params.fanout pivots children buffer) _
              (ap (λ p. split_contents p.fanout pivots children buffer) (sym m.params) ∙ c.1)
              f.runs);
        mirror = f.mirror;
      }

  guard_splits :
      (b : Bool) (x : Option (List (Key × NodeId) × DiskEngine D P))
      (y : Option (List (Key × NodeId) × BeTree P)) (t : BeTree P) (s s' : DiskEngine D P)
      (promoted : List (Key × NodeId))
      → IsMirror t s
      → (x ≡ some (promoted, s') → Follows y promoted s')
      → (if b then x else some ([], s)) ≡ some (promoted, s')
      → Follows (if b then y else some ([], t)) promoted s'
  guard_splits true x y t s s' promoted m f h = f h
  guard_splits false x y t s s' promoted m f h = record {
    after = t;
    runs = ap (λ p. some (p.0, t)) (some_inj h);
    mirror = subst (IsMirror t) (ap (λ p. p.1) (some_inj h)) m;
  }

  split_node-Follows :
      (id : NodeId) (n : Node) (t : BeTree P) (s s' : DiskEngine D P)
      (promoted : List (Key × NodeId))
      → IsMirror t s
      → DiskSplit.split_node id n s ≡ some (promoted, s')
      → Follows (Split.split_node id n t) promoted s'
  unfolding DiskSplit.split_node Split.split_node
  split_node-Follows id (leaf entries) t s s' promoted m h =
      subst
        (λ p.
          Follows
            (if ltb p.leaf_capacity (length entries)
              then Split.split_leaf id entries t
              else some ([], t))
            promoted s')
        m.params
        (guard_splits (ltb s.params.leaf_capacity (length entries))
          (DiskSplit.split_leaf id entries s) (Split.split_leaf id entries t) t s s' promoted m
          (split_leaf-Follows id entries t s s' promoted m) h)
  split_node-Follows id (internal pivots children buffer) t s s' promoted m h =
      subst
        (λ p.
          Follows
            (if ltb p.fanout (length children)
              then Split.split_internal id pivots children buffer t
              else some ([], t))
            promoted s')
        m.params
        (guard_splits (ltb s.params.fanout (length children))
          (DiskSplit.split_internal id pivots children buffer s)
          (Split.split_internal id pivots children buffer t) t s s' promoted m
          (split_internal-Follows id pivots children buffer t s s' promoted m) h)

  pub split_if_needed-Follows :
      (id : NodeId) (t : BeTree P) (s s' : DiskEngine D P) (promoted : List (Key × NodeId))
      → IsMirror t s
      → DiskSplit.split_if_needed id s ≡ some (promoted, s')
      → Follows (Split.split_if_needed id t) promoted s'
  unfolding DiskSplit.split_if_needed Split.split_if_needed
  split_if_needed-Follows id t s s' promoted m h =
      let a = bind_some (loaded id s) h in
      let f = split_node-Follows id a.0 t s s' promoted m a.2 in
      record {
        after = f.after;
        runs = bind_to (node_at t id) _ (loaded-IsMirror id t s m a.1) f.runs;
        mirror = f.mirror;
      }

  hang_splits-IsMirror :
      (id : NodeId) (promoted : List (Key × NodeId)) (n : Node) (u : BeTree P)
      (s s' : DiskEngine D P)
      → IsMirror u s
      → elim n [
        | leaf entries ↦ none
        | internal pivots children buffer ↦
            hang_splits promoted pivots children >>= λ p. put_node id (internal p.0 p.1 buffer) s
      ]
        ≡ some s'
      → Reaches
          (elim n [
            | leaf entries ↦ none
            | internal pivots children buffer ↦ hang_splits promoted pivots children >>= λ p.
                some (set_node id (internal p.0 p.1 buffer) u)
          ])
          s'
  hang_splits-IsMirror id promoted (leaf entries) u s s' m h = cc
  hang_splits-IsMirror id promoted (internal pivots children buffer) u s s' m h =
      let a = bind_some (hang_splits promoted pivots children) h in
      record {
        after = set_node id (internal a.0.0 a.0.1 buffer) u;
        runs = bind_to (hang_splits promoted pivots children) _ a.1 refl;
        mirror = put_node-IsMirror id (internal a.0.0 a.0.1 buffer) u s s' m a.2;
      }

  pub integrate_splits-Reaches :
      (id : NodeId) (promoted : List (Key × NodeId)) (t : BeTree P) (s s' : DiskEngine D P)
      → IsMirror t s
      → DiskSplit.integrate_splits id promoted s ≡ some s'
      → Reaches (Split.integrate_splits id promoted t) s'
  unfolding DiskSplit.integrate_splits Split.integrate_splits
  integrate_splits-Reaches id [] t s s' m h = record {
    after = t;
    runs = refl;
    mirror = subst (IsMirror t) (some_inj h) m;
  }
  integrate_splits-Reaches id (first ∷ promoted) t s s' m h =
      let a = bind_some (loaded_mut id s) h in
      let x = loaded_mut-IsMirror id t s a.0.1 a.0.0 m a.1 in
      let f = hang_splits-IsMirror id (first ∷ promoted) a.0.0 x.marked a.0.1 s' x.mirror a.2 in
      record {
        after = f.after;
        runs = bind_to (mark_dirty id t) _ x.marks (bind_to (node_at x.marked id) _ x.reads f.runs);
        mirror = f.mirror;
      }
