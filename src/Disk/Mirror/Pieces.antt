-- ===== src/Disk/Mirror/Pieces.antt =====
-- Rewriting a node and hanging new ones: the engine does what the tree does.
use beetree.Prelude.{
  ℕ, zero, suc, ◌≡◌, refl, sym, ap, ◌∙◌, true, Option, some, List, [], ◌∷◌, get_elem?, set,
  some_inj, bind_some, ◌>>=◌,
}
use mathlib.Core.Path.{subst}
use beetree.Key.{Key}
use beetree.BTreeMap.{BTreeMap}
use beetree.Node.{NodeId, Node, internal, leaf, LeafEntry}
use beetree.Tree.Arena.{BeTree, set_node, mark_dirty, alloc}
use beetree.Tree.Split
use beetree.Tree.Split.{Piece, pieces_of, split_contents, hang_splits}
use beetree.Disk.{DiskEngine}
use beetree.Disk.Arena.{loaded_mut, put_node, alloc_dirty}
use beetree.Disk.Split as DiskSplit
use beetree.Disk.Mirror.Relation.{IsMirror, Follows}
use beetree.Disk.Mirror.Steps.{loaded_mut-IsMirror, put_node-IsMirror, alloc-IsMirror}

set-set : {A : Type 0} (xs : List A) (i : ℕ) (a b : A) → set (set xs i a) i b ≡ set xs i b
set-set [] i a b = refl
set-set (x ∷ xs) zero a b = refl
set-set (x ∷ xs) (suc i) a b = ap (λ l. x ∷ l) (set-set xs i a b)

mark_dirty-some :
    {P : Type 0} (id : NodeId) (t : BeTree P) {u : BeTree P}
    → mark_dirty id t ≡ some u
    → record t { dirty = set t.dirty id true } ≡ u
unfolding mark_dirty
mark_dirty-some id t h = let a = bind_some (get_elem? t.dirty id) h in some_inj a.2

-- A second write access to a node adds nothing.
mark_dirty_twice :
    {P : Type 0} (id : NodeId) (n n' : Node) (t u v : BeTree P)
    → mark_dirty id t ≡ some u
    → mark_dirty id (set_node id n u) ≡ some v
    → set_node id n' v ≡ set_node id n' u
unfolding set_node
mark_dirty_twice {P = P} id n n' t u v h k =
    sym (ap (set_node id n') (mark_dirty-some id (set_node id n u) k))
    ∙ ap {A = BeTree P} {B = BeTree P}
        (λ w. record w { nodes = set (set w.nodes id n) id n'; dirty = set w.dirty id true })
        (sym (mark_dirty-some id t h))
    ∙ ap {B = BeTree P} (λ l. record t { nodes = set (set t.nodes id n) id n'; dirty = l })
        (set-set t.dirty id true true)
    ∙ ap {B = BeTree P} (λ l. record t { nodes = l; dirty = set t.dirty id true })
        (set-set t.nodes id n n')
    ∙ ap {A = BeTree P} {B = BeTree P} (λ w. record w { nodes = set w.nodes id n' })
        (mark_dirty-some id t h)

module _ {D P : Type 0} where
  -- A node taken out and written again, behind two write accesses.
  pub record IsRewritten (id : NodeId) (n : Node) (t : BeTree P) (s' : DiskEngine D P)
      : Type 0 where
    pub marked : BeTree P
    pub marks : mark_dirty id t ≡ some marked
    pub mirror : IsMirror (set_node id n marked) s'

  pub rewrite-IsRewritten :
      (id : NodeId) (hole n : Node) (t : BeTree P) (s s1 s2 s3 s4 : DiskEngine D P) (a b : Node)
      → IsMirror t s
      → loaded_mut id s ≡ some (a, s1)
      → put_node id hole s1 ≡ some s2
      → loaded_mut id s2 ≡ some (b, s3)
      → put_node id n s3 ≡ some s4
      → IsRewritten id n t s4
  rewrite-IsRewritten id hole n t s s1 s2 s3 s4 a b m h1 h2 h3 h4 =
      let x = loaded_mut-IsMirror id t s s1 a m h1 in
      let y = put_node-IsMirror id hole x.marked s1 s2 x.mirror h2 in
      let z = loaded_mut-IsMirror id (set_node id hole x.marked) s2 s3 b y h3 in
      let w = put_node-IsMirror id n z.marked s3 s4 z.mirror h4 in
      record {
        marked = x.marked;
        marks = x.marks;
        mirror =
            subst (λ u. IsMirror u s4)
              (mark_dirty_twice id hole n t x.marked z.marked x.marks z.marks) w;
      }

  pub follow_alloc :
      (n : Node) (pivot : Key) (id : NodeId) (promoted : List (Key × NodeId)) (t : BeTree P)
      (s' : DiskEngine D P) (rest : BeTree P → Option (List (Key × NodeId) × BeTree P))
      → id ≡ (alloc n t).0
      → Follows (rest (alloc n t).1) promoted s'
      → Follows
          (rest (alloc n t).1 >>= λ p. some ((pivot, (alloc n t).0) ∷ p.0, p.1))
          ((pivot, id) ∷ promoted)
          s'
  follow_alloc n pivot id promoted t s' rest e f = record {
    after = f.after;
    runs =
        ap (λ o. o >>= λ p. some ((pivot, (alloc n t).0) ∷ p.0, p.1)) f.runs
        ∙ ap (λ i. some ((pivot, i) ∷ promoted, f.after)) (sym e);
    mirror = f.mirror;
  }

  pub alloc_leaves-Follows :
      (pieces : List (BTreeMap LeafEntry)) (t : BeTree P) (s s' : DiskEngine D P)
      (promoted : List (Key × NodeId))
      → IsMirror t s
      → DiskSplit.alloc_leaves pieces s ≡ some (promoted, s')
      → Follows (Split.alloc_leaves pieces t) promoted s'
  unfolding DiskSplit.alloc_leaves Split.alloc_leaves
  alloc_leaves-Follows [] t s s' promoted m h = record {
    after = t;
    runs = ap (λ p. some (p.0, t)) (some_inj h);
    mirror = subst (IsMirror t) (ap (λ p. p.1) (some_inj h)) m;
  }
  alloc_leaves-Follows ([] ∷ pieces) t s s' promoted m h = cc
  alloc_leaves-Follows (((pivot, e) ∷ piece) ∷ pieces) t s s' promoted m h =
      let a = bind_some (alloc_dirty (leaf ((pivot, e) ∷ piece)) s) h in
      let b = bind_some (DiskSplit.alloc_leaves pieces a.0.1) a.2 in
      let one = alloc-IsMirror (leaf ((pivot, e) ∷ piece)) t s a.0.1 a.0.0 m a.1 in
      let rest =
        alloc_leaves-Follows pieces (alloc (leaf ((pivot, e) ∷ piece)) t).1 a.0.1 b.0.1 b.0.0 one.1
          b.1 in
      subst (λ p. Follows (Split.alloc_leaves (((pivot, e) ∷ piece) ∷ pieces) t) p.0 p.1)
        (some_inj b.2)
        (follow_alloc (leaf ((pivot, e) ∷ piece)) pivot a.0.0 b.0.0 t b.0.1
          (Split.alloc_leaves pieces) one.0 rest)

  pub alloc_pieces-Follows :
      (pieces : List Piece) (t : BeTree P) (s s' : DiskEngine D P) (promoted : List (Key × NodeId))
      → IsMirror t s
      → DiskSplit.alloc_pieces pieces s ≡ some (promoted, s')
      → Follows (some (Split.alloc_pieces pieces t)) promoted s'
  unfolding DiskSplit.alloc_pieces Split.alloc_pieces
  alloc_pieces-Follows [] t s s' promoted m h = record {
    after = t;
    runs = ap (λ p. some (p.0, t)) (some_inj h);
    mirror = subst (IsMirror t) (ap (λ p. p.1) (some_inj h)) m;
  }
  alloc_pieces-Follows (piece ∷ pieces) t s s' promoted m h =
      let n : Node = internal piece.pivots piece.children piece.buffer in
      let a = bind_some (alloc_dirty n s) h in
      let b = bind_some (DiskSplit.alloc_pieces pieces a.0.1) a.2 in
      let one = alloc-IsMirror n t s a.0.1 a.0.0 m a.1 in
      let rest = alloc_pieces-Follows pieces (alloc n t).1 a.0.1 b.0.1 b.0.0 one.1 b.1 in
      subst (λ p. Follows (some (Split.alloc_pieces (piece ∷ pieces) t)) p.0 p.1) (some_inj b.2)
        (follow_alloc n piece.pivot a.0.0 b.0.0 t b.0.1 (λ u. some (Split.alloc_pieces pieces u))
          one.0 rest)
