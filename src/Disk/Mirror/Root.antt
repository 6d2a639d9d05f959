-- ===== src/Disk/Mirror/Root.antt =====
-- Settling the root: the engine does what the tree does.
use beetree.Prelude.{
  ℕ, zero, suc, ◌≡◌, refl, sym, ap, ◌∙◌, Bool, Option, none, some, [], ◌∷◌, some_inj, bind_some,
  ◌>>=◌, map, Option-cases, inl, inr,
}
use mathlib.Core.Path.{subst}
use beetree.Node.{NodeId, Node, internal, leaf, Outcome, splits, removed}
use beetree.Policy.{FlushPolicy}
use beetree.Tree.Arena.{BeTree, node_at, alloc}
use beetree.Tree.Root
use beetree.Vfs.Counting.{Vfs}
use beetree.Format.{Codec}
use beetree.Disk.{DiskEngine, DiskResult}
use beetree.Disk.Arena.{loaded, alloc_dirty, release_slot}
use beetree.Disk.Load.{ensure_loaded, with_ok}
use beetree.Disk.Get.{then_walk}
use beetree.Disk.Write as DiskWrite
use beetree.Disk.Mirror.Relation.{IsMirror, answer, strip-ok, bind_to, Reaches, then_walk-ok}
use beetree.Disk.Mirror.Slots.{release_slot-IsMirror, ensure_loaded-IsMirror}
use beetree.Disk.Mirror.Steps.{loaded-IsMirror, alloc-IsMirror}
use beetree.Disk.Mirror.Pick.{IsBlind}
use beetree.Disk.Mirror.Cascade.{with_ok-some}
use beetree.Disk.Mirror.Loop.{root_outcome-Follows}

module _ {D P : Type 0} where
  root-IsMirror :
      (t : BeTree P) (s : DiskEngine D P) (i j : NodeId)
      → IsMirror t s
      → j ≡ i
      → IsMirror (record t { root = i }) (record s { root = j })
  root-IsMirror t s i j m e = record {
    same = m.same;
    dirties = m.dirties;
    unbounded = m.unbounded;
    params = m.params;
    positive = m.positive;
    root = e;
    next_seq = m.next_seq;
    ops = m.ops;
    policy = m.policy;
    trace = m.trace;
  }

  new_root-IsMirror :
      (n : Node) (t : BeTree P) (s s' : DiskEngine D P)
      → IsMirror t s
      → DiskWrite.new_root n s ≡ some s'
      → IsMirror (Root.new_root n t) s'
  unfolding DiskWrite.new_root Root.new_root
  new_root-IsMirror n t s s' m h =
      let a = bind_some (alloc_dirty n s) h in
      let x = alloc-IsMirror n t s a.0.1 a.0.0 m a.1 in
      subst (IsMirror (record (alloc n t).1 { root = (alloc n t).0 })) (some_inj a.2)
        (root-IsMirror (alloc n t).1 a.0.1 (alloc n t).0 a.0.0 x.1 x.0)

  reset_root-IsMirror :
      (t : BeTree P) (s s' : DiskEngine D P)
      → IsMirror t s
      → DiskWrite.reset_root s ≡ some s'
      → IsMirror (Root.new_root (leaf []) t) s'
  unfolding DiskWrite.reset_root
  reset_root-IsMirror t s s' m h =
      let a = bind_some (DiskWrite.new_root (leaf []) s) h in
      release_slot-IsMirror s.root (Root.new_root (leaf []) t) a.0 s'
        (new_root-IsMirror (leaf []) t s a.0 m a.1) a.2

  -- An answer without a change.
  stays :
      (t : BeTree P) (s s' : DiskEngine D P)
      → IsMirror t s
      → answer (DiskResult.ok tt) s ≡ some (DiskResult.ok tt, s')
      → Reaches (some t) s'
  stays t s s' m h = record {
    after = t;
    runs = refl;
    mirror = subst (IsMirror t) (ap (λ x. x.1) (some_inj (strip-ok h))) m;
  }

abbrev collapse_from : {P : Type 0} → ℕ → BeTree P → Option Node → Option (BeTree P)
collapse_from f t o = elim o [
  | none ↦ none
  | some (internal pivots (child ∷ []) []) ↦ Root.collapse f (record t { root = child })
  | some other ↦ some t
]

abbrev Collapses : {D : Type 0} → Vfs D → Codec → Type 0 → ℕ → Type 0
Collapses {D = D} vfs c P f =
    (t : BeTree P) (s s' : DiskEngine D P)
    → IsMirror t s
    → DiskWrite.collapse vfs c f s ≡ some (DiskResult.ok tt, s')
    → Reaches (Root.collapse f t) s'

no_answer : {A : Type 0} {a : A} → Path (Option A) none (some a) → ⊥
no_answer e = cc

module _ {D P : Type 0} (vfs : Vfs D) (c : Codec) where
  collapse_at :
      (f : ℕ) (o : Option Node) (t : BeTree P) (s s' : DiskEngine D P)
      → Collapses vfs c P f
      → IsMirror t s
      → elim o [
        | none ↦ none
        | some (internal pivots (child ∷ []) []) ↦
            release_slot s.root (record s { root = child }) >>= λ s1.
            then_walk (ensure_loaded vfs c child [] s1) (λ done s2. DiskWrite.collapse vfs c f s2)
        | some other ↦ answer (DiskResult.ok tt) s
      ]
        ≡ some (DiskResult.ok tt, s')
      → Reaches (collapse_from f t o) s'
  collapse_at f none t s s' rest m h = cc
  collapse_at f (some (leaf entries)) t s s' rest m h = stays t s s' m h
  collapse_at f (some (internal pivots [] buffer)) t s s' rest m h = stays t s s' m h
  collapse_at f (some (internal pivots (x ∷ y ∷ children) buffer)) t s s' rest m h =
      stays t s s' m h
  collapse_at f (some (internal pivots (x ∷ []) (b ∷ buffer))) t s s' rest m h = stays t s s' m h
  collapse_at f (some (internal pivots (x ∷ []) [])) t s s' rest m h =
      let a = bind_some (release_slot s.root (record s { root = x })) h in
      let b = then_walk-ok (ensure_loaded vfs c x [] a.0) _ a.2 in
      let u = record t { root = x } in
      rest u b.1 s'
        (ensure_loaded-IsMirror vfs c x [] u a.0 b.1
          (release_slot-IsMirror s.root u (record s { root = x }) a.0 (root-IsMirror t s x x m refl)
            a.1)
          b.2)
        b.3

  collapse-Reaches : (f : ℕ) → Collapses vfs c P f
  unfolding DiskWrite.collapse Root.collapse
  collapse-Reaches zero t s s' m h = cc
  collapse-Reaches (suc f) t s s' m h =
      let g = collapse_at f (loaded s.root s) t s s' (collapse-Reaches f) m h in
      elim (Option-cases (loaded s.root s)) [
        | inl e ↦ absurd (no_answer (ap (collapse_from f t) (sym e) ∙ g.runs))
        | inr (n, e) ↦
            subst (λ o. Reaches (collapse_from f t o) s')
              (e ∙ sym (ap (node_at t) (sym m.root) ∙ loaded-IsMirror s.root t s m e)) g
      ]

module _ {D P : Type 0} (vfs : Vfs D) (c : Codec) (choose : FlushPolicy P)
    (blind : IsBlind choose) where
  -- What follows the outcome of the root of the tree.
  abbrev grow_from : ℕ → ℕ → Bool → Option (Outcome × BeTree P) → Option (BeTree P)
  grow_from f threshold traced o = elim o [
    | none ↦ none
    | some (removed, t') ↦ some (Root.new_root (leaf []) t')
    | some (splits [], t') ↦ some t'
    | some (splits (first ∷ promoted), t') ↦ Root.grow choose f threshold traced (
        Root.new_root
          (internal (map (λ p. p.0) (first ∷ promoted))
            (t'.root ∷ map (λ p. p.1) (first ∷ promoted)) [])
          t')
  ]

  abbrev Grows : ℕ → ℕ → ℕ → Bool → Type 0
  Grows f visits b traced =
      (t : BeTree P) (s s' : DiskEngine D P)
      → IsMirror t s
      → DiskWrite.grow vfs c choose f visits (suc b) traced s ≡ some (DiskResult.ok tt, s')
      → Reaches (Root.grow choose f (suc b) traced t) s'

  grow_on :
      (f visits b : ℕ) (traced : Bool) (outcome : Outcome) (t : BeTree P) (s s' : DiskEngine D P)
      → Grows f visits b traced
      → IsMirror t s
      → elim outcome [
        | removed ↦ with_ok tt (DiskWrite.reset_root s)
        | splits [] ↦ answer (DiskResult.ok tt) s
        | splits (first ∷ promoted) ↦
            DiskWrite.new_root
              (internal
                (map (λ p. p.0) (first ∷ promoted))
                (s.root ∷ map (λ p. p.1) (first ∷ promoted))
                [])
              s
            >>= λ s1. DiskWrite.grow vfs c choose f visits (suc b) traced s1
      ]
        ≡ some (DiskResult.ok tt, s')
      → Reaches (grow_from f (suc b) traced (some (outcome, t))) s'
  grow_on f visits b traced removed t s s' rest m h = record {
    after = Root.new_root (leaf []) t;
    runs = refl;
    mirror = reset_root-IsMirror t s s' m (with_ok-some (DiskWrite.reset_root s) h).1;
  }
  grow_on f visits b traced (splits []) t s s' rest m h = stays t s s' m h
  grow_on f visits b traced (splits (first ∷ promoted)) t s s' rest m h =
      let pivots = map (λ p. p.0) (first ∷ promoted) in
      let pieces = map (λ p. p.1) (first ∷ promoted) in
      let a = bind_some (DiskWrite.new_root (internal pivots (s.root ∷ pieces) []) s) h in
      subst
        (λ r.
          Reaches
            (Root.grow choose f (suc b) traced (Root.new_root (internal pivots (r ∷ pieces) []) t))
            s')
        m.root
        (rest (Root.new_root (internal pivots (s.root ∷ pieces) []) t) a.0 s'
          (new_root-IsMirror (internal pivots (s.root ∷ pieces) []) t s a.0 m a.1) a.2)

  grow-Reaches : (f visits b : ℕ) (traced : Bool) → Grows f visits b traced
  unfolding DiskWrite.grow Root.grow
  grow-Reaches zero visits b traced t s s' m h = cc
  grow-Reaches (suc f) visits b traced t s s' m h =
      let a = then_walk-ok (DiskWrite.root_outcome vfs c choose f visits (suc b) traced s) _ h in
      let g = root_outcome-Follows vfs c choose blind f visits b traced t s a.1 a.0 m a.2 in
      subst (λ o. Reaches (grow_from f (suc b) traced o) s') (sym g.runs)
        (grow_on f visits b traced a.0 g.after a.1 s' (grow-Reaches f visits b traced) g.mirror a.3)

  pub restore_root_with-Reaches :
      (f visits b : ℕ) (traced : Bool) (t : BeTree P) (s s' : DiskEngine D P)
      → IsMirror t s
      → DiskWrite.restore_root_with vfs c choose f visits (suc b) traced s
        ≡ some (DiskResult.ok tt, s')
      → Reaches (Root.restore_root_with choose f (suc b) traced t) s'
  unfolding DiskWrite.restore_root_with Root.restore_root_with
  restore_root_with-Reaches f visits b traced t s s' m h =
      let a = then_walk-ok (DiskWrite.grow vfs c choose f visits (suc b) traced s) _ h in
      let g = grow-Reaches f visits b traced t s a.1 m a.2 in
      let k = collapse-Reaches vfs c f g.after a.1 s' g.mirror a.3 in
      record {
        after = k.after;
        runs = bind_to (Root.grow choose f (suc b) traced t) _ g.runs k.runs;
        mirror = k.mirror;
      }
