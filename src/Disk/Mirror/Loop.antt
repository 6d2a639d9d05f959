-- ===== src/Disk/Mirror/Loop.antt =====
-- The loop of the cascade and the changes of the root: the engine does what the tree does.
use beetree.Prelude.{
  ℕ, zero, suc, ◌≡◌, refl, sym, ap, ◌∙◌, Bool, Option, none, some, List, [], ◌∷◌, some_inj,
  bind_some, ◌>>=◌,
}
use mathlib.Core.Path.{subst}
use beetree.Key.{Key}
use beetree.BTreeMap.{BTreeMap}
use beetree.Message.{Message}
use beetree.Node.{LeafEntry, NodeId, Node, internal, leaf, Outcome, splits}
use beetree.Policy.{FlushPolicy}
use beetree.Tree.Arena.{BeTree, node_at}
use beetree.Tree.Cascade
use beetree.Tree.Root
use beetree.Tree.Split
use beetree.Vfs.Counting.{Vfs}
use beetree.Format.{Codec}
use beetree.Disk.{DiskEngine, DiskResult}
use beetree.Disk.Arena.{loaded}
use beetree.Disk.Split as DiskSplit
use beetree.Disk.Cascade as DiskCascade
use beetree.Disk.Write as DiskWrite
use beetree.Disk.Mirror.Relation.{IsMirror, answer, strip-ok, bind_to, Follows, then_walk-ok}
use beetree.Disk.Mirror.Steps.{loaded-IsMirror}
use beetree.Disk.Mirror.Split.{split_if_needed-Follows}
use beetree.Disk.Mirror.Pick.{IsBlind}
use beetree.Disk.Mirror.Cascade.{in_tree, round-Advances}

outcome_internal :
    {P : Type 0} (choose : FlushPolicy P) (fuel threshold : ℕ) (traced : Bool) (t : BeTree P)
    (pivots : List Key) (children : List NodeId) (buffer : BTreeMap Message)
    → node_at t t.root ≡ some (internal pivots children buffer)
    → Root.root_outcome choose fuel threshold traced t
      ≡ Cascade.flush_loop choose fuel threshold traced (t.root ∷ []) t
unfolding Root.root_outcome Cascade.flush_with
outcome_internal choose fuel threshold traced t pivots children buffer e =
    rw (e, Root.root_outcome) refl

outcome_leaf :
    {P : Type 0} (choose : FlushPolicy P) (fuel threshold : ℕ) (traced : Bool) (t : BeTree P)
    (entries : BTreeMap LeafEntry)
    → node_at t t.root ≡ some (leaf entries)
    → Root.root_outcome choose fuel threshold traced t
      ≡ (Split.split_if_needed t.root t >>= λ p. answer (splits p.0) p.1)
unfolding Root.root_outcome
outcome_leaf choose fuel threshold traced t entries e = rw (e, Root.root_outcome) refl

module _ {D P : Type 0} (vfs : Vfs D) (c : Codec) (choose : FlushPolicy P)
    (blind : IsBlind choose) where
  -- What follows a round of the tree.
  abbrev loop_from : ℕ → ℕ → Bool → Option (Cascade.Progress P) → Option (Outcome × BeTree P)
  loop_from f threshold traced o = elim o [
    | none ↦ none
    | some (Cascade.Progress.again flushing' t') ↦
        Cascade.flush_loop choose f threshold traced flushing' t'
    | some (Cascade.Progress.done outcome t') ↦ some (outcome, t')
  ]

  abbrev Loops : ℕ → ℕ → ℕ → Bool → Type 0
  Loops f visits b traced =
      (flushing : List NodeId) (t : BeTree P) (s s' : DiskEngine D P) (outcome : Outcome)
      → IsMirror t s
      → DiskCascade.flush_loop vfs c choose f visits (suc b) traced flushing s
        ≡ some (DiskResult.ok outcome, s')
      → Follows (Cascade.flush_loop choose f (suc b) traced flushing t) outcome s'

  go_on :
      (f visits b : ℕ) (traced : Bool) (p : DiskCascade.Progress) (t : BeTree P)
      (s s' : DiskEngine D P) (outcome : Outcome)
      → Loops f visits b traced
      → IsMirror t s
      → elim p [
        | DiskCascade.Progress.again flushing' ↦
            DiskCascade.flush_loop vfs c choose f visits (suc b) traced flushing' s
        | DiskCascade.Progress.done o ↦ answer (DiskResult.ok o) s
      ]
        ≡ some (DiskResult.ok outcome, s')
      → Follows (loop_from f (suc b) traced (some (in_tree p t))) outcome s'
  go_on f visits b traced (DiskCascade.Progress.again flushing) t s s' outcome loops m h =
      loops flushing t s s' outcome m h
  go_on f visits b traced (DiskCascade.Progress.done o) t s s' outcome loops m h = record {
    after = t;
    runs = ap (λ x. some (x.0, t)) (some_inj (strip-ok h));
    mirror = subst (IsMirror t) (ap (λ x. x.1) (some_inj (strip-ok h))) m;
  }

  flush_loop-Follows : (f visits b : ℕ) (traced : Bool) → Loops f visits b traced
  unfolding DiskCascade.flush_loop Cascade.flush_loop
  flush_loop-Follows zero visits b traced flushing t s s' outcome m h = cc
  flush_loop-Follows (suc f) visits b traced flushing t s s' outcome m h =
      let a = then_walk-ok (DiskCascade.round vfs c choose visits (suc b) traced flushing s) _ h in
      let g = round-Advances vfs c choose blind visits b traced flushing t s a.1 a.0 m a.2 in
      subst (λ o. Follows (loop_from f (suc b) traced o) outcome s') (sym g.runs)
        (go_on f visits b traced a.0 g.after a.1 s' outcome (flush_loop-Follows f visits b traced)
          g.mirror a.3)

  outcome_at :
      (fuel visits b : ℕ) (traced : Bool) (o : Option Node) (t : BeTree P) (s s' : DiskEngine D P)
      (outcome : Outcome)
      → IsMirror t s
      → ((n : Node) → o ≡ some n → node_at t t.root ≡ some n)
      → elim o [
        | none ↦ none
        | some (internal pivots children buffer) ↦
            DiskCascade.flush_with vfs c choose fuel visits s.root (suc b) traced s
        | some (leaf entries) ↦
            DiskSplit.split_if_needed s.root s >>= λ p. answer (DiskResult.ok (splits p.0)) p.1
      ]
        ≡ some (DiskResult.ok outcome, s')
      → Follows (Root.root_outcome choose fuel (suc b) traced t) outcome s'
  unfolding DiskCascade.flush_with
  outcome_at fuel visits b traced none t s s' outcome m held h = cc
  outcome_at fuel visits b traced (some (internal pivots children buffer)) t s s' outcome m held h =
      let f = flush_loop-Follows fuel visits b traced (s.root ∷ []) t s s' outcome m h in
      record {
        after = f.after;
        runs =
            outcome_internal choose fuel (suc b) traced t pivots children buffer (held _ refl)
            ∙ ap (λ r. Cascade.flush_loop choose fuel (suc b) traced (r ∷ []) t) (sym m.root)
            ∙ f.runs;
        mirror = f.mirror;
      }
  outcome_at fuel visits b traced (some (leaf entries)) t s s' outcome m held h =
      let a = bind_some (DiskSplit.split_if_needed s.root s) h in
      let f = split_if_needed-Follows s.root t s a.0.1 a.0.0 m a.1 in
      subst (λ p. Follows (Root.root_outcome choose fuel (suc b) traced t) p.0 p.1)
        (some_inj (strip-ok a.2))
        (record {
          after = f.after;
          runs =
              outcome_leaf choose fuel (suc b) traced t entries (held _ refl)
              ∙ bind_to (Split.split_if_needed t.root t) _
                  (ap (λ r. Split.split_if_needed r t) (sym m.root) ∙ f.runs) refl;
          mirror = f.mirror;
        })

  pub root_outcome-Follows :
      (fuel visits b : ℕ) (traced : Bool) (t : BeTree P) (s s' : DiskEngine D P) (outcome : Outcome)
      → IsMirror t s
      → DiskWrite.root_outcome vfs c choose fuel visits (suc b) traced s
        ≡ some (DiskResult.ok outcome, s')
      → Follows (Root.root_outcome choose fuel (suc b) traced t) outcome s'
  unfolding DiskWrite.root_outcome
  root_outcome-Follows fuel visits b traced t s s' outcome m h =
      outcome_at fuel visits b traced (loaded s.root s) t s s' outcome m
        (λ n e. ap (node_at t) (sym m.root) ∙ loaded-IsMirror s.root t s m e) h
