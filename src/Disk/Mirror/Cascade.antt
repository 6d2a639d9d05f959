-- ===== src/Disk/Mirror/Cascade.antt =====
-- The cascade of flushes: the engine does what the tree does.
use beetree.Prelude.{
  ℕ, suc, ◌≡◌, ap, Bool, true, false, Option, none, some, List, [], ◌∷◌, length, some_inj,
  bind_some, ◌>>=◌, leb, if◌then◌else◌,
}
use mathlib.Core.Path.{subst}
use beetree.Node.{NodeId, Delivery, Outcome, splits, removed}
use beetree.Policy.{FlushPolicy}
use beetree.Trace.{record_flush_decision}
use beetree.Tree.Arena
use beetree.Tree.Arena.{BeTree}
use beetree.Tree.Split
use beetree.Tree.Flush
use beetree.Tree.Cascade
use beetree.Vfs.Counting.{Vfs}
use beetree.Format.{Codec}
use beetree.Disk.{DiskEngine, DiskResult}
use beetree.Disk.Load.{with_ok}
use beetree.Disk.Split as DiskSplit
use beetree.Disk.Flush as DiskFlush
use beetree.Disk.Cascade as DiskCascade
use beetree.Disk.Mirror.Relation.{IsMirror, strip-ok, bind_to, Reaches, then_walk-ok}
use beetree.Disk.Mirror.Split.{split_if_needed-Follows, integrate_splits-Reaches}
use beetree.Disk.Mirror.Flush.{
  buffer_len-IsMirror, remove_child-Reaches, settle-Follows, apply_batch-Follows,
}
use beetree.Disk.Mirror.Pick.{IsBlind, pick_and_extract-Follows}

-- The same progress of the tree.
abbrev pub in_tree : {P : Type 0} → DiskCascade.Progress → BeTree P → Cascade.Progress P
in_tree (DiskCascade.Progress.again stack) t = Cascade.Progress.again stack t
in_tree (DiskCascade.Progress.done outcome) t = Cascade.Progress.done outcome t

-- The tree's round makes the same progress.
pub record Advances {D P : Type 0} (o : Option (Cascade.Progress P)) (p : DiskCascade.Progress)
    (s' : DiskEngine D P) : Type 0 where
  pub after : BeTree P
  pub runs : o ≡ some (in_tree p after)
  pub mirror : IsMirror after s'

pub with_ok-some :
    {A S : Type 0} {a b : A} {s' : S} (o : Option S)
    → with_ok a o ≡ some (DiskResult.ok b, s')
    → (a ≡ b) × (o ≡ some s')
with_ok-some none h = cc
with_ok-some (some s) h =
    (ap (λ p. p.0) (some_inj (strip-ok h)), ap (λ p. some p.1) (some_inj (strip-ok h)))

module _ {D P : Type 0} where
  advance :
      (stack : List NodeId) (p : DiskCascade.Progress) (o : Option (DiskEngine D P))
      (q : Option (BeTree P)) (s' : DiskEngine D P)
      → (o ≡ some s' → Reaches q s')
      → with_ok (DiskCascade.Progress.again stack) o ≡ some (DiskResult.ok p, s')
      → Advances (q >>= λ t'. some (Cascade.Progress.again stack t')) p s'
  advance stack p o q s' reach h =
      let a = with_ok-some o h in
      let r = reach a.1 in
      record {
        after = r.after;
        runs = bind_to q _ r.runs (ap (λ x. some (in_tree x r.after)) a.0);
        mirror = r.mirror;
      }

  hand_over-Advances :
      (top : NodeId) (rest : List NodeId) (outcome : Outcome) (t : BeTree P) (s s' : DiskEngine D P)
      (p : DiskCascade.Progress)
      → IsMirror t s
      → DiskCascade.hand_over top rest outcome s ≡ some (DiskResult.ok p, s')
      → Advances (Cascade.hand_over top rest outcome t) p s'
  unfolding DiskCascade.hand_over Cascade.hand_over
  hand_over-Advances top [] outcome t s s' p m h = record {
    after = t;
    runs = ap (λ x. some (in_tree x.0 t)) (some_inj (strip-ok h));
    mirror = subst (IsMirror t) (ap (λ x. x.1) (some_inj (strip-ok h))) m;
  }
  hand_over-Advances top (parent ∷ rest) (splits promoted) t s s' p m h =
      advance (parent ∷ rest) p (DiskSplit.integrate_splits parent promoted s)
        (Split.integrate_splits parent promoted t) s'
        (integrate_splits-Reaches parent promoted t s s' m) h
  hand_over-Advances top (parent ∷ rest) removed t s s' p m h =
      advance (parent ∷ rest) p (DiskFlush.remove_child parent top s)
        (Flush.remove_child parent top t) s' (remove_child-Reaches parent top t s s' m) h

  finish-Advances :
      (top : NodeId) (rest : List NodeId) (t : BeTree P) (s s' : DiskEngine D P)
      (p : DiskCascade.Progress)
      → IsMirror t s
      → DiskCascade.finish top rest s ≡ some (DiskResult.ok p, s')
      → Advances (Cascade.finish top rest t) p s'
  unfolding DiskCascade.finish Cascade.finish
  finish-Advances top rest t s s' p m h =
      let a = bind_some (DiskFlush.settle top s) h in
      let f = settle-Follows top t s a.0.1 a.0.0 m a.1 in
      let g = hand_over-Advances top rest a.0.0 f.after a.0.1 s' p f.mirror a.2 in
      record {
        after = g.after;
        runs = bind_to (Flush.settle top t) _ f.runs g.runs;
        mirror = g.mirror;
      }

  hang_pieces :
      (top : NodeId) (rest : List NodeId) (child : NodeId) (t : BeTree P) (s s' : DiskEngine D P)
      (p : DiskCascade.Progress)
      → IsMirror t s
      → (DiskSplit.split_if_needed child s >>= λ x.
          with_ok
            (DiskCascade.Progress.again (top ∷ rest))
            (DiskSplit.integrate_splits top x.0 x.1))
        ≡ some (DiskResult.ok p, s')
      → Advances
          (Split.split_if_needed child t >>= λ x. Split.integrate_splits top x.0 x.1 >>= λ t'.
            some (Cascade.Progress.again (top ∷ rest) t'))
          p
          s'
  hang_pieces top rest child t s s' p m h =
      let a = bind_some (DiskSplit.split_if_needed child s) h in
      let f = split_if_needed-Follows child t s a.0.1 a.0.0 m a.1 in
      let g =
        advance (top ∷ rest) p (DiskSplit.integrate_splits top a.0.0 a.0.1)
          (Split.integrate_splits top a.0.0 f.after) s'
          (integrate_splits-Reaches top a.0.0 f.after a.0.1 s' f.mirror) a.2 in
      record {
        after = g.after;
        runs = bind_to (Split.split_if_needed child t) _ f.runs g.runs;
        mirror = g.mirror;
      }

  after_delivery-Advances :
      (top : NodeId) (rest : List NodeId) (child : NodeId) (delivery : Delivery) (t : BeTree P)
      (s s' : DiskEngine D P) (p : DiskCascade.Progress)
      → IsMirror t s
      → DiskCascade.after_delivery top rest child delivery s ≡ some (DiskResult.ok p, s')
      → Advances (Cascade.after_delivery top rest child delivery t) p s'
  unfolding DiskCascade.after_delivery Cascade.after_delivery
  after_delivery-Advances top rest child (Delivery.internal true) t s s' p m h = record {
    after = t;
    runs = ap (λ x. some (in_tree x.0 t)) (some_inj (strip-ok h));
    mirror = subst (IsMirror t) (ap (λ x. x.1) (some_inj (strip-ok h))) m;
  }
  after_delivery-Advances top rest child (Delivery.leaf true) t s s' p m h =
      advance (top ∷ rest) p (DiskFlush.remove_child top child s) (Flush.remove_child top child t)
        s' (remove_child-Reaches top child t s s' m) h
  after_delivery-Advances top rest child (Delivery.internal false) t s s' p m h =
      hang_pieces top rest child t s s' p m h
  after_delivery-Advances top rest child (Delivery.leaf false) t s s' p m h =
      hang_pieces top rest child t s s' p m h

  note_decision-IsMirror :
      (traced : Bool) (node : NodeId) (occupancies : List ℕ) (chosen : ℕ) (t : BeTree P)
      (s : DiskEngine D P)
      → IsMirror t s
      → IsMirror
          (Cascade.note_decision traced node occupancies chosen t)
          (DiskCascade.note_decision traced node occupancies chosen s)
  unfolding Cascade.note_decision DiskCascade.note_decision
  note_decision-IsMirror false node occupancies chosen t s m = m
  note_decision-IsMirror true node occupancies chosen t s m = record {
    same = m.same;
    dirties = m.dirties;
    unbounded = m.unbounded;
    params = m.params;
    positive = m.positive;
    root = m.root;
    next_seq = m.next_seq;
    ops = m.ops;
    policy = m.policy;
    trace = ap (record_flush_decision node occupancies chosen) m.trace;
  }

module _ {D P : Type 0} (vfs : Vfs D) (c : Codec) (choose : FlushPolicy P)
    (blind : IsBlind choose) where
  flush_round-Advances :
      (threshold : ℕ) (traced : Bool) (top : NodeId) (rest : List NodeId) (t : BeTree P)
      (s s' : DiskEngine D P) (p : DiskCascade.Progress)
      → IsMirror t s
      → DiskCascade.flush_round vfs c choose threshold traced top rest s
        ≡ some (DiskResult.ok p, s')
      → Advances (Cascade.flush_round choose threshold traced top rest t) p s'
  unfolding DiskCascade.flush_round Cascade.flush_round
  flush_round-Advances threshold traced top rest t s s' p m h =
      let a = bind_some (DiskFlush.pick_and_extract choose top (length rest) traced s) h in
      let x = a.0.0 in
      let f = pick_and_extract-Follows choose blind top (length rest) traced t s a.0.1 x m a.1 in
      let noted = DiskCascade.note_decision traced top x.occupancies x.chosen a.0.1 in
      let b =
        then_walk-ok (DiskFlush.apply_batch vfs c x.child x.batch (top ∷ rest) threshold noted) _
          a.2 in
      let g =
        apply_batch-Follows vfs c x.child x.batch (top ∷ rest) threshold
          (Cascade.note_decision traced top x.occupancies x.chosen f.after) noted b.1 b.0
          (note_decision-IsMirror traced top x.occupancies x.chosen f.after a.0.1 f.mirror) b.2 in
      let k = after_delivery-Advances top rest x.child b.0 g.after b.1 s' p g.mirror b.3 in
      record {
        after = k.after;
        runs = bind_to (Flush.pick_and_extract choose top (length rest) traced t) _ f.runs (
            bind_to
              (Flush.apply_batch x.child x.batch threshold
                (Cascade.note_decision traced top x.occupancies x.chosen f.after))
              _ g.runs k.runs);
        mirror = k.mirror;
      }

  either_round :
      (b : Bool) (x x' : Option (DiskResult DiskCascade.Progress × DiskEngine D P))
      (y y' : Option (Cascade.Progress P)) (s' : DiskEngine D P) (p : DiskCascade.Progress)
      → (x ≡ some (DiskResult.ok p, s') → Advances y p s')
      → (x' ≡ some (DiskResult.ok p, s') → Advances y' p s')
      → (if b then x else x') ≡ some (DiskResult.ok p, s')
      → Advances (if b then y else y') p s'
  either_round true x x' y y' s' p f g h = f h
  either_round false x x' y y' s' p f g h = g h

  rest_round-Advances :
      (visits b : ℕ) (top : NodeId) (rest : List NodeId) (t : BeTree P) (s s' : DiskEngine D P)
      (p : DiskCascade.Progress)
      → IsMirror t s
      → DiskCascade.rest_round vfs c visits (suc b) top rest s ≡ some (DiskResult.ok p, s')
      → Advances (Cascade.rest_round (suc b) top rest t) p s'
  unfolding DiskCascade.rest_round Cascade.rest_round
  rest_round-Advances visits b top rest t s s' p m h = finish-Advances top rest t s s' p m h

  pub round-Advances :
      (visits b : ℕ) (traced : Bool) (flushing : List NodeId) (t : BeTree P) (s s' : DiskEngine D P)
      (p : DiskCascade.Progress)
      → IsMirror t s
      → DiskCascade.round vfs c choose visits (suc b) traced flushing s ≡ some (DiskResult.ok p, s')
      → Advances (Cascade.round choose (suc b) traced flushing t) p s'
  unfolding DiskCascade.round Cascade.round
  round-Advances visits b traced [] t s s' p m h = cc
  round-Advances visits b traced (top ∷ rest) t s s' p m h =
      let a = bind_some (DiskFlush.buffer_len top s) h in
      let g =
        either_round (leb a.0 (suc b)) (DiskCascade.rest_round vfs c visits (suc b) top rest s)
          (DiskCascade.flush_round vfs c choose (suc b) traced top rest s)
          (Cascade.rest_round (suc b) top rest t)
          (Cascade.flush_round choose (suc b) traced top rest t) s' p
          (rest_round-Advances visits b top rest t s s' p m)
          (flush_round-Advances (suc b) traced top rest t s s' p m) a.2 in
      record {
        after = g.after;
        runs = bind_to (Arena.buffer_len top t) _ (buffer_len-IsMirror top t s m a.1) g.runs;
        mirror = g.mirror;
      }
