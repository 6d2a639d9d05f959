-- ===== src/Disk/Mirror/Write.antt =====
-- src/disk.rs, the public writes: the engine does what the tree of src/betree.rs does.
use beetree.Prelude.{
  ℕ, zero, suc, ◌≡◌, ◌≤◌, refl, sym, ap, ◌∙◌, true, Option, none, some, [], arith, bind_some,
}
use mathlib.Core.Path.{subst}
use beetree.Bytes.{wrapping_add}
use beetree.Key.{Key}
use beetree.Message.{Message}
use beetree.Policy.{FlushPolicy}
use beetree.Trace.{OpKind2, record_op}
use beetree.Tree.Arena.{BeTree, node_at, set_node, mark_dirty}
use beetree.Tree.Root
use beetree.Vfs.Counting.{Vfs}
use beetree.Format.{Codec}
use beetree.Disk.{DiskEngine, DiskResult}
use beetree.Disk.Arena.{loaded_mut, put_node}
use beetree.Disk.Load.{ensure_loaded}
use beetree.Disk.Write as DiskWrite
use beetree.Disk.Mirror.Relation.{IsMirror, bind_to, Reaches, then_walk-ok}
use beetree.Disk.Mirror.Slots.{ensure_loaded-IsMirror}
use beetree.Disk.Mirror.Steps.{loaded_mut-IsMirror, put_node-IsMirror}
use beetree.Disk.Mirror.Pick.{IsBlind}
use beetree.Disk.Mirror.Root.{restore_root_with-Reaches}

module _ {D P : Type 0} where
  poison_if_err-ok :
      (o : Option (DiskResult (Unit {0}) × DiskEngine D P)) {s' : DiskEngine D P}
      → DiskWrite.poison_if_err o ≡ some (DiskResult.ok tt, s')
      → o ≡ some (DiskResult.ok tt, s')
  unfolding DiskWrite.poison_if_err
  poison_if_err-ok none h = cc
  poison_if_err-ok (some (DiskResult.ok done, s)) h = h
  poison_if_err-ok (some (DiskResult.err e, s)) h = cc

  stamp-IsMirror :
      (o : OpKind2) (t : BeTree P) (s : DiskEngine D P)
      → IsMirror t s
      → ((DiskWrite.stamp o s).0 ≡ (Root.stamp o t).0)
        × IsMirror (Root.stamp o t).1 (DiskWrite.stamp o s).1
  unfolding DiskWrite.stamp Root.stamp wrapping_add
  stamp-IsMirror o t s m =
      let seq : (DiskWrite.stamp o s).0 ≡ (Root.stamp o t).0 =
        ap (λ n. wrapping_add n 1) m.next_seq in
      (
        seq,
        record {
          same = m.same;
          dirties = m.dirties;
          unbounded = m.unbounded;
          params = m.params;
          positive = m.positive;
          root = m.root;
          next_seq = seq;
          ops = ap (λ n. wrapping_add n 1) m.ops;
          policy = m.policy;
          trace = ap (λ n. record_op n o s.trace) seq ∙ ap (record_op (Root.stamp o t).0 o) m.trace;
        },
      )

successor : (n : ℕ) → 1 ≤ n → (b : ℕ) × (n ≡ suc b)
successor zero h = absurd (omega (arith, h))
successor (suc b) h = (b, refl)

module _ {D P : Type 0} (vfs : Vfs D) (c : Codec) (choose : FlushPolicy P) (blind : IsBlind choose)
    (fuel visits : ℕ) where
  restore_root-Reaches :
      (t : BeTree P) (s s' : DiskEngine D P)
      → IsMirror t s
      → DiskWrite.restore_root vfs c choose fuel visits s ≡ some (DiskResult.ok tt, s')
      → Reaches (Root.restore_root choose fuel t) s'
  unfolding DiskWrite.restore_root Root.restore_root
  restore_root-Reaches t s s' m h =
      let (b, cap) = successor t.params.buffer_capacity m.positive in
      let same : s.params.buffer_capacity ≡ suc b = ap (λ p. p.buffer_capacity) m.params ∙ cap in
      let g = restore_root_with-Reaches vfs c choose blind fuel visits b true t s s' m (
        subst
          (λ n.
            DiskWrite.restore_root_with vfs c choose fuel visits n true s
            ≡ some (DiskResult.ok tt, s'))
          same h) in
      subst (λ n. Reaches (Root.restore_root_with choose fuel n true t) s') (sym cap) g

  apply_root-Reaches :
      (key : Key) (message : Message) (t : BeTree P) (s s' : DiskEngine D P)
      → IsMirror t s
      → DiskWrite.apply_root vfs c choose fuel visits key message s ≡ some (DiskResult.ok tt, s')
      → Reaches (Root.apply_root choose fuel key message t) s'
  unfolding DiskWrite.apply_root Root.apply_root
  apply_root-Reaches key message t s s' m h =
      let a = bind_some (loaded_mut s.root s) h in
      let n = Root.at_root key message a.0.0 in
      let d = bind_some (put_node s.root n a.0.1) a.2 in
      let x = loaded_mut-IsMirror s.root t s a.0.1 a.0.0 m a.1 in
      let y = put_node-IsMirror s.root n x.marked a.0.1 d.0 x.mirror d.1 in
      let g = restore_root-Reaches (set_node s.root n x.marked) d.0 s' y (poison_if_err-ok _ d.2) in
      record {
        after = g.after;
        runs = bind_to (mark_dirty t.root t) _ (ap (λ r. mark_dirty r t) (sym m.root) ∙ x.marks) (
            bind_to (node_at x.marked t.root) _ (ap (node_at x.marked) (sym m.root) ∙ x.reads) (
              ap (λ r. Root.restore_root choose fuel (set_node r n x.marked)) (sym m.root)
              ∙ g.runs));
        mirror = g.mirror;
      }

  pub write-Reaches :
      (key : Key) (o : OpKind2) (message : ℕ → Message) (t : BeTree P) (s s' : DiskEngine D P)
      → IsMirror t s
      → DiskWrite.write vfs c choose fuel visits key o message s ≡ some (DiskResult.ok tt, s')
      → Reaches (Root.apply_root choose fuel key (message (Root.stamp o t).0) (Root.stamp o t).1) s'
  unfolding DiskWrite.write
  write-Reaches key o message t s s' m h =
      let a = then_walk-ok (ensure_loaded vfs c s.root [] s) _ h in
      let m' = ensure_loaded-IsMirror vfs c s.root [] t s a.1 m a.2 in
      let x = stamp-IsMirror o t a.1 m' in
      subst (λ n. Reaches (Root.apply_root choose fuel key (message n) (Root.stamp o t).1) s') x.0
        (apply_root-Reaches key (message (DiskWrite.stamp o a.1).0) (Root.stamp o t).1
          (DiskWrite.stamp o a.1).1 s' x.1 a.3)
