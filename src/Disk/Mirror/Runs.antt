-- ===== src/Disk/Mirror/Runs.antt =====
-- Sequences of public writes on the disk engine and on the tree in memory.
use beetree.Prelude.{ℕ, ◌≡◌, refl, ap, Option, some, List, [], ◌∷◌, some_inj, ◌>>=◌}
use mathlib.Core.Path.{subst}
use beetree.Key.{Key}
use beetree.Message.{Value, UpsertOp, put}
use beetree.Message
use beetree.Policy.{FlushPolicy}
use beetree.Trace.{OpKind2}
use beetree.Tree.Arena.{BeTree}
use beetree.Tree.Root
use beetree.Vfs.Counting.{Vfs}
use beetree.Format.{Codec}
use beetree.Disk.{DiskEngine, DiskResult}
use beetree.Disk.Get.{then_walk}
use beetree.Disk.Write.{try_insert, try_delete, try_upsert}
use beetree.Disk.Mirror.Relation.{IsMirror, bind_to, Reaches, then_walk-ok, strip-ok}
use beetree.Disk.Mirror.Pick.{IsBlind}
use beetree.Disk.Mirror.Write.{write-Reaches}

-- A public write.
pub data Write : Type 0 where
  insert : Key → Value → Write
  delete : Key → Write
  upsert : Key → UpsertOp → Write

module _ {D P : Type 0} (vfs : Vfs D) (c : Codec) (choose : FlushPolicy P) (fuel visits : ℕ) where
  -- The writes in order, up to the first error.
  unfoldable pub disk_run :
      List Write → DiskEngine D P → Option (DiskResult (Unit {0}) × DiskEngine D P)
  disk_run [] s = some (DiskResult.ok tt, s)
  disk_run (insert key value ∷ writes) s =
      then_walk (try_insert vfs c choose fuel visits key value s) λ done s'. disk_run writes s'
  disk_run (delete key ∷ writes) s =
      then_walk (try_delete vfs c choose fuel visits key s) λ done s'. disk_run writes s'
  disk_run (upsert key op ∷ writes) s =
      then_walk (try_upsert vfs c choose fuel visits key op s) λ done s'. disk_run writes s'

module _ {P : Type 0} (choose : FlushPolicy P) (fuel : ℕ) where
  unfoldable pub tree_run : List Write → BeTree P → Option (BeTree P)
  tree_run [] t = some t
  tree_run (insert key value ∷ writes) t = do
    t' ← Root.insert choose fuel key value t
    tree_run writes t'
  tree_run (delete key ∷ writes) t = do t' ← Root.delete choose fuel key t; tree_run writes t'
  tree_run (upsert key op ∷ writes) t = do t' ← Root.upsert choose fuel key op t; tree_run writes t'

module _ {D P : Type 0} (vfs : Vfs D) (c : Codec) (choose : FlushPolicy P) (blind : IsBlind choose)
    (fuel visits : ℕ) where
  insert-Reaches :
      (key : Key) (value : Value) (t : BeTree P) (s s' : DiskEngine D P)
      → IsMirror t s
      → try_insert vfs c choose fuel visits key value s ≡ some (DiskResult.ok tt, s')
      → Reaches (Root.insert choose fuel key value t) s'
  unfolding try_insert Root.insert
  insert-Reaches key value t s s' m h =
      write-Reaches vfs c choose blind fuel visits key (OpKind2.insert key value)
        (λ seq. put seq value) t s s' m h

  delete-Reaches :
      (key : Key) (t : BeTree P) (s s' : DiskEngine D P)
      → IsMirror t s
      → try_delete vfs c choose fuel visits key s ≡ some (DiskResult.ok tt, s')
      → Reaches (Root.delete choose fuel key t) s'
  unfolding try_delete Root.delete
  delete-Reaches key t s s' m h =
      write-Reaches vfs c choose blind fuel visits key (OpKind2.delete key) Message.delete t s s' m
        h

  upsert-Reaches :
      (key : Key) (op : UpsertOp) (t : BeTree P) (s s' : DiskEngine D P)
      → IsMirror t s
      → try_upsert vfs c choose fuel visits key op s ≡ some (DiskResult.ok tt, s')
      → Reaches (Root.upsert choose fuel key op t) s'
  unfolding try_upsert Root.upsert
  upsert-Reaches key op t s s' m h =
      write-Reaches vfs c choose blind fuel visits key (OpKind2.upsert key op)
        (λ seq. Message.upsert seq op) t s s' m h

  -- One write and the rest.
  then_run :
      (o : Option (DiskResult (Unit {0}) × DiskEngine D P)) (q : Option (BeTree P))
      (writes : List Write) (s' : DiskEngine D P)
      → ((s1 : DiskEngine D P) → o ≡ some (DiskResult.ok tt, s1) → Reaches q s1)
      → ((t1 : BeTree P) (s1 : DiskEngine D P)
          → IsMirror t1 s1
          → disk_run vfs c choose fuel visits writes s1 ≡ some (DiskResult.ok tt, s')
          → Reaches (tree_run choose fuel writes t1) s')
      → then_walk o (λ done s1. disk_run vfs c choose fuel visits writes s1)
        ≡ some (DiskResult.ok tt, s')
      → Reaches (q >>= λ t1. tree_run choose fuel writes t1) s'
  then_run o q writes s' one rest h =
      let a = then_walk-ok o _ h in
      let f = one a.1 a.2 in
      let g = rest f.after a.1 f.mirror a.3 in
      record { after = g.after; runs = bind_to q _ f.runs g.runs; mirror = g.mirror }

  -- An engine without a budget whose nodes are all in memory, and a tree in memory with the same nodes
  -- and the same state, under a policy that does not look at dirty children: where any sequence of
  -- public writes goes through on the engine, it goes through on the tree, and leaves a tree with the
  -- engine's nodes, root, sequence number, counters, policy and trace.
  pub disk_run-tree_run :
      (writes : List Write) (t : BeTree P) (s s' : DiskEngine D P)
      → IsMirror t s
      → disk_run vfs c choose fuel visits writes s ≡ some (DiskResult.ok tt, s')
      → Reaches (tree_run choose fuel writes t) s'
  unfolding disk_run tree_run
  disk_run-tree_run [] t s s' m h = record {
    after = t;
    runs = refl;
    mirror = subst (IsMirror t) (ap (λ x. x.1) (some_inj (strip-ok h))) m;
  }
  disk_run-tree_run (insert key value ∷ writes) t s s' m h =
      then_run _ (Root.insert choose fuel key value t) writes s'
        (λ s1. insert-Reaches key value t s s1 m) (λ t1 s1. disk_run-tree_run writes t1 s1 s') h
  disk_run-tree_run (delete key ∷ writes) t s s' m h =
      then_run _ (Root.delete choose fuel key t) writes s' (λ s1. delete-Reaches key t s s1 m)
        (λ t1 s1. disk_run-tree_run writes t1 s1 s') h
  disk_run-tree_run (upsert key op ∷ writes) t s s' m h =
      then_run _ (Root.upsert choose fuel key op t) writes s' (λ s1. upsert-Reaches key op t s s1 m)
        (λ t1 s1. disk_run-tree_run writes t1 s1 s') h
