-- ===== src/Disk/Write.antt =====
-- src/disk.rs: settling the root after a write, the public writes and `drain`. `visits` and `fuel` are
-- fuel; an error after the message met the root poisons the engine.
use beetree.Prelude.{ℕ, zero, suc, Bool, true, false, Option, none, some, [], ◌∷◌, map, ◌>>=◌}
use beetree.Bytes.{wrapping_add}
use beetree.Key.{Key}
use beetree.Message.{Value, UpsertOp, Message, put}
use beetree.Node.{Node, internal, leaf, Outcome, splits, removed}
use beetree.Policy.{FlushPolicy}
use beetree.Trace.{OpKind2, record_op}
use beetree.Tree.Root.{at_root}
use beetree.Vfs.Counting.{Vfs}
use beetree.Format.{Codec}
use beetree.Disk.{DiskEngine, DiskResult}
use beetree.Disk.Arena.{loaded, loaded_mut, put_node, alloc_dirty, release_slot}
use beetree.Disk.Load.{ensure_loaded, with_ok}
use beetree.Disk.Get.{then_walk}
use beetree.Disk.Split.{split_if_needed}
use beetree.Disk.Cascade.{flush_with}

module _ {D P : Type 0} where
  -- A fresh node becomes the root.
  unfoldable pub new_root : Node → DiskEngine D P → Option (DiskEngine D P)
  new_root node s = do (id, s') ← alloc_dirty node s; some (record s' { root = id })

  -- The tree is empty again: a fresh leaf replaces the root, whose slot is released.
  unfoldable pub reset_root : DiskEngine D P → Option (DiskEngine D P)
  unfolding new_root
  reset_root s = do s' ← new_root (leaf []) s; release_slot s.root s'

  -- An error poisons the engine.
  unfoldable pub poison_if_err :
      Option (DiskResult (Unit {0}) × DiskEngine D P)
      → Option (DiskResult (Unit {0}) × DiskEngine D P)
  poison_if_err none = none
  poison_if_err (some (DiskResult.ok done, s)) = some (DiskResult.ok done, s)
  poison_if_err (some (DiskResult.err e, s)) = some (DiskResult.err e, record s { poisoned = true })

  -- The counters and the trace of a public write.
  unfoldable pub stamp : OpKind2 → DiskEngine D P → ℕ × DiskEngine D P
  stamp o s =
      let seq = wrapping_add s.next_seq 1 in
      (
        seq,
        record s {
          next_seq = seq;
          ops_since_commit = wrapping_add s.ops_since_commit 1;
          trace = record_op seq o s.trace;
        },
      )

module _ {D P : Type 0} (vfs : Vfs D) (c : Codec) where
  -- Root collapse: a lone child of an empty-buffered root becomes the root, and is loaded.
  unfoldable pub collapse : ℕ → DiskEngine D P → Option (DiskResult (Unit {0}) × DiskEngine D P)
  collapse zero s = none
  collapse (suc fuel) s = elim (loaded s.root s) [
    | none ↦ none
    | some (internal pivots (child ∷ []) []) ↦ (do
      s' ← release_slot s.root (record s { root = child })
      then_walk (ensure_loaded vfs c child [] s') λ done s''. collapse fuel s'')
    | some other ↦ some (DiskResult.ok tt, s)
  ]

  module _ (choose : FlushPolicy P) where
    -- The outcome of the root: by a flush, or by a split of a root leaf.
    unfoldable pub root_outcome :
        ℕ → ℕ → ℕ → Bool → DiskEngine D P → Option (DiskResult Outcome × DiskEngine D P)
    root_outcome fuel visits threshold trace_flushes s = elim (loaded s.root s) [
      | none ↦ none
      | some (internal pivots children buffer) ↦
          flush_with vfs c choose fuel visits s.root threshold trace_flushes s
      | some (leaf entries) ↦ (do
        (promoted, s') ← split_if_needed s.root s
        some (DiskResult.ok (splits promoted), s'))
    ]

    -- The settling loop: until nothing is promoted, or the tree is empty.
    unfoldable pub grow :
        ℕ → ℕ → ℕ → Bool → DiskEngine D P → Option (DiskResult (Unit {0}) × DiskEngine D P)
    unfolding root_outcome reset_root
    grow zero visits threshold trace_flushes s = none
    grow (suc fuel) visits threshold trace_flushes s =
        then_walk (root_outcome fuel visits threshold trace_flushes s) λ outcome s'. elim outcome [
          | removed ↦ with_ok tt (reset_root s')
          | splits [] ↦ some (DiskResult.ok tt, s')
          | splits (first ∷ promoted) ↦ (do
            let pivots = map (λ p. p.0) (first ∷ promoted)
            let children = s'.root ∷ map (λ p. p.1) (first ∷ promoted)
            s'' ← new_root (internal pivots children []) s'
            grow fuel visits threshold trace_flushes s'')
        ]

    unfoldable pub restore_root_with :
        ℕ → ℕ → ℕ → Bool → DiskEngine D P → Option (DiskResult (Unit {0}) × DiskEngine D P)
    unfolding grow collapse
    restore_root_with fuel visits threshold trace_flushes s =
        then_walk (grow fuel visits threshold trace_flushes s) λ done s'. collapse fuel s'

    unfoldable pub restore_root :
        ℕ → ℕ → DiskEngine D P → Option (DiskResult (Unit {0}) × DiskEngine D P)
    unfolding restore_root_with
    restore_root fuel visits s = restore_root_with fuel visits s.params.buffer_capacity true s

    unfoldable pub drain : ℕ → ℕ → DiskEngine D P → Option (DiskResult (Unit {0}) × DiskEngine D P)
    unfolding restore_root_with poison_if_err
    drain fuel visits s =
        then_walk (ensure_loaded vfs c s.root [] s)
          λ done s'. poison_if_err (restore_root_with fuel visits 0 false s')

    -- The message meets the root, which is resident.
    unfoldable pub apply_root :
        ℕ → ℕ → Key → Message → DiskEngine D P → Option (DiskResult (Unit {0}) × DiskEngine D P)
    unfolding restore_root poison_if_err
    apply_root fuel visits key message s = do
      (node, s') ← loaded_mut s.root s
      s'' ← put_node s.root (at_root key message node) s'
      poison_if_err (restore_root fuel visits s'')

    -- A public write: the root is loaded before anything changes.
    unfoldable pub write :
        ℕ
        → ℕ
        → Key
        → OpKind2
        → (ℕ → Message)
        → DiskEngine D P
        → Option (DiskResult (Unit {0}) × DiskEngine D P)
    unfolding stamp apply_root
    write fuel visits key o message s =
        then_walk (ensure_loaded vfs c s.root [] s)
          λ done s'. (let (seq, s'') = stamp o s' in apply_root fuel visits key (message seq) s'')

    unfoldable pub try_insert :
        ℕ → ℕ → Key → Value → DiskEngine D P → Option (DiskResult (Unit {0}) × DiskEngine D P)
    unfolding write
    try_insert fuel visits key value s =
        write fuel visits key (OpKind2.insert key value) (λ seq. put seq value) s

    unfoldable pub try_delete :
        ℕ → ℕ → Key → DiskEngine D P → Option (DiskResult (Unit {0}) × DiskEngine D P)
    unfolding write
    try_delete fuel visits key s = write fuel visits key (OpKind2.delete key) Message.delete s

    unfoldable pub try_upsert :
        ℕ → ℕ → Key → UpsertOp → DiskEngine D P → Option (DiskResult (Unit {0}) × DiskEngine D P)
    unfolding write
    try_upsert fuel visits key o s =
        write fuel visits key (OpKind2.upsert key o) (λ seq. Message.upsert seq o) s
