-- ===== src/Disk/Poison/Loads.antt =====
-- src/disk.rs: a load that fails leaves the engine as it was.
use beetree.Prelude.{
  ℕ, ◌≡◌, ◌⊎◌, inl, inr, refl, ap, ◌∙◌, Bool, true, false, Option, none, some, List, length,
  get_elem?, bind_some, if◌then◌else◌, ◌>>=◌, ◌&&◌, ◌==◌, ◌+◌,
}
use beetree.Bytes.{wrapping_add}
use beetree.Node
use beetree.Node.{NodeId}
use beetree.Vfs.Counting.{Vfs}
use beetree.Format.{Codec, DiskNode}
use beetree.Disk.{DiskEngine, DiskResult, DiskError, NodeSlot, loaded_slot, on_disk, freed}
use beetree.Disk.Cache.{touch}
use beetree.Disk.Load.{
  ensure_loaded, with_ok, after_read, read_record, connect, install, alloc_children, children_below,
}
use beetree.Disk.Get.{then_walk}

pub ok_is_no_err :
    {A S : Type 0} {a : A} {e : DiskError} {s s' : S}
    → Path (Option (DiskResult A × S)) (some (DiskResult.ok a, s)) (some (DiskResult.err e, s'))
    → ⊥
ok_is_no_err e = cc

pub err_state :
    {A S : Type 0} {d e : DiskError} {s s' : S}
    → Path (Option (DiskResult A × S)) (some (DiskResult.err d, s)) (some (DiskResult.err e, s'))
    → s' ≡ s
err_state h = cc

module _ {S : Type 0} where
  with_ok-err :
      {A : Type 0} (a : A) (o : Option S) {e : DiskError} {s' : S}
      → with_ok a o ≡ some (DiskResult.err e, s')
      → ⊥
  with_ok-err a none h = cc
  with_ok-err a (some s) h = ok_is_no_err h

  -- A chain that fails fails at its first step, or after it.
  pub then_walk-err :
      {A B : Type 0} (o : Option (DiskResult A × S)) (f : A → S → Option (DiskResult B × S))
      {e : DiskError} {s' : S}
      → then_walk o f ≡ some (DiskResult.err e, s')
      → (o ≡ some (DiskResult.err e, s'))
        ⊎ ((a : A) × (s1 : S) × (o ≡ some (DiskResult.ok a, s1))
            × (f a s1 ≡ some (DiskResult.err e, s')))
  then_walk-err none f h = cc
  then_walk-err (some (DiskResult.ok a, s1)) f h = inr (a, s1, refl, h)
  then_walk-err (some (DiskResult.err d, s1)) f h = inl cc

module _ {D P : Type 0} where
  abbrev with_node :
      (List NodeId → Node.Node)
      → Option (List NodeId × DiskEngine D P)
      → Option (DiskResult Node.Node × DiskEngine D P)
  with_node n o = do (ids, s) ← o; some (DiskResult.ok (n ids), s)

  by_shape :
      (b : Bool) (o : Option (List NodeId × DiskEngine D P)) (n : List NodeId → Node.Node)
      (d : DiskError) (s s' : DiskEngine D P) {e : DiskError}
      → (if b then with_node n o else some (DiskResult.err d, s)) ≡ some (DiskResult.err e, s')
      → s' ≡ s
  by_shape true none n d s s' h = cc
  by_shape true (some p) n d s s' h = absurd (ok_is_no_err h)
  by_shape false o n d s s' h = err_state h

  -- A record of the wrong structure is refused before any slot is added.
  connect-err :
      (offset : ℕ) (node : DiskNode) (s s' : DiskEngine D P) {e : DiskError}
      → connect offset node s ≡ some (DiskResult.err e, s')
      → s' ≡ s
  unfolding connect
  connect-err offset (DiskNode.leaf entries) s s' h = absurd (ok_is_no_err h)
  connect-err offset (DiskNode.internal pivots children buffer) s s' h =
      by_shape (length children == length pivots + 1 && children_below offset children)
        (alloc_children children s) (λ ids. Node.internal pivots ids buffer) _ s s' h

  connected-err :
      (id : NodeId) (offset len : ℕ) (pins : List NodeId) (s s' : DiskEngine D P)
      (answer : DiskResult Node.Node × DiskEngine D P) {e : DiskError}
      → elim answer.0 [
        | DiskResult.err d ↦ some (DiskResult.err d, answer.1)
        | DiskResult.ok node ↦ with_ok tt (install id offset len pins node answer.1)
      ]
        ≡ some (DiskResult.err e, s')
      → (answer.0 ≡ DiskResult.err e) × (s' ≡ answer.1)
  connected-err id offset len pins s s' (DiskResult.ok node, s1) h =
      absurd (with_ok-err tt (install id offset len pins node s1) h)
  connected-err id offset len pins s s' (DiskResult.err d, s1) h = (cc, err_state h)

  after_read-err :
      (id : NodeId) (offset : ℕ) (pins : List NodeId) (s s' : DiskEngine D P)
      (read : Option (DiskResult (DiskNode × ℕ))) {e : DiskError}
      → after_read id offset pins s read ≡ some (DiskResult.err e, s')
      → s' ≡ s
  unfolding after_read
  after_read-err id offset pins s s' none h = cc
  after_read-err id offset pins s s' (some (DiskResult.err d)) h = err_state h
  after_read-err id offset pins s s' (some (DiskResult.ok (node, len))) h =
      let (answer, k, rest) = bind_some (connect offset node s) h in
      let (failed, same) = connected-err id offset len pins s s' answer rest in
      same ∙ connect-err offset node s answer.1 (k ∙ ap (λ r. some (r, answer.1)) failed)

module _ {D P : Type 0} (vfs : Vfs D) (c : Codec) where
  by_residence-err :
      (id : NodeId) (pins : List NodeId) (s s' : DiskEngine D P) (slot : NodeSlot) {e : DiskError}
      → elim slot [
        | loaded_slot r ↦
            with_ok tt (
              touch id (record s { cache = record s.cache { hits = wrapping_add s.cache.hits 1 } }))
        | on_disk offset ↦ after_read id offset pins s (read_record vfs c offset s)
        | freed ↦ none
      ]
        ≡ some (DiskResult.err e, s')
      → s' ≡ s
  by_residence-err id pins s s' (loaded_slot r) h = absurd (with_ok-err tt (touch id _) h)
  by_residence-err id pins s s' (on_disk offset) h =
      after_read-err id offset pins s s' (read_record vfs c offset s) h
  by_residence-err id pins s s' freed h = cc

  -- A load that fails leaves the engine as it was.
  pub ensure_loaded-err :
      (id : NodeId) (pins : List NodeId) (s s' : DiskEngine D P) {e : DiskError}
      → ensure_loaded vfs c id pins s ≡ some (DiskResult.err e, s')
      → s' ≡ s
  unfolding ensure_loaded
  ensure_loaded-err id pins s s' h =
      let (slot, k, rest) = bind_some (get_elem? s.slots id) h in
      by_residence-err id pins s s' slot rest
