-- ===== src/Disk/Get/Resident.antt =====
-- src/disk.rs, `try_get`: the disk engine against the in-memory tree.
use beetree.Prelude.{
  ℕ, zero, suc, ◌≡◌, refl, sym, ap, ◌∙◌, Option, none, some, List, [], get_elem?, Option-cases, inl,
  inr, some_inj, bind_some, length, ◌>>=◌,
}
use mathlib.Core.Path.{subst}
use beetree.Bytes.{wrapping_add}
use beetree.Key.{Key}
use beetree.BTreeMap
use beetree.Message.{Value}
use beetree.Node.{NodeId, Node, internal, leaf, entry_value, route, apply_chain}
use beetree.Trace.{record_get}
use beetree.Tree.Arena.{BeTree}
use beetree.Tree.Get
use beetree.Tree.Get.{Step, at_buffer, get_loop}
use beetree.Vfs.Counting.{Vfs}
use beetree.Format.{Codec}
use beetree.Disk.{DiskEngine, DiskResult, loaded_slot, Resident}
use beetree.Disk.Arena.{loaded, resident}
use beetree.Disk.Load.{ensure_loaded, with_ok}
use beetree.Disk.Mirror.Steps.{touch-free}
use beetree.Disk.Get.{then_walk, try_get_loop, try_get}

-- The engine holds these nodes in memory, and its cache has no budget.
pub record IsResident {D P : Type 0} (nodes : List Node) (s : DiskEngine D P) : Type 0 where
  pub unbounded : s.cache.budget ≡ none
  pub slots :
      (id : NodeId) (node : Node)
      → get_elem? nodes id ≡ some node
      → (r : Resident) × (get_elem? s.slots id ≡ some (loaded_slot r)) × (r.node ≡ node)

-- The same step of the in-memory tree.
abbrev get_step : ℕ → List Node → Key → Option ℕ → Node → Option (Option Value)
get_step visits nodes key chain (leaf entries) =
    some (apply_chain chain (entry_value (BTreeMap.get key entries)))
get_step visits nodes key chain (internal pivots children buffer) =
    elim (at_buffer chain (BTreeMap.get key buffer)) [
      | Step.stop value ↦ some value
      | Step.walk chain' ↦ elim (get_elem? children (route pivots key)) [
        | none ↦ none
        | some child ↦ get_loop visits nodes key chain' child
      ]
    ]

module _ {D P : Type 0} (vfs : Vfs D) (c : Codec) where
  -- A hit of the cache.
  abbrev pub hit : DiskEngine D P → DiskEngine D P
  hit s = record s { cache = record s.cache { hits = wrapping_add s.cache.hits 1 } }

  pub ensure_loaded-hit :
      (id : NodeId) (pins : List NodeId) (s : DiskEngine D P) (r : Resident)
      → s.cache.budget ≡ none
      → get_elem? s.slots id ≡ some (loaded_slot r)
      → ensure_loaded vfs c id pins s ≡ some (DiskResult.ok tt, hit s)
  unfolding ensure_loaded
  ensure_loaded-hit id pins s r free at = rw at (ap (with_ok tt) (touch-free id (hit s) free))

  pub loaded-hit :
      (id : NodeId) (s : DiskEngine D P) (r : Resident)
      → get_elem? s.slots id ≡ some (loaded_slot r)
      → loaded id (hit s) ≡ some r.node
  unfolding loaded resident
  loaded-hit id s r at = rw at refl

  pub IsResident-hit :
      (nodes : List Node) (s : DiskEngine D P) → IsResident nodes s → IsResident nodes (hit s)
  IsResident-hit nodes s h = record { unbounded = h.unbounded; slots = h.slots }

  -- What follows the load of a node.
  abbrev visit :
      ℕ
      → Key
      → Option ℕ
      → DiskEngine D P
      → Node
      → Option (DiskResult (Option Value) × DiskEngine D P)
  visit visits key chain s (leaf entries) =
      some (DiskResult.ok (apply_chain chain (entry_value (BTreeMap.get key entries))), s)
  visit visits key chain s (internal pivots children buffer) =
      elim (at_buffer chain (BTreeMap.get key buffer)) [
        | Step.stop value ↦ some (DiskResult.ok value, s)
        | Step.walk chain' ↦ (do
          child ← get_elem? children (route pivots key)
          try_get_loop vfs c visits key chain' child s)
      ]

  try_get_loop-visit :
      (visits : ℕ) (key : Key) (chain : Option ℕ) (id : NodeId) (s : DiskEngine D P) (r : Resident)
      → s.cache.budget ≡ none
      → get_elem? s.slots id ≡ some (loaded_slot r)
      → try_get_loop vfs c (suc visits) key chain id s ≡ visit visits key chain (hit s) r.node
  unfolding try_get_loop
  try_get_loop-visit visits key chain id s r free at =
      ap (λ o. then_walk o (λ done s'. loaded id s' >>= visit visits key chain s'))
        (ensure_loaded-hit id [] s r free at)
      ∙ ap (λ o. o >>= visit visits key chain (hit s)) (loaded-hit id s r at)

  -- A walk that answers `value`, and leaves the slots as they are.
  abbrev Finds :
      Option (DiskResult (Option Value) × DiskEngine D P) → Option Value → DiskEngine D P → Type 0
  Finds o value s = (t : DiskEngine D P) × (o ≡ some (DiskResult.ok value, t)) × (t.slots ≡ s.slots)

  -- A child that was found, and a walk that goes on there.
  child-Finds :
      (visits : ℕ) (nodes : List Node) (key : Key) (s : DiskEngine D P) (value : Option Value)
      (chain : Option ℕ) (child : Option NodeId)
      → ((id : NodeId)
          → get_loop visits nodes key chain id ≡ some value
          → Finds (try_get_loop vfs c visits key chain id s) value s)
      → elim child [ none ↦ none | some id ↦ get_loop visits nodes key chain id ] ≡ some value
      → Finds (child >>= λ id. try_get_loop vfs c visits key chain id s) value s
  child-Finds visits nodes key s value chain none next h = cc
  child-Finds visits nodes key s value chain (some id) next h = next id h

  step-Finds :
      (visits : ℕ) (nodes : List Node) (key : Key) (s : DiskEngine D P) (value : Option Value)
      (step : Step) (child : Option NodeId)
      → ((chain' : Option ℕ) (id : NodeId)
          → get_loop visits nodes key chain' id ≡ some value
          → Finds (try_get_loop vfs c visits key chain' id s) value s)
      → elim step [
        | Step.stop v ↦ some v
        | Step.walk chain' ↦ elim child [
          | none ↦ none
          | some id ↦ get_loop visits nodes key chain' id
        ]
      ]
        ≡ some value
      → Finds
          (elim step [
            | Step.stop v ↦ some (DiskResult.ok v, s)
            | Step.walk chain' ↦ child >>= λ id. try_get_loop vfs c visits key chain' id s
          ])
          value
          s
  step-Finds visits nodes key s value (Step.stop v) child next h =
      (s, ap (λ x. some (DiskResult.ok x, s)) (some_inj h), refl)
  step-Finds visits nodes key s value (Step.walk chain') child next h =
      child-Finds visits nodes key s value chain' child (next chain') h

  visit-get_step :
      (visits : ℕ) (nodes : List Node) (key : Key) (chain : Option ℕ) (s : DiskEngine D P)
      (node : Node) (value : Option Value)
      → ((chain' : Option ℕ) (child : NodeId)
          → get_loop visits nodes key chain' child ≡ some value
          → Finds (try_get_loop vfs c visits key chain' child s) value s)
      → get_step visits nodes key chain node ≡ some value
      → Finds (visit visits key chain s node) value s
  visit-get_step visits nodes key chain s (leaf entries) value next h =
      (s, ap (λ v. some (DiskResult.ok v, s)) (some_inj h), refl)
  visit-get_step visits nodes key chain s (internal pivots children buffer) value next h =
      step-Finds visits nodes key s value (at_buffer chain (BTreeMap.get key buffer))
        (get_elem? children (route pivots key)) next h

  try_get_loop-get_loop :
      (visits : ℕ) (nodes : List Node) (key : Key) (chain : Option ℕ) (id : NodeId)
      (s : DiskEngine D P) (value : Option Value)
      → IsResident nodes s
      → get_loop visits nodes key chain id ≡ some value
      → Finds (try_get_loop vfs c visits key chain id s) value s
  unfolding get_loop
  try_get_loop-get_loop zero nodes key chain id s value held h = cc
  try_get_loop-get_loop (suc visits) nodes key chain id s value held h =
      elim (Option-cases (get_elem? nodes id)) [
        | inl e ↦ cc (rw (e, get_loop) at h)
        | inr (node, e) ↦
            let (r, at, same) = held.slots id node e in
            let (t, found, kept) =
              visit-get_step visits nodes key chain (hit s) node value
                (λ chain' child h'.
                  try_get_loop-get_loop visits nodes key chain' child (hit s) value
                    (IsResident-hit nodes s held) h')
                (rw (e, get_loop) at h) in
            (
              t,
              try_get_loop-visit visits key chain id s r held.unbounded at
                  ∙ ap (visit visits key chain (hit s)) same
                  ∙ found,
              kept,
            )
      ]

-- An engine with an unbounded cache that holds in memory the nodes of an in-memory tree, under its
-- root: `try_get`, with a visit for each node, answers what `get` answers on that tree, over any file
-- system whose state reads leave as it is, and leaves the slots as they are.
pub try_get-get :
    {D P Q : Type 0} (vfs : Vfs D) (c : Codec) (key : Key) (tree tree' : BeTree Q)
    (s : DiskEngine D P) (value : Option Value)
    → IsResident tree.nodes s
    → s.root ≡ tree.root
    → Get.get key tree ≡ some (value, tree')
    → (t : DiskEngine D P) × (try_get vfs c (length tree.nodes) key s
        ≡ some (DiskResult.ok value, t))
      × (t.slots ≡ s.slots)
unfolding try_get Get.get
try_get-get vfs c key tree tree' s value held root h =
    let (found, e, h') = bind_some (get_loop (length tree.nodes) tree.nodes key none tree.root) h in
    let same : found ≡ value = ap (λ p. p.0) (some_inj h') in
    try_get_loop-get_loop vfs c (length tree.nodes) tree.nodes key none s.root
      (record s { trace = record_get key s.trace }) value
      (record { unbounded = held.unbounded; slots = held.slots })
      (subst (λ id. get_loop (length tree.nodes) tree.nodes key none id ≡ some value) (sym root)
        (e ∙ ap some same))
