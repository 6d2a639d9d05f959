-- ===== src/Disk/Cache/Budget.antt =====
-- src/disk.rs, `enforce_budget`: pinned, dirty and freshly loaded nodes stay resident.
use beetree.Prelude.{
  ℕ, zero, suc, ◌≡◌, ◌==◌, refl, Bool, true, false, not, ◌||◌, Option, none, some, List, [], ◌∷◌,
  length, get_elem?, ltb, if◌then◌else◌, Bool-cases, inl, inr, ◌>>=◌, arith, bind_some, some_inj,
}
use mathlib.Core.Path.{subst}
use beetree.Bytes.{wrapping_add}
use beetree.Node.{NodeId}
use beetree.Disk.{NodeSlot, loaded_slot, on_disk, freed, DiskEngine, Resident}
use beetree.Disk.Cache.{
  contains, is_id, examine, examine_resident, enforce_loop, enforce_budget, count_overcommit,
}
use beetree.Disk.Cache.Safety.{
  IsSettled, same_state, IsSettled-refl, IsSettled-trans, push_tick-IsSettled, evict-IsSettled,
}

-- The nodes that must stay: the pinned ones and the one that was just loaded.
abbrev pub must_stay : List NodeId → Option NodeId → NodeId → Bool
must_stay pins just_loaded id = contains pins id || is_id just_loaded id

evictable : (d p j : Bool) → (d || p || j) ≡ false → (d ≡ false) × ((p || j) ≡ false)
evictable d p j h = ground (arith, h)

module _ {D P : Type 0} (pins : List NodeId) (just_loaded : Option NodeId) where
  examine_resident-IsSettled :
      (id : NodeId) (tick : ℕ) (r : Resident) (s t : DiskEngine D P)
      → get_elem? s.slots id ≡ some (loaded_slot r)
      → examine_resident pins just_loaded id tick r s ≡ some t
      → IsSettled (must_stay pins just_loaded) s t
  unfolding examine_resident
  examine_resident-IsSettled id tick r s t at h =
      let kept = must_stay pins just_loaded in
      elim (Bool-cases (not (r.last_tick == tick))) [
        | inl stale ↦ same_state kept s t (some_inj (rw stale at h))
        | inr current ↦
            let h' = rw current at h in
            elim (Bool-cases (r.dirty || contains pins id || is_id just_loaded id)) [
              | inl stays ↦ push_tick-IsSettled kept id s t (rw stays at h')
              | inr goes ↦
                  let (clean, free) =
                    evictable r.dirty (contains pins id) (is_id just_loaded id) goes in
                  evict-IsSettled kept id r s t at free clean (rw goes at h')
            ]
      ]

  examine_slot :
      (id : NodeId) (tick : ℕ) (s t : DiskEngine D P) (slot : NodeSlot)
      → get_elem? s.slots id ≡ some slot
      → elim slot [
        | loaded_slot r ↦ examine_resident pins just_loaded id tick r s
        | on_disk offset ↦ some s
        | freed ↦ some s
      ]
        ≡ some t
      → IsSettled (must_stay pins just_loaded) s t
  examine_slot id tick s t (loaded_slot r) at e = examine_resident-IsSettled id tick r s t at e
  examine_slot id tick s t (on_disk offset) at e =
      same_state (must_stay pins just_loaded) s t (some_inj e)
  examine_slot id tick s t freed at e = same_state (must_stay pins just_loaded) s t (some_inj e)

  examine-IsSettled :
      (id : NodeId) (tick : ℕ) (s t : DiskEngine D P)
      → examine pins just_loaded id tick s ≡ some t
      → IsSettled (must_stay pins just_loaded) s t
  unfolding examine
  examine-IsSettled id tick s t h =
      let (slot, at, e) = bind_some (get_elem? s.slots id) h in examine_slot id tick s t slot at e

  enforce_round :
      (n budget : ℕ) (s t : DiskEngine D P) (over : Bool) (lru : List (NodeId × ℕ))
      → ((u v : DiskEngine D P)
          → enforce_loop n budget pins just_loaded u ≡ some v
          → IsSettled (must_stay pins just_loaded) u v)
      → elim over [
        | false ↦ some s
        | true ↦ elim lru [
          | [] ↦ some s
          | (id, tick) ∷ rest ↦ (do
            s' ←
                examine pins just_loaded id tick
                  (record s { cache = record s.cache { lru = rest } })
            enforce_loop n budget pins just_loaded s')
        ]
      ]
        ≡ some t
      → IsSettled (must_stay pins just_loaded) s t
  enforce_round n budget s t false lru ih h =
      same_state (must_stay pins just_loaded) s t (some_inj h)
  enforce_round n budget s t true [] ih h = same_state (must_stay pins just_loaded) s t (some_inj h)
  enforce_round n budget s t true ((id, tick) ∷ rest) ih h =
      let kept = must_stay pins just_loaded in
      let popped : DiskEngine D P = record s { cache = record s.cache { lru = rest } } in
      let (s', e, h') = bind_some (examine pins just_loaded id tick popped) h in
      IsSettled-trans kept s popped t (IsSettled-refl kept s popped refl)
        (IsSettled-trans kept popped s' t (examine-IsSettled id tick popped s' e) (ih s' t h'))

  enforce_loop-IsSettled :
      (n budget : ℕ) (s t : DiskEngine D P)
      → enforce_loop n budget pins just_loaded s ≡ some t
      → IsSettled (must_stay pins just_loaded) s t
  unfolding enforce_loop
  enforce_loop-IsSettled zero budget s t h = same_state _ s t (some_inj h)
  enforce_loop-IsSettled (suc n) budget s t h =
      enforce_round n budget s t (ltb budget s.cache.bytes) s.cache.lru
        (λ u v e. enforce_loop-IsSettled n budget u v e) h

  overcommitted :
      (s : DiskEngine D P) (over : Bool)
      → IsSettled (must_stay pins just_loaded) s (
          if over
          then record s {
            cache = record s.cache { overcommit_events = wrapping_add s.cache.overcommit_events 1 };
          }
          else s)
  overcommitted s true = IsSettled-refl (must_stay pins just_loaded) s _ refl
  overcommitted s false = IsSettled-refl (must_stay pins just_loaded) s s refl

  count_overcommit-IsSettled :
      (budget : ℕ) (s : DiskEngine D P)
      → IsSettled (must_stay pins just_loaded) s (count_overcommit budget s)
  count_overcommit-IsSettled budget s = overcommitted s (ltb budget s.cache.bytes)

  enforce_some :
      (o : Option ℕ) (s t : DiskEngine D P)
      → elim o [
        | none ↦ some s
        | some budget ↦ (do
          s' ← enforce_loop (length s.cache.lru) budget pins just_loaded s
          some (count_overcommit budget s'))
      ]
        ≡ some t
      → IsSettled (must_stay pins just_loaded) s t
  enforce_some none s t h = same_state (must_stay pins just_loaded) s t (some_inj h)
  enforce_some (some budget) s t h =
      let kept = must_stay pins just_loaded in
      let (s', e, h') = bind_some (enforce_loop (length s.cache.lru) budget pins just_loaded s) h in
      subst (IsSettled kept s) (some_inj h') (
        IsSettled-trans kept s s' (count_overcommit budget s')
          (enforce_loop-IsSettled (length s.cache.lru) budget s s' e)
          (count_overcommit-IsSettled budget s'))

  -- Settling under the budget changes nothing but slots and cache, and of the slots no more than
  -- this: a resident node may go back to its own record if it was clean, not pinned, and not the
  -- one that was just loaded; any other node stays resident as it was.
  pub enforce_budget-IsSettled :
      (s t : DiskEngine D P)
      → enforce_budget pins just_loaded s ≡ some t
      → IsSettled (must_stay pins just_loaded) s t
  unfolding enforce_budget
  enforce_budget-IsSettled s t h = enforce_some s.cache.budget s t h
