-- ===== src/Disk/Cache/Safety.antt =====
-- src/disk.rs: what settling under the cache budget may do to the slots.
use beetree.Prelude.{
  ℕ, ◌≡◌, ◌≢◌, ◌==◌, refl, sym, ap, ◌∙◌, Bool, false, some, List, get_elem?, set, Bool-cases, inl,
  inr, arith, bind_some, some_inj, get_elem?-set_self, get_elem?-set_ne, lt_of_get_elem?, ==_iff,
}
use mathlib.Core.Path.{subst}
use beetree.Bytes.{wrapping_add}
use beetree.Node.{NodeId}
use beetree.Disk.{NodeSlot, loaded_slot, on_disk, freed, DiskEngine, Resident, NodeCache}
use beetree.Disk.Cache.{stamped, push_tick, evict}

-- What may have become of a slot: a resident node is still there, unchanged, or it was clean and
-- not to be kept, and its record stands in its place; other slots are as they were.
abbrev pub SlotAfter : Bool → NodeSlot → NodeSlot → Type 0
SlotAfter kept (loaded_slot r) (loaded_slot r') =
    (r'.node ≡ r.node)
    × (r'.dirty ≡ r.dirty)
    × (r'.disk_offset ≡ r.disk_offset)
    × (r'.bytes ≡ r.bytes)
SlotAfter kept (loaded_slot r) (on_disk o) =
    (kept ≡ false) × (r.dirty ≡ false) × (r.disk_offset ≡ some o)
SlotAfter kept (loaded_slot r) freed = ⊥
SlotAfter kept (on_disk o) (loaded_slot r) = ⊥
SlotAfter kept (on_disk o) (on_disk o') = o' ≡ o
SlotAfter kept (on_disk o) freed = ⊥
SlotAfter kept freed (loaded_slot r) = ⊥
SlotAfter kept freed (on_disk o) = ⊥
SlotAfter kept freed freed = Unit

SlotAfter-refl : (kept : Bool) (x : NodeSlot) → SlotAfter kept x x
SlotAfter-refl kept (loaded_slot r) = (refl, refl, refl, refl)
SlotAfter-refl kept (on_disk o) = refl
SlotAfter-refl kept freed = tt

SlotAfter-trans :
    (kept : Bool) (x y z : NodeSlot) → SlotAfter kept x y → SlotAfter kept y z → SlotAfter kept x z
SlotAfter-trans kept (loaded_slot r) (loaded_slot r1) (loaded_slot r2) h k = ground (arith)
SlotAfter-trans kept (loaded_slot r) (loaded_slot r1) (on_disk o) h k = ground (arith)
SlotAfter-trans kept (loaded_slot r) (loaded_slot r1) freed h k = absurd k
SlotAfter-trans kept (loaded_slot r) (on_disk o) (loaded_slot r2) h k = absurd k
SlotAfter-trans kept (loaded_slot r) (on_disk o) (on_disk o') h k =
    (h.0, h.1, h.2 ∙ ap some (sym k))
SlotAfter-trans kept (loaded_slot r) (on_disk o) freed h k = absurd k
SlotAfter-trans kept (loaded_slot r) freed z h k = absurd h
SlotAfter-trans kept (on_disk o) (loaded_slot r) z h k = absurd h
SlotAfter-trans kept (on_disk o) (on_disk o') (loaded_slot r) h k = absurd k
SlotAfter-trans kept (on_disk o) (on_disk o') (on_disk o'') h k = k ∙ h
SlotAfter-trans kept (on_disk o) (on_disk o') freed h k = absurd k
SlotAfter-trans kept (on_disk o) freed z h k = absurd h
SlotAfter-trans kept freed (loaded_slot r) z h k = absurd h
SlotAfter-trans kept freed (on_disk o) z h k = absurd h
SlotAfter-trans kept freed freed (loaded_slot r) h k = absurd k
SlotAfter-trans kept freed freed (on_disk o) h k = absurd k
SlotAfter-trans kept freed freed freed h k = tt

stamped-SlotAfter : (kept : Bool) (tick : ℕ) (x : NodeSlot) → SlotAfter kept x (stamped tick x)
unfolding stamped
stamped-SlotAfter kept tick (loaded_slot r) = (refl, refl, refl, refl)
stamped-SlotAfter kept tick (on_disk o) = refl
stamped-SlotAfter kept tick freed = tt

differs : (a b : ℕ) → (a == b) ≡ false → a ≢ b
differs a b h e = ground (arith, h, e)

module _ {D P : Type 0} where
  -- Only slots and cache have changed, the slots as `SlotAfter` says.
  pub record IsSettled (kept : NodeId → Bool) (s t : DiskEngine D P) : Type 0 where
    pub frame : t ≡ record s { slots = t.slots; cache = t.cache }
    pub slots :
        (i : NodeId) (x : NodeSlot)
        → get_elem? s.slots i ≡ some x
        → (y : NodeSlot) × (get_elem? t.slots i ≡ some y) × SlotAfter (kept i) x y

  pub IsSettled-refl :
      (kept : NodeId → Bool) (s t : DiskEngine D P)
      → t ≡ record s { cache = t.cache }
      → IsSettled kept s t
  IsSettled-refl kept s t e = record {
    frame = e ∙ ap (λ l. record s { slots = l; cache = t.cache }) (sym (ap (λ z. z.slots) e));
    slots = λ i x h. (x, ap (λ z. get_elem? z.slots i) e ∙ h, SlotAfter-refl (kept i) x);
  }

  abbrev with_slots : DiskEngine D P → List NodeSlot → NodeCache → DiskEngine D P
  with_slots s slots cache = record s { slots = slots; cache = cache }

  pub IsSettled-trans :
      (kept : NodeId → Bool) (s t u : DiskEngine D P)
      → IsSettled kept s t
      → IsSettled kept t u
      → IsSettled kept s u
  IsSettled-trans kept s t u h k = record {
    frame = k.frame ∙ ap (λ (z : DiskEngine D P). with_slots z u.slots u.cache) h.frame;
    slots = λ i x e.
        let (y, ey, hy) = h.slots i x e in
        let (z, ez, hz) = k.slots i y ey in (z, ez, SlotAfter-trans (kept i) x y z hy hz);
  }

  pub same_state : (kept : NodeId → Bool) (s t : DiskEngine D P) → s ≡ t → IsSettled kept s t
  same_state kept s t e = subst (IsSettled kept s) e (IsSettled-refl kept s s refl)

  framed :
      (s t : DiskEngine D P) (slots : List NodeSlot) (cache : NodeCache)
      → record s { slots = slots; cache = cache } ≡ t
      → t ≡ record s { slots = slots; cache = t.cache }
  framed s t slots cache e =
      sym e ∙ ap (λ k. record s { slots = slots; cache = k }) (ap (λ z. z.cache) e)

  -- One slot is replaced.
  IsSettled-set :
      (kept : NodeId → Bool) (s t : DiskEngine D P) (id : NodeId) (old new : NodeSlot)
      → get_elem? s.slots id ≡ some old
      → SlotAfter (kept id) old new
      → t ≡ record s { slots = set s.slots id new; cache = t.cache }
      → IsSettled kept s t
  IsSettled-set kept s t id old new at after e =
      let changed : t.slots ≡ set s.slots id new = ap (λ z. z.slots) e in
      record {
        frame = e ∙ ap (λ l. record s { slots = l; cache = t.cache }) (sym changed);
        slots = λ i x h. elim (Bool-cases (id == i)) [
          | inl same ↦
              let at_i : id ≡ i = (==_iff id i).0 same in
              (
                new,
                ap (λ l. get_elem? l i) changed
                    ∙ subst (λ j. get_elem? (set s.slots id new) j ≡ some new) at_i
                        (get_elem?-set_self s.slots id new (lt_of_get_elem? s.slots id at)),
                subst (λ j. SlotAfter (kept j) x new) at_i
                    (subst (λ o. SlotAfter (kept id) o new)
                      (some_inj (sym at ∙ ap (get_elem? s.slots) at_i ∙ h)) after),
              )
          | inr other ↦ (
            x,
            ap (λ l. get_elem? l i) changed
                ∙ get_elem?-set_ne s.slots new (λ q. differs id i other q)
                ∙ h,
            SlotAfter-refl (kept i) x,
          )
        ];
      }

  pub push_tick-IsSettled :
      (kept : NodeId → Bool) (id : NodeId) (s t : DiskEngine D P)
      → push_tick id s ≡ some t
      → IsSettled kept s t
  unfolding push_tick
  push_tick-IsSettled kept id s t h =
      let (slot, at, e) = bind_some (get_elem? s.slots id) h in
      let tick = wrapping_add s.cache.tick 1 in
      IsSettled-set kept s t id slot (stamped tick slot) at (stamped-SlotAfter (kept id) tick slot)
        (framed s t (set s.slots id (stamped tick slot)) _ (some_inj e))

  pub evict-IsSettled :
      (kept : NodeId → Bool) (id : NodeId) (r : Resident) (s t : DiskEngine D P)
      → get_elem? s.slots id ≡ some (loaded_slot r)
      → kept id ≡ false
      → r.dirty ≡ false
      → evict id r s ≡ some t
      → IsSettled kept s t
  unfolding evict
  evict-IsSettled kept id r s t at free clean h =
      let (offset, eo, e) = bind_some r.disk_offset h in
      IsSettled-set kept s t id (loaded_slot r) (on_disk offset) at (free, clean, eo)
        (framed s t (set s.slots id (on_disk offset)) _ (some_inj e))
