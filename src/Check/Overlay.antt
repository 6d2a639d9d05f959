-- ===== src/Check/Overlay.antt =====
-- The map of the newest sequence numbers above: what an overlay adds, and what an undo restores.
use beetree.Prelude.{
  ℕ, zero, suc, ◌≡◌, inl, inr, refl, sym, ap, ◌∙◌, Bool, true, false, Option, none, some, List, [],
  ◌∷◌, Ordering, arith, get_elem?, if◌then◌else◌, bind_some, Bool-cases, some_inj,
}
use mathlib.Core.Path.{subst}
use beetree.Key.{Key, cmp, key_eq}
use beetree.Key.Order.{cmp_three, eq_of_cmp}
use beetree.BTreeMap
use beetree.BTreeMap.{BTreeMap, retain}
use beetree.BTreeMap.Lookup.{or_else, get-insert, get-remove, get-retain}
use beetree.BTreeMap.Sorted.{IsSorted, AllKeys, get_beyond, retain-IsSorted}
use beetree.Message.{Message}
use beetree.Node.{range, in_bounds}
use beetree.Node.Routing.{AllPivots}
use beetree.Check.{
  apply_overlay, put_back, restore, child_lower, child_upper, lower_bound, upper_bound,
  starts_after, child_overlay,
}
use beetree.Check.Nodes.{in_range, buffer_seqs}

-- A key that stands first in a sorted map is not in the rest.
get_first :
    (q k : Key) (overlay : BTreeMap ℕ)
    → AllKeys (λ j. cmp k j ≡ Ordering.lt) overlay
    → key_eq q k ≡ true
    → BTreeMap.get q overlay ≡ none
get_first q k overlay first h = get_beyond q overlay (
    subst (λ x. AllKeys (λ j. cmp x j ≡ Ordering.lt) overlay) (sym (eq_of_cmp q k (ground arith)))
      first)

insert_overlaid :
    (q k : Key) (s : ℕ) (overlay above : BTreeMap ℕ)
    → IsSorted ((k, s) ∷ overlay)
    → or_else (BTreeMap.get q overlay) (BTreeMap.get q (BTreeMap.insert k s above))
      ≡ or_else (BTreeMap.get q ((k, s) ∷ overlay)) (BTreeMap.get q above)
unfolding BTreeMap.get
insert_overlaid q k s overlay above sorted = elim (Bool-cases (key_eq q k)) [
  | inl h ↦ rw (get-insert q k s above, get_first q k overlay sorted.0 h, h)
  | inr h ↦ rw (get-insert q k s above, h)
]

-- The overlay hides what is below it.
pub get-apply_overlay :
    (q : Key) (overlay above : BTreeMap ℕ)
    → IsSorted overlay
    → BTreeMap.get q (apply_overlay overlay above).0
      ≡ or_else (BTreeMap.get q overlay) (BTreeMap.get q above)
unfolding apply_overlay BTreeMap.get
get-apply_overlay q [] above sorted = refl
get-apply_overlay q ((k, s) ∷ overlay) above sorted =
    get-apply_overlay q overlay (BTreeMap.insert k s above) sorted.1
    ∙ insert_overlaid q k s overlay above sorted

get-put_back :
    (q k : Key) (o : Option ℕ) (m : BTreeMap ℕ)
    → BTreeMap.get q (put_back k o m) ≡ (if key_eq q k then o else BTreeMap.get q m)
unfolding put_back
get-put_back q k none m = get-remove q k m
get-put_back q k (some s) m = get-insert q k s m

put_back_same :
    (q k : Key) (s : ℕ) (above : BTreeMap ℕ)
    → (if key_eq q k
        then BTreeMap.get k above
        else if key_eq q k
        then some s
        else BTreeMap.get q above)
      ≡ BTreeMap.get q above
put_back_same q k s above = elim (Bool-cases (key_eq q k)) [
  | inl h ↦ rw (h, eq_of_cmp q k (ground arith))
  | inr h ↦ rw h
]

-- An undo gives back the map before its overlay, also when the map in between was restored only as
-- to what it finds.
pub get-restore :
    (q : Key) (overlay above later : BTreeMap ℕ)
    → ((k : Key) → BTreeMap.get k later ≡ BTreeMap.get k (apply_overlay overlay above).0)
    → BTreeMap.get q (restore (apply_overlay overlay above).1 later) ≡ BTreeMap.get q above
unfolding apply_overlay restore
get-restore q [] above later same = same q
get-restore q ((k, s) ∷ overlay) above later same =
    get-put_back q k (BTreeMap.get k above)
      (restore (apply_overlay overlay (BTreeMap.insert k s above)).1 later)
    ∙ ap (λ o. if key_eq q k then BTreeMap.get k above else o)
        (get-restore q overlay (BTreeMap.insert k s above) later same ∙ get-insert q k s above)
    ∙ put_back_same q k s above

buffer_seqs-retain :
    (p : Key → Bool) (buffer : BTreeMap Message)
    → buffer_seqs (retain p buffer) ≡ retain p (buffer_seqs buffer)
unfolding retain
buffer_seqs-retain p [] = refl
buffer_seqs-retain p ((k, m) ∷ buffer) = ground (arith, buffer_seqs-retain p buffer)

AllKeys-buffer_seqs :
    (P : Key → Type 0) (buffer : BTreeMap Message)
    → AllKeys P buffer
    → AllKeys P (buffer_seqs buffer)
AllKeys-buffer_seqs P [] a = tt
AllKeys-buffer_seqs P ((k, m) ∷ buffer) a = (a.0, AllKeys-buffer_seqs P buffer a.1)

buffer_seqs-IsSorted : (buffer : BTreeMap Message) → IsSorted buffer → IsSorted (buffer_seqs buffer)
buffer_seqs-IsSorted [] s = tt
buffer_seqs-IsSorted ((k, m) ∷ buffer) s =
    (AllKeys-buffer_seqs _ buffer s.0, buffer_seqs-IsSorted buffer s.1)

in_bounds-in_range :
    (q : Key) (lower upper : Option Key)
    → in_bounds (lower_bound lower) (upper_bound upper) q ≡ in_range q lower upper
unfolding in_bounds in_range
in_bounds-in_range q none none = refl
in_bounds-in_range q none (some hi) = refl
in_bounds-in_range q (some lo) none = ground arith
in_bounds-in_range q (some lo) (some hi) = refl

unless_some : {A : Type 0} (b : Bool) (x y : A) → (if b then none else some x) ≡ some y → x ≡ y
unless_some true x y h = cc
unless_some false x y h = some_inj h

get_slice :
    (q : Key) (lower upper : Option Key) (buffer : BTreeMap Message)
    → in_range q lower upper ≡ true
    → BTreeMap.get q
        (buffer_seqs (retain (in_bounds (lower_bound lower) (upper_bound upper)) buffer))
      ≡ BTreeMap.get q (buffer_seqs buffer)
get_slice q lower upper buffer inside =
    let p = in_bounds (lower_bound lower) (upper_bound upper) in
    rw (
      buffer_seqs-retain p buffer,
      get-retain p q (buffer_seqs buffer),
      in_bounds-in_range q lower upper,
      inside,
    )

-- What a child's overlay holds.
pub child_overlay-some :
    (lower upper : Option Key) (buffer : BTreeMap Message) {overlay : BTreeMap ℕ}
    → IsSorted buffer
    → child_overlay lower upper buffer ≡ some overlay
    → IsSorted overlay
      × ((q : Key)
          → in_range q lower upper ≡ true
          → BTreeMap.get q overlay ≡ BTreeMap.get q (buffer_seqs buffer))
unfolding child_overlay range
child_overlay-some lower upper buffer {overlay} sorted h =
    let p = in_bounds (lower_bound lower) (upper_bound upper) in
    let e : buffer_seqs (retain p buffer) ≡ overlay =
      unless_some (starts_after lower upper) _ _ h in
    (
      subst IsSorted e (buffer_seqs-IsSorted (retain p buffer) (retain-IsSorted p buffer sorted)),
      λ q inside. sym (ap (BTreeMap.get q) e) ∙ get_slice q lower upper buffer inside,
    )

shrink_upper :
    (q p : Key) (lo lower upper : Option Key)
    → in_range p lower upper ≡ true
    → in_range q lo (some p) ≡ true
    → in_range q lo upper ≡ true
unfolding in_range
shrink_upper q p none lower none a b = refl
shrink_upper q p (some l) lower none a b = ground arith
shrink_upper q p none none (some u) a b = ground (arith, cmp_three q p u)
shrink_upper q p none (some m) (some u) a b = ground (arith, cmp_three q p u)
shrink_upper q p (some l) none (some u) a b = ground (arith, cmp_three q p u)
shrink_upper q p (some l) (some m) (some u) a b = ground (arith, cmp_three q p u)

shrink_lower :
    (q p : Key) (lower upper hi : Option Key)
    → in_range p lower upper ≡ true
    → in_range q (some p) hi ≡ true
    → in_range q lower hi ≡ true
unfolding in_range
shrink_lower q p none upper none a b = refl
shrink_lower q p none upper (some h) a b = ground arith
shrink_lower q p (some l) none none a b = ground (arith, cmp_three l p q)
shrink_lower q p (some l) (some u) none a b = ground (arith, cmp_three l p q)
shrink_lower q p (some l) none (some h) a b = ground (arith, cmp_three l p q)
shrink_lower q p (some l) (some u) (some h) a b = ground (arith, cmp_three l p q)

below_right :
    (q : Key) (lo lower upper : Option Key) (o : Option Key)
    → ((p : Key) → o ≡ some p → in_range p lower upper ≡ true)
    → in_range q lo (or_else o upper) ≡ true
    → in_range q lo upper ≡ true
below_right q lo lower upper none within inside = inside
below_right q lo lower upper (some p) within inside =
    shrink_upper q p lo lower upper (within p refl) inside

pub AllPivots-get_elem? :
    (P : Key → Type 0) (pivots : List Key) (i : ℕ) {p : Key}
    → AllPivots P pivots
    → get_elem? pivots i ≡ some p
    → P p
AllPivots-get_elem? P [] i a e = cc
AllPivots-get_elem? P (q ∷ pivots) zero a e = subst P (some_inj e) a.0
AllPivots-get_elem? P (q ∷ pivots) (suc i) a e = AllPivots-get_elem? P pivots i a.1 e

-- A child's keys are its parent's.
pub in_range-child :
    (q : Key) (pivots : List Key) (lower upper : Option Key) (i : ℕ) {lo : Option Key}
    → AllPivots (λ p. in_range p lower upper ≡ true) pivots
    → child_lower pivots lower i ≡ some lo
    → in_range q lo (child_upper pivots upper i) ≡ true
    → in_range q lower upper ≡ true
unfolding child_lower
in_range-child q pivots lower upper zero within h inside =
    below_right q lower lower upper (get_elem? pivots 0)
      (λ p. AllPivots-get_elem? _ pivots 0 within)
      (subst (λ l. in_range q l (child_upper pivots upper 0) ≡ true) (sym (some_inj h)) inside)
in_range-child q pivots lower upper (suc i) {lo} within h inside = go (bind_some _ h)
  where
    go :
        (p : Key) × (get_elem? pivots i ≡ some p) × (some (some p) ≡ some lo)
        → in_range q lower upper ≡ true
    go (p, e, same) =
        below_right q lower lower upper (get_elem? pivots (suc i))
          (λ r. AllPivots-get_elem? _ pivots (suc i) within)
          (shrink_lower q p lower upper (child_upper pivots upper (suc i))
            (AllPivots-get_elem? _ pivots i within e)
            (subst (λ l. in_range q l (child_upper pivots upper (suc i)) ≡ true)
              (sym (some_inj same)) inside))
