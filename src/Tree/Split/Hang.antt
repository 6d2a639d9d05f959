-- ===== src/Tree/Split/Hang.antt =====
-- src/betree.rs, `integrate_splits`: where keys go after a promoted piece was hung into its parent.
use beetree.Prelude.{
  ℕ, suc, ◌+◌, ◌≡◌, ◌==◌, ◌&&◌, refl, sym, ap, ◌∙◌, Bool, true, false, Option, some, List, [], ◌∷◌,
  length, get_elem?, map, AllOf, Ordering, if◌then◌else◌, Bool-cases, inl, inr, ◌>>=◌, arith,
}
use mathlib.Core.Path.{subst}
use beetree.Key.{Key, cmp, key_lt, key_le}
use beetree.Key.Order.{cmp_three}
use beetree.Node.{NodeId, route, partition_point}
use beetree.Tree.Arena.{insert_at}
use beetree.Tree.Split.{hang_splits}
use beetree.Node.Routing.{AllPivots, IsAscending}

-- The child that a key is routed to after the hanging: the new one for a key at or above the
-- promoted pivot that was routed to the child at `pos`, and its old one else.
abbrev pub rerouted : Key → NodeId → ℕ → List Key → List NodeId → Key → Option NodeId
rerouted p new pos pivots children k =
    if (route pivots k == pos) && key_le p k then some new else get_elem? children (route pivots k)

pub record IsHung (p : Key) (new : NodeId) (pos : ℕ) (pivots : List Key) (children : List NodeId)
    : Type 0 where
  pub pivots_after : List Key
  pub children_after : List NodeId
  pub pivots_lem : insert_at pos p pivots ≡ some pivots_after
  pub children_lem : insert_at (suc pos) new children ≡ some children_after
  pub lengths : length children_after ≡ suc (length pivots_after)
  pub routes :
      (k : Key)
      → get_elem? children_after (route pivots_after k) ≡ rerouted p new pos pivots children k
  pub new_at : get_elem? children_after (suc pos) ≡ some new
  pub place :
      (k : Key) → (route pivots_after k == suc pos) ≡ ((route pivots k == pos) && key_le p k)
  pub later :
      (r : Key)
      → key_lt p r ≡ true
      → partition_point (λ q. key_lt q r) pivots ≡ pos
      → partition_point (λ q. key_lt q r) pivots_after ≡ suc pos

module _ (p : Key) (new c : NodeId) where
  hang_last : IsHung p new 0 [] (c ∷ [])
  unfolding insert_at route partition_point
  hang_last = record {
    pivots_after = p ∷ [];
    children_after = c ∷ new ∷ [];
    pivots_lem = refl;
    children_lem = refl;
    lengths = refl;
    routes = λ k. ground arith;
    new_at = refl;
    place = λ k. ground arith;
    later = λ r h e. ground (arith, h);
  }

  hang_here :
      (q : Key) (ps : List Key) (cs : List NodeId)
      → key_lt q p ≡ false
      → length cs ≡ suc (length ps)
      → IsHung p new 0 (q ∷ ps) (c ∷ cs)
  unfolding insert_at route partition_point
  hang_here q ps cs e h = record {
    pivots_after = p ∷ q ∷ ps;
    children_after = c ∷ new ∷ cs;
    pivots_lem = refl;
    children_lem = refl;
    lengths = omega arith;
    routes = λ k. ground (arith, e, cmp_three k p q);
    new_at = refl;
    place = λ k. ground (arith, e, cmp_three k p q);
    later = λ r h e'. ground (arith, h, e');
  }

  hang_later :
      (q : Key) (ps : List Key) (cs : List NodeId) (pos : ℕ)
      → key_lt q p ≡ true
      → IsHung p new pos ps cs
      → IsHung p new (suc pos) (q ∷ ps) (c ∷ cs)
  unfolding insert_at route partition_point
  hang_later q ps cs pos e h = record {
    pivots_after = q ∷ h.pivots_after;
    children_after = c ∷ h.children_after;
    pivots_lem = ap (λ o. o >>= λ ys. some (q ∷ ys)) h.pivots_lem;
    children_lem = ap (λ o. o >>= λ ys. some (c ∷ ys)) h.children_lem;
    lengths = omega (arith, h.lengths);
    routes = λ k. ground (arith, e, h.routes k);
    new_at = h.new_at;
    place = λ k. ground (arith, e, h.place k, cmp_three k p q);
    later = λ r h' e'. ground (arith, e, h', e', h.later r h', cmp_three q p r);
  }

-- The place before the first pivot that is not below the promoted one.
hang_splits-IsHung :
    (p : Key) (new : NodeId) (pivots : List Key) (children : List NodeId)
    → length children ≡ suc (length pivots)
    → IsHung p new (partition_point (λ q. key_lt q p) pivots) pivots children
unfolding partition_point
hang_splits-IsHung p new [] [] h = absurd (omega (arith, h))
hang_splits-IsHung p new [] (c ∷ []) h = hang_last p new c
hang_splits-IsHung p new [] (c ∷ d ∷ cs) h = absurd (omega (arith, h))
hang_splits-IsHung p new (q ∷ ps) [] h = absurd (omega (arith, h))
hang_splits-IsHung p new (q ∷ ps) (c ∷ cs) h =
    let pos = partition_point (λ r. key_lt r p) ps in
    let goal : Bool → Type 0 = λ b. IsHung p new (if b then suc pos else 0) (q ∷ ps) (c ∷ cs) in
    elim (Bool-cases (key_lt q p)) [
      | inl e ↦
          subst goal (sym e)
            (hang_later p new c q ps cs pos e (hang_splits-IsHung p new ps cs (omega (arith, h))))
      | inr e ↦ subst goal (sym e) (hang_here p new c q ps cs e (omega (arith, h)))
    ]

-- One promoted pair, then the others.
hang_splits-cons :
    (p : Key) (new : NodeId) (promoted : List (Key × NodeId)) (pos : ℕ) (pivots : List Key)
    (children : List NodeId) (t : IsHung p new pos pivots children)
    → partition_point (λ q. key_lt q p) pivots ≡ pos
    → hang_splits ((p, new) ∷ promoted) pivots children
      ≡ hang_splits promoted t.pivots_after t.children_after
unfolding hang_splits
hang_splits-cons p new promoted pos pivots children t e =
    let next : pos + 1 ≡ suc pos = omega arith in
    ap
      (λ n. insert_at n p pivots >>= λ ps.
        insert_at (n + 1) new children >>= λ cs. hang_splits promoted ps cs)
      e
    ∙ ap (λ o. o >>= λ ps. insert_at (pos + 1) new children >>= λ cs. hang_splits promoted ps cs)
        t.pivots_lem
    ∙ ap (λ n. insert_at n new children >>= λ cs. hang_splits promoted t.pivots_after cs) next
    ∙ ap (λ o. o >>= λ cs. hang_splits promoted t.pivots_after cs) t.children_lem

-- All the promoted pivots stand before the pivot at `pos`, and above those on its left.
abbrev pub IsInGap : ℕ → List Key → List (Key × NodeId) → Type 0
IsInGap pos pivots promoted = AllOf (λ t. partition_point (λ q. key_lt q t.0) pivots ≡ pos) promoted

IsInGap-later :
    (p : Key) (new : NodeId) (pos : ℕ) (pivots : List Key) (children : List NodeId)
    (t : IsHung p new pos pivots children) (promoted : List (Key × NodeId))
    → AllPivots (λ r. cmp p r ≡ Ordering.lt) (map (λ u. u.0) promoted)
    → IsInGap pos pivots promoted
    → IsInGap (suc pos) t.pivots_after promoted
IsInGap-later p new pos pivots children t [] a g = tt
IsInGap-later p new pos pivots children t (u ∷ promoted) a g = (
  t.later u.0 (ground (arith, a.0)) g.0,
  IsInGap-later p new pos pivots children t promoted a.1 g.1,
)

-- The child that a key goes to when `old` at `pos` was split into itself and the promoted pieces.
abbrev pub spread : ℕ → NodeId → List (Key × NodeId) → List Key → List NodeId → Key → Option NodeId
spread pos old promoted pivots children k =
    if route pivots k == pos
    then get_elem? (old ∷ map (λ u. u.1) promoted) (route (map (λ u. u.0) promoted) k)
    else get_elem? children (route pivots k)

spread_nil :
    (pos : ℕ) (old : NodeId) (pivots : List Key) (children : List NodeId) (k : Key)
    → get_elem? children pos ≡ some old
    → get_elem? children (route pivots k) ≡ spread pos old [] pivots children k
unfolding route partition_point
spread_nil pos old pivots children k e = ground (arith, e)

spread_cons :
    (p : Key) (new : NodeId) (promoted : List (Key × NodeId)) (pos : ℕ) (old : NodeId)
    (pivots : List Key) (children : List NodeId) (t : IsHung p new pos pivots children)
    → get_elem? children pos ≡ some old
    → (k : Key)
    → spread (suc pos) new promoted t.pivots_after t.children_after k
      ≡ spread pos old ((p, new) ∷ promoted) pivots children k
unfolding route partition_point
spread_cons p new promoted pos old pivots children t e k = ground (arith, t.place k, t.routes k, e)

-- Where the promoted pivots ascend and all stand in the gap of the child at `pos`, and there is one
-- child more than pivots, hanging them succeeds and keeps one child more than pivots; afterwards a
-- key whose route led to the child at `pos` goes to the piece, that child or a new one, that the
-- promoted pivots route it to, and every other key goes to the child that it went to.
pub hang_splits-route :
    (promoted : List (Key × NodeId)) (pos : ℕ) (old : NodeId) (pivots : List Key)
    (children : List NodeId)
    → IsAscending (map (λ u. u.0) promoted)
    → IsInGap pos pivots promoted
    → length children ≡ suc (length pivots)
    → get_elem? children pos ≡ some old
    → (pivots' : List Key) × (children' : List NodeId) × (hang_splits promoted pivots children
        ≡ some (pivots', children'))
      × (length children' ≡ suc (length pivots'))
      × ((k : Key)
          → get_elem? children' (route pivots' k) ≡ spread pos old promoted pivots children k)
unfolding hang_splits
hang_splits-route [] pos old pivots children a g h e =
    (pivots, children, refl, h, λ k. spread_nil pos old pivots children k e)
hang_splits-route ((p, new) ∷ promoted) pos old pivots children a g h e =
    let t =
      subst (λ n. IsHung p new n pivots children) g.0
        (hang_splits-IsHung p new pivots children h) in
    let (pivots', children', e1, h1, r) =
      hang_splits-route promoted (suc pos) new t.pivots_after t.children_after a.1
        (IsInGap-later p new pos pivots children t promoted a.0 g.1) t.lengths t.new_at in
    (
      pivots',
      children',
      hang_splits-cons p new promoted pos pivots children t g.0 ∙ e1,
      h1,
      λ k. r k ∙ spread_cons p new promoted pos old pivots children t e k,
    )
