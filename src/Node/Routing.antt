-- ===== src/Node/Routing.antt =====
-- `route` against the pivot convention of docs/SPEC.md: child i owns the keys in
-- [pivots[i-1], pivots[i]).
use beetree.Prelude.{
  ℕ, zero, suc, ◌≤◌, ◌≡◌, refl, Bool, true, false, ◌&&◌, none, some, List, [], ◌∷◌, Ordering, arith,
  length, get_elem?, ◌==◌,
}
use beetree.Key.{Key, cmp, key_lt, key_le}
use beetree.Key.Order.{cmp-swap, cmp_trans}
use beetree.Node.{route}

-- Strictly ascending pivots (invariant I2).
abbrev pub AllPivots {κ} : (Key → Type κ) → List Key → Type κ
AllPivots P [] = Unit
AllPivots P (p ∷ ps) = P p × AllPivots P ps

abbrev pub IsAscending : List Key → Type 0
IsAscending [] = Unit
IsAscending (p ∷ ps) = AllPivots (λ r. cmp p r ≡ Ordering.lt) ps × IsAscending ps

-- Does the key stand at or above the pivot on the left of child i, and below the one on its right?
abbrev pub from_left : List Key → ℕ → Key → Bool
from_left pivots zero k = true
from_left pivots (suc i) k = elim (get_elem? pivots i) [ none ↦ false | some p ↦ key_le p k ]

abbrev pub to_right : List Key → ℕ → Key → Bool
to_right pivots i k = elim (get_elem? pivots i) [ none ↦ true | some p ↦ key_lt k p ]

abbrev pub owns : List Key → ℕ → Key → Bool
owns pivots i k = from_left pivots i k && to_right pivots i k

pub route-le-length : (pivots : List Key) (k : Key) → route pivots k ≤ length pivots
unfolding route
route-le-length [] k = omega arith
route-le-length (p ∷ ps) k = ground (arith, route-le-length ps k)

-- A key below every pivot goes to the first child.
pub route_first :
    (ps : List Key) (k : Key) → AllPivots (λ r. cmp k r ≡ Ordering.lt) ps → route ps k ≡ 0
unfolding route
route_first [] k a = refl
route_first (p ∷ ps) k a = ground (arith, cmp-swap k p)

pub AllPivots-beyond :
    (k p : Key) (ps : List Key)
    → cmp k p ≡ Ordering.lt
    → AllPivots (λ r. cmp p r ≡ Ordering.lt) ps
    → AllPivots (λ r. cmp k r ≡ Ordering.lt) ps
AllPivots-beyond k p [] h a = tt
AllPivots-beyond k p (r ∷ ps) h a = (cmp_trans k p r h a.0, AllPivots-beyond k p ps h a.1)

-- No pivot above the key is at or below it.
from_left_beyond :
    (ps : List Key) (k : Key) (i : ℕ)
    → AllPivots (λ r. cmp k r ≡ Ordering.lt) ps
    → from_left ps (suc i) k ≡ false
from_left_beyond [] k i a = refl
from_left_beyond (p ∷ ps) k zero a = ground (arith, cmp-swap k p)
from_left_beyond (p ∷ ps) k (suc i) a = from_left_beyond ps k i a.1

pub owns_iff_route :
    (pivots : List Key) (k : Key) (i : ℕ)
    → IsAscending pivots
    → owns pivots i k ≡ (route pivots k == i)
unfolding route
owns_iff_route [] k zero a = refl
owns_iff_route [] k (suc i) a = ground arith
owns_iff_route (p ∷ ps) k zero a = ground (arith, cmp-swap k p)
owns_iff_route (p ∷ ps) k (suc zero) a = ground (arith, cmp-swap k p, owns_iff_route ps k 0 a.1)
owns_iff_route (p ∷ ps) k (suc (suc i)) a = ground (
  arith,
  cmp-swap k p,
  owns_iff_route ps k (suc i) a.1,
  AllPivots-beyond k p ps,
  from_left_beyond ps k i,
)
