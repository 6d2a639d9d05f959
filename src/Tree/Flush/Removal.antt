-- ===== src/Tree/Flush/Removal.antt =====
-- src/betree.rs, `remove_child`: where keys go after an emptied child was taken out of its parent.
use beetree.Prelude.{
  ℕ, zero, suc, ◌≤◌, ◌≡◌, ◌≢◌, refl, ap, some, List, [], ◌∷◌, length, get_elem?, ◌>>=◌, Ordering,
  arith,
}
use beetree.Key.{Key, cmp}
use beetree.Key.Order.{cmp-swap}
use beetree.Node.{NodeId, route, partition_point}
use beetree.Node.Routing.{AllPivots, IsAscending, AllPivots-beyond, route_first}
use beetree.Tree.Arena.{remove_at}
use beetree.Tree.Flush.{drop_pivot}

-- The lists of a node with pivots, without the child at `at` and one pivot.
pub record IsDropped (at : ℕ) (pivots : List Key) (children : List NodeId) : Type 0 where
  pub pivots_after : List Key
  pub children_after : List NodeId
  pub pivots_lem : drop_pivot at pivots ≡ some pivots_after
  pub children_lem : remove_at at children ≡ some children_after
  pub lengths : length children_after ≡ suc (length pivots_after)
  pub routes :
      (k : Key)
      → route pivots k ≢ at
      → get_elem? children_after (route pivots_after k) ≡ get_elem? children (route pivots k)

module _ (c : NodeId) (q : Key) (ps : List Key) where
  drop_first : (cs : List NodeId) → length cs ≡ suc (length ps) → IsDropped 0 (q ∷ ps) (c ∷ cs)
  unfolding drop_pivot remove_at route partition_point
  drop_first cs h = record {
    pivots_after = ps;
    children_after = cs;
    pivots_lem = refl;
    children_lem = refl;
    lengths = h;
    routes = λ k ne. ground (arith, ne);
  }

  -- The pivot on the left of the removed child goes; a key on its left stays there.
  drop_left :
      (d : NodeId) (cs : List NodeId)
      → AllPivots (λ r. cmp q r ≡ Ordering.lt) ps
      → length cs ≡ length ps
      → IsDropped 1 (q ∷ ps) (c ∷ d ∷ cs)
  unfolding drop_pivot remove_at partition_point route
  drop_left d cs a h = record {
    pivots_after = ps;
    children_after = c ∷ cs;
    pivots_lem = refl;
    children_lem = refl;
    lengths = omega (arith, h);
    routes = λ k ne.
        let above : cmp k q ≡ Ordering.lt → route ps k ≡ 0 =
          λ e. route_first ps k (AllPivots-beyond k q ps e a) in
        ground (arith, ne, above, cmp-swap k q);
  }

  drop_later :
      (at : ℕ) (cs : List NodeId)
      → IsDropped (suc at) ps cs
      → IsDropped (suc (suc at)) (q ∷ ps) (c ∷ cs)
  unfolding drop_pivot remove_at route partition_point
  drop_later at cs h = record {
    pivots_after = q ∷ h.pivots_after;
    children_after = c ∷ h.children_after;
    pivots_lem = ap (λ o. o >>= λ ys. some (q ∷ ys)) h.pivots_lem;
    children_lem = ap (λ o. o >>= λ ys. some (c ∷ ys)) h.children_lem;
    lengths = omega (arith, h.lengths);
    routes = λ k ne. ground (arith, ne, h.routes k);
  }

-- In a node with ascending pivots, one at least, and one child more than pivots, taking out any
-- child and the pivot that goes with it succeeds and keeps one child more than pivots; afterwards
-- every key whose route did not lead to that child goes to the child that it went to.
pub drop_pivot-route :
    (at : ℕ) (q : Key) (ps : List Key) (children : List NodeId)
    → IsAscending (q ∷ ps)
    → length children ≡ suc (suc (length ps))
    → at ≤ suc (length ps)
    → IsDropped at (q ∷ ps) children
drop_pivot-route at q ps [] a h le = absurd (omega (arith, h))
drop_pivot-route at q ps (c ∷ []) a h le = absurd (omega (arith, h))
drop_pivot-route zero q ps (c ∷ d ∷ cs) a h le = drop_first c q ps (d ∷ cs) (omega (arith, h))
drop_pivot-route (suc zero) q ps (c ∷ d ∷ cs) a h le = drop_left c q ps d cs a.0 (omega (arith, h))
drop_pivot-route (suc (suc at)) q [] (c ∷ d ∷ cs) a h le = absurd (omega (arith, le))
drop_pivot-route (suc (suc at)) q (r ∷ ps) (c ∷ d ∷ cs) a h le =
    drop_later c q (r ∷ ps) at (d ∷ cs)
      (drop_pivot-route (suc at) r ps (d ∷ cs) a.1 (omega (arith, h)) (omega (arith, le)))
