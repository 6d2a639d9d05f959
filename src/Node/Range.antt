-- ===== src/Node/Range.antt =====
-- Bounds: which ranges are empty, and what clipping to a child's range keeps.
use beetree.Prelude.{Bool, ◌≡◌, refl, true, false, ◌&&◌, none, arith, if◌then◌else◌}
use beetree.Key.{Key, key_lt, key_le}
use beetree.Key.Order.{cmp_three}
use beetree.BTreeMap.{BTreeMap, get}
use beetree.BTreeMap.Lookup.{get-retain}
use beetree.Node.{
  Bound, included, excluded, unbounded, range_is_empty, clip_lower, clip_upper, above_lower,
  below_upper, in_bounds, range,
}

-- A range that is refused as empty holds no key.
pub range_is_empty_sound :
    (lo hi : Bound) (k : Key) → range_is_empty lo hi ≡ true → in_bounds lo hi k ≡ false
unfolding range_is_empty in_bounds
range_is_empty_sound (included a) (included b) k h = ground (arith, cmp_three a b k)
range_is_empty_sound (included a) (excluded b) k h = ground (arith, cmp_three a b k)
range_is_empty_sound (excluded a) (included b) k h = ground (arith, cmp_three a b k)
range_is_empty_sound (excluded a) (excluded b) k h = ground (arith, cmp_three a b k)
range_is_empty_sound unbounded hi k h = cc
range_is_empty_sound (included a) unbounded k h = cc
range_is_empty_sound (excluded a) unbounded k h = cc

and_swap : (a b c d : Bool) → ((a && b) && (c && d)) ≡ (a && c && b && d)
and_swap a b c d = ground arith

-- Clipping a lower bound to a pivot keeps the keys at or above both.
pub above-clip_lower :
    (lo : Bound) (p k : Key) → above_lower (clip_lower lo p) k ≡ (above_lower lo k && key_le p k)
unfolding above_lower clip_lower
above-clip_lower (included a) p k = ground (arith, cmp_three p a k)
above-clip_lower (excluded a) p k = ground (arith, cmp_three p a k)
above-clip_lower unbounded p k = refl

-- Clipping an upper bound to a pivot keeps the keys below both.
pub below-clip_upper :
    (hi : Bound) (p k : Key) → below_upper (clip_upper hi p) k ≡ (below_upper hi k && key_lt k p)
unfolding below_upper clip_upper
below-clip_upper (included a) p k = ground (arith, cmp_three p a k)
below-clip_upper (excluded a) p k = ground (arith, cmp_three p a k)
below-clip_upper unbounded p k = refl

-- `range` finds exactly the keys within the bounds.
pub get-range :
    {V : Type 0} (lo hi : Bound) (q : Key) (m : BTreeMap V)
    → get q (range lo hi m) ≡ (if in_bounds lo hi q then get q m else none)
unfolding range
get-range lo hi q m = get-retain (in_bounds lo hi) q m

-- Clipping to the pivots around a child keeps exactly the keys of the range that the child owns.
pub in_bounds-clip :
    (lo hi : Bound) (p r k : Key)
    → in_bounds (clip_lower lo p) (clip_upper hi r) k
      ≡ (in_bounds lo hi k && key_le p k && key_lt k r)
unfolding in_bounds
in_bounds-clip lo hi p r k =
    rw (above-clip_lower lo p k, below-clip_upper hi r k)
      (and_swap (above_lower lo k) (key_le p k) (below_upper hi k) (key_lt k r))
