-- ===== src/Key/Order.antt =====
-- The lexicographic order of byte strings is a strict total order.
use beetree.Prelude.{◌≡◌, refl, [], ◌∷◌, arith, Ordering}
use beetree.Key.{Key, cmp}

abbrev pub swap : Ordering → Ordering
swap Ordering.lt = Ordering.gt
swap Ordering.eq = Ordering.eq
swap Ordering.gt = Ordering.lt

pub cmp_refl : (a : Key) → cmp a a ≡ Ordering.eq
unfolding cmp
cmp_refl [] = refl
cmp_refl (x ∷ xs) = ground (arith, cmp_refl xs)

pub cmp-swap : (a b : Key) → cmp b a ≡ swap (cmp a b)
unfolding cmp
cmp-swap [] [] = refl
cmp-swap [] (y ∷ ys) = refl
cmp-swap (x ∷ xs) [] = refl
cmp-swap (x ∷ xs) (y ∷ ys) = ground (arith, cmp-swap xs ys)

pub eq_of_cmp : (a b : Key) → cmp a b ≡ Ordering.eq → a ≡ b
unfolding cmp
eq_of_cmp [] [] h = refl
eq_of_cmp [] (y ∷ ys) h = cc
eq_of_cmp (x ∷ xs) [] h = cc
eq_of_cmp (x ∷ xs) (y ∷ ys) h = ground (arith, eq_of_cmp xs ys)

pub cmp_trans :
    (a b c : Key) → cmp a b ≡ Ordering.lt → cmp b c ≡ Ordering.lt → cmp a c ≡ Ordering.lt
unfolding cmp
cmp_trans [] [] c h k = cc
cmp_trans [] (y ∷ ys) [] h k = cc
cmp_trans [] (y ∷ ys) (z ∷ zs) h k = refl
cmp_trans (x ∷ xs) [] c h k = cc
cmp_trans (x ∷ xs) (y ∷ ys) [] h k = cc
cmp_trans (x ∷ xs) (y ∷ ys) (z ∷ zs) h k = ground (arith, cmp_trans xs ys zs)

-- How three keys compare, for `ground`: what follows from two comparisons of them.
pub cmp_three :
    (a b c : Key)
    → (cmp b a ≡ swap (cmp a b))
      × (cmp c b ≡ swap (cmp b c))
      × (cmp c a ≡ swap (cmp a c))
      × (cmp a b ≡ Ordering.eq → a ≡ b)
      × (cmp b c ≡ Ordering.eq → b ≡ c)
      × (cmp a c ≡ Ordering.eq → a ≡ c)
      × (cmp a b ≡ Ordering.lt → cmp b c ≡ Ordering.lt → cmp a c ≡ Ordering.lt)
      × (cmp c b ≡ Ordering.lt → cmp b a ≡ Ordering.lt → cmp c a ≡ Ordering.lt)
cmp_three a b c = (
  cmp-swap a b,
  cmp-swap b c,
  cmp-swap a c,
  eq_of_cmp a b,
  eq_of_cmp b c,
  eq_of_cmp a c,
  cmp_trans a b c,
  cmp_trans c b a,
)
