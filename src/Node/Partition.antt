-- ===== src/Node/Partition.antt =====
-- `partition_sizes` ends, keeps the total, and makes pieces that are neither empty nor too large.
use beetree.Prelude.{
  ℕ, zero, suc, ◌+◌, ◌-◌, ◌/◌, ◌≤◌, ◌<◌, ◌≡◌, ◌∙◌, some, List, [], ◌∷◌, ◌++◌, arith, leb, leb→le,
  Bool-cases, inl, inr,
}
use beetree.Node.{partition_loop, partition_sizes}

abbrev pub sum : List ℕ → ℕ
sum [] = 0
sum (x ∷ xs) = x + sum xs

abbrev pub AllWithin : ℕ → List ℕ → Type 0
AllWithin limit [] = Unit
AllWithin limit (x ∷ xs) = (1 ≤ x) × (x ≤ limit) × AllWithin limit xs

sum-append : (xs ys : List ℕ) → sum (xs ++ ys) ≡ sum xs + sum ys
sum-append [] ys = omega arith
sum-append (x ∷ xs) ys = omega (arith, sum-append xs ys)

AllWithin-append :
    (limit : ℕ) (xs ys : List ℕ)
    → AllWithin limit xs
    → AllWithin limit ys
    → AllWithin limit (xs ++ ys)
AllWithin-append limit [] ys a b = b
AllWithin-append limit (x ∷ xs) ys a b = (a.0, a.1, AllWithin-append limit xs ys a.2 b)

partition_loop_total :
    (f n limit : ℕ)
    → 1 ≤ limit
    → 1 ≤ n
    → n < f
    → (sizes : List ℕ) × (partition_loop f n limit ≡ some sizes)
      × (sum sizes ≡ n)
      × AllWithin limit sizes
unfolding partition_loop
partition_loop_total zero n limit c p h = absurd (omega arith)
partition_loop_total (suc f) n limit c p h = elim (Bool-cases (leb n limit)) [
  | inl fits ↦ (n ∷ [], rw fits, omega arith, (p, leb→le n limit fits, tt))
  | inr over ↦
      let (ls, le, lt, la) = partition_loop_total f (n / 2) limit c (ground arith) (omega arith) in
      let (rs, re, rt, ra) =
        partition_loop_total f (n - n / 2) limit c (ground arith) (ground arith) in
      (
        ls ++ rs,
        rw (over, le, re),
        sum-append ls rs ∙ omega arith,
        AllWithin-append limit ls rs la ra,
      )
]

pub partition_sizes_total :
    (n limit : ℕ)
    → 1 ≤ limit
    → 1 ≤ n
    → (sizes : List ℕ) × (partition_sizes n limit ≡ some sizes)
      × (sum sizes ≡ n)
      × AllWithin limit sizes
unfolding partition_sizes
partition_sizes_total n limit c p = partition_loop_total (suc n) n limit c p (omega arith)
