-- ===== src/Key.antt =====
-- src/types.rs: keys, arbitrary byte strings ordered lexicographically, and the comparisons of
-- byte slices that the engines make.
pub mod Order
use beetree.Prelude.{ℕ, Bool, true, false, List, [], ◌∷◌, compare, Ordering}

abbrev pub Key : Type 0
Key = List ℕ

-- `Ord::cmp` of byte slices.
unfoldable pub cmp : Key → Key → Ordering
cmp [] [] = Ordering.eq
cmp [] (y ∷ ys) = Ordering.lt
cmp (x ∷ xs) [] = Ordering.gt
cmp (x ∷ xs) (y ∷ ys) = elim (compare x y) [
  | Ordering.lt ↦ Ordering.lt
  | Ordering.eq ↦ cmp xs ys
  | Ordering.gt ↦ Ordering.gt
]

abbrev pub key_lt : Key → Key → Bool
key_lt a b = elim (cmp a b) [ Ordering.lt ↦ true | _ ↦ false ]

abbrev pub key_le : Key → Key → Bool
key_le a b = elim (cmp a b) [ Ordering.gt ↦ false | _ ↦ true ]

abbrev pub key_eq : Key → Key → Bool
key_eq a b = elim (cmp a b) [ Ordering.eq ↦ true | _ ↦ false ]
