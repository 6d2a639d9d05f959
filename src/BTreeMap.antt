-- ===== src/BTreeMap.antt =====
-- The standard library's `BTreeMap` with byte-string keys, as the list of its entries in
-- ascending key order, with the operations that the engines call.
pub mod Lookup
pub mod Sorted
pub mod Pieces
use beetree.Prelude.{
  ℕ, ◌≡◌, Bool, true, false, not, ◌&&◌, Option, none, some, List, [], ◌∷◌, ◌++◌, Ordering, length,
  if◌then◌else◌,
}
use beetree.Key.{Key, cmp, key_lt, key_le, key_eq}

abbrev pub BTreeMap {ℓ} : Type ℓ → Type ℓ
BTreeMap V = List (Key × V)

module _ {ℓ} {V : Type ℓ} where
  -- `get`: the entry of the key.
  unfoldable pub get : Key → BTreeMap V → Option V
  get k [] = none
  get k ((j, v) ∷ m) = if key_eq k j then some v else get k m

  -- `insert`: an old entry of the key is replaced.
  unfoldable pub insert : Key → V → BTreeMap V → BTreeMap V
  insert k v [] = (k, v) ∷ []
  insert k v ((j, w) ∷ m) = elim (cmp k j) [
    | Ordering.lt ↦ (k, v) ∷ (j, w) ∷ m
    | Ordering.eq ↦ (k, v) ∷ m
    | Ordering.gt ↦ (j, w) ∷ insert k v m
  ]

  -- `retain`: the entries whose keys pass the test.
  unfoldable pub retain : (Key → Bool) → BTreeMap V → BTreeMap V
  retain p [] = []
  retain p ((j, v) ∷ m) = let rest = retain p m in if p j then (j, v) ∷ rest else rest

  -- `remove`.
  unfoldable pub remove : Key → BTreeMap V → BTreeMap V
  unfolding retain
  remove k m = retain (λ j. not (key_eq k j)) m

  -- `split_off(k)` keeps the entries below `k`, and returns the entries from `k` on.
  unfoldable pub below : Key → BTreeMap V → BTreeMap V
  unfolding retain
  below k m = retain (λ j. key_lt j k) m

  unfoldable pub split_off : Key → BTreeMap V → BTreeMap V
  unfolding retain
  split_off k m = retain (λ j. key_le k j) m

  -- `append`: the entries of the second map move into the first, and replace those there.
  unfoldable pub append : BTreeMap V → BTreeMap V → BTreeMap V
  unfolding insert
  append m [] = m
  append m ((k, v) ∷ rest) = insert k v (append m rest)
