-- ===== src/U64Map.antt =====
-- The standard library's `BTreeMap` with 64-bit keys, as the list of its entries with ascending
-- keys.
pub mod Lookup
use beetree.Prelude.{ℕ, ◌==◌, Option, none, some, List, [], ◌∷◌, ltb, if◌then◌else◌}

abbrev pub U64Map : Type 0 → Type 0
U64Map V = List (ℕ × V)

module _ {V : Type 0} where
  unfoldable pub get : ℕ → U64Map V → Option V
  get k [] = none
  get k ((j, v) ∷ m) = if j == k then some v else get k m

  unfoldable pub insert : ℕ → V → U64Map V → U64Map V
  insert k v [] = (k, v) ∷ []
  insert k v ((j, w) ∷ m) =
      let rest = insert k v m in
      if k == j then (k, v) ∷ m else if ltb k j then (k, v) ∷ (j, w) ∷ m else (j, w) ∷ rest

  unfoldable pub remove : ℕ → U64Map V → U64Map V
  remove k [] = []
  remove k ((j, w) ∷ m) = let rest = remove k m in if j == k then m else (j, w) ∷ rest
