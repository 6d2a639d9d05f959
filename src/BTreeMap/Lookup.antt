-- ===== src/BTreeMap/Lookup.antt =====
-- What `get` finds after each operation.
use beetree.Prelude.{◌≡◌, refl, Bool, not, Option, none, some, [], ◌∷◌, arith, if◌then◌else◌}
use beetree.Key.{Key, key_lt, key_le, key_eq}
use beetree.Key.Order.{cmp_refl, cmp-swap, eq_of_cmp}
use beetree.BTreeMap.{BTreeMap, get, insert, retain, remove, below, split_off, append}

-- `Option::or`: the first answer where there is one, else the second.
abbrev pub or_else {ℓ} : {V : Type ℓ} → Option V → Option V → Option V
or_else none o = o
or_else (some v) o = some v

module _ {ℓ} {V : Type ℓ} where
  pub get-insert :
      (q k : Key) (v : V) (m : BTreeMap V)
      → get q (insert k v m) ≡ (if key_eq q k then some v else get q m)
  unfolding get insert
  get-insert q k v [] = refl
  get-insert q k v ((j, w) ∷ m) =
      ground (arith, get-insert q k v m, eq_of_cmp k j, eq_of_cmp q k, eq_of_cmp q j, cmp_refl j)

  pub get-retain :
      (p : Key → Bool) (q : Key) (m : BTreeMap V)
      → get q (retain p m) ≡ (if p q then get q m else none)
  unfolding get retain
  get-retain p q [] = ground arith
  get-retain p q ((j, w) ∷ m) = ground (arith, get-retain p q m, eq_of_cmp q j)

  pub get-remove :
      (q k : Key) (m : BTreeMap V) → get q (remove k m) ≡ (if key_eq q k then none else get q m)
  unfolding remove
  get-remove q k m = ground (arith, get-retain (λ j. not (key_eq k j)) q m, cmp-swap k q)

  pub get-below :
      (q k : Key) (m : BTreeMap V) → get q (below k m) ≡ (if key_lt q k then get q m else none)
  unfolding below
  get-below q k m = get-retain (λ j. key_lt j k) q m

  pub get-split_off :
      (q k : Key) (m : BTreeMap V) → get q (split_off k m) ≡ (if key_lt q k then none else get q m)
  unfolding split_off
  get-split_off q k m = ground (arith, get-retain (λ j. key_le k j) q m, cmp-swap k q)

  pub get-append : (q : Key) (m n : BTreeMap V) → get q (append m n) ≡ or_else (get q n) (get q m)
  unfolding get append
  get-append q m [] = refl
  get-append q m ((k, v) ∷ n) = ground (arith, get-insert q k v (append m n), get-append q m n)
