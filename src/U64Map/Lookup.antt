-- ===== src/U64Map/Lookup.antt =====
-- Looking up what was inserted into a map with 64-bit keys.
use beetree.Prelude.{
  ℕ, ◌≡◌, ◌≢◌, ◌==◌, inl, inr, some, [], ◌∷◌, ltb, arith, Bool-cases, some_inj, AllOf,
}
use beetree.U64Map.{U64Map, get, insert}

module _ {V : Type 0} where
  pub get-insert_self : (k : ℕ) (v : V) (m : U64Map V) → get k (insert k v m) ≡ some v
  unfolding get insert
  get-insert_self k v [] = ground arith
  get-insert_self k v ((j, w) ∷ m) = ground (arith, get-insert_self k v m)

  pub get-insert_ne : (q k : ℕ) (v : V) (m : U64Map V) → k ≢ q → get q (insert k v m) ≡ get q m
  unfolding get insert
  get-insert_ne q k v [] differ = ground (arith, differ)
  get-insert_ne q k v ((j, w) ∷ m) differ = ground (arith, differ, get-insert_ne q k v m differ)

  pub AllOf-insert :
      (P : ℕ × V → Type 0) (k : ℕ) (v : V) (m : U64Map V)
      → P (k, v)
      → AllOf P m
      → AllOf P (insert k v m)
  unfolding insert
  AllOf-insert P k v [] p h = (p, tt)
  AllOf-insert P k v ((j, w) ∷ m) p h = elim (Bool-cases (k == j)) [
    | inl same ↦ rw same (p, h.1)
    | inr differ ↦ elim (Bool-cases (ltb k j)) [
      | inl before ↦ rw (differ, before) (p, h)
      | inr after ↦ rw (differ, after) (h.0, AllOf-insert P k v m p h.1)
    ]
  ]

  -- What is found is an entry.
  pub AllOf-get :
      (P : ℕ × V → Type 0) (k : ℕ) (v : V) (m : U64Map V) → AllOf P m → get k m ≡ some v → P (k, v)
  unfolding get
  AllOf-get P k v [] h e = cc
  AllOf-get P k v ((j, w) ∷ m) h e = elim (Bool-cases (j == k)) [
    | inl same ↦
        let at : j ≡ k = ground (arith, same) in
        let value : w ≡ v = some_inj (rw same at e) in rw (← at, ← value) h.0
    | inr differ ↦ AllOf-get P k v m h.1 (rw differ at e)
  ]
