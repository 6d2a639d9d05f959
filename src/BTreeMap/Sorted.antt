-- ===== src/BTreeMap/Sorted.antt =====
-- The representation invariant of a map: its keys ascend strictly, so no key stands in it twice.
use beetree.Prelude.{
  ◌+◌, ◌≤◌, ◌≡◌, refl, sym, Bool-cases, inl, inr, Bool, true, false, none, some, [], ◌∷◌, Ordering,
  arith, length,
}
use mathlib.Core.Path.{subst, ◌∙◌}
use beetree.Key.{Key, cmp, key_eq, key_lt, key_le}
use beetree.Key.Order.{cmp-swap, eq_of_cmp, cmp_trans}
use beetree.BTreeMap.{BTreeMap, get, insert, retain, below, split_off, append}

module _ {ℓ} {V : Type ℓ} where
  abbrev pub AllKeys {κ} : (Key → Type κ) → BTreeMap V → Type κ
  AllKeys P [] = Unit
  AllKeys P ((k, v) ∷ m) = P k × AllKeys P m

  abbrev pub IsSorted : BTreeMap V → Type 0
  IsSorted [] = Unit
  IsSorted ((k, v) ∷ m) = AllKeys (λ j. cmp k j ≡ Ordering.lt) m × IsSorted m

module _ {ℓ} {V : Type ℓ} where
  pub AllKeys-imp {κ μ} :
      {P : Key → Type κ} {Q : Key → Type μ}
      → ((k : Key) → P k → Q k)
      → (m : BTreeMap V) → AllKeys P m
      → AllKeys Q m
  AllKeys-imp f [] a = tt
  AllKeys-imp f ((k, v) ∷ m) a = (f k a.0, AllKeys-imp f m a.1)

  pub AllKeys-insert {κ} :
      (P : Key → Type κ) (k : Key) (v : V) (m : BTreeMap V)
      → P k
      → AllKeys P m
      → AllKeys P (insert k v m)
  unfolding insert
  AllKeys-insert P k v [] p a = (p, tt)
  AllKeys-insert P k v ((j, w) ∷ m) p a = ground (arith, AllKeys-insert P k v m)

  pub AllKeys-retain {κ} :
      (P : Key → Type κ) (p : Key → Bool) (m : BTreeMap V) → AllKeys P m → AllKeys P (retain p m)
  unfolding retain
  AllKeys-retain P p [] a = tt
  AllKeys-retain P p ((j, w) ∷ m) a = ground (arith, AllKeys-retain P p m)

  pub AllKeys-append {κ} :
      (P : Key → Type κ) (m n : BTreeMap V) → AllKeys P m → AllKeys P n → AllKeys P (append m n)
  unfolding append
  AllKeys-append P m [] a b = a
  AllKeys-append P m ((k, v) ∷ n) a b =
      AllKeys-insert P k v (append m n) b.0 (AllKeys-append P m n a b.1)

  -- The test holds of every key that is kept.
  pub AllKeys-retain_test :
      (p : Key → Bool) (m : BTreeMap V) → AllKeys (λ k. p k ≡ true) (retain p m)
  unfolding retain
  AllKeys-retain_test p [] = tt
  AllKeys-retain_test p ((j, w) ∷ m) = ground (arith, AllKeys-retain_test p m)

  pub AllKeys-beyond :
      (k j : Key) (m : BTreeMap V)
      → cmp k j ≡ Ordering.lt
      → AllKeys (λ i. cmp j i ≡ Ordering.lt) m
      → AllKeys (λ i. cmp k i ≡ Ordering.lt) m
  AllKeys-beyond k j m h a = AllKeys-imp (λ i. cmp_trans k j i h) m a

  pub insert-IsSorted : (k : Key) (v : V) (m : BTreeMap V) → IsSorted m → IsSorted (insert k v m)
  unfolding insert
  insert-IsSorted k v [] s = (tt, tt)
  insert-IsSorted k v ((j, w) ∷ m) s = ground (
    arith,
    insert-IsSorted k v m s.1,
    AllKeys-insert (λ i. cmp j i ≡ Ordering.lt) k v m,
    AllKeys-beyond k j m,
    eq_of_cmp k j,
    cmp-swap k j,
  )

  pub retain-IsSorted : (p : Key → Bool) (m : BTreeMap V) → IsSorted m → IsSorted (retain p m)
  unfolding retain
  retain-IsSorted p [] s = tt
  retain-IsSorted p ((j, w) ∷ m) s =
      ground (arith, retain-IsSorted p m s.1, AllKeys-retain (λ i. cmp j i ≡ Ordering.lt) p m s.0)

  pub append-IsSorted : (m n : BTreeMap V) → IsSorted m → IsSorted (append m n)
  unfolding append
  append-IsSorted m [] s = s
  append-IsSorted m ((k, v) ∷ n) s = insert-IsSorted k v (append m n) (append-IsSorted m n s)

  -- A key below all others is not found among them.
  pub get_beyond :
      (q : Key) (m : BTreeMap V) → AllKeys (λ j. cmp q j ≡ Ordering.lt) m → get q m ≡ none
  unfolding get
  get_beyond q [] a = refl
  get_beyond q ((j, w) ∷ m) a = ground (arith, get_beyond q m a.1)

  -- What is known of all keys holds of a key that is found.
  get_ne : (q j : Key) (w : V) (m : BTreeMap V) → key_eq q j ≡ false → get q ((j, w) ∷ m) ≡ get q m
  unfolding get
  get_ne q j w m h = rw h

  pub AllKeys-get {κ} :
      (P : Key → Type κ) (q : Key) (m : BTreeMap V) {v : V} → AllKeys P m → get q m ≡ some v → P q
  unfolding get
  AllKeys-get P q [] a e = cc
  AllKeys-get P q ((j, w) ∷ m) a e = elim (Bool-cases (key_eq q j)) [
    | inl h ↦ subst P (sym (eq_of_cmp q j (ground arith))) a.0
    | inr h ↦ AllKeys-get P q m a.1 (sym (get_ne q j w m h) ∙ e)
  ]

  pub below-IsSorted : (k : Key) (m : BTreeMap V) → IsSorted m → IsSorted (below k m)
  unfolding below
  below-IsSorted k m s = retain-IsSorted (λ j. key_lt j k) m s

  pub split_off-IsSorted : (k : Key) (m : BTreeMap V) → IsSorted m → IsSorted (split_off k m)
  unfolding split_off
  split_off-IsSorted k m s = retain-IsSorted (λ j. key_le k j) m s

  -- The two halves of a map have all its entries.
  pub length-below :
      (k : Key) (m : BTreeMap V) → length (below k m) + length (split_off k m) ≡ length m
  unfolding below split_off retain
  length-below k [] = refl
  length-below k ((j, w) ∷ m) = ground (arith, length-below k m, cmp-swap j k)

  pub length-insert : (k : Key) (v : V) (m : BTreeMap V) → length (insert k v m) ≤ length m + 1
  unfolding insert
  length-insert k v [] = omega arith
  length-insert k v ((j, w) ∷ m) = ground (arith, length-insert k v m)

  pub length-append_map : (m n : BTreeMap V) → length (append m n) ≤ length m + length n
  unfolding append
  length-append_map m [] = omega arith
  length-append_map m ((k, v) ∷ n) =
      omega (arith, length-insert k v (append m n), length-append_map m n)
