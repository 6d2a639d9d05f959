-- ===== src/BTreeMap/Pieces.antt =====
-- A sorted map cut into consecutive pieces: a key is found in the piece that the first keys of the
-- right pieces route it to.
use beetree.Prelude.{
  ◌≡◌, ◌∙◌, List, [], ◌∷◌, ◌++◌, Ordering, arith, get_elem?, AllOf, ◌>>=◌, if◌then◌else◌,
}
use beetree.Key.{Key, cmp, key_lt}
use beetree.Key.Order.{cmp-swap, eq_of_cmp}
use beetree.BTreeMap.{BTreeMap, get}
use mathlib.Core.List.{append-nil}
use beetree.Node.{route}
use beetree.Node.Routing.{AllPivots, IsAscending}
use beetree.BTreeMap.Sorted.{AllKeys, IsSorted, AllKeys-beyond, get_beyond}

module _ {ℓ} {V : Type ℓ} where
  abbrev pub joined : List (BTreeMap V) → BTreeMap V
  joined [] = []
  joined (m ∷ ms) = m ++ joined ms

  -- The first keys of the pieces.
  abbrev pub first_keys : List (BTreeMap V) → List Key
  first_keys [] = []
  first_keys ([] ∷ ms) = first_keys ms
  first_keys (((k, v) ∷ m) ∷ ms) = k ∷ first_keys ms

  abbrev pub IsNonempty : BTreeMap V → Type 0
  IsNonempty [] = ⊥
  IsNonempty ((k, v) ∷ m) = Unit

module _ {ℓ} {V : Type ℓ} where
  pub AllKeys-left {κ} :
      (P : Key → Type κ) (xs ys : BTreeMap V) → AllKeys P (xs ++ ys) → AllKeys P xs
  AllKeys-left P [] ys a = tt
  AllKeys-left P ((k, v) ∷ xs) ys a = (a.0, AllKeys-left P xs ys a.1)

  pub AllKeys-right {κ} :
      (P : Key → Type κ) (xs ys : BTreeMap V) → AllKeys P (xs ++ ys) → AllKeys P ys
  AllKeys-right P [] ys a = a
  AllKeys-right P ((k, v) ∷ xs) ys a = AllKeys-right P xs ys a.1

  pub IsSorted-left : (xs ys : BTreeMap V) → IsSorted (xs ++ ys) → IsSorted xs
  IsSorted-left [] ys s = tt
  IsSorted-left ((k, v) ∷ xs) ys s =
      (AllKeys-left (λ j. cmp k j ≡ Ordering.lt) xs ys s.0, IsSorted-left xs ys s.1)

  pub IsSorted-right : (xs ys : BTreeMap V) → IsSorted (xs ++ ys) → IsSorted ys
  IsSorted-right [] ys s = s
  IsSorted-right ((k, v) ∷ xs) ys s = IsSorted-right xs ys s.1

  -- A key below the first key of the right part is looked up in the left part, any other one in
  -- the right part.
  pub get_joined :
      (q p : Key) (w : V) (xs ys : BTreeMap V)
      → IsSorted (xs ++ (p, w) ∷ ys)
      → get q (xs ++ (p, w) ∷ ys) ≡ (if key_lt q p then get q xs else get q ((p, w) ∷ ys))
  unfolding get
  get_joined q p w [] ys s = ground (arith, get_beyond q ys, AllKeys-beyond q p ys, s.0)
  get_joined q p w ((j, v) ∷ xs) ys s = ground (
    arith,
    get_joined q p w xs ys s.1,
    eq_of_cmp q j,
    (AllKeys-right (λ i. cmp j i ≡ Ordering.lt) xs ((p, w) ∷ ys) s.0).0,
  )

module _ {ℓ} {V : Type ℓ} where
  pub get_pieces :
      (q : Key) (m : BTreeMap V) (ms : List (BTreeMap V))
      → AllOf IsNonempty ms
      → IsSorted (m ++ joined ms)
      → get q (m ++ joined ms) ≡ (get_elem? (m ∷ ms) (route (first_keys ms) q) >>= get q)
  unfolding route
  get_pieces q m [] full s = rw append-nil
  get_pieces q m ([] ∷ ms) full s = absurd full.0
  get_pieces q m (((p, w) ∷ m') ∷ ms) full s =
      get_joined q p w m (m' ++ joined ms) s
      ∙ unfold route in
        ground (
          arith,
          get_pieces q ((p, w) ∷ m') ms full.1 (IsSorted-right m ((p, w) ∷ m' ++ joined ms) s),
          cmp-swap p q,
        )

  AllPivots-first_keys {κ} :
      (P : Key → Type κ) (ms : List (BTreeMap V))
      → AllKeys P (joined ms)
      → AllPivots P (first_keys ms)
  AllPivots-first_keys P [] a = tt
  AllPivots-first_keys P ([] ∷ ms) a = AllPivots-first_keys P ms a
  AllPivots-first_keys P (((k, v) ∷ m) ∷ ms) a =
      (a.0, AllPivots-first_keys P ms (AllKeys-right P m (joined ms) a.1))

  pub first_keys-IsAscending :
      (ms : List (BTreeMap V)) → IsSorted (joined ms) → IsAscending (first_keys ms)
  first_keys-IsAscending [] s = tt
  first_keys-IsAscending ([] ∷ ms) s = first_keys-IsAscending ms s
  first_keys-IsAscending (((k, v) ∷ m) ∷ ms) s = (
    AllPivots-first_keys (λ j. cmp k j ≡ Ordering.lt) ms
        (AllKeys-right (λ j. cmp k j ≡ Ordering.lt) m (joined ms) s.0),
    first_keys-IsAscending ms (IsSorted-right m (joined ms) s.1),
  )

  pub pieces-IsSorted : (ms : List (BTreeMap V)) → IsSorted (joined ms) → AllOf IsSorted ms
  pieces-IsSorted [] s = tt
  pieces-IsSorted (m ∷ ms) s =
      (IsSorted-left m (joined ms) s, pieces-IsSorted ms (IsSorted-right m (joined ms) s))
