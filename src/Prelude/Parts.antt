-- ===== src/Prelude/Parts.antt =====
-- Parts of lists, and chains of steps in `Option`.
use Prim.Native.Nat.{ℕ, zero, suc, ◌+◌, ◌≤◌, ◌<◌}
use mathlib.Core.Path.{◌≡◌, refl, sym, ap, ◌∙◌}
use mathlib.Core.List.{List, [], ◌∷◌, ◌++◌}
use mathlib.Core.Option.{Option, none, some}
use native.Mathlib.Omega.{arith}
use mathlib.Core.Bool.{Bool, true, false}
use beetree.Prelude.Tests.{◌>>=◌, if◌then◌else◌, some_inj}
use beetree.Prelude.Lists.{length, get_elem?, take, drop}

module _ {ℓ} {A : Type ℓ} where
  pub drop-append : (n : ℕ) (xs ys : List A) → n ≤ length xs → drop n (xs ++ ys) ≡ drop n xs ++ ys
  drop-append zero xs ys h = refl
  drop-append (suc n) [] ys h = elim h [ ]
  drop-append (suc n) (x ∷ xs) ys h = drop-append n xs ys (omega arith)

  pub take-append : (n : ℕ) (xs ys : List A) → n ≤ length xs → take n (xs ++ ys) ≡ take n xs
  take-append zero xs ys h = refl
  take-append (suc n) [] ys h = elim h [ ]
  take-append (suc n) (x ∷ xs) ys h = ap (λ r. x ∷ r) (take-append n xs ys (omega arith))

  pub take-length : (xs : List A) (n : ℕ) → length xs ≤ n → take n xs ≡ xs
  take-length [] zero h = refl
  take-length [] (suc n) h = refl
  take-length (x ∷ xs) zero h = elim h [ ]
  take-length (x ∷ xs) (suc n) h = ap (λ r. x ∷ r) (take-length xs n (omega arith))

  pub drop-length : (xs : List A) → drop (length xs) xs ≡ []
  drop-length [] = refl
  drop-length (x ∷ xs) = drop-length xs

  pub bind_cong {κ} :
      {B : Type κ} (o : Option A) {f g : A → Option B}
      → ((a : A) → f a ≡ g a)
      → (o >>= f) ≡ (o >>= g)
  bind_cong none h = refl
  bind_cong (some a) h = h a

  pub bind_pure : (o : Option A) → (o >>= λ a. some a) ≡ o
  bind_pure none = refl
  bind_pure (some a) = refl

  pub bind_assoc {κ μ} :
      {B : Type κ} {C : Type μ} (o : Option A) (f : A → Option B) (g : B → Option C)
      → (o >>= λ a. f a >>= g) ≡ (o >>= f >>= g)
  bind_assoc none f g = refl
  bind_assoc (some a) f g = refl

  pub bind_some {κ} :
      {B : Type κ} (o : Option A) {f : A → Option B} {b : B}
      → (o >>= f) ≡ some b
      → (a : A) × (o ≡ some a) × (f a ≡ some b)
  bind_some none h = cc
  bind_some (some a) h = (a, refl, h)

  pub get_elem?-take : (n i : ℕ) (xs : List A) → i < n → get_elem? (take n xs) i ≡ get_elem? xs i
  get_elem?-take zero i xs h = elim h [ ]
  get_elem?-take (suc n) i [] h = refl
  get_elem?-take (suc n) zero (x ∷ xs) h = refl
  get_elem?-take (suc n) (suc i) (x ∷ xs) h = get_elem?-take n i xs (omega arith)

  pub get_elem?-drop :
      (n j i : ℕ) (xs : List A) → n + j ≡ i → get_elem? (drop n xs) j ≡ get_elem? xs i
  get_elem?-drop zero j i xs h = ap (get_elem? xs) (omega (arith, h))
  get_elem?-drop (suc n) j i [] h = refl
  get_elem?-drop (suc n) j zero (x ∷ xs) h = absurd (omega (arith, h))
  get_elem?-drop (suc n) j (suc i) (x ∷ xs) h = get_elem?-drop n j i xs (omega (arith, h))

  pub get_elem?-append_right :
      (xs ys : List A) (j i : ℕ) → length xs + j ≡ i → get_elem? (xs ++ ys) i ≡ get_elem? ys j
  get_elem?-append_right [] ys j i h = ap (get_elem? ys) (omega (arith, h))
  get_elem?-append_right (x ∷ xs) ys j zero h = absurd (omega (arith, h))
  get_elem?-append_right (x ∷ xs) ys j (suc i) h =
      get_elem?-append_right xs ys j i (omega (arith, h))

module _ {ℓ} {A : Type ℓ} where
  pub take-append_exact : (n : ℕ) (xs ys : List A) → length xs ≡ n → take n (xs ++ ys) ≡ xs
  take-append_exact n xs ys h =
      take-append n xs ys (omega (arith, h)) ∙ take-length xs n (omega (arith, h))

  pub drop-append_exact : (n : ℕ) (xs ys : List A) → length xs ≡ n → drop n (xs ++ ys) ≡ ys
  drop-append_exact n [] ys h = ap (λ m. drop m ys) {x = n} {y = 0} (omega (arith, h))
  drop-append_exact zero (x ∷ xs) ys h = absurd (omega (arith, h))
  drop-append_exact (suc n) (x ∷ xs) ys h = drop-append_exact n xs ys (omega (arith, h))

-- A guard that let a result through.
pub if_some {ℓ} :
    {A : Type ℓ} (b : Bool) {o : Option A} {a : A}
    → (if b then o else none) ≡ some a
    → (b ≡ true) × (o ≡ some a)
if_some true e = (refl, e)
if_some false e = cc

module _ {ℓ} {A : Type ℓ} where
  -- Parts of two lists that agree at each index.
  pub take_cong :
      (n : ℕ) (xs ys : List A)
      → n ≤ length xs
      → n ≤ length ys
      → ((i : ℕ) → i < n → get_elem? xs i ≡ get_elem? ys i)
      → take n xs ≡ take n ys
  take_cong zero xs ys h k e = refl
  take_cong (suc n) [] ys h k e = elim h [ ]
  take_cong (suc n) (x ∷ xs) [] h k e = elim k [ ]
  take_cong (suc n) (x ∷ xs) (y ∷ ys) h k e =
      let same : x ≡ y = some_inj (e 0 (omega arith)) in
      ap (λ z. z ∷ take n xs) same
      ∙ ap (λ r. y ∷ r)
          (take_cong n xs ys (omega arith) (omega arith) (λ i l. e (suc i) (omega arith)))

  pub take-drop_cong :
      (n off : ℕ) (xs ys : List A)
      → off + n ≤ length xs
      → off + n ≤ length ys
      → ((i : ℕ) → off ≤ i → i < off + n → get_elem? xs i ≡ get_elem? ys i)
      → take n (drop off xs) ≡ take n (drop off ys)
  take-drop_cong n zero xs ys h k e =
      take_cong n xs ys (omega arith) (omega arith) (λ i l. e i (omega arith) (omega arith))
  take-drop_cong n (suc off) [] ys h k e = absurd (omega (arith, h))
  take-drop_cong n (suc off) (x ∷ xs) [] h k e = absurd (omega (arith, k))
  take-drop_cong n (suc off) (x ∷ xs) (y ∷ ys) h k e =
      take-drop_cong n off xs ys (omega (arith, h)) (omega (arith, k))
        (λ i l m. e (suc i) (omega arith) (omega arith))

suc_nle : (m : ℕ) → suc m ≤ zero → ⊥
suc_nle m h = omega arith

suc_add : (m n : ℕ) → suc (m + n) ≡ suc m + n
suc_add m n = omega arith

-- Parts of parts.
module _ {ℓ} {A : Type ℓ} where
  take-nil : (n : ℕ) → take {A = A} n [] ≡ []
  take-nil zero = refl
  take-nil (suc n) = refl

  drop-nil : (n : ℕ) → drop {A = A} n [] ≡ []
  drop-nil zero = refl
  drop-nil (suc n) = refl

  pub take-take : (m n : ℕ) (xs : List A) → m ≤ n → take m (take n xs) ≡ take m xs
  take-take zero n xs h = refl
  take-take (suc m) zero xs h = absurd (suc_nle m h)
  take-take (suc m) (suc n) [] h = refl
  take-take (suc m) (suc n) (x ∷ xs) h = ap (λ l. x ∷ l) (take-take m n xs (omega arith))

  pub take-drop : (m n : ℕ) (xs : List A) → take n (drop m xs) ≡ drop m (take (m + n) xs)
  take-drop zero n xs = ap (λ k. take k xs) (omega arith)
  take-drop (suc m) n [] = take-nil n ∙ sym (ap (drop (suc m)) (take-nil (suc m + n)))
  take-drop (suc m) n (x ∷ xs) =
      take-drop m n xs ∙ ap (λ k. drop (suc m) (take k (x ∷ xs))) (suc_add m n)

  pub drop-drop : (m n : ℕ) (xs : List A) → drop (m + n) xs ≡ drop n (drop m xs)
  drop-drop zero n xs = ap (λ k. drop k xs) (omega arith)
  drop-drop (suc m) n [] = drop-nil (suc m + n) ∙ sym (drop-nil n)
  drop-drop (suc m) n (x ∷ xs) = ap (λ k. drop k (x ∷ xs)) (sym (suc_add m n)) ∙ drop-drop m n xs

  -- A part within the first `l` items is a part of what these are.
  pub take-drop_within :
      (k n l : ℕ) (xs ys : List A)
      → take l xs ≡ ys
      → k + n ≤ l
      → take n (drop k xs) ≡ take n (drop k ys)
  take-drop_within k n l xs ys e h =
      take-drop k n xs
      ∙ sym (ap (drop k) (take-take (k + n) l xs h))
      ∙ ap (λ zs. drop k (take (k + n) zs)) e
      ∙ sym (take-drop k n ys)
