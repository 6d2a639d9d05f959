-- ===== src/Check/Spine.antt =====
-- The first path of a tree visits distinct nodes, so a tree is less high than its arena is long.
use mathlib.Core.Path.{subst}
use beetree.Prelude.{
  ℕ, zero, suc, ◌+◌, ◌≡◌, ◌≢◌, ◌≤◌, ◌<◌, refl, sym, ap, ◌∙◌, Option, some, List, [], ◌∷◌, arith,
  length, get_elem?, map, AllOf, Distinct, if◌then◌else◌, ◌==◌, lt_of_get_elem?,
}
use beetree.Key.{Key}
use beetree.BTreeMap.{BTreeMap}
use beetree.Message.{Message}
use beetree.Node.{NodeId, Node, LeafEntry, leaf, internal}
use beetree.Tree.View.{Tall, id_of, IsStored, IsShaped}

without : ℕ → List ℕ → List ℕ
without m [] = []
without m (x ∷ xs) = let rest = without m xs in if x == m then rest else x ∷ rest

AllOf-without : (P : ℕ → Type 0) (m : ℕ) (xs : List ℕ) → AllOf P xs → AllOf P (without m xs)
unfolding without
AllOf-without P m [] a = tt
AllOf-without P m (x ∷ xs) a = ground (arith, AllOf-without P m xs a.1)

without-Distinct : (m : ℕ) (xs : List ℕ) → Distinct xs → Distinct (without m xs)
unfolding without
without-Distinct m [] d = tt
without-Distinct m (x ∷ xs) d =
    ground (arith, without-Distinct m xs d.1, AllOf-without (λ y. x ≢ y) m xs d.0)

without_absent : (m : ℕ) (xs : List ℕ) → AllOf (λ y. m ≢ y) xs → without m xs ≡ xs
unfolding without
without_absent m [] a = refl
without_absent m (x ∷ xs) a = ground (arith, without_absent m xs a.1, a.0)

length-without : (m : ℕ) (xs : List ℕ) → Distinct xs → length xs ≤ length (without m xs) + 1
unfolding without
length-without m [] d = omega arith
length-without m (x ∷ xs) d =
    let hidden : x ≡ m → without m xs ≡ xs =
      λ e. without_absent m xs (subst (λ z. AllOf (λ y. z ≢ y) xs) e d.0) in
    ground (arith, length-without m xs d.1, hidden)

without_lt : (m : ℕ) (xs : List ℕ) → AllOf (λ x. x < suc m) xs → AllOf (λ x. x < m) (without m xs)
unfolding without
without_lt m [] a = tt
without_lt m (x ∷ xs) a = ground (arith, without_lt m xs a.1, a.0)

-- Distinct numbers below `m` are at most `m`.
pub length-Distinct : (m : ℕ) (xs : List ℕ) → Distinct xs → AllOf (λ x. x < m) xs → length xs ≤ m
length-Distinct m [] d a = omega arith
length-Distinct zero (x ∷ xs) d a = absurd (omega (arith, a.0))
length-Distinct (suc m) (x ∷ xs) d a = omega (
  arith,
  length-Distinct m (without m (x ∷ xs)) (without-Distinct m (x ∷ xs) d) (without_lt m (x ∷ xs) a),
  length-without m (x ∷ xs) d,
)

abbrev spine : (h : ℕ) → Tall h → List NodeId
spine zero t = t.id ∷ []
spine (suc h) t = t.id ∷ elim t.children [ [] ↦ [] | c ∷ cs ↦ spine h c ]

internal_children :
    {pivots pivots' : List Key} {ids ids' : List NodeId} {buffer buffer' : BTreeMap Message}
    → Path (Option Node) (some (internal pivots ids buffer)) (some (internal pivots' ids' buffer'))
    → ids ≡ ids'
internal_children e = cc

first_id : {x y : NodeId} {xs ys : List NodeId} → x ∷ xs ≡ y ∷ ys → x ≡ y
first_id e = cc

leaf_is_no_internal :
    {entries : BTreeMap LeafEntry} {pivots : List Key} {ids : List NodeId}
    {buffer : BTreeMap Message}
    → Path (Option Node) (some (leaf entries)) (some (internal pivots ids buffer))
    → ⊥
leaf_is_no_internal e = cc

-- Trees at one node have one height.
same_height :
    (nodes : List Node) (h k : ℕ) (t : Tall h) (u : Tall k)
    → IsStored nodes h t
    → IsShaped h t
    → IsStored nodes k u
    → IsShaped k u
    → id_of h t ≡ id_of k u
    → h ≡ k
same_height nodes zero zero t u a b c d e = refl
same_height nodes zero (suc k) t u a b c d e =
    absurd (leaf_is_no_internal (sym a ∙ ap (get_elem? nodes) e ∙ c.0))
same_height nodes (suc h) zero t u a b c d e =
    absurd (leaf_is_no_internal (sym c ∙ ap (get_elem? nodes) (sym e) ∙ a.0))
same_height nodes (suc h) (suc k) t u a b c d e =
    by_child t.children u.children a.1 b.1 b.3 c.1 d.1 d.3
      (internal_children (sym a.0 ∙ ap (get_elem? nodes) e ∙ c.0))
      (λ t' u'. same_height nodes h k t' u')
  where
    by_child :
        (cs : List (Tall h)) (ds : List (Tall k))
        → AllOf (IsStored nodes h) cs
        → length cs ≡ suc (length t.pivots)
        → AllOf (IsShaped h) cs
        → AllOf (IsStored nodes k) ds
        → length ds ≡ suc (length u.pivots)
        → AllOf (IsShaped k) ds
        → map (id_of h) cs ≡ map (id_of k) ds
        → ((t' : Tall h) (u' : Tall k)
            → IsStored nodes h t'
            → IsShaped h t'
            → IsStored nodes k u'
            → IsShaped k u'
            → id_of h t' ≡ id_of k u'
            → h ≡ k)
        → suc h ≡ suc k
    by_child [] ds a m b c n d same ih = absurd (omega (arith, m))
    by_child (x ∷ cs) [] a m b c n d same ih = absurd (omega (arith, n))
    by_child (x ∷ cs) (y ∷ ds) a m b c n d same ih = ap suc (ih x y a.0 b.0 c.0 d.0 (first_id same))

-- A higher tree is at no node of the spine.
spine_ne :
    (nodes : List Node) (h k : ℕ) (t : Tall h) (u : Tall k)
    → IsStored nodes h t
    → IsShaped h t
    → IsStored nodes k u
    → IsShaped k u
    → h < k
    → AllOf (λ y. id_of k u ≢ y) (spine h t)
spine_ne nodes zero k t u a b c d lt =
    (λ e. absurd (omega (arith, lt, same_height nodes zero k t u a b c d (sym e))), tt)
spine_ne nodes (suc h) k t u a b c d lt = (
  λ e. absurd (omega (arith, lt, same_height nodes (suc h) k t u a b c d (sym e))),
  by_child t.children a.1 b.3 (λ t' a' b'. spine_ne nodes h k t' u a' b' c d (omega (arith, lt))),
)
  where
    by_child :
        (cs : List (Tall h))
        → AllOf (IsStored nodes h) cs
        → AllOf (IsShaped h) cs
        → ((t' : Tall h)
            → IsStored nodes h t'
            → IsShaped h t'
            → AllOf (λ y. id_of k u ≢ y) (spine h t'))
        → AllOf (λ y. id_of k u ≢ y) (elim cs [ [] ↦ [] | x ∷ xs ↦ spine h x ])
    by_child [] a b ih = tt
    by_child (x ∷ cs) a b ih = ih x a.0 b.0

-- Ids of a path through a tree of height `h`.
record IsPath (nodes : List Node) (h : ℕ) (ids : List NodeId) : Type 0 where
  long : length ids ≡ suc h
  distinct : Distinct ids
  bounded : AllOf (λ x. x < length nodes) ids

spine-IsPath :
    (nodes : List Node) (h : ℕ) (t : Tall h)
    → IsStored nodes h t
    → IsShaped h t
    → IsPath nodes h (spine h t)
spine-IsPath nodes zero t a b = record {
  long = refl;
  distinct = (tt, tt);
  bounded = (lt_of_get_elem? nodes t.id a, tt);
}
spine-IsPath nodes (suc h) t a b =
    by_child t.children a.1 b.1 b.3 (λ t' a' b'. spine-IsPath nodes h t' a' b')
      (λ t' a' b'. spine_ne nodes h (suc h) t' t a' b' a b (omega arith))
  where
    by_child :
        (cs : List (Tall h))
        → AllOf (IsStored nodes h) cs
        → length cs ≡ suc (length t.pivots)
        → AllOf (IsShaped h) cs
        → ((t' : Tall h) → IsStored nodes h t' → IsShaped h t' → IsPath nodes h (spine h t'))
        → ((t' : Tall h) → IsStored nodes h t' → IsShaped h t' → AllOf (λ y. t.id ≢ y) (spine h t'))
        → IsPath nodes (suc h) (t.id ∷ elim cs [ [] ↦ [] | x ∷ xs ↦ spine h x ])
    by_child [] a' m c ih ne = absurd (omega (arith, m))
    by_child (x ∷ cs) a' m c ih ne =
        let s = ih x a'.0 c.0 in
        record {
          long = ap suc s.long;
          distinct = (ne x a'.0 c.0, s.distinct);
          bounded = (lt_of_get_elem? nodes t.id a.0, s.bounded);
        }

-- The height of a stored tree is below the number of nodes.
pub lt-length-IsStored :
    (nodes : List Node) (h : ℕ) (t : Tall h) → IsStored nodes h t → IsShaped h t → h < length nodes
lt-length-IsStored nodes h t a b =
    let s = spine-IsPath nodes h t a b in
    omega (arith, length-Distinct (length nodes) (spine h t) s.distinct s.bounded, s.long)
