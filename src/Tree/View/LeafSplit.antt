-- ===== src/Tree/View/LeafSplit.antt =====
-- `split_leaf` on a leaf of the tree.
use mathlib.Core.List.{append_assoc}
use mathlib.Core.Path.{subst}
use beetree.Prelude.{
  ℕ, zero, suc, ◌≤◌, ◌<◌, ◌≡◌, refl, sym, ap, ◌∙◌, Bool, true, some, List, [], ◌∷◌, ◌++◌, arith,
  length, get_elem?, set, replicate, map, take, drop, AllOf, AllOf-imp, ◌>>=◌,
  get_elem?-append_left, get_elem?-append_length, length-snoc, lt_of_get_elem?, get_elem?-set_self,
  get_elem?-set_ne, length-set, get_elem?-in_range,
}
use beetree.Key.{Key}
use beetree.BTreeMap.{BTreeMap, get}
use beetree.BTreeMap.Sorted.{IsSorted}
use beetree.BTreeMap.Pieces.{
  joined, first_keys, IsNonempty, get_pieces, first_keys-IsAscending, pieces-IsSorted,
  IsSorted-right,
}
use beetree.Node.{NodeId, Node, leaf, LeafEntry, route, partition_sizes, entry_value}
use beetree.Node.Routing.{IsAscending}
use beetree.Node.Partition.{sum, AllWithin, partition_sizes_total}
use beetree.Tree.Arena.{BeTree, mark_dirty, set_node}
use beetree.Tree.Split.{pieces_of, split_leaf}
use beetree.Tree.Split.Leaf.{Fits, joined-pieces_of, promoted_from, alloc_leaves_lem}
use beetree.Tree.View.{Bottom, id_of, IsStored, value, forest_value, IsSplit}

-- New leaves whose ids count from `n`.
abbrev tops_from : ℕ → List (BTreeMap LeafEntry) → List Bottom
tops_from n [] = []
tops_from n (m ∷ ms) = record { id = n; entries = m } ∷ tops_from (suc n) ms

ids-tops_from :
    (n : ℕ) (ms : List (BTreeMap LeafEntry))
    → AllOf IsNonempty ms
    → map (id_of zero) (tops_from n ms) ≡ map (λ p. p.1) (promoted_from n ms)
ids-tops_from n [] full = refl
ids-tops_from n ([] ∷ ms) full = absurd full.0
ids-tops_from n (((k, e) ∷ m) ∷ ms) full = ap (λ l. n ∷ l) (ids-tops_from (suc n) ms full.1)

keys-promoted_from :
    (n : ℕ) (ms : List (BTreeMap LeafEntry)) → map (λ p. p.0) (promoted_from n ms) ≡ first_keys ms
keys-promoted_from n [] = refl
keys-promoted_from n ([] ∷ ms) = keys-promoted_from n ms
keys-promoted_from n (((k, e) ∷ m) ∷ ms) = ap (λ l. k ∷ l) (keys-promoted_from (suc n) ms)

tops_from-IsStored :
    (ms : List (BTreeMap LeafEntry)) (before nodes : List Node)
    → nodes ≡ before ++ map leaf ms
    → AllOf (IsStored nodes zero) (tops_from (length before) ms)
tops_from-IsStored [] before nodes e = tt
tops_from-IsStored (m ∷ ms) before nodes e = (
  ap (λ l. get_elem? l (length before)) e ∙ get_elem?-append_length before (leaf m) (map leaf ms),
  subst (λ n. AllOf (IsStored nodes zero) (tops_from n ms)) (length-snoc before (leaf m))
      (tops_from-IsStored ms (before ++ leaf m ∷ []) nodes
        (e ∙ sym (append_assoc before (leaf m ∷ []) (map leaf ms)))),
)

AllOf-tops_from :
    (P : BTreeMap LeafEntry → Type 0) (n : ℕ) (ms : List (BTreeMap LeafEntry))
    → AllOf P ms
    → AllOf (λ (t : Bottom). P t.entries) (tops_from n ms)
AllOf-tops_from P n [] a = tt
AllOf-tops_from P n (m ∷ ms) a = (a.0, AllOf-tops_from P (suc n) ms a.1)

value-tops_from :
    (k : Key) (n i : ℕ) (ms : List (BTreeMap LeafEntry))
    → (get_elem? (tops_from n ms) i >>= λ c. value zero c k)
      ≡ entry_value (get_elem? ms i >>= get k)
unfolding value
value-tops_from k n i [] = refl
value-tops_from k n zero (m ∷ ms) = refl
value-tops_from k n (suc i) (m ∷ ms) = value-tops_from k (suc n) i ms

value-first :
    (k : Key) (n i : ℕ) (c : Bottom) (ms : List (BTreeMap LeafEntry))
    → (get_elem? (c ∷ tops_from n ms) i >>= λ d. value zero d k)
      ≡ entry_value (get_elem? (c.entries ∷ ms) i >>= get k)
unfolding value
value-first k n zero c ms = refl
value-first k n (suc i) c ms = value-tops_from k n i ms

value_leaf : (t : Bottom) (k : Key) → value zero t k ≡ entry_value (get k t.entries)
unfolding value
value_leaf t k = refl

within_of_Fits :
    (limit : ℕ) (m : BTreeMap LeafEntry) → Fits limit m → (1 ≤ length m) × (length m ≤ limit)
within_of_Fits limit [] f = absurd f.0
within_of_Fits limit (e ∷ m) f = (omega arith, f.1)

mark_dirty_lem :
    {P : Type 0} (id : NodeId) (s : BeTree P)
    → id < length s.dirty
    → mark_dirty id s ≡ some (record s { dirty = set s.dirty id true })
unfolding mark_dirty
mark_dirty_lem id s h = at_flag (get_elem?-in_range s.dirty id h)
  where
    at_flag :
        (b : Bool) × (get_elem? s.dirty id ≡ some b)
        → mark_dirty id s ≡ some (record s { dirty = set s.dirty id true })
    at_flag (b, e) = rw (e, mark_dirty)

-- The arena after the split: the first piece in the node's place, the others at the end.
abbrev split_nodes : List Node → NodeId → BTreeMap LeafEntry → List (BTreeMap LeafEntry) → List Node
split_nodes nodes id m ms = set nodes id (leaf m) ++ map leaf ms

module _ {P : Type 0} (s : BeTree P) (t : Bottom) where
  -- What the split makes of the pieces.
  pieces-IsSplit :
      (m : BTreeMap LeafEntry) (ms : List (BTreeMap LeafEntry)) (s' : BeTree P)
      → IsStored s.nodes zero t
      → IsSorted t.entries
      → joined (m ∷ ms) ≡ t.entries
      → AllOf (Fits s.params.leaf_capacity) (m ∷ ms)
      → s'.nodes ≡ split_nodes s.nodes t.id m ms
      → IsSplit zero t s s' (promoted_from (length s.nodes) ms)
  pieces-IsSplit m ms s' st so j f e =
      let n = length s.nodes in
      let full : AllOf IsNonempty ms = AllOf-imp (λ a w. w.0) ms f.1 in
      let sorted : IsSorted (m ++ joined ms) = subst IsSorted (sym j) so in
      let at : t.id < n = lt_of_get_elem? s.nodes t.id st in
      let same_length : length (set s.nodes t.id (leaf m)) ≡ n = length-set s.nodes t.id (leaf m) in
      record {
        first = record { id = t.id; entries = m };
        rest = tops_from n ms;
        keeps_id = refl;
        promoted_ids = ids-tops_from n ms full;
        stored = (
          ap (λ l. get_elem? l t.id) e
              ∙ get_elem?-append_left (set s.nodes t.id (leaf m)) (map leaf ms) t.id (omega arith)
              ∙ get_elem?-set_self s.nodes t.id (leaf m) at,
          subst (λ k. AllOf (IsStored s'.nodes zero) (tops_from k ms)) same_length
              (tops_from-IsStored ms (set s.nodes t.id (leaf m)) s'.nodes e),
        );
        shaped = (
          (pieces-IsSorted (m ∷ ms) sorted).0,
          AllOf-tops_from IsSorted n ms (pieces-IsSorted (m ∷ ms) sorted).1,
        );
        within = (
          within_of_Fits s.params.leaf_capacity m f.0,
          AllOf-tops_from (λ a. (1 ≤ length a) × (length a ≤ s.params.leaf_capacity)) n ms
              (AllOf-imp (within_of_Fits s.params.leaf_capacity) ms f.1),
        );
        ascending =
            subst IsAscending (sym (keys-promoted_from n ms))
              (first_keys-IsAscending ms (IsSorted-right m (joined ms) sorted));
        same_value = λ k.
            ap (λ ps. forest_value zero ps (record { id = t.id; entries = m } ∷ tops_from n ms) k)
              (keys-promoted_from n ms)
            ∙ value-first k n (route (first_keys ms) k) (record { id = t.id; entries = m }) ms
            ∙ ap entry_value (sym (get_pieces k m ms full sorted) ∙ ap (get k) j)
            ∙ sym (value_leaf t k);
        unchanged = λ i lt ne.
            ap (λ l. get_elem? l i) e
            ∙ get_elem?-append_left (set s.nodes t.id (leaf m)) (map leaf ms) i (omega arith)
            ∙ get_elem?-set_ne s.nodes (leaf m) (λ h. ne (sym h));
      }

  -- The tree after the split into `m` and `ms`.
  abbrev after_split : BTreeMap LeafEntry → List (BTreeMap LeafEntry) → BeTree P
  after_split m ms = record s {
    nodes = split_nodes s.nodes t.id m ms;
    dirty = set s.dirty t.id true ++ replicate (length ms) true;
  }

  split_leaf_lem :
      (size : ℕ) (sizes : List ℕ)
      → t.id < length s.dirty
      → partition_sizes (length t.entries) s.params.leaf_capacity ≡ some (size ∷ sizes)
      → AllOf IsNonempty (pieces_of sizes (drop size t.entries))
      → let ms = pieces_of sizes (drop size t.entries) in
        split_leaf t.id t.entries s
        ≡ some (promoted_from (length s.nodes) ms, after_split (take size t.entries) ms)
  unfolding split_leaf pieces_of set_node
  split_leaf_lem size sizes d e full =
      let ms = pieces_of sizes (drop size t.entries) in
      let m : BTreeMap LeafEntry = take size t.entries in
      let s' : BeTree P = record s { dirty = set s.dirty t.id true } in
      rw (mark_dirty_lem t.id s d, e)
        (alloc_leaves_lem ms (set_node t.id (leaf m) s') full
          ∙ ap (λ n. some (promoted_from n ms, after_split m ms))
              (length-set s.nodes t.id (leaf m)))

  sizes-IsSplit :
      (sizes : List ℕ)
      → t.id < length s.dirty
      → partition_sizes (length t.entries) s.params.leaf_capacity ≡ some sizes
      → AllWithin s.params.leaf_capacity sizes
      → sum sizes ≡ length t.entries
      → 1 ≤ length t.entries
      → IsStored s.nodes zero t
      → IsSorted t.entries
      → (promoted : List (Key × NodeId)) × (s' : BeTree P) × (split_leaf t.id t.entries s
          ≡ some (promoted, s'))
        × IsSplit zero t s s' promoted
  unfolding pieces_of
  sizes-IsSplit [] d e w h pos st so = absurd (omega arith)
  sizes-IsSplit (size ∷ sizes) d e w h pos st so =
      let m : BTreeMap LeafEntry = take size t.entries in
      let ms = pieces_of sizes (drop size t.entries) in
      let (j, f) = joined-pieces_of s.params.leaf_capacity (size ∷ sizes) t.entries w h in
      (
        promoted_from (length s.nodes) ms,
        after_split m ms,
        split_leaf_lem size sizes d e (AllOf-imp (λ a x. x.0) ms f.1),
        pieces-IsSplit m ms (after_split m ms) st so j f refl,
      )

  -- A stored leaf with entries splits, under a positive capacity: the pieces fit and are not
  -- empty, each key keeps its value in the piece that the new pivots route it to, and no other
  -- node changes.
  pub split_leaf-IsSplit :
      1 ≤ s.params.leaf_capacity
      → 1 ≤ length t.entries
      → t.id < length s.dirty
      → IsStored s.nodes zero t
      → IsSorted t.entries
      → (promoted : List (Key × NodeId)) × (s' : BeTree P) × (split_leaf t.id t.entries s
          ≡ some (promoted, s'))
        × IsSplit zero t s s' promoted
  split_leaf-IsSplit cap_pos pos d st so =
      let (sizes, e, h, w) =
        partition_sizes_total (length t.entries) s.params.leaf_capacity cap_pos pos in
      sizes-IsSplit sizes d e w h pos st so
