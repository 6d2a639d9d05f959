-- ===== src/Check/Valid.antt =====
-- Invariants I1-I7 of docs/SPEC.md for a tree as a value, and what the checks of one node say of
-- them.
use beetree.Prelude.{
  ℕ, zero, suc, ◌+◌, ◌≡◌, ◌≤◌, ◌<◌, ◌⊎◌, refl, Bool, true, false, Option, none, some, List, [], ◌∷◌,
  Ordering, arith, length, get_elem?, if◌then◌else◌, ◌==◌, ltb, AllOf, not, ◌&&◌,
}
use beetree.Key.{Key, cmp, key_le}
use beetree.Key.Order.{cmp-swap}
use beetree.BTreeMap
use beetree.BTreeMap.{BTreeMap}
use beetree.BTreeMap.Lookup.{or_else}
use beetree.BTreeMap.Sorted.{IsSorted}
use beetree.Message.{Message}
use beetree.Node.{NodeId, Node, internal, leaf, LeafEntry}
use beetree.Node.Routing.{AllPivots, IsAscending, AllPivots-beyond}
use beetree.Engine.{Params}
use beetree.Tree.View.{Tall, node_of}
use beetree.Check.Nodes.{
  NodeSource, in_range, leaf_seqs, buffer_seqs, check_keys, check_fresh, check_order,
  check_pivot_order, check_pivot_range, check_capacity, check_leaf, check_internal,
}

-- I3: older than the newest one above, if there is one.
abbrev pub IsOlder : ℕ → Option ℕ → Type 0
IsOlder seq none = Unit
IsOlder seq (some above) = seq < above

-- I1 and I3 for the keys of a node.
abbrev pub AreKeysValid : Option Key → Option Key → (Key → Option ℕ) → BTreeMap ℕ → Type 0
AreKeysValid lower upper newest [] = Unit
AreKeysValid lower upper newest ((k, s) ∷ keys) =
    (in_range k lower upper ≡ true) × IsOlder s (newest k) × AreKeysValid lower upper newest keys

-- The newest sequence number of each key on the way down, past a buffer.
abbrev pub newest_past : BTreeMap Message → (Key → Option ℕ) → Key → Option ℕ
newest_past buffer newest k = or_else (BTreeMap.get k (buffer_seqs buffer)) (newest k)

-- A predicate at every element and its index, from an index on.
abbrev pub AllAt {ℓ κ} : {A : Type ℓ} → (ℕ → A → Type κ) → ℕ → List A → Type κ
AllAt P i [] = Unit
AllAt P i (x ∷ xs) = P i x × AllAt P (suc i) xs

abbrev pub left_of : List Key → Option Key → ℕ → Option Key
left_of pivots lower zero = lower
left_of pivots lower (suc i) = get_elem? pivots i

abbrev pub right_of : List Key → Option Key → ℕ → Option Key
right_of pivots upper i = or_else (get_elem? pivots i) upper

-- A tree whose keys lie between the bounds and are older than the newest ones above. All its leaves
-- stand at one depth by its type (I6), and a buffer is a map (I4).
abbrev pub IsValid :
    Params → NodeId → (h : ℕ) → Tall h → Option Key → Option Key → (Key → Option ℕ) → Type 0
IsValid params root zero t lower upper newest =
    (length t.entries ≤ params.leaf_capacity)
    × ((1 ≤ length t.entries) ⊎ (t.id ≡ root))
    × AreKeysValid lower upper newest (leaf_seqs t.entries)
IsValid params root (suc h) t lower upper newest =
    IsAscending t.pivots
    × (length t.children ≡ length t.pivots + 1)
    × (length t.children ≤ params.fanout)
    × (length t.buffer ≤ params.buffer_capacity)
    × AllPivots (λ p. in_range p lower upper ≡ true) t.pivots
    × AreKeysValid lower upper newest (buffer_seqs t.buffer)
    × AllAt
        (λ i c.
          IsValid params root h c (left_of t.pivots lower i) (right_of t.pivots upper i)
            (newest_past t.buffer newest))
        0 t.children

or_else-none : {A : Type 0} (a b : Option A) → or_else a b ≡ none → (a ≡ none) × (b ≡ none)
or_else-none none b h = (refl, h)
or_else-none (some x) b h = cc

-- The source holds the tree.
abbrev pub IsHeld : NodeSource → (h : ℕ) → Tall h → Type 0
IsHeld src zero t = src.node t.id ≡ some (node_of zero t)
IsHeld src (suc h) t = (src.node t.id ≡ some (node_of (suc h) t)) × AllOf (IsHeld src h) t.children

-- The maps of the source's nodes are maps: their keys ascend.
abbrev pub HasSortedMaps : Node → Type 0
HasSortedMaps (leaf entries) = IsSorted entries
HasSortedMaps (internal pivots children buffer) = IsSorted buffer

abbrev pub HoldsMaps : NodeSource → Type 0
HoldsMaps src = (id : NodeId) (node : Node) → src.node id ≡ some node → HasSortedMaps node

-- A check that passed.
unless_none :
    {A : Type 0} (b : Bool) (v : A) {o : Option A}
    → (if b then some v else o) ≡ none
    → (b ≡ false) × (o ≡ none)
unless_none true v h = cc
unless_none false v h = (refl, h)

when_none :
    {A : Type 0} (b : Bool) (v : A) {o : Option A}
    → (if b then o else some v) ≡ none
    → (b ≡ true) × (o ≡ none)
when_none true v h = (refl, h)
when_none false v h = cc

check_fresh-none : (k : Key) (s : ℕ) (o : Option ℕ) → check_fresh k s o ≡ none → IsOlder s o
unfolding check_fresh
check_fresh-none k s none h = tt
check_fresh-none k s (some a) h = ground arith

pub check_keys-AreKeysValid :
    (id : NodeId) (lower upper : Option Key) (above : BTreeMap ℕ) (keys : BTreeMap ℕ)
    → check_keys id lower upper above keys ≡ none
    → AreKeysValid lower upper (λ k. BTreeMap.get k above) keys
unfolding check_keys
check_keys-AreKeysValid id lower upper above [] h = tt
check_keys-AreKeysValid id lower upper above ((k, s) ∷ keys) h =
    let passed = when_none (in_range k lower upper) _ h in
    let both =
      or_else-none (check_fresh k s (BTreeMap.get k above)) (check_keys id lower upper above keys)
        passed.1 in
    (
      passed.0,
      check_fresh-none k s (BTreeMap.get k above) both.0,
      check_keys-AreKeysValid id lower upper above keys both.1,
    )

check_order-IsAscending :
    (id : NodeId) (i : ℕ) (p : Key) (pivots : List Key)
    → check_order id i p pivots ≡ none
    → IsAscending (p ∷ pivots)
unfolding check_order
check_order-IsAscending id i p [] h = (tt, tt)
check_order-IsAscending id i p (q ∷ pivots) h =
    let passed = unless_none (key_le q p) _ h in
    let rest = check_order-IsAscending id (i + 1) q pivots passed.1 in
    let step : cmp p q ≡ Ordering.lt = ground (arith, passed.0, cmp-swap p q) in
    ((step, AllPivots-beyond p q pivots step rest.0), rest)

pub check_pivot_order-IsAscending :
    (id : NodeId) (pivots : List Key) → check_pivot_order id pivots ≡ none → IsAscending pivots
unfolding check_pivot_order
check_pivot_order-IsAscending id [] h = tt
check_pivot_order-IsAscending id (p ∷ pivots) h = check_order-IsAscending id 1 p pivots h

pub check_pivot_range-none :
    (id : NodeId) (lower upper : Option Key) (pivots : List Key)
    → check_pivot_range id lower upper pivots ≡ none
    → AllPivots (λ p. in_range p lower upper ≡ true) pivots
unfolding check_pivot_range
check_pivot_range-none id lower upper [] h = tt
check_pivot_range-none id lower upper (p ∷ pivots) h =
    let passed = when_none (in_range p lower upper) _ h in
    (passed.0, check_pivot_range-none id lower upper pivots passed.1)

-- What a leaf that passes satisfies.
pub check_leaf-none :
    (src : NodeSource) (id : NodeId) (lower upper : Option Key) (above : BTreeMap ℕ)
    (entries : BTreeMap LeafEntry)
    → check_leaf src id lower upper above entries ≡ none
    → (length entries ≤ src.params.leaf_capacity)
      × ((1 ≤ length entries) ⊎ (id ≡ src.root))
      × AreKeysValid lower upper (λ k. BTreeMap.get k above) (leaf_seqs entries)
unfolding check_leaf check_capacity
check_leaf-none src id lower upper above entries h =
    let both = or_else-none _ _ h in
    let capacity = unless_none (ltb src.params.leaf_capacity (length entries)) _ both.0 in
    let filled = unless_none (length entries == 0 && not (id == src.root)) _ both.1 in
    (
      ground (arith, capacity.0),
      ground (arith, filled.0),
      check_keys-AreKeysValid id lower upper above (leaf_seqs entries) filled.1,
    )

-- What an internal node that passes satisfies.
pub check_internal-none :
    (src : NodeSource) (id : NodeId) (lower upper : Option Key) (above : BTreeMap ℕ)
    (pivots : List Key) (children : List NodeId) (buffer : BTreeMap Message)
    → check_internal src id lower upper above pivots children buffer ≡ none
    → IsAscending pivots
      × (length children ≡ length pivots + 1)
      × (length children ≤ src.params.fanout)
      × (length buffer ≤ src.params.buffer_capacity)
      × AllPivots (λ p. in_range p lower upper ≡ true) pivots
      × AreKeysValid lower upper (λ k. BTreeMap.get k above) (buffer_seqs buffer)
unfolding check_internal check_capacity
check_internal-none src id lower upper above pivots children buffer h =
    let a = or_else-none (check_pivot_order id pivots) _ h in
    let b = when_none (length children == length pivots + 1) _ a.1 in
    let c = or_else-none _ _ b.1 in
    let d = or_else-none _ _ c.1 in
    let e = or_else-none (check_pivot_range id lower upper pivots) _ d.1 in
    let fanout = unless_none (ltb src.params.fanout (length children)) _ c.0 in
    let buffered = unless_none (ltb src.params.buffer_capacity (length buffer)) _ d.0 in
    (
      check_pivot_order-IsAscending id pivots a.0,
      ground (arith, b.0),
      ground (arith, fanout.0),
      ground (arith, buffered.0),
      check_pivot_range-none id lower upper pivots e.0,
      check_keys-AreKeysValid id lower upper above (buffer_seqs buffer) e.1,
    )
