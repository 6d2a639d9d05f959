-- ===== src/Check/Passes.antt =====
-- A valid node passes the checks, and its children can be pushed.
use beetree.Prelude.{
  ℕ, zero, suc, ◌+◌, ◌≡◌, ◌≤◌, ◌⊎◌, refl, true, false, Option, none, some, List, [], ◌∷◌, Ordering,
  arith, length, get_elem?, get_elem?-in_range,
}
use beetree.Key.{Key, cmp}
use beetree.Key.Order.{cmp-swap}
use beetree.BTreeMap
use beetree.BTreeMap.{BTreeMap}
use beetree.BTreeMap.Lookup.{or_else}
use beetree.Message.{Message}
use beetree.Node.{NodeId, LeafEntry, range}
use beetree.Node.Routing.{AllPivots, IsAscending}
use beetree.Check.{
  push_children, enter, Frame, child_lower, child_upper, child_overlay, starts_after, lower_bound,
  upper_bound,
}
use beetree.Check.Nodes.{
  NodeSource, in_range, leaf_seqs, buffer_seqs, check_keys, check_fresh, check_order,
  check_pivot_order, check_pivot_range, check_capacity, check_leaf, check_internal,
}
use beetree.Check.Valid.{IsOlder, AreKeysValid, left_of, right_of}
use beetree.Check.Overlay.{AllPivots-get_elem?}

check_fresh_passes : (k : Key) (s : ℕ) (o : Option ℕ) → IsOlder s o → check_fresh k s o ≡ none
unfolding check_fresh
check_fresh_passes k s none h = refl
check_fresh_passes k s (some a) h = ground arith

check_keys_passes :
    (id : NodeId) (lower upper : Option Key) (above keys : BTreeMap ℕ)
    → AreKeysValid lower upper (λ k. BTreeMap.get k above) keys
    → check_keys id lower upper above keys ≡ none
unfolding check_keys
check_keys_passes id lower upper above [] a = refl
check_keys_passes id lower upper above ((k, s) ∷ keys) a = rw (
  a.0,
  check_fresh_passes k s (BTreeMap.get k above) a.1,
  check_keys_passes id lower upper above keys a.2,
)

check_order_passes :
    (id : NodeId) (i : ℕ) (p : Key) (pivots : List Key)
    → IsAscending (p ∷ pivots)
    → check_order id i p pivots ≡ none
unfolding check_order
check_order_passes id i p [] a = refl
check_order_passes id i p (q ∷ pivots) a =
    ground (arith, check_order_passes id (i + 1) q pivots a.1, cmp-swap p q)

check_pivot_order_passes :
    (id : NodeId) (pivots : List Key) → IsAscending pivots → check_pivot_order id pivots ≡ none
unfolding check_pivot_order
check_pivot_order_passes id [] a = refl
check_pivot_order_passes id (p ∷ pivots) a = check_order_passes id 1 p pivots a

check_pivot_range_passes :
    (id : NodeId) (lower upper : Option Key) (pivots : List Key)
    → AllPivots (λ p. in_range p lower upper ≡ true) pivots
    → check_pivot_range id lower upper pivots ≡ none
unfolding check_pivot_range
check_pivot_range_passes id lower upper [] a = refl
check_pivot_range_passes id lower upper (p ∷ pivots) a =
    rw (a.0, check_pivot_range_passes id lower upper pivots a.1)

pub check_leaf_passes :
    (src : NodeSource) (id : NodeId) (lower upper : Option Key) (above : BTreeMap ℕ)
    (entries : BTreeMap LeafEntry)
    → length entries ≤ src.params.leaf_capacity
    → (1 ≤ length entries) ⊎ (id ≡ src.root)
    → AreKeysValid lower upper (λ k. BTreeMap.get k above) (leaf_seqs entries)
    → check_leaf src id lower upper above entries ≡ none
unfolding check_leaf check_capacity
check_leaf_passes src id lower upper above entries a b c =
    ground (arith, check_keys_passes id lower upper above (leaf_seqs entries) c)

pub check_internal_passes :
    (src : NodeSource) (id : NodeId) (lower upper : Option Key) (above : BTreeMap ℕ)
    (pivots : List Key) (children : List NodeId) (buffer : BTreeMap Message)
    → IsAscending pivots
    → length children ≡ length pivots + 1
    → length children ≤ src.params.fanout
    → length buffer ≤ src.params.buffer_capacity
    → AllPivots (λ p. in_range p lower upper ≡ true) pivots
    → AreKeysValid lower upper (λ k. BTreeMap.get k above) (buffer_seqs buffer)
    → check_internal src id lower upper above pivots children buffer ≡ none
unfolding check_internal check_capacity
check_internal_passes src id lower upper above pivots children buffer a b c d e k = ground (
  arith,
  check_pivot_order_passes id pivots a,
  check_pivot_range_passes id lower upper pivots e,
  check_keys_passes id lower upper above (buffer_seqs buffer) k,
)

-- The bounds of a child do not panic, and are in order.
pub child_lower-some :
    (pivots : List Key) (lower : Option Key) (i : ℕ)
    → i ≤ length pivots
    → child_lower pivots lower i ≡ some (left_of pivots lower i)
unfolding child_lower
child_lower-some pivots lower zero le = refl
child_lower-some pivots lower (suc i) le =
    let p = get_elem?-in_range pivots i (omega (arith, le)) in rw p.1

starts_after_upper :
    (p : Key) (lower upper : Option Key)
    → in_range p lower upper ≡ true
    → starts_after (some p) upper ≡ false
unfolding in_range
starts_after_upper p lower none h = refl
starts_after_upper p none (some u) h = ground (arith, cmp-swap p u)
starts_after_upper p (some l) (some u) h = ground (arith, cmp-swap p u)

starts_after_lower :
    (p : Key) (lower upper : Option Key)
    → in_range p lower upper ≡ true
    → starts_after lower (some p) ≡ false
unfolding in_range
starts_after_lower p none upper h = refl
starts_after_lower p (some l) none h = ground (arith, cmp-swap p l)
starts_after_lower p (some l) (some u) h = ground (arith, cmp-swap p l)

ascending_next :
    (pivots : List Key) (i : ℕ) {p r : Key}
    → IsAscending pivots
    → get_elem? pivots i ≡ some p
    → get_elem? pivots (suc i) ≡ some r
    → cmp p r ≡ Ordering.lt
ascending_next [] i a e k = cc
ascending_next (p ∷ []) i a e k = cc
ascending_next (p ∷ r ∷ pivots) zero a e k = ground (arith, a.0.0)
ascending_next (p ∷ r ∷ pivots) (suc i) a e k = ascending_next (r ∷ pivots) i a.1 e k

pair_in_order :
    (lower upper o next : Option Key)
    → ((p : Key) → o ≡ some p → in_range p lower upper ≡ true)
    → ((p r : Key) → o ≡ some p → next ≡ some r → cmp p r ≡ Ordering.lt)
    → starts_after o (or_else next upper) ≡ false
pair_in_order lower upper none next w a = refl
pair_in_order lower upper (some p) none w a = starts_after_upper p lower upper (w p refl)
pair_in_order lower upper (some p) (some r) w a = ground (arith, a p r refl refl, cmp-swap p r)

pub child_in_order :
    (pivots : List Key) (lower upper : Option Key) (i : ℕ)
    → IsAscending pivots
    → AllPivots (λ p. in_range p lower upper ≡ true) pivots
    → starts_after lower upper ≡ false
    → starts_after (left_of pivots lower i) (right_of pivots upper i) ≡ false
child_in_order [] lower upper zero a w h = h
child_in_order (p ∷ pivots) lower upper zero a w h = starts_after_lower p lower upper w.0
child_in_order pivots lower upper (suc i) a w h =
    pair_in_order lower upper (get_elem? pivots i) (get_elem? pivots (suc i))
      (λ p. AllPivots-get_elem? _ pivots i w) (λ p r. ascending_next pivots i a)

pub child_overlay_total :
    (lower upper : Option Key) (buffer : BTreeMap Message)
    → starts_after lower upper ≡ false
    → (overlay : BTreeMap ℕ) × (child_overlay lower upper buffer ≡ some overlay)
unfolding child_overlay
child_overlay_total lower upper buffer h =
    (buffer_seqs (range (lower_bound lower) (upper_bound upper) buffer), rw h)

-- A round of `push_children`.
pub push_children_cons :
    (pivots : List Key) (buffer : BTreeMap Message) (lower upper : Option Key) (depth i : ℕ)
    (child : NodeId) (children : List NodeId) (stack : List Frame) {lo : Option Key}
    {overlay : BTreeMap ℕ}
    → child_lower pivots lower i ≡ some lo
    → child_overlay lo (child_upper pivots upper i) buffer ≡ some overlay
    → push_children pivots buffer lower upper depth i (child ∷ children) stack
      ≡ push_children pivots buffer lower upper depth
          (suc i)
          children
          (enter child lo (child_upper pivots upper i) (depth + 1) overlay ∷ stack)
unfolding push_children
push_children_cons pivots buffer lower upper depth i child children stack e k = ground arith
