-- ===== src/Node.antt =====
-- src/node.rs: the nodes of the tree, and the operations on their contents.
pub mod Effects
pub mod Routing
pub mod Range
pub mod Partition
use beetree.Prelude.{
  ℕ, zero, suc, ◌+◌, ◌-◌, ◌/◌, Bool, true, false, ◌&&◌, ◌||◌, Option, none, some, List, [], ◌∷◌,
  ◌++◌, leb, if◌then◌else◌,
}
use beetree.Key.{Key, key_lt, key_le, key_eq}
use beetree.BTreeMap.{BTreeMap, get, insert, remove, retain}
use beetree.Message.{Value, UpsertOp, add, apply, Message, put, delete, upsert, coalesce}

abbrev pub NodeId : Type 0
NodeId = ℕ

pub record LeafEntry : Type 0 where
  pub seq : ℕ
  pub value : Value

pub data Node : Type 0 where
  internal : List Key → List NodeId → BTreeMap Message → Node
  leaf : BTreeMap LeafEntry → Node

-- `partition_point` of a slice: the index of the first element that fails the test, in a slice
-- where no later element passes it.
unfoldable pub partition_point : (Key → Bool) → List Key → ℕ
partition_point p [] = 0
partition_point p (x ∷ xs) = if p x then suc (partition_point p xs) else 0

-- The index of the child that owns a key: a key equal to a pivot goes to the pivot's right.
unfoldable pub route : List Key → Key → ℕ
unfolding partition_point
route pivots key = partition_point (λ p. key_le p key) pivots

-- `Leaf { emptied }` and `Internal { overflowed }`.
pub data Delivery : Type 0 where
  leaf : Bool → Delivery
  internal : Bool → Delivery

pub data Outcome : Type 0 where
  splits : List (Key × NodeId) → Outcome
  removed : Outcome

-- `Option::map(|e| e.value)`.
abbrev pub entry_value : Option LeafEntry → Option Value
entry_value none = none
entry_value (some e) = some e.value

-- The `debug_assert!`s of the next two functions are no part of a release build.
unfoldable pub apply_to_leaf : BTreeMap LeafEntry → Key → Message → BTreeMap LeafEntry
apply_to_leaf entries key (put s v) = insert key (record { seq = s; value = v }) entries
apply_to_leaf entries key (delete s) = remove key entries
apply_to_leaf entries key (upsert s op) =
    let v = apply op (entry_value (get key entries)) in
    insert key (record { seq = s; value = v }) entries

unfoldable pub coalesce_into : BTreeMap Message → Key → Message → BTreeMap Message
coalesce_into buffer key message = elim (get key buffer) [
  | some older ↦ insert key (coalesce message older) buffer
  | none ↦ insert key message buffer
]

unfoldable pub apply_chain : Option ℕ → Option Value → Option Value
apply_chain none existing = existing
apply_chain (some sum) existing = some (apply (add sum) existing)

-- `std::ops::Bound<Key>`.
pub data Bound : Type 0 where
  included : Key → Bound
  excluded : Key → Bound
  unbounded : Bound

-- `a > b || (a == b && e)`, `e` telling whether one of the bounds excludes its key.
abbrev bounds_empty : Key → Key → Bool → Bool
bounds_empty a b e = key_lt b a || (key_eq a b && e)

unfoldable pub range_is_empty : Bound → Bound → Bool
range_is_empty (included a) (included b) = bounds_empty a b false
range_is_empty (included a) (excluded b) = bounds_empty a b true
range_is_empty (excluded a) (included b) = bounds_empty a b true
range_is_empty (excluded a) (excluded b) = bounds_empty a b true
range_is_empty unbounded hi = false
range_is_empty (included a) unbounded = false
range_is_empty (excluded a) unbounded = false

unfoldable pub clip_lower : Bound → Key → Bound
clip_lower (included a) pivot = if key_le pivot a then included a else included pivot
clip_lower (excluded a) pivot = if key_le pivot a then excluded a else included pivot
clip_lower unbounded pivot = included pivot

unfoldable pub clip_upper : Bound → Key → Bound
clip_upper (included b) pivot = if key_lt b pivot then included b else excluded pivot
clip_upper (excluded b) pivot = if key_lt b pivot then excluded b else excluded pivot
clip_upper unbounded pivot = excluded pivot

-- The keys that `BTreeMap::range` visits.
unfoldable pub above_lower : Bound → Key → Bool
above_lower (included a) k = key_le a k
above_lower (excluded a) k = key_lt a k
above_lower unbounded k = true

unfoldable pub below_upper : Bound → Key → Bool
below_upper (included b) k = key_le k b
below_upper (excluded b) k = key_lt k b
below_upper unbounded k = true

unfoldable pub in_bounds : Bound → Bound → Key → Bool
unfolding above_lower below_upper
in_bounds lo hi k = above_lower lo k && below_upper hi k

-- `BTreeMap::range(lo, hi)`, its entries in order.
unfoldable pub range {ℓ} : {V : Type ℓ} → Bound → Bound → BTreeMap V → BTreeMap V
unfolding in_bounds
range lo hi m = retain (in_bounds lo hi) m

-- `partition_sizes`, with fuel for its two recursive calls; `none` means that the fuel ran out.
pub sizes_append : Option (List ℕ) → Option (List ℕ) → Option (List ℕ)
sizes_append (some xs) (some ys) = some (xs ++ ys)
sizes_append _ _ = none

unfoldable pub partition_loop : ℕ → ℕ → ℕ → Option (List ℕ)
unfolding sizes_append
partition_loop zero n cap = none
partition_loop (suc f) n cap =
    let split = sizes_append (partition_loop f (n / 2) cap) (partition_loop f (n - n / 2) cap) in
    if leb n cap then some (n ∷ []) else split

-- `n + 1` rounds are enough where `cap` is positive, as `with_policy` asserts.
unfoldable pub partition_sizes : ℕ → ℕ → Option (List ℕ)
unfolding partition_loop
partition_sizes n cap = partition_loop (suc n) n cap
