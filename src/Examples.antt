-- ===== src/Examples.antt =====
-- Concrete inputs at which the theorems apply, and test runs.
pub mod Check
pub mod Codec
pub mod Crash
pub mod Disk
pub mod Failure
pub mod Mirror
pub mod Poison
pub mod Records
pub mod Removal
pub mod Resident
pub mod Resumed
use beetree.Prelude.{
  ℕ, zero, suc, get_elem?, ◌≡◌, refl, ◌==◌, ◌&&◌, true, false, none, some, List, [], ◌∷◌, arith,
  length,
}
use beetree.Key.{Key, cmp, key_le, key_lt}
use beetree.BTreeMap
use beetree.BTreeMap.{BTreeMap}
use beetree.BTreeMap.Sorted.{IsSorted}
use beetree.Message.{add, Message, put, delete, upsert, coalesce}
use beetree.Message.Algebra.{act, act_on, act-coalesce}
use beetree.Node.{
  partition_point, NodeId, LeafEntry, included, excluded, unbounded, route, partition_sizes,
  range_is_empty, in_bounds, clip_lower, clip_upper,
}
use beetree.Node.Effects.{leaf_value}
use beetree.Node.Routing.{IsAscending, owns, owns_iff_route}
use beetree.Node.Range.{range_is_empty_sound, in_bounds-clip}
use beetree.Node.Partition.{sum, AllWithin, partition_sizes_total}
use beetree.Engine.{default_params}
use beetree.Policy.{pick}
use beetree.Policy.Greedy.{IsFirstMax, pick-IsFirstMax}
use beetree.Trace.{OpKind2, replay2, default, record_get}
use beetree.Naive.{NaiveEngine, new, naive}
use beetree.Tree.Arena.{BeTree}
use beetree.Tree.Get.{get}
use beetree.Tree.Split.{split_leaf, hang_splits}
use beetree.Tree.Split.Hang.{IsInGap, spread, hang_splits-route}
use beetree.Tree.View.{Bottom, Branch, node_of, value, IsTree, IsSplit}
use beetree.Tree.View.Lookup.{get-value}
use beetree.Tree.View.LeafSplit.{split_leaf-IsSplit}
use beetree.Naive.Faithful.{Call, run, replay2_faithful}
use beetree.Tree.Flush.{deliver_leaf, deliver_buffer}
use beetree.Tree.Flush.Extraction.{IsExtracted, extract-IsExtracted}
use beetree.Tree.Flush.Delivered.{leaf_value-deliver_leaf, act_on-deliver_buffer}

abbrev pub key : ℕ → Key
key n = n ∷ []

abbrev pivots : List Key
pivots = key 10 ∷ key 20 ∷ key 30 ∷ []

abbrev batch : BTreeMap Message
batch = (key 5, put 1 (7 ∷ [])) ∷ (key 15, delete 2) ∷ (key 20, upsert 3 (add 4)) ∷ []

pivots-IsAscending : IsAscending pivots
unfolding cmp
pivots-IsAscending = ((refl, (refl, tt)), ((refl, tt), (tt, tt)))

batch-IsSorted : IsSorted batch
unfolding cmp
batch-IsSorted = ((refl, (refl, tt)), ((refl, tt), (tt, tt)))

extract-IsExtracted_example : IsExtracted pivots 2 batch
extract-IsExtracted_example =
    extract-IsExtracted pivots 2 batch pivots-IsAscending (omega arith) batch-IsSorted

leaf_value-deliver_leaf_example :
    leaf_value (key 20) (deliver_leaf [] batch)
    ≡ act_on (BTreeMap.get (key 20) batch) (leaf_value (key 20) [])
leaf_value-deliver_leaf_example = leaf_value-deliver_leaf (key 20) batch [] batch-IsSorted

act_on-deliver_buffer_example :
    act_on (BTreeMap.get (key 20) (deliver_buffer ((key 20, put 0 (1 ∷ [])) ∷ []) batch)) none
    ≡ act_on
        (BTreeMap.get (key 20) batch)
        (act_on (BTreeMap.get (key 20) ((key 20, put 0 (1 ∷ [])) ∷ [])) none)
act_on-deliver_buffer_example =
    act_on-deliver_buffer (key 20) batch ((key 20, put 0 (1 ∷ [])) ∷ []) none batch-IsSorted

act-coalesce_example :
    act (coalesce (upsert 2 (add 5)) (upsert 1 (add 10))) none
    ≡ act (upsert 2 (add 5)) (act (upsert 1 (add 10)) none)
act-coalesce_example = act-coalesce (upsert 2 (add 5)) (upsert 1 (add 10)) none

owns_iff_route_example : owns pivots 2 (key 20) ≡ (route pivots (key 20) == 2)
owns_iff_route_example = owns_iff_route pivots (key 20) 2 pivots-IsAscending

partition_sizes_total_example :
    (sizes : List ℕ) × (partition_sizes 17 4 ≡ some sizes) × (sum sizes ≡ 17) × AllWithin 4 sizes
partition_sizes_total_example = partition_sizes_total 17 4 (omega arith) (omega arith)

abbrev counts : List ℕ
counts = 1 ∷ 5 ∷ 2 ∷ 5 ∷ []

pick-IsFirstMax_example : IsFirstMax counts (length counts) (pick counts)
pick-IsFirstMax_example = pick-IsFirstMax counts

range_is_empty_sound_example : in_bounds (excluded (key 3)) (included (key 3)) (key 3) ≡ false
unfolding range_is_empty cmp
range_is_empty_sound_example =
    range_is_empty_sound (excluded (key 3)) (included (key 3)) (key 3) refl

in_bounds-clip_example :
    in_bounds (clip_lower unbounded (key 10)) (clip_upper (included (key 15)) (key 20)) (key 15) ≡ (
      in_bounds unbounded (included (key 15)) (key 15)
      && key_le (key 10) (key 15)
      && key_lt (key 15) (key 20))
in_bounds-clip_example = in_bounds-clip unbounded (included (key 15)) (key 10) (key 20) (key 15)

abbrev calls : List Call
calls =
    Call.write (OpKind2.insert (key 1) (9 ∷ []))
    ∷ Call.get (key 1)
    ∷ Call.write (OpKind2.upsert (key 2) (add 3))
    ∷ Call.scan unbounded unbounded
    ∷ Call.write (OpKind2.delete (key 1))
    ∷ []

replay2_faithful_example :
    (r : NaiveEngine) × (replay2 naive default_params (run calls (new default_params)).trace.v2
      ≡ some r)
    × (r.map ≡ (run calls (new default_params)).map)
    × (r.next_seq ≡ (run calls (new default_params)).next_seq)
replay2_faithful_example = replay2_faithful default_params calls

-- A tree of two leaves under a root that buffers an upsert.
abbrev pub entry : ℕ → ℕ → LeafEntry
entry n v = record { seq = n; value = v ∷ [] }

abbrev pub left_leaf : Bottom
left_leaf = record { id = 0; entries = (key 3, entry 1 30) ∷ (key 5, entry 2 50) ∷ [] }

abbrev pub right_leaf : Bottom
right_leaf = record { id = 1; entries = (key 12, entry 3 120) ∷ [] }

abbrev pub top : Branch Bottom
top = record {
  id = 2;
  pivots = key 10 ∷ [];
  children = left_leaf ∷ right_leaf ∷ [];
  buffer = (key 12, upsert 4 (add 7)) ∷ [];
}

abbrev pub small : BeTree (Unit {0})
small = record {
  params = default_params;
  nodes = node_of zero left_leaf ∷ node_of zero right_leaf ∷ node_of 1 top ∷ [];
  dirty = true ∷ true ∷ true ∷ [];
  root = 2;
  next_seq = 4;
  ops_since_commit = 4;
  policy = tt;
  trace = default;
}

small-IsTree : IsTree small
unfolding cmp
small-IsTree = record {
  height = 1;
  tree = top;
  at_root = refl;
  stored = (refl, (refl, (refl, tt)));
  shaped = ((tt, tt), refl, (tt, tt), (((refl, tt), (tt, tt)), ((tt, tt), tt)));
  tall = omega arith;
}

get-value_example :
    get (key 12) small
    ≡ some (
      value small-IsTree.height small-IsTree.tree (key 12),
      record small { trace = record_get (key 12) small.trace },
    )
get-value_example = get-value small (key 12) small-IsTree

abbrev narrow : BeTree (Unit {0})
narrow = record small { params = record { fanout = 2; buffer_capacity = 1; leaf_capacity = 1 } }

left_leaf-IsSorted : IsSorted left_leaf.entries
unfolding cmp
left_leaf-IsSorted = ((refl, tt), (tt, tt))

split_leaf-IsSplit_example :
    (promoted : List (Key × NodeId)) × (s' : BeTree (Unit {0})) × (split_leaf 0 left_leaf.entries
        narrow
      ≡ some (promoted, s'))
    × IsSplit zero left_leaf narrow s' promoted
split_leaf-IsSplit_example =
    split_leaf-IsSplit narrow left_leaf (omega arith) (omega arith) (omega arith) refl
      left_leaf-IsSorted

-- The second child was split at 12 and 15.
abbrev pieces : List (Key × NodeId)
pieces = (key 12, 7) ∷ (key 15, 8) ∷ []

pieces-IsInGap : IsInGap 1 pivots pieces
unfolding partition_point cmp
pieces-IsInGap = (refl, (refl, tt))

pieces-IsAscending : IsAscending (key 12 ∷ key 15 ∷ [])
unfolding cmp
pieces-IsAscending = ((refl, tt), (tt, tt))

hang_splits-route_example :
    (pivots' : List Key) × (children' : List NodeId) × (hang_splits pieces pivots
        (1 ∷ 2 ∷ 3 ∷ 4 ∷ [])
      ≡ some (pivots', children'))
    × (length children' ≡ suc (length pivots'))
    × ((k : Key)
        → get_elem? children' (route pivots' k) ≡ spread 1 2 pieces pivots (1 ∷ 2 ∷ 3 ∷ 4 ∷ []) k)
hang_splits-route_example =
    hang_splits-route pieces 1 2 pivots (1 ∷ 2 ∷ 3 ∷ 4 ∷ []) pieces-IsAscending pieces-IsInGap refl
      refl
