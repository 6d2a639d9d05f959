-- ===== src/Tree/Scan.antt =====
-- src/betree.rs: `scan`, bottom-up over explicit frames.
use beetree.Prelude.{
  ℕ, zero, suc, ◌+◌, ◌==◌, Option, none, some, List, [], ◌∷◌, length, get_elem?, if◌then◌else◌,
  ◌>>=◌, map,
}
use beetree.Key.{Key}
use beetree.BTreeMap.{BTreeMap, insert, remove, append}
use beetree.BTreeMap
use beetree.Message.{Value, apply, Message, put, delete, upsert}
use beetree.Node.{
  NodeId, Node, internal, leaf, LeafEntry, Bound, range_is_empty, range, clip_lower, clip_upper,
}
use beetree.Trace.{record_scan}
use beetree.Tree.Arena.{BeTree, node_at}

pub record Frame : Type 0 where
  pub id : NodeId
  pub lo : Bound
  pub hi : Bound
  pub next_child : ℕ
  pub acc : BTreeMap Value

-- `entries.range(..).map(|(k, e)| (k, e.value))`.
unfoldable pub values_in : Bound → Bound → BTreeMap LeafEntry → BTreeMap Value
values_in lo hi entries = map (λ p. (p.0, p.1.value)) (range lo hi entries)

-- One buffered message over the results from below.
unfoldable pub fold_message : Key → Message → BTreeMap Value → BTreeMap Value
fold_message k (put s value) acc = insert k value acc
fold_message k (delete s) acc = remove k acc
fold_message k (upsert s op) acc = let value = apply op (BTreeMap.get k acc) in insert k value acc

unfoldable pub fold_messages : BTreeMap Message → BTreeMap Value → BTreeMap Value
unfolding fold_message
fold_messages [] acc = acc
fold_messages ((k, message) ∷ buffer) acc = fold_messages buffer (fold_message k message acc)

-- The bounds of child i: those of its node, clipped to the pivots at its sides.
unfoldable pub child_lower : Bound → List Key → ℕ → Option Bound
child_lower lo pivots zero = some lo
child_lower lo pivots (suc i) = do pivot ← get_elem? pivots i; some (clip_lower lo pivot)

unfoldable pub child_upper : Bound → List Key → ℕ → Option Bound
child_upper hi pivots i =
    if i == length pivots
    then some hi
    else (do pivot ← get_elem? pivots i; some (clip_upper hi pivot))

-- Another round with this stack, top first, or the results.
pub data Progress : Type 0 where
  again : List Frame → Progress
  done : BTreeMap Value → Progress

-- A finished frame hands its results to the one below it.
unfoldable pub hand_down : BTreeMap Value → List Frame → Progress
hand_down acc [] = Progress.done acc
hand_down acc (parent ∷ rest) =
    Progress.again (record parent { acc = append parent.acc acc } ∷ rest)

-- The next child: skipped, folded in place where it is a leaf, or visited by a frame of its own.
unfoldable pub visit_child :
    NodeId → Option Node → Bound → Bound → Frame → List Frame → Option Progress
unfolding values_in
visit_child child none c_lo c_hi frame rest = none
visit_child child (some (leaf entries)) c_lo c_hi frame rest =
    some (
      Progress.again (record frame { acc = append frame.acc (values_in c_lo c_hi entries) } ∷ rest))
visit_child child (some (internal pivots children buffer)) c_lo c_hi frame rest = some (
    Progress.again
      (record { id = child; lo = c_lo; hi = c_hi; next_child = 0; acc = [] } ∷ frame ∷ rest))

unfoldable pub scan_round : List Node → List Frame → Option Progress
unfolding fold_messages child_lower child_upper hand_down visit_child
scan_round nodes [] = none
scan_round nodes (frame ∷ rest) = elim (get_elem? nodes frame.id) [
  | none ↦ none
  | some (leaf entries) ↦ none
  | some (internal pivots children buffer) ↦ elim (get_elem? children frame.next_child) [
    | none ↦ some (hand_down (fold_messages (range frame.lo frame.hi buffer) frame.acc) rest)
    | some child ↦ (do
      c_lo ← child_lower frame.lo pivots frame.next_child
      c_hi ← child_upper frame.hi pivots frame.next_child
      let frame' : Frame = record frame { next_child = frame.next_child + 1 }
      if range_is_empty c_lo c_hi
          then some (Progress.again (frame' ∷ rest))
          else visit_child child (get_elem? nodes child) c_lo c_hi frame' rest)
  ]
]

unfoldable pub scan_loop : ℕ → List Node → List Frame → Option (BTreeMap Value)
unfolding scan_round
scan_loop zero nodes stack = none
scan_loop (suc f) nodes stack = elim (scan_round nodes stack) [
  | none ↦ none
  | some (Progress.done acc) ↦ some acc
  | some (Progress.again stack') ↦ scan_loop f nodes stack'
]

-- The results at a root that is a leaf, or else by the frames.
unfoldable pub scan_root :
    ℕ → List Node → NodeId → Option Node → Bound → Bound → Option (BTreeMap Value)
unfolding scan_loop values_in
scan_root fuel nodes root none lo hi = none
scan_root fuel nodes root (some (leaf entries)) lo hi = some (values_in lo hi entries)
scan_root fuel nodes root (some (internal pivots children buffer)) lo hi =
    scan_loop fuel nodes (record { id = root; lo = lo; hi = hi; next_child = 0; acc = [] } ∷ [])

unfoldable pub scan :
    {P : Type 0} → ℕ → Bound → Bound → BeTree P → Option (List (Key × Value) × BeTree P)
unfolding scan_root
scan fuel lo hi s =
    let s' = record s { trace = record_scan lo hi s.trace } in
    let found = scan_root fuel s.nodes s.root (node_at s s.root) lo hi in
    if range_is_empty lo hi then some ([], s') else (do items ← found; some (items, s'))
