-- ===== src/Tree/Get.antt =====
-- src/betree.rs: `get`, the walk from the root to a leaf that gathers the pending upserts.
use beetree.Prelude.{ℕ, zero, suc, Option, none, some, List, length, get_elem?, ◌>>=◌}
use beetree.Bytes.{wrapping_add}
use beetree.Key.{Key}
use beetree.BTreeMap
use beetree.BTreeMap.{BTreeMap}
use beetree.Message.{Value, add, Message, put, delete, upsert}
use beetree.Node.{NodeId, Node, internal, leaf, entry_value, route, apply_chain}
use beetree.Trace.{record_get}
use beetree.Tree.Arena.{BeTree}

-- `chain.unwrap_or(0).wrapping_add(delta)`.
unfoldable pub chain_add : Option ℕ → ℕ → ℕ
chain_add none delta = wrapping_add 0 delta
chain_add (some sum) delta = wrapping_add sum delta

-- What the buffered message of the key does to the walk.
pub data Step : Type 0 where
  stop : Option Value → Step
  walk : Option ℕ → Step

unfoldable pub at_buffer : Option ℕ → Option Message → Step
unfolding chain_add
at_buffer chain none = Step.walk chain
at_buffer chain (some (put s value)) = Step.stop (apply_chain chain (some value))
at_buffer chain (some (delete s)) = Step.stop (apply_chain chain none)
at_buffer chain (some (upsert s (add delta))) = Step.walk (some (chain_add chain delta))

-- The walk from a node on, a round of fuel for each level; `none` also where an index is out of
-- range.
unfoldable pub get_loop : ℕ → List Node → Key → Option ℕ → NodeId → Option (Option Value)
unfolding at_buffer
get_loop zero nodes key chain id = none
get_loop (suc f) nodes key chain id = elim (get_elem? nodes id) [
  | none ↦ none
  | some (leaf entries) ↦ some (apply_chain chain (entry_value (BTreeMap.get key entries)))
  | some (internal pivots children buffer) ↦ elim (at_buffer chain (BTreeMap.get key buffer)) [
    | Step.stop value ↦ some value
    | Step.walk chain' ↦ elim (get_elem? children (route pivots key)) [
      | none ↦ none
      | some child ↦ get_loop f nodes key chain' child
    ]
  ]
]

-- A walk through a tree visits no node twice, so a round for each node is enough.
unfoldable pub get : {P : Type 0} → Key → BeTree P → Option (Option Value × BeTree P)
unfolding get_loop
get key s = do
  value ← get_loop (length s.nodes) s.nodes key none s.root
  some (value, record s { trace = record_get key s.trace })
