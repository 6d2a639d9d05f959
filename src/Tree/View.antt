-- ===== src/Tree/View.antt =====
-- The tree that a part of the arena holds, as a value: a family indexed by the height, so that all
-- leaves stand at one depth. It carries the ids of its nodes.
pub mod Lookup
pub mod LeafSplit
use beetree.Prelude.{
  ℕ, zero, suc, ◌≡◌, Bool, Option, none, some, List, [], ◌∷◌, length, get_elem?, map, AllOf, ◌>>=◌,
  ◌≤◌, ◌≢◌, ◌<◌,
}
use beetree.Key.{Key}
use beetree.BTreeMap
use beetree.BTreeMap.{BTreeMap}
use beetree.BTreeMap.Sorted.{IsSorted}
use beetree.Message.{Value, Message}
use beetree.Message.Algebra.{act_on}
use beetree.Node.{NodeId, Node, internal, leaf, LeafEntry, route}
use beetree.Node.Effects.{leaf_value}
use beetree.Node.Routing.{IsAscending}
use beetree.Engine.{Params}
use beetree.Tree.Arena.{BeTree}

pub record Bottom : Type 0 where
  pub id : NodeId
  pub entries : BTreeMap LeafEntry

pub record Branch (C : Type 0) : Type 0 where
  pub id : NodeId
  pub pivots : List Key
  pub children : List C
  pub buffer : BTreeMap Message

abbrev pub Tall : ℕ → Type 0
Tall zero = Bottom
Tall (suc h) = Branch (Tall h)

abbrev pub id_of : (h : ℕ) → Tall h → NodeId
id_of zero t = t.id
id_of (suc h) t = t.id

-- The node that the arena holds for the top of a tree.
abbrev pub node_of : (h : ℕ) → Tall h → Node
node_of zero t = leaf t.entries
node_of (suc h) t = internal t.pivots (map (id_of h) t.children) t.buffer

-- The arena holds the tree.
abbrev pub IsStored : List Node → (h : ℕ) → Tall h → Type 0
IsStored nodes zero t = get_elem? nodes t.id ≡ some (node_of zero t)
IsStored nodes (suc h) t =
    (get_elem? nodes t.id ≡ some (node_of (suc h) t)) × AllOf (IsStored nodes h) t.children

-- Sorted maps, ascending pivots, and one child more than pivots.
abbrev pub IsShaped : (h : ℕ) → Tall h → Type 0
IsShaped zero t = IsSorted t.entries
IsShaped (suc h) t =
    IsAscending t.pivots
    × (length t.children ≡ suc (length t.pivots))
    × IsSorted t.buffer
    × AllOf (IsShaped h) t.children

-- The value of a key: the messages on the way to its leaf act on the leaf's entry, from the leaf up
-- (docs/SPEC.md, "Reads").
unfoldable pub value : (h : ℕ) → Tall h → Key → Option Value
value zero t k = leaf_value k t.entries
value (suc h) t k =
    act_on (BTreeMap.get k t.buffer) (get_elem? t.children (route t.pivots k) >>= λ c. value h c k)

-- The arena of a tree holds a shaped tree at its root, with a node for each level and more.
pub record IsTree {P : Type 0} (s : BeTree P) : Type 0 where
  pub height : ℕ
  pub tree : Tall height
  pub at_root : id_of height tree ≡ s.root
  pub stored : IsStored s.nodes height tree
  pub shaped : IsShaped height tree
  pub tall : height < length s.nodes

-- The capacities of the top of a tree (invariants I5 and I7).
abbrev pub IsWithin : Params → (h : ℕ) → Tall h → Type 0
IsWithin params zero t = (1 ≤ length t.entries) × (length t.entries ≤ params.leaf_capacity)
IsWithin params (suc h) t = (1 ≤ length t.children) × (length t.children ≤ params.fanout)

-- The value of a key among trees that stand between pivots.
abbrev pub forest_value : (h : ℕ) → List Key → List (Tall h) → Key → Option Value
forest_value h pivots trees k = get_elem? trees (route pivots k) >>= λ c. value h c k

-- What a split of the top of `t` leaves: the node keeps the first piece, the promoted pairs name
-- the others, every piece fits, every key keeps its value, and no other node has changed.
pub record IsSplit {P : Type 0} (h : ℕ) (t : Tall h) (s s' : BeTree P)
    (promoted : List (Key × NodeId)) : Type 0 where
  pub first : Tall h
  pub rest : List (Tall h)
  pub keeps_id : id_of h first ≡ id_of h t
  pub promoted_ids : map (id_of h) rest ≡ map (λ p. p.1) promoted
  pub stored : AllOf (IsStored s'.nodes h) (first ∷ rest)
  pub shaped : AllOf (IsShaped h) (first ∷ rest)
  pub within : AllOf (IsWithin s.params h) (first ∷ rest)
  pub ascending : IsAscending (map (λ p. p.0) promoted)
  pub same_value :
      (k : Key) → forest_value h (map (λ p. p.0) promoted) (first ∷ rest) k ≡ value h t k
  pub unchanged :
      (i : ℕ) → i < length s.nodes → i ≢ id_of h t → get_elem? s'.nodes i ≡ get_elem? s.nodes i
