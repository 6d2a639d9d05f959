-- ===== src/Disk/Mirror.antt =====
-- src/disk.rs against src/betree.rs: an engine in memory and a tree of the same nodes.
pub mod Relation
pub mod Steps
pub mod Slots
pub mod Pieces
pub mod Split
pub mod Flush
pub mod Pick
pub mod Cascade
pub mod Loop
pub mod Root
pub mod Write
pub mod Runs
use beetree.Prelude.{
  ℕ, zero, suc, ◌+◌, ◌≡◌, ◌≢◌, ◌<◌, ◌⊎◌, inl, inr, refl, sym, ap, ◌∙◌, Bool-cases, ◌==◌, Bool, true,
  Option, none, some, List, [], ◌∷◌, ◌++◌, arith, length, get_elem?, set, length-set, length-snoc,
  get_elem?-set_self, get_elem?-set_ne, get_elem?-append_left, get_elem?-append_length,
  get_elem?-in_range, lt_of_get_elem?, some_inj, bind_some, ◌>>=◌,
}
use mathlib.Core.Path.{subst}
use beetree.Node.{NodeId, Node}
use beetree.Tree.Arena.{BeTree, node_at, set_node, mark_dirty, alloc}
use beetree.Vfs.Counting.{Vfs}
use beetree.Format.{Codec}
use beetree.Disk.{DiskEngine, DiskResult, NodeSlot, loaded_slot, on_disk, freed, Resident}
use beetree.Disk.Cache.{touch, push_tick, compact}
use beetree.Disk.Arena.{resident, loaded, loaded_mut, put_node, alloc_dirty, release_slot}
use beetree.Disk.Load.{ensure_loaded}

-- Every resident slot holds the node of its id, and no slot waits on disk.
pub record IsSame (nodes : List Node) (slots : List NodeSlot) : Type 0 where
  pub count : length slots ≡ length nodes
  pub held :
      (id : NodeId) (r : Resident)
      → get_elem? slots id ≡ some (loaded_slot r)
      → get_elem? nodes id ≡ some r.node
  pub in_memory : (id : NodeId) (offset : ℕ) → get_elem? slots id ≢ some (on_disk offset)

equal_or_not : (i j : ℕ) → (i ≡ j) ⊎ (i ≢ j)
equal_or_not i j = elim (Bool-cases (i == j)) [
  | inl h ↦ inl (ground arith)
  | inr h ↦ inr (λ e. ground arith)
]

slot_node :
    {r r' : Resident}
    → Path (Option NodeSlot) (some (loaded_slot r)) (some (loaded_slot r'))
    → r ≡ r'
slot_node e = cc

loaded_not_on_disk :
    {r : Resident} {offset : ℕ}
    → Path (Option NodeSlot) (some (loaded_slot r)) (some (on_disk offset))
    → ⊥
loaded_not_on_disk e = cc

-- A slot gets the node of its id.
pub put-IsSame :
    (nodes nodes' : List Node) (slots : List NodeSlot) (id : NodeId) (r : Resident)
    → IsSame nodes slots
    → id < length slots
    → length nodes' ≡ length nodes
    → get_elem? nodes' id ≡ some r.node
    → ((j : ℕ) → id ≢ j → get_elem? nodes' j ≡ get_elem? nodes j)
    → IsSame nodes' (set slots id (loaded_slot r))
put-IsSame nodes nodes' slots id r same lt count at others = record {
  count = length-set slots id (loaded_slot r) ∙ same.count ∙ sym count;
  held = λ j r' e. elim (equal_or_not id j) [
    | inl q ↦
        let e' : some (loaded_slot r) ≡ some (loaded_slot r') =
          sym (get_elem?-set_self slots id (loaded_slot r) lt)
          ∙ ap (get_elem? (set slots id (loaded_slot r))) q
          ∙ e in
        ap (get_elem? nodes') (sym q) ∙ at ∙ ap (λ x. some x.node) (slot_node e')
    | inr q ↦ others j q ∙ same.held j r' (sym (get_elem?-set_ne slots (loaded_slot r) q) ∙ e)
  ];
  in_memory = λ j offset e. elim (equal_or_not id j) [
    | inl q ↦ loaded_not_on_disk (
        sym (get_elem?-set_self slots id (loaded_slot r) lt)
        ∙ ap (get_elem? (set slots id (loaded_slot r))) q
        ∙ e)
    | inr q ↦ same.in_memory j offset (sym (get_elem?-set_ne slots (loaded_slot r) q) ∙ e)
  ];
}

freed_not_loaded : {r : Resident} → Path (Option NodeSlot) (some freed) (some (loaded_slot r)) → ⊥
freed_not_loaded e = cc

freed_not_on_disk : {offset : ℕ} → Path (Option NodeSlot) (some freed) (some (on_disk offset)) → ⊥
freed_not_on_disk e = cc

pub free-IsSame :
    (nodes : List Node) (slots : List NodeSlot) (id : NodeId)
    → IsSame nodes slots
    → id < length slots
    → IsSame nodes (set slots id freed)
free-IsSame nodes slots id same lt = record {
  count = length-set slots id freed ∙ same.count;
  held = λ j r' e. elim (equal_or_not id j) [
    | inl q ↦ absurd (
        freed_not_loaded
          (sym (get_elem?-set_self slots id freed lt) ∙ ap (get_elem? (set slots id freed)) q ∙ e))
    | inr q ↦ same.held j r' (sym (get_elem?-set_ne slots freed q) ∙ e)
  ];
  in_memory = λ j offset e. elim (equal_or_not id j) [
    | inl q ↦
        freed_not_on_disk
          (sym (get_elem?-set_self slots id freed lt) ∙ ap (get_elem? (set slots id freed)) q ∙ e)
    | inr q ↦ same.in_memory j offset (sym (get_elem?-set_ne slots freed q) ∙ e)
  ];
}

-- A new slot and a new node.
snoc_cases :
    {A : Type 0} (xs : List A) (x : A) (i : ℕ) {y : A}
    → get_elem? (xs ++ x ∷ []) i ≡ some y
    → (get_elem? xs i ≡ some y) ⊎ ((i ≡ length xs) × (x ≡ y))
snoc_cases [] x zero e = inr (refl, some_inj e)
snoc_cases [] x (suc i) e = cc
snoc_cases (z ∷ xs) x zero e = inl e
snoc_cases (z ∷ xs) x (suc i) e = elim (snoc_cases xs x i e) [
  | inl q ↦ inl q
  | inr (q, k) ↦ inr (ap suc q, k)
]

pub snoc-IsSame :
    (nodes : List Node) (slots : List NodeSlot) (r : Resident)
    → IsSame nodes slots
    → IsSame (nodes ++ r.node ∷ []) (slots ++ loaded_slot r ∷ [])
snoc-IsSame nodes slots r same = record {
  count = length-snoc slots (loaded_slot r) ∙ ap suc same.count ∙ sym (length-snoc nodes r.node);
  held = λ j r' e. elim (snoc_cases slots (loaded_slot r) j e) [
    | inl q ↦
        let k = same.held j r' q in
        get_elem?-append_left nodes (r.node ∷ []) j (lt_of_get_elem? nodes j k) ∙ k
    | inr (q, k) ↦
        ap (get_elem? (nodes ++ r.node ∷ [])) (q ∙ same.count)
        ∙ get_elem?-append_length nodes r.node []
        ∙ ap (λ x. some x.node) (slot_node (ap some k))
  ];
  in_memory = λ j offset e. elim (snoc_cases slots (loaded_slot r) j e) [
    | inl q ↦ same.in_memory j offset q
    | inr (q, k) ↦ loaded_not_on_disk (ap some k)
  ];
}
