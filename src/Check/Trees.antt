-- ===== src/Check/Trees.antt =====
-- src/betree.rs: a tree in memory that the checker accepts is one that `get` and the others serve.
use beetree.Prelude.{
  ℕ, zero, suc, ◌≡◌, ◌∙◌, Option, none, some, List, [], ◌∷◌, arith, AllOf, AllOf-imp,
}
use beetree.Key.{Key}
use beetree.Tree.Arena.{BeTree}
use beetree.Tree.View.{Tall, IsStored, IsShaped, IsTree}
use beetree.Check.{check_invariants}
use beetree.Check.Nodes.{NodeSource}
use beetree.Check.Valid.{IsValid, IsHeld, HoldsMaps, AllAt, left_of, right_of, newest_past}
use beetree.Check.Sources.{be_tree_source}
use beetree.Check.Spine.{lt-length-IsStored}
use beetree.Check.Sound.{check_invariants_sound}

module _ (src : NodeSource) (maps : HoldsMaps src) where
  held-IsShaped :
      (h : ℕ) (t : Tall h) (lower upper : Option Key) (newest : Key → Option ℕ)
      → IsHeld src h t
      → IsValid src.params src.root h t lower upper newest
      → IsShaped h t
  held-IsShaped zero t lower upper newest held valid = maps t.id _ held
  held-IsShaped (suc h) t lower upper newest held valid = (
    valid.0,
    valid.1 ∙ omega arith,
    maps t.id _ held.0,
    all 0 t.children held.1 valid.6 (λ i c.
        held-IsShaped h c (left_of t.pivots lower i) (right_of t.pivots upper i)
          (newest_past t.buffer newest)),
  )
    where
      all :
          (i : ℕ) (cs : List (Tall h))
          → AllOf (IsHeld src h) cs
          → AllAt
              (λ j c.
                IsValid src.params src.root h c
                  (left_of t.pivots lower j)
                  (right_of t.pivots upper j)
                  (newest_past t.buffer newest))
              i
              cs
          → ((j : ℕ) (c : Tall h)
              → IsHeld src h c
              → IsValid src.params src.root h c
                  (left_of t.pivots lower j)
                  (right_of t.pivots upper j)
                  (newest_past t.buffer newest)
              → IsShaped h c)
          → AllOf (IsShaped h) cs
      all i [] a v ih = tt
      all i (c ∷ cs) a v ih = (ih i c a.0 v.0, all (suc i) cs a.1 v.1 ih)

held-IsStored :
    {P : Type 0} (s : BeTree P) (h : ℕ) (t : Tall h)
    → IsHeld (be_tree_source s) h t
    → IsStored s.nodes h t
held-IsStored s zero t held = held
held-IsStored s (suc h) t held = (held.0, AllOf-imp (λ c. held-IsStored s h c) t.children held.1)

-- A tree in memory that `check_invariants` accepts is a tree: its arena holds, at the root, sorted
-- maps and ascending pivots with one child more than pivots, the leaves at one depth that is below
-- the number of its nodes.
pub check_invariants-IsTree :
    {P : Type 0} (f : ℕ) (s : BeTree P)
    → HoldsMaps (be_tree_source s)
    → check_invariants f (be_tree_source s) ≡ some none
    → IsTree s
check_invariants-IsTree f s maps h =
    let a = check_invariants_sound f (be_tree_source s) maps h in
    let t = a.1 in
    let stored = held-IsStored s a.0 t.tree t.held in
    let shaped = held-IsShaped (be_tree_source s) maps a.0 t.tree none none _ t.held t.valid in
    record {
      height = a.0;
      tree = t.tree;
      at_root = t.at_id;
      stored = stored;
      shaped = shaped;
      tall = lt-length-IsStored s.nodes a.0 t.tree stored shaped;
    }
