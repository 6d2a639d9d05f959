-- ===== src/Tree/Split/Leaf.antt =====
-- Splitting an overfull leaf: the pieces fit, and every key is found in the piece it routes to.
use mathlib.Core.List.{append_assoc, append-nil}
use beetree.Prelude.{
  length-snoc, ℕ, zero, suc, ◌≤◌, ◌≡◌, refl, ap, ◌∙◌, true, some, List, [], ◌∷◌, ◌++◌, arith,
  length, take, drop, replicate, map, AllOf, take-append-drop, length-take, length-drop,
}
use beetree.Key.{Key}
use beetree.BTreeMap.{BTreeMap}
use beetree.BTreeMap.Pieces.{joined, IsNonempty}
use beetree.Node.{NodeId, leaf, LeafEntry}
use beetree.Node.Partition.{sum, AllWithin}
use beetree.Tree.Arena.{BeTree, alloc}
use beetree.Tree.Split.{pieces_of, alloc_leaves}

module _ {V : Type 0} where
  abbrev pub Fits : ℕ → BTreeMap V → Type 0
  Fits limit m = IsNonempty m × (length m ≤ limit)

  Fits-take :
      (limit size : ℕ) (items : BTreeMap V)
      → 1 ≤ size
      → size ≤ limit
      → size ≤ length items
      → Fits limit (take size items)
  Fits-take limit zero items a b c = absurd (omega arith)
  Fits-take limit (suc size) [] a b c = absurd (omega arith)
  Fits-take limit (suc size) (x ∷ items) a b c = (tt, omega (arith, length-take size items))

  pub joined-pieces_of :
      (limit : ℕ) (sizes : List ℕ) (items : BTreeMap V)
      → AllWithin limit sizes
      → sum sizes ≡ length items
      → (joined (pieces_of sizes items) ≡ items) × AllOf (Fits limit) (pieces_of sizes items)
  unfolding pieces_of
  joined-pieces_of limit [] [] w e = (refl, tt)
  joined-pieces_of limit [] (x ∷ items) w e = absurd (omega arith)
  joined-pieces_of limit (size ∷ sizes) items w e =
      let (j, f) =
        joined-pieces_of limit sizes (drop size items) w.2
          (omega (arith, length-drop size items)) in
      (
        ap (λ rest. take size items ++ rest) j ∙ take-append-drop size items,
        (Fits-take limit size items w.0 w.1 (omega arith), f),
      )

-- The promoted pairs of new leaves, whose ids count from `n`.
abbrev pub promoted_from : ℕ → List (BTreeMap LeafEntry) → List (Key × NodeId)
promoted_from n [] = []
promoted_from n ([] ∷ pieces) = promoted_from n pieces
promoted_from n (((k, e) ∷ piece) ∷ pieces) = (k, n) ∷ promoted_from (suc n) pieces

pub alloc_leaves_lem :
    {P : Type 0} (pieces : List (BTreeMap LeafEntry)) (s : BeTree P)
    → AllOf IsNonempty pieces
    → alloc_leaves pieces s
      ≡ some (
        promoted_from (length s.nodes) pieces,
        record s {
          nodes = s.nodes ++ map leaf pieces;
          dirty = s.dirty ++ replicate (length pieces) true;
        },
      )
unfolding alloc_leaves alloc
alloc_leaves_lem [] s full = simp append-nil
alloc_leaves_lem ([] ∷ pieces) s full = absurd full.0
alloc_leaves_lem (((k, e) ∷ piece) ∷ pieces) s full =
    rw (alloc_leaves_lem pieces (alloc (leaf ((k, e) ∷ piece)) s).1 full.1)
      (simp (append_assoc, length-snoc))
