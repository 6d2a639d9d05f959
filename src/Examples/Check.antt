-- ===== src/Examples/Check.antt =====
-- The invariant checker on a tree of two leaves.
use beetree.Prelude.{
  ℕ, zero, suc, ◌≡◌, refl, none, some, [], ◌∷◌, arith, some_inj, inl, List, AllOf,
}
use mathlib.Core.Path.{subst}
use beetree.Key.{cmp}
use beetree.BTreeMap
use beetree.Message
use beetree.Node
use beetree.Node.{Node, NodeId}
use beetree.Check.{check_invariants, Frame, undo, push_children}
use beetree.Check.Nodes.{check_internal}
use beetree.Check.Reports.{IsInOrder, push_children_total}
use beetree.Check.Nodes
use beetree.Check.Valid.{HoldsMaps, HasSortedMaps}
use beetree.Check.Sources.{be_tree_source}
use beetree.Check.Walked.{Found}
use beetree.Check.Sound.{check_invariants_sound}
use beetree.Check.Complete.{check_invariants_complete}
use beetree.Check.Trees.{check_invariants-IsTree}
use beetree.Tree.View.{IsTree}
use beetree.Examples.{small, top}

small-HoldsMaps : HoldsMaps (be_tree_source small)
unfolding cmp
small-HoldsMaps zero node e = subst HasSortedMaps (some_inj e) ((refl, tt), (tt, tt))
small-HoldsMaps (suc zero) node e = subst HasSortedMaps (some_inj e) (tt, tt)
small-HoldsMaps (suc (suc zero)) node e = subst HasSortedMaps (some_inj e) (tt, tt)
small-HoldsMaps (suc (suc (suc n))) node e = cc

accepted : check_invariants 7 (be_tree_source small) ≡ some none
unfolding check_invariants cmp BTreeMap.get BTreeMap.insert Message.seq Node.in_bounds
    BTreeMap.retain BTreeMap.remove
accepted = refl

check_invariants_sound_example : (h : ℕ) × Found (be_tree_source small) 2 none none (λ k. none) h
check_invariants_sound_example =
    check_invariants_sound 7 (be_tree_source small) small-HoldsMaps accepted

check_invariants-IsTree_example : IsTree small
check_invariants-IsTree_example = check_invariants-IsTree 7 small small-HoldsMaps accepted

unfoldable small_found : Found (be_tree_source small) 2 none none (λ k. none) 1
unfolding cmp Nodes.in_range BTreeMap.get Message.seq
small_found = record {
  tree = top;
  at_id = refl;
  held = (refl, (refl, (refl, tt)));
  valid = (
    (tt, tt),
    refl,
    omega arith,
    omega arith,
    (refl, tt),
    (refl, tt, tt),
    (
      (omega arith, inl (omega arith), (refl, tt, (refl, tt, tt))),
      ((omega arith, inl (omega arith), (refl, omega arith, tt)), tt),
    ),
  );
}

check_invariants_complete_example : check_invariants 7 (be_tree_source small) ≡ some none
unfolding small_found
check_invariants_complete_example =
    check_invariants_complete 7 (be_tree_source small) small-HoldsMaps 1 small_found (omega arith)
      (omega arith)

push_children_total_example :
    (pushed : List Frame) × (push_children top.pivots top.buffer none none 1 0
        (0 ∷ 1 ∷ [])
        (undo [] ∷ [])
      ≡ some pushed)
    × AllOf IsInOrder pushed
unfolding check_internal cmp BTreeMap.get Message.seq
push_children_total_example =
    push_children_total (be_tree_source small) 2 none none [] top.pivots (0 ∷ 1 ∷ []) top.buffer 1
      (undo [] ∷ []) refl refl (tt, tt)
