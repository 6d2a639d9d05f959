-- ===== src/Check/Sound.antt =====
-- What the invariant checker accepts is a valid tree.
use beetree.Prelude.{ℕ, ◌-◌, ◌≡◌, Option, none, some, [], arith, some_inj, bind_some}
use beetree.Bytes.{u64_mod}
use beetree.Check.{LeafDepths, Checked, passed, failed, check_tree, check_depths, check_invariants}
use beetree.Check.Nodes.{NodeSource}
use beetree.Check.Violation.{InvariantViolation}
use beetree.Check.Valid.{HoldsMaps}
use beetree.Check.Walked.{Found, root-Agrees}
use beetree.Check.Subtrees.{every_subtree}

check_depths-even : (d : LeafDepths) → check_depths d ≡ none → d.shallowest ≡ d.deepest
unfolding check_depths
check_depths-even d h = ground arith

-- An accepted run has walked the whole tree, with even depths.
accepted :
    (f : ℕ) (src : NodeSource)
    → check_invariants f src ≡ some none
    → (d : LeafDepths) × (check_tree f src ≡ some (passed d)) × (check_depths d ≡ none)
unfolding check_invariants
accepted f src h = go (bind_some (check_tree f src) h)
  where
    judge : Checked LeafDepths → Option (Option InvariantViolation)
    judge (passed d) = some (check_depths d)
    judge (failed v) = some (some v)

    go :
        (c : Checked LeafDepths) × (check_tree f src ≡ some c) × (judge c ≡ some none)
        → (d : LeafDepths) × (check_tree f src ≡ some (passed d)) × (check_depths d ≡ none)
    go (passed d, e, k) = (d, e, some_inj k)
    go (failed v, e, k) = cc

-- A tree that the checker accepts satisfies the invariants I1-I7, where the maps of its nodes are
-- maps: the source holds at its root a tree whose leaves stand at one depth, with keys in their
-- ranges and ever older on the way down, and with no node over its capacity.
pub check_invariants_sound :
    (f : ℕ) (src : NodeSource)
    → HoldsMaps src
    → check_invariants f src ≡ some none
    → (h : ℕ) × Found src src.root none none (λ k. none) h
unfolding check_tree
check_invariants_sound f src maps h =
    let a = accepted f src h in
    let start : LeafDepths = record { shallowest = u64_mod - 1; deepest = 0 } in
    let w =
      every_subtree src a.0 (check_depths-even a.0 a.2) maps f f src.root none none 1 [] [] [] start
        (λ k. none) (omega arith) root-Agrees a.1 in
    (a.0.deepest - 1, w.found.1 (a.0.deepest - 1) (omega (arith, w.found.0)))
