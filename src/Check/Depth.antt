-- ===== src/Check/Depth.antt =====
-- The leaf depths of the checker's walk only spread.
use beetree.Prelude.{ℕ, zero, suc, ◌≡◌, ◌≤◌, Option, some, List, [], ◌∷◌, arith}
use mathlib.Core.Path.{subst}
use beetree.BTreeMap.{BTreeMap}
use beetree.Check.{LeafDepths, Checked, passed, Frame, enter, undo, note_leaf, walk, restore}
use beetree.Check.Nodes.{NodeSource}
use beetree.Check.Steps.{Visited, at_leaf, at_internal, visited}

-- The second depths reach at least as far as the first on both sides.
abbrev pub IsWider : LeafDepths → LeafDepths → Type 0
IsWider d e = (e.shallowest ≤ d.shallowest) × (d.deepest ≤ e.deepest)

note_leaf-IsWider : (n : ℕ) (d e : LeafDepths) → IsWider (note_leaf n d) e → IsWider d e
note_leaf-IsWider n d e h = (omega arith, ground arith)

-- Where the depths end even, the depth of a leaf on the way is the final one.
pub note_leaf-even :
    (n : ℕ) (d e : LeafDepths)
    → IsWider (note_leaf n d) e
    → e.shallowest ≡ e.deepest
    → n ≡ e.deepest
note_leaf-even n d e h even = ground arith

final_inj :
    {d e : LeafDepths}
    → Path (Option (Checked LeafDepths)) (some (passed d)) (some (passed e))
    → d ≡ e
final_inj e = cc

pub walk-IsWider :
    (f : ℕ) (src : NodeSource) (stack : List Frame) (above : BTreeMap ℕ) (d : LeafDepths)
    {e : LeafDepths}
    → walk f src stack above d ≡ some (passed e)
    → IsWider d e
unfolding walk
walk-IsWider zero src stack above d h = cc
walk-IsWider (suc f) src [] above d h = subst (IsWider d) (final_inj h) (omega arith, omega arith)
walk-IsWider (suc f) src (undo entries ∷ stack) above d h =
    walk-IsWider f src stack (restore entries above) d h
walk-IsWider (suc f) src (enter id lower upper depth overlay ∷ stack) above d {e} h =
    by_visit (visited f src id lower upper depth overlay stack above d h)
      (λ stack' above' d'. walk-IsWider f src stack' above' d')
  where
    by_visit :
        Visited f src id lower upper depth overlay stack above d e
        → ((stack' : List Frame) (above' : BTreeMap ℕ) (d' : LeafDepths)
            → walk f src stack' above' d' ≡ some (passed e)
            → IsWider d' e)
        → IsWider d e
    by_visit (at_leaf entries held c rest) ih = note_leaf-IsWider depth d e (ih _ _ _ rest)
    by_visit (at_internal pivots children buffer pushed held c p rest) ih = ih _ _ _ rest
