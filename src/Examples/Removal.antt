-- ===== src/Examples/Removal.antt =====
-- A concrete node that loses a child.
use beetree.Prelude.{refl, [], ◌∷◌, arith}
use beetree.Key.{cmp}
use beetree.Tree.Flush.Removal.{IsDropped, drop_pivot-route}

-- The second of three children goes.
drop_pivot-route_example : IsDropped 1 ((10 ∷ []) ∷ (20 ∷ []) ∷ []) (4 ∷ 5 ∷ 6 ∷ [])
unfolding cmp
drop_pivot-route_example =
    drop_pivot-route 1 (10 ∷ []) ((20 ∷ []) ∷ []) (4 ∷ 5 ∷ 6 ∷ []) ((refl, tt), (tt, tt)) refl
      (omega arith)
