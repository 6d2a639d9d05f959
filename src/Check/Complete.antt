-- ===== src/Check/Complete.antt =====
-- The invariant checker ends, and accepts every valid tree.
use mathlib.Core.Path.{subst}
use beetree.Prelude.{
  ℕ, zero, suc, ◌+◌, ◌-◌, ◌≡◌, ◌≤◌, ◌<◌, refl, sym, ap, ◌∙◌, Option, none, some, List, [], ◌∷◌,
  arith, false, length-map, map,
}
use beetree.Bytes.{u64_mod}
use beetree.Key.{Key}
use beetree.BTreeMap.{BTreeMap}
use beetree.Tree.View.{Tall, id_of}
use beetree.Check.{
  LeafDepths, passed, Frame, enter, undo, apply_overlay, restore, starts_after, note_leaf, walk,
  check_tree, check_depths, check_invariants,
}
use beetree.Check.Nodes.{NodeSource, leaf_seqs, buffer_seqs}
use beetree.Check.Valid.{IsValid, IsHeld, HoldsMaps}
use beetree.Check.Overlay.{get-restore}
use beetree.Check.Steps.{walk-leaf, walk-internal}
use beetree.Check.Walked.{Found, Agrees, root-Agrees}
use beetree.Check.Subtrees.{AreKeysValid-cong}
use beetree.Check.Passes.{check_leaf_passes, check_internal_passes}
use beetree.Check.Through.{rounds, total, Through, noted_some, walk-undo, Passers, pass_children}

module _ (src : NodeSource) (maps : HoldsMaps src) where
  pass_leaf :
      (t : Tall 0) (f : ℕ) (lower upper : Option Key) (depth : ℕ) (overlay : BTreeMap ℕ)
      (stack : List Frame) (above : BTreeMap ℕ) (d : LeafDepths) (newest : Key → Option ℕ)
      → IsHeld src 0 t
      → IsValid src.params src.root 0 t lower upper newest
      → Agrees lower upper overlay above newest
      → walk (2 + f) src (enter t.id lower upper depth overlay ∷ stack) above d
        ≡ walk f src stack
            (restore (apply_overlay overlay above).1 (apply_overlay overlay above).0)
            (note_leaf depth d)
  pass_leaf t f lower upper depth overlay stack above d newest held valid agrees =
      let keys =
        AreKeysValid-cong lower upper newest _ (leaf_seqs t.entries)
          (λ q inside. sym (agrees q inside)) valid.2 in
      ap (λ m. walk m src (enter t.id lower upper depth overlay ∷ stack) above d) (omega arith)
      ∙ walk-leaf (suc f) src t.id lower upper depth overlay stack above d t.entries held (
          check_leaf_passes src t.id lower upper (apply_overlay overlay above).0 t.entries valid.0
            valid.1 keys)
      ∙ walk-undo f src _ stack _ _

  pass_internal :
      (h : ℕ)
      → Passers src h
      → (t : Tall (suc h)) (f : ℕ) (lower upper : Option Key) (depth : ℕ) (overlay : BTreeMap ℕ)
        (stack : List Frame) (above : BTreeMap ℕ) (d : LeafDepths) (newest : Key → Option ℕ)
      → IsHeld src (suc h) t
      → IsValid src.params src.root (suc h) t lower upper newest
      → starts_after lower upper ≡ false
      → Agrees lower upper overlay above newest
      → Through src f
          (rounds (suc h) t)
          (enter t.id lower upper depth overlay ∷ stack)
          stack
          above
          d
          (note_leaf (depth + 1 + h) d)
  pass_internal h passers t f lower upper depth overlay stack above d newest held valid in_order
        agrees =
      let applied = apply_overlay overlay above in
      let keys =
        AreKeysValid-cong lower upper newest _ (buffer_seqs t.buffer)
          (λ q inside. sym (agrees q inside)) valid.5 in
      let count = length-map (id_of h) t.children in
      let checked =
        check_internal_passes src t.id lower upper applied.0 t.pivots (map (id_of h) t.children)
          t.buffer valid.0 (count ∙ valid.1)
          (subst (λ m. m ≤ src.params.fanout) (sym count) valid.2) valid.3 valid.4 keys in
      let below =
        pass_children src h passers t.pivots t.buffer lower upper depth newest applied.0
          (maps t.id _ held.0) valid.0 valid.4 in_order agrees (suc f) 0 t.children
          (undo applied.1 ∷ stack) d (omega (arith, valid.1)) held.1 valid.6 in
      record {
        later = restore applied.1 below.through.later;
        same = λ q. get-restore q overlay above below.through.later below.through.same;
        goes =
            ap (λ m. walk m src (enter t.id lower upper depth overlay ∷ stack) above d)
              (omega arith)
            ∙ walk-internal (total (rounds h) t.children + suc f) src t.id lower upper depth overlay
                stack above d t.pivots (map (id_of h) t.children) t.buffer below.pushed held.0
                checked below.pushes
            ∙ below.through.goes
            ∙ walk-undo f src applied.1 stack below.through.later _
            ∙ ap (walk f src stack (restore applied.1 below.through.later))
                (noted_some (depth + 1 + h) t.children d (omega (arith, valid.1)));
      }

  pass_tree : (h : ℕ) → Passers src h
  pass_tree zero t f lower upper depth overlay stack above d newest held valid in_order agrees =
      record {
        later = restore (apply_overlay overlay above).1 (apply_overlay overlay above).0;
        same = λ q. get-restore q overlay above (apply_overlay overlay above).0 (λ k. refl);
        goes =
            pass_leaf t f lower upper depth overlay stack above d newest held valid agrees
            ∙ ap
                (λ n.
                  walk f src stack
                    (restore (apply_overlay overlay above).1 (apply_overlay overlay above).0)
                    (note_leaf n d))
                (omega arith);
      }
  pass_tree (suc h) t f lower upper depth overlay stack above d newest held valid in_order agrees =
      let one =
        pass_internal h (pass_tree h) t f lower upper depth overlay stack above d newest held valid
          in_order agrees in
      record {
        later = one.later;
        same = one.same;
        goes = one.goes ∙ ap (λ n. walk f src stack one.later (note_leaf n d)) (omega arith);
      }

start_depths_lem :
    (n : ℕ)
    → n < u64_mod
    → 1 ≤ n
    → check_depths (note_leaf n (record { shallowest = u64_mod - 1; deepest = 0 })) ≡ none
unfolding check_depths
start_depths_lem n lt pos = ground arith

accepts :
    (f : ℕ) (src : NodeSource) (d : LeafDepths)
    → check_tree f src ≡ some (passed d)
    → check_depths d ≡ none
    → check_invariants f src ≡ some none
unfolding check_invariants
accepts f src d e k = rw (e) (ap some k)

walk_done :
    (f : ℕ) (src : NodeSource) (above : BTreeMap ℕ) (d : LeafDepths)
    → walk (suc f) src [] above d ≡ some (passed d)
unfolding walk
walk_done f src above d = refl

check_tree_passes :
    (f : ℕ) (src : NodeSource)
    → HoldsMaps src
    → (h : ℕ) (t : Found src src.root none none (λ k. none) h) → rounds h t.tree < f
    → check_tree f src
      ≡ some (passed (note_leaf (1 + h) (record { shallowest = u64_mod - 1; deepest = 0 })))
unfolding check_tree
check_tree_passes f src maps h t enough =
    let start : LeafDepths = record { shallowest = u64_mod - 1; deepest = 0 } in
    let rest = f - rounds h t.tree - 1 in
    let one =
      pass_tree src maps h t.tree (suc rest) none none 1 [] [] [] start (λ k. none) t.held t.valid
        refl root-Agrees in
    ap (λ id. walk f src (enter id none none 1 [] ∷ []) [] start) (sym t.at_id)
    ∙ ap (λ m. walk m src (enter (id_of h t.tree) none none 1 [] ∷ []) [] start)
        (omega (arith, enough))
    ∙ one.goes
    ∙ walk_done rest src one.later _

-- The checker ends and accepts every tree that satisfies the invariants I1-I7 and is less than
-- 2 ^ 64 - 1 levels high, with two rounds for each of its nodes and one more.
pub check_invariants_complete :
    (f : ℕ) (src : NodeSource)
    → HoldsMaps src
    → (h : ℕ) (t : Found src src.root none none (λ k. none) h) → h + 1 < u64_mod
    → rounds h t.tree < f
    → check_invariants f src ≡ some none
check_invariants_complete f src maps h t low enough =
    accepts f src _ (check_tree_passes f src maps h t enough)
      (start_depths_lem (1 + h) (omega (arith, low)) (omega arith))
