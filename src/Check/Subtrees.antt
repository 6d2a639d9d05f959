-- ===== src/Check/Subtrees.antt =====
-- What an accepted walk of the checker has found, by induction on its rounds.
use mathlib.Core.Path.{subst}
use beetree.Prelude.{
  ℕ, zero, suc, ◌+◌, ◌≡◌, ◌≤◌, refl, sym, ap, ◌∙◌, Option, none, some, List, [], ◌∷◌, arith, true,
  AllOf, map, length, length-map,
}
use beetree.Key.{Key}
use beetree.BTreeMap
use beetree.BTreeMap.{BTreeMap}
use beetree.Message.{Message}
use beetree.Node.{NodeId, leaf, internal, LeafEntry}
use beetree.Tree.View.{Tall, id_of}
use beetree.Check.{
  LeafDepths, passed, Frame, undo, apply_overlay, restore, push_children, note_leaf, walk,
}
use beetree.Check.Nodes.{NodeSource, in_range, buffer_seqs, leaf_seqs, check_leaf, check_internal}
use beetree.Check.Valid.{
  IsValid, IsHeld, HoldsMaps, IsOlder, AreKeysValid, AllAt, left_of, right_of, newest_past,
  check_leaf-none, check_internal-none,
}
use beetree.Check.Overlay.{get-restore}
use beetree.Check.Steps.{Visited, at_leaf, at_internal, visited}
use beetree.Check.Depth.{walk-IsWider, note_leaf-even}
use beetree.Check.Walked.{Found, Reaches, Walked, Agrees, Subtrees, walked_children}

pub AreKeysValid-cong :
    (lower upper : Option Key) (g g' : Key → Option ℕ) (keys : BTreeMap ℕ)
    → ((q : Key) → in_range q lower upper ≡ true → g q ≡ g' q)
    → AreKeysValid lower upper g keys
    → AreKeysValid lower upper g' keys
AreKeysValid-cong lower upper g g' [] same a = tt
AreKeysValid-cong lower upper g g' ((k, s) ∷ keys) same a =
    (a.0, subst (IsOlder s) (same k a.0) a.1, AreKeysValid-cong lower upper g g' keys same a.2)

-- The trees below a node, at one height.
record Children (src : NodeSource) (h : ℕ) (P : ℕ → Tall h → Type 0) (i : ℕ) (ids : List NodeId)
    : Type 0 where
  trees : List (Tall h)
  at_ids : map (id_of h) trees ≡ ids
  held : AllOf (IsHeld src h) trees
  valid : AllAt P i trees

module _ (src : NodeSource) (final : LeafDepths) (pivots : List Key) (buffer : BTreeMap Message)
    (lower upper : Option Key) (depth : ℕ) (newest : Key → Option ℕ) where
  gather :
      (h : ℕ)
      → depth + 1 + h ≡ final.deepest
      → (i : ℕ) (ids : List NodeId)
      → AllAt
          (λ j c.
            Reaches src final c
              (left_of pivots lower j)
              (right_of pivots upper j)
              (depth + 1)
              (newest_past buffer newest))
          i
          ids
      → Children src h
          (λ j c.
            IsValid src.params src.root h c
              (left_of pivots lower j)
              (right_of pivots upper j)
              (newest_past buffer newest))
          i
          ids
  gather h e i [] a = record { trees = []; at_ids = refl; held = tt; valid = tt }
  gather h e i (c ∷ ids) a =
      let t = a.0.1 h e in
      let rest = gather h e (suc i) ids a.1 in
      record {
        trees = t.tree ∷ rest.trees;
        at_ids = ap (λ x. x ∷ map (id_of h) rest.trees) t.at_id ∙ ap (λ l. c ∷ l) rest.at_ids;
        held = (t.held, rest.held);
        valid = (t.valid, rest.valid);
      }

-- An accepted walk goes past an undo frame.
walk_undo :
    (f : ℕ) (src : NodeSource) (entries : List (Key × Option ℕ)) (stack : List Frame)
    (above : BTreeMap ℕ) (d final : LeafDepths)
    → walk f src (undo entries ∷ stack) above d ≡ some (passed final)
    → (g : ℕ) × (g ≤ f) × (walk g src stack (restore entries above) d ≡ some (passed final))
unfolding walk
walk_undo zero src entries stack above d final h = cc
walk_undo (suc f) src entries stack above d final h = (f, omega arith, h)

walk_zero :
    (src : NodeSource) (stack : List Frame) (above : BTreeMap ℕ) (d final : LeafDepths)
    → walk 0 src stack above d ≡ some (passed final)
    → ⊥
unfolding walk
walk_zero src stack above d final h = cc

module _ (src : NodeSource) (final : LeafDepths) (even : final.shallowest ≡ final.deepest) where
  module _ (f : ℕ) (id : NodeId) (lower upper : Option Key) (depth : ℕ) (overlay : BTreeMap ℕ)
      (stack : List Frame) (above : BTreeMap ℕ) (d : LeafDepths) (newest : Key → Option ℕ)
      (agrees : Agrees lower upper overlay above newest) where
    abbrev Done : Type 0
    Done = Walked src final (suc f) stack above (Reaches src final id lower upper depth newest)

    -- The walk is back at the stack, once the subtree is known.
    leave :
        (n : ℕ) (later : BTreeMap ℕ) (d' : LeafDepths)
        → n ≤ f
        → ((q : Key) → BTreeMap.get q later ≡ BTreeMap.get q (apply_overlay overlay above).0)
        → walk n src (undo (apply_overlay overlay above).1 ∷ stack) later d' ≡ some (passed final)
        → Reaches src final id lower upper depth newest
        → Done
    leave n later d' le same h reaches =
        let next = walk_undo n src (apply_overlay overlay above).1 stack later d' final h in
        record {
          rounds = next.0;
          fewer = omega (arith, next.1);
          later = restore (apply_overlay overlay above).1 later;
          depths = d';
          same = λ q. get-restore q overlay above later same;
          goes_on = next.2;
          found = reaches;
        }

    found_leaf :
        (entries : BTreeMap LeafEntry)
        → src.node id ≡ some (leaf entries)
        → check_leaf src id lower upper (apply_overlay overlay above).0 entries ≡ none
        → depth ≡ final.deepest
        → (h : ℕ) → depth + h ≡ final.deepest
        → Found src id lower upper newest h
    found_leaf entries e c at_bottom zero sum =
        let checked =
          check_leaf-none src id lower upper (apply_overlay overlay above).0 entries c in
        record {
          tree = record { id = id; entries = entries };
          at_id = refl;
          held = e;
          valid = (
            checked.0,
            checked.1,
            AreKeysValid-cong lower upper _ newest (leaf_seqs entries) agrees checked.2,
          );
        }
    found_leaf entries e c at_bottom (suc h) sum = absurd (omega (arith, at_bottom, sum))

    found_internal :
        (pivots : List Key) (children : List NodeId) (buffer : BTreeMap Message)
        → src.node id ≡ some (internal pivots children buffer)
        → check_internal src id lower upper (apply_overlay overlay above).0 pivots children buffer
          ≡ none
        → depth + 1 ≤ final.deepest
        → AllAt
            (λ j c.
              Reaches src final c
                (left_of pivots lower j)
                (right_of pivots upper j)
                (depth + 1)
                (newest_past buffer newest))
            0
            children
        → (h : ℕ) → depth + h ≡ final.deepest
        → Found src id lower upper newest h
    found_internal pivots children buffer e c deep a zero sum = absurd (omega (arith, deep, sum))
    found_internal pivots children buffer e c deep a (suc h) sum =
        let checked =
          check_internal-none src id lower upper (apply_overlay overlay above).0 pivots children
            buffer c in
        let below =
          gather src final pivots buffer lower upper depth newest h (omega (arith, sum)) 0 children
            a in
        let count : length below.trees ≡ length children =
          sym (length-map (id_of h) below.trees) ∙ ap length below.at_ids in
        record {
          tree = record { id = id; pivots = pivots; children = below.trees; buffer = buffer };
          at_id = refl;
          held = (e ∙ ap (λ ids. some (internal pivots ids buffer)) (sym below.at_ids), below.held);
          valid = (
            checked.0,
            count ∙ checked.1,
            subst (λ m. m ≤ src.params.fanout) (sym count) checked.2,
            checked.3,
            checked.4,
            AreKeysValid-cong lower upper _ newest (buffer_seqs buffer) agrees checked.5,
            below.valid,
          );
        }

    module _ (maps : HoldsMaps src) (subtrees : Subtrees src final f) where
      enter_internal :
          (pivots : List Key) (children : List NodeId) (buffer : BTreeMap Message)
          (pushed : List Frame)
          → src.node id ≡ some (internal pivots children buffer)
          → check_internal src id lower upper (apply_overlay overlay above).0 pivots children buffer
            ≡ none
          → push_children pivots buffer lower upper depth 0 children
              (undo (apply_overlay overlay above).1 ∷ stack)
            ≡ some pushed
          → walk f src pushed (apply_overlay overlay above).0 d ≡ some (passed final)
          → Done
      enter_internal pivots [] buffer pushed e c p h = absurd (
          omega (
            arith,
            (check_internal-none src id lower upper (apply_overlay overlay above).0 pivots [] buffer
                c).1,
          ))
      enter_internal pivots (child ∷ children) buffer pushed e c p h =
          let checked =
            check_internal-none src id lower upper (apply_overlay overlay above).0 pivots
              (child ∷ children) buffer c in
          let w =
            walked_children src final f subtrees pivots buffer lower upper depth newest
              (apply_overlay overlay above).0 (maps id _ e) checked.4 agrees f 0 (child ∷ children)
              _ d (omega arith) p h in
          leave w.rounds w.later w.depths w.fewer w.same w.goes_on (
            omega (arith, w.found.0.0),
            found_internal pivots (child ∷ children) buffer e c w.found.0.0 w.found,
          )

      enter_node : Visited f src id lower upper depth overlay stack above d final → Done
      enter_node (at_leaf entries e c h) =
          let bottom = note_leaf-even depth d final (walk-IsWider f src _ _ _ h) even in
          leave f (apply_overlay overlay above).0 (note_leaf depth d) (omega arith) (λ q. refl) h
            (omega (arith, bottom), found_leaf entries e c bottom)
      enter_node (at_internal pivots children buffer pushed e c p h) =
          enter_internal pivots children buffer pushed e c p h

  pub every_subtree : HoldsMaps src → (n : ℕ) → Subtrees src final n
  every_subtree maps n zero id lower upper depth overlay stack above d newest le agrees h =
      absurd (walk_zero src _ above d final h)
  every_subtree maps zero (suc f) id lower upper depth overlay stack above d newest le agrees h =
      absurd (omega (arith, le))
  every_subtree maps (suc n) (suc f) id lower upper depth overlay stack above d newest le agrees h =
      enter_node f id lower upper depth overlay stack above d newest agrees maps
        (λ g id' lower' upper' depth' overlay' stack' above' d' newest' le'.
          every_subtree maps n g id' lower' upper' depth' overlay' stack' above' d' newest'
            (omega (arith, le, le')))
        (visited f src id lower upper depth overlay stack above d h)
