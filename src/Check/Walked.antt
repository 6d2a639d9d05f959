-- ===== src/Check/Walked.antt =====
-- What an accepted walk of the checker has found of a subtree once it is done with it.
use mathlib.Core.Path.{subst}
use beetree.Prelude.{
  ℕ, zero, suc, ◌+◌, ◌≡◌, ◌≤◌, refl, sym, ap, ◌∙◌, Option, none, some, List, [], ◌∷◌, arith, true,
  some_inj, bind_some, get_elem?,
}
use beetree.Key.{Key}
use beetree.BTreeMap
use beetree.BTreeMap.{BTreeMap}
use beetree.BTreeMap.Lookup.{or_else}
use beetree.BTreeMap.Sorted.{IsSorted}
use beetree.Message.{Message}
use beetree.Node.{NodeId}
use beetree.Node.Routing.{AllPivots}
use beetree.Tree.View.{Tall, id_of}
use beetree.Check.{
  LeafDepths, passed, Frame, enter, apply_overlay, push_children, child_lower, child_upper,
  child_overlay, walk,
}
use beetree.Check.Nodes.{NodeSource, in_range, buffer_seqs}
use beetree.Check.Valid.{IsValid, IsHeld, AllAt, left_of, right_of, newest_past}
use beetree.Check.Overlay.{get-apply_overlay, child_overlay-some, in_range-child}

-- The source holds a valid tree of height `h` at `id`.
pub record Found (src : NodeSource) (id : NodeId) (lower upper : Option Key)
    (newest : Key → Option ℕ) (h : ℕ) : Type 0 where
  pub tree : Tall h
  pub at_id : id_of h tree ≡ id
  pub held : IsHeld src h tree
  pub valid : IsValid src.params src.root h tree lower upper newest

-- The tree at `id` reaches from its depth to that of the deepest leaf.
abbrev pub Reaches :
    NodeSource → LeafDepths → NodeId → Option Key → Option Key → ℕ → (Key → Option ℕ) → Type 0
Reaches src final id lower upper depth newest =
    (depth ≤ final.deepest)
    × ((h : ℕ) → depth + h ≡ final.deepest → Found src id lower upper newest h)

-- The walk goes on with the stack, with a map that finds what it found before.
pub record Walked (src : NodeSource) (final : LeafDepths) (n : ℕ) (stack : List Frame)
    (above : BTreeMap ℕ) (G : Type 0) : Type 0 where
  pub rounds : ℕ
  pub fewer : rounds ≤ n
  pub later : BTreeMap ℕ
  pub depths : LeafDepths
  pub same : (q : Key) → BTreeMap.get q later ≡ BTreeMap.get q above
  pub goes_on : walk rounds src stack later depths ≡ some (passed final)
  pub found : G

-- The map of the newest sequence numbers, with an overlay, finds the newest above within a range.
abbrev pub Agrees : Option Key → Option Key → BTreeMap ℕ → BTreeMap ℕ → (Key → Option ℕ) → Type 0
Agrees lower upper overlay above newest =
    (q : Key)
    → in_range q lower upper ≡ true
    → BTreeMap.get q (apply_overlay overlay above).0 ≡ newest q

-- At the root nothing is above.
pub root-Agrees : Agrees none none [] [] (λ k. none)
unfolding apply_overlay BTreeMap.get
root-Agrees q inside = refl

-- Walks of at most `n` rounds do their subtrees.
abbrev pub Subtrees : NodeSource → LeafDepths → ℕ → Type 0
Subtrees src final n =
    (f : ℕ) (id : NodeId) (lower upper : Option Key) (depth : ℕ) (overlay : BTreeMap ℕ)
    (stack : List Frame) (above : BTreeMap ℕ) (d : LeafDepths) (newest : Key → Option ℕ)
    → f ≤ n
    → Agrees lower upper overlay above newest
    → walk f src (enter id lower upper depth overlay ∷ stack) above d ≡ some (passed final)
    → Walked src final f stack above (Reaches src final id lower upper depth newest)

child_lower-left_of :
    (pivots : List Key) (lower : Option Key) (i : ℕ) {lo : Option Key}
    → child_lower pivots lower i ≡ some lo
    → lo ≡ left_of pivots lower i
unfolding child_lower
child_lower-left_of pivots lower zero h = sym (some_inj h)
child_lower-left_of pivots lower (suc i) {lo} h = go (bind_some _ h)
  where
    go :
        (p : Key) × (get_elem? pivots i ≡ some p) × (some (some p) ≡ some lo)
        → lo ≡ get_elem? pivots i
    go (p, e, same) = sym (e ∙ some_inj same)

-- How a child is pushed.
record Pushed (pivots : List Key) (buffer : BTreeMap Message) (lower upper : Option Key)
    (depth i : ℕ) (child : NodeId) (children : List NodeId) (stack pushed : List Frame)
    : Type 0 where
  lo : Option Key
  overlay : BTreeMap ℕ
  at_left : child_lower pivots lower i ≡ some lo
  slice : child_overlay lo (child_upper pivots upper i) buffer ≡ some overlay
  rest :
      push_children pivots buffer lower upper depth
        (suc i)
        children
        (enter child lo (child_upper pivots upper i) (depth + 1) overlay ∷ stack)
      ≡ some pushed

push_children-Pushed :
    (pivots : List Key) (buffer : BTreeMap Message) (lower upper : Option Key) (depth i : ℕ)
    (child : NodeId) (children : List NodeId) (stack : List Frame) {pushed : List Frame}
    → push_children pivots buffer lower upper depth i (child ∷ children) stack ≡ some pushed
    → Pushed pivots buffer lower upper depth i child children stack pushed
unfolding push_children
push_children-Pushed pivots buffer lower upper depth i child children stack h =
    let a = bind_some (child_lower pivots lower i) h in
    let b = bind_some (child_overlay a.0 (child_upper pivots upper i) buffer) a.2 in
    record { lo = a.0; overlay = b.0; at_left = a.1; slice = b.1; rest = b.2 }

module _ (pivots : List Key) (buffer : BTreeMap Message) (lower upper : Option Key)
    (newest : Key → Option ℕ) (above : BTreeMap ℕ) (sorted : IsSorted buffer)
    (within : AllPivots (λ p. in_range p lower upper ≡ true) pivots)
    (agrees : (q : Key) → in_range q lower upper ≡ true → BTreeMap.get q above ≡ newest q) where
  pub child-Agrees :
      (i : ℕ) (overlay later : BTreeMap ℕ) {lo : Option Key}
      → child_lower pivots lower i ≡ some lo
      → child_overlay lo (child_upper pivots upper i) buffer ≡ some overlay
      → ((q : Key) → BTreeMap.get q later ≡ BTreeMap.get q above)
      → Agrees lo (child_upper pivots upper i) overlay later (newest_past buffer newest)
  child-Agrees i overlay later {lo} left slice same q inside =
      let held = child_overlay-some lo (child_upper pivots upper i) buffer sorted slice in
      get-apply_overlay q overlay later held.0
      ∙ ap (λ o. or_else o (BTreeMap.get q later)) (held.1 q inside)
      ∙ ap (or_else (BTreeMap.get q (buffer_seqs buffer)))
          (same q ∙ agrees q (in_range-child q pivots lower upper i within left inside))

module _ (src : NodeSource) (final : LeafDepths) (n : ℕ) (subtrees : Subtrees src final n)
    (pivots : List Key) (buffer : BTreeMap Message) (lower upper : Option Key) (depth : ℕ)
    (newest : Key → Option ℕ) (above : BTreeMap ℕ) (sorted : IsSorted buffer)
    (within : AllPivots (λ p. in_range p lower upper ≡ true) pivots)
    (agrees : (q : Key) → in_range q lower upper ≡ true → BTreeMap.get q above ≡ newest q) where
  abbrev pub ChildReaches : ℕ → NodeId → Type 0
  ChildReaches i c =
      Reaches src final c (left_of pivots lower i) (right_of pivots upper i) (depth + 1)
        (newest_past buffer newest)

  pushed_none :
      (i : ℕ) (stack : List Frame) {pushed : List Frame}
      → push_children pivots buffer lower upper depth i [] stack ≡ some pushed
      → stack ≡ pushed
  unfolding push_children
  pushed_none i stack p = some_inj p

  pub walked_children :
      (f i : ℕ) (children : List NodeId) (stack : List Frame) (d : LeafDepths) {pushed : List Frame}
      → f ≤ n
      → push_children pivots buffer lower upper depth i children stack ≡ some pushed
      → walk f src pushed above d ≡ some (passed final)
      → Walked src final f stack above (AllAt ChildReaches i children)
  walked_children f i [] stack d le p h = record {
    rounds = f;
    fewer = omega arith;
    later = above;
    depths = d;
    same = λ q. refl;
    goes_on = ap (λ s. walk f src s above d) (pushed_none i stack p) ∙ h;
    found = tt;
  }
  walked_children f i (c ∷ children) stack d le p h =
      let one = push_children-Pushed pivots buffer lower upper depth i c children stack p in
      let w = walked_children f (suc i) children _ d le one.rest h in
      let v =
        subtrees w.rounds c one.lo (child_upper pivots upper i) (depth + 1) one.overlay stack
          w.later w.depths (newest_past buffer newest) (omega (arith, w.fewer))
          (child-Agrees pivots buffer lower upper newest above sorted within agrees i one.overlay
            w.later one.at_left one.slice w.same)
          w.goes_on in
      record {
        rounds = v.rounds;
        fewer = omega (arith, v.fewer, w.fewer);
        later = v.later;
        depths = v.depths;
        same = λ q. v.same q ∙ w.same q;
        goes_on = v.goes_on;
        found = (
          subst
              (λ l.
                Reaches src final c l (child_upper pivots upper i) (depth + 1)
                  (newest_past buffer newest))
              (child_lower-left_of pivots lower i one.at_left) v.found,
          w.found,
        );
      }
