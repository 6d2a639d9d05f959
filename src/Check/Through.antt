-- ===== src/Check/Through.antt =====
-- How many rounds the checker takes over a tree, and its walk past valid children.
use beetree.Prelude.{
  ℕ, zero, suc, ◌+◌, ◌≡◌, ◌≤◌, refl, ap, ◌∙◌, Option, some, List, [], ◌∷◌, arith, true, false,
  length, map, AllOf, min, ltb, if◌then◌else◌,
}
use beetree.Key.{Key}
use beetree.BTreeMap
use beetree.BTreeMap.{BTreeMap}
use beetree.BTreeMap.Sorted.{IsSorted}
use beetree.Message.{Message}
use beetree.Node.Routing.{AllPivots, IsAscending}
use beetree.Tree.View.{Tall, id_of}
use beetree.Check.{
  LeafDepths, Frame, enter, undo, restore, push_children, starts_after, note_leaf, walk,
}
use beetree.Check.Nodes.{NodeSource, in_range}
use beetree.Check.Valid.{IsValid, IsHeld, AllAt, left_of, right_of, newest_past}
use beetree.Check.Walked.{Agrees, child-Agrees}
use beetree.Check.Passes.{push_children_cons, child_lower-some, child_in_order, child_overlay_total}

abbrev pub total {ℓ} : {A : Type ℓ} → (A → ℕ) → List A → ℕ
total f [] = 0
total f (x ∷ xs) = f x + total f xs

-- The rounds of the walk over a tree: two for each node.
abbrev pub rounds : (h : ℕ) → Tall h → ℕ
rounds zero t = 2
rounds (suc h) t = 2 + total (rounds h) t.children

-- After `n` rounds the walk stands at the stack, with a map that finds what it found before.
pub record Through (src : NodeSource) (f n : ℕ) (pushed stack : List Frame) (above : BTreeMap ℕ)
    (d d' : LeafDepths) : Type 0 where
  pub later : BTreeMap ℕ
  pub same : (q : Key) → BTreeMap.get q later ≡ BTreeMap.get q above
  pub goes : walk (n + f) src pushed above d ≡ walk f src stack later d'

-- The depths after some trees whose leaves stand at depth `n`.
abbrev pub noted {ℓ} : {A : Type ℓ} → ℕ → List A → LeafDepths → LeafDepths
noted n [] d = d
noted n (t ∷ ts) d = note_leaf n d

note_leaf_twice : (n : ℕ) (d : LeafDepths) → note_leaf n (note_leaf n d) ≡ note_leaf n d
note_leaf_twice n d =
    let low : min (min d.shallowest n) n ≡ min d.shallowest n = omega arith in
    let deep = if ltb d.deepest n then n else d.deepest in
    let high : (if ltb deep n then n else deep) ≡ deep = ground arith in
    ap (λ a. record { shallowest = a; deepest = if ltb deep n then n else deep }) low
    ∙ ap (λ b. record { shallowest = min d.shallowest n; deepest = b }) high

note_leaf-noted :
    {A : Type 0} (n : ℕ) (ts : List A) (d : LeafDepths) → note_leaf n (noted n ts d) ≡ note_leaf n d
note_leaf-noted n [] d = refl
note_leaf-noted n (t ∷ ts) d = note_leaf_twice n d

pub noted_some :
    {A : Type 0} (n : ℕ) (ts : List A) (d : LeafDepths)
    → 1 ≤ length ts
    → noted n ts d ≡ note_leaf n d
noted_some n [] d h = absurd (omega (arith, h))
noted_some n (t ∷ ts) d h = refl

pub walk-undo :
    (f : ℕ) (src : NodeSource) (entries : List (Key × Option ℕ)) (stack : List Frame)
    (above : BTreeMap ℕ) (d : LeafDepths)
    → walk (suc f) src (undo entries ∷ stack) above d ≡ walk f src stack (restore entries above) d
unfolding walk
walk-undo f src entries stack above d = refl

abbrev pub Passers : NodeSource → ℕ → Type 0
Passers src h =
    (t : Tall h) (f : ℕ) (lower upper : Option Key) (depth : ℕ) (overlay : BTreeMap ℕ)
    (stack : List Frame) (above : BTreeMap ℕ) (d : LeafDepths) (newest : Key → Option ℕ)
    → IsHeld src h t
    → IsValid src.params src.root h t lower upper newest
    → starts_after lower upper ≡ false
    → Agrees lower upper overlay above newest
    → Through src f (rounds h t) (enter (id_of h t) lower upper depth overlay ∷ stack) stack above d
        (note_leaf (depth + h) d)

module _ (src : NodeSource) (h : ℕ) (passers : Passers src h) (pivots : List Key)
    (buffer : BTreeMap Message) (lower upper : Option Key) (depth : ℕ) (newest : Key → Option ℕ)
    (above : BTreeMap ℕ) (sorted : IsSorted buffer) (ascending : IsAscending pivots)
    (within : AllPivots (λ p. in_range p lower upper ≡ true) pivots)
    (in_order : starts_after lower upper ≡ false)
    (agrees : (q : Key) → in_range q lower upper ≡ true → BTreeMap.get q above ≡ newest q) where
  -- The children from an index on are pushed, and the walk passes them.
  pub record Passing (f i : ℕ) (ts : List (Tall h)) (stack : List Frame) (d : LeafDepths)
      : Type 0 where
    pub pushed : List Frame
    pub pushes :
        push_children pivots buffer lower upper depth i (map (id_of h) ts) stack ≡ some pushed
    pub through :
        Through src f (total (rounds h) ts) pushed stack above d (noted (depth + 1 + h) ts d)

  push_none :
      (i : ℕ) (stack : List Frame)
      → push_children pivots buffer lower upper depth i [] stack ≡ some stack
  unfolding push_children
  push_none i stack = refl

  pub pass_children :
      (f i : ℕ) (ts : List (Tall h)) (stack : List Frame) (d : LeafDepths)
      → i + length ts ≤ length pivots + 1
      → AllOf (IsHeld src h) ts
      → AllAt
          (λ j c.
            IsValid src.params src.root h c
              (left_of pivots lower j)
              (right_of pivots upper j)
              (newest_past buffer newest))
          i
          ts
      → Passing f i ts stack d
  pass_children f i [] stack d le held valid = record {
    pushed = stack;
    pushes = push_none i stack;
    through = record {
      later = above;
      same = λ q. refl;
      goes = ap (λ m. walk m src stack above d) (omega arith);
    };
  }
  pass_children f i (t ∷ ts) stack d le held valid =
      let lo = left_of pivots lower i in
      let hi = right_of pivots upper i in
      let left = child_lower-some pivots lower i (omega (arith, le)) in
      let ordered = child_in_order pivots lower upper i ascending within in_order in
      let slice = child_overlay_total lo hi buffer ordered in
      let rest =
        pass_children (rounds h t + f) (suc i) ts
          (enter (id_of h t) lo hi (depth + 1) slice.0 ∷ stack) d (omega (arith, le)) held.1
          valid.1 in
      let one =
        passers t f lo hi (depth + 1) slice.0 stack rest.through.later (noted (depth + 1 + h) ts d)
          (newest_past buffer newest) held.0 valid.0 ordered
          (child-Agrees pivots buffer lower upper newest above sorted within agrees i slice.0
            rest.through.later left slice.1 rest.through.same) in
      record {
        pushed = rest.pushed;
        pushes =
            push_children_cons pivots buffer lower upper depth i (id_of h t) (map (id_of h) ts)
              stack left slice.1
            ∙ rest.pushes;
        through = record {
          later = one.later;
          same = λ q. one.same q ∙ rest.through.same q;
          goes =
              ap (λ m. walk m src rest.pushed above d) (omega arith)
              ∙ rest.through.goes
              ∙ one.goes
              ∙ ap (walk f src stack one.later) (note_leaf-noted (depth + 1 + h) ts d);
        };
      }
