-- ===== src/Tree/Flush/Extraction.antt =====
-- Extraction moves exactly the messages that `route` sends to the chosen child.
use beetree.Prelude.{
  ◌+◌, ℕ, zero, suc, ◌≤◌, ◌≡◌, refl, ◌==◌, none, some, List, [], arith, length, get_elem?,
  get_elem?-in_range, if◌then◌else◌, Option-cases, inl, inr,
}
use beetree.Key.{Key}
use beetree.Key.Order.{cmp-swap}
use beetree.BTreeMap.{BTreeMap, get, below, split_off, append}
use beetree.BTreeMap.Lookup.{get-below, get-split_off, get-append}
use beetree.BTreeMap.Sorted.{
  IsSorted, below-IsSorted, split_off-IsSorted, append-IsSorted, length-below, length-append_map,
}
use beetree.Message.{Message}
use beetree.Node.{route}
use beetree.Node.Routing.{IsAscending, from_left, owns_iff_route}
use beetree.Tree.Flush.{cut_left, extract}

-- The halves of a buffer at the left pivot of a child.
record CutLeft (pivots : List Key) (chosen : ℕ) (buffer : BTreeMap Message) : Type 0 where
  batch : BTreeMap Message
  rest : BTreeMap Message
  cut : cut_left pivots chosen buffer ≡ some (batch, rest)
  at_batch : (q : Key) → get q batch ≡ (if from_left pivots chosen q then get q buffer else none)
  at_rest : (q : Key) → get q rest ≡ (if from_left pivots chosen q then none else get q buffer)
  sorted_batch : IsSorted batch
  sorted_rest : IsSorted rest
  shrinks : length batch + length rest ≤ length buffer

cut_left_lem :
    (pivots : List Key) (chosen : ℕ) (buffer : BTreeMap Message)
    → chosen ≤ length pivots
    → IsSorted buffer
    → CutLeft pivots chosen buffer
unfolding cut_left
cut_left_lem pivots zero buffer h s = record {
  batch = buffer;
  rest = [];
  cut = refl;
  at_batch = λ q. refl;
  at_rest = λ q. unfold get in refl;
  sorted_batch = s;
  sorted_rest = tt;
  shrinks = omega arith;
}
cut_left_lem pivots (suc i) buffer h s = at_pivot (get_elem?-in_range pivots i h)
  where
    at_pivot : (p : Key) × (get_elem? pivots i ≡ some p) → CutLeft pivots (suc i) buffer
    at_pivot (p, e) = record {
      batch = split_off p buffer;
      rest = below p buffer;
      cut = rw e;
      at_batch = λ q. ground (arith, e, get-split_off q p buffer, cmp-swap p q);
      at_rest = λ q. ground (arith, e, get-below q p buffer, cmp-swap p q);
      sorted_batch = split_off-IsSorted p buffer s;
      sorted_rest = below-IsSorted p buffer s;
      shrinks = omega (arith, length-below p buffer);
    }

-- What a complete extraction returns.
pub record IsExtracted (pivots : List Key) (chosen : ℕ) (buffer : BTreeMap Message) : Type 0 where
  pub batch : BTreeMap Message
  pub rest : BTreeMap Message
  pub extracted : extract pivots chosen buffer ≡ some (batch, rest)
  pub at_batch : (q : Key) → get q batch ≡ (if route pivots q == chosen then get q buffer else none)
  pub at_rest : (q : Key) → get q rest ≡ (if route pivots q == chosen then none else get q buffer)
  pub sorted_batch : IsSorted batch
  pub sorted_rest : IsSorted rest
  pub shrinks : length batch + length rest ≤ length buffer

-- With ascending pivots an extraction toward a child of a sorted buffer succeeds; the batch holds
-- the messages that `route` sends to that child, and the buffer keeps all others. Both are sorted,
-- and together they are no longer than the buffer was.
pub extract-IsExtracted :
    (pivots : List Key) (chosen : ℕ) (buffer : BTreeMap Message)
    → IsAscending pivots
    → chosen ≤ length pivots
    → IsSorted buffer
    → IsExtracted pivots chosen buffer
unfolding extract
extract-IsExtracted pivots chosen buffer a h s =
    let c = cut_left_lem pivots chosen buffer h s in
    elim (Option-cases (get_elem? pivots chosen)) [
      | inl e ↦ record {
        batch = c.batch;
        rest = c.rest;
        extracted = rw (c.cut, e);
        at_batch = λ q. ground (arith, e, c.at_batch q, owns_iff_route pivots q chosen a);
        at_rest = λ q. ground (arith, e, c.at_rest q, owns_iff_route pivots q chosen a);
        sorted_batch = c.sorted_batch;
        sorted_rest = c.sorted_rest;
        shrinks = c.shrinks;
      }
      | inr (hi, e) ↦ record {
        batch = below hi c.batch;
        rest = append c.rest (split_off hi c.batch);
        extracted = rw (c.cut, e);
        at_batch = λ q.
            ground
              (arith, e, get-below q hi c.batch, c.at_batch q, owns_iff_route pivots q chosen a);
        at_rest = λ q. ground (
          arith,
          e,
          get-append q c.rest (split_off hi c.batch),
          get-split_off q hi c.batch,
          c.at_batch q,
          c.at_rest q,
          owns_iff_route pivots q chosen a,
        );
        sorted_batch = below-IsSorted hi c.batch c.sorted_batch;
        sorted_rest = append-IsSorted c.rest (split_off hi c.batch) c.sorted_rest;
        shrinks = omega (
          arith,
          c.shrinks,
          length-below hi c.batch,
          length-append_map c.rest (split_off hi c.batch),
        );
      }
    ]
