-- ===== src/Policy/Greedy.antt =====
-- The greedy rule returns the lowest index of the largest count.
use beetree.Prelude.{ℕ, suc, ◌+◌, ◌≤◌, ◌<◌, ◌≡◌, List, [], ◌∷◌, arith, length, ltb, if◌then◌else◌}
use mathlib.Core.Path.{subst, ap, ◌∙◌}
use native.Mathlib.Nat.{add-zero}
use beetree.Policy.{count_at, pick_loop, pick}

-- `c` is the first index of a largest count among the indices below `n`.
pub record IsFirstMax (xs : List ℕ) (n c : ℕ) : Type 0 where
  pub largest : (j : ℕ) → j < n → count_at xs j ≤ count_at xs c
  pub first : (j : ℕ) → j < c → count_at xs j < count_at xs c

step-IsFirstMax :
    (all : List ℕ) (chosen i : ℕ)
    → chosen ≤ i
    → IsFirstMax all i chosen
    → IsFirstMax all (suc i) (if ltb (count_at all chosen) (count_at all i) then i else chosen)
step-IsFirstMax all chosen i h m = record {
  largest = λ j hj. ground (arith, m.largest j);
  first = λ j hj. ground (arith, m.largest j, m.first j);
}

-- The scan from index `i`, over the counts `rest` that stand there.
pick_loop-IsFirstMax :
    (all rest : List ℕ) (chosen i : ℕ)
    → ((j : ℕ) → count_at rest j ≡ count_at all (i + j))
    → chosen ≤ i
    → IsFirstMax all i chosen
    → IsFirstMax all (i + length rest) (pick_loop all chosen i rest)
unfolding pick_loop
pick_loop-IsFirstMax all [] chosen i same h m = rw add-zero m
pick_loop-IsFirstMax all (count ∷ rest) chosen i same h m =
    let here : count ≡ count_at all i = same 0 ∙ ap (count_at all) (add-zero i) in
    let next = if ltb (count_at all chosen) count then i else chosen in
    let ih : IsFirstMax all (suc i + length rest) (pick_loop all next (suc i) rest) =
      pick_loop-IsFirstMax all rest next (suc i)
        (λ j. same (suc j) ∙ ap (count_at all) (omega arith)) (ground arith)
        (rw here (step-IsFirstMax all chosen i h m)) in
    subst (λ n. IsFirstMax all n (pick_loop all next (suc i) rest)) (omega arith) ih

-- The greedy rule chooses the child with the most pending messages, the lowest index on ties.
pub pick-IsFirstMax :
    (child_pending : List ℕ) → IsFirstMax child_pending (length child_pending) (pick child_pending)
unfolding pick
pick-IsFirstMax xs =
    subst (λ n. IsFirstMax xs n (pick_loop xs 0 0 xs)) (omega arith)
      (pick_loop-IsFirstMax xs xs 0 0 (λ j. ap (count_at xs) (omega arith)) (omega arith)
        (record { largest = λ j h. absurd (omega arith); first = λ j h. absurd (omega arith) }))
