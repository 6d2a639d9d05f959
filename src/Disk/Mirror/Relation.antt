-- ===== src/Disk/Mirror/Relation.antt =====
-- An engine that holds a tree's nodes in memory, and operations on both that agree.
use beetree.Prelude.{◌≡◌, ◌≤◌, refl, ap, ◌∙◌, Option, none, some, length, ◌>>=◌}
use beetree.Tree.Arena.{BeTree}
use beetree.Disk.{DiskEngine, DiskError, DiskResult}
use beetree.Disk.Get.{then_walk}
use beetree.Disk.Mirror.{IsSame}

-- An engine without a budget, and a tree with the same nodes and the same state besides.
pub record IsMirror {D P : Type 0} (t : BeTree P) (s : DiskEngine D P) : Type 0 where
  pub same : IsSame t.nodes s.slots
  pub dirties : length t.dirty ≡ length t.nodes
  pub unbounded : s.cache.budget ≡ none
  pub params : s.params ≡ t.params
  pub positive : 1 ≤ t.params.buffer_capacity
  pub root : s.root ≡ t.root
  pub next_seq : s.next_seq ≡ t.next_seq
  pub ops : s.ops_since_commit ≡ t.ops_since_commit
  pub policy : s.policy ≡ t.policy
  pub trace : s.trace ≡ t.trace

abbrev pub answer : {A E : Type 0} → A → E → Option (A × E)
answer a s = some (a, s)

-- What a result without an error answers.
strip : {A E : Type 0} → Option (DiskResult A × E) → Option (A × E)
strip none = none
strip (some (DiskResult.ok a, s)) = some (a, s)
strip (some (DiskResult.err e, s)) = none

pub strip-ok :
    {A E : Type 0} {a b : A} {s s' : E}
    → Path (Option (DiskResult A × E)) (some (DiskResult.ok a, s)) (some (DiskResult.ok b, s'))
    → answer a s ≡ answer b s'
unfolding strip
strip-ok e = ap strip e

-- A chain whose first step is known.
pub bind_to :
    {A B : Type 0} (o : Option A) (f : A → Option B) {a : A} {r : Option B}
    → o ≡ some a
    → f a ≡ r
    → (o >>= f) ≡ r
bind_to o f e k = ap (λ x. x >>= f) e ∙ k

-- The tree's operation answers as the engine's did, and leaves a tree with the engine's nodes.
pub record Follows {D P : Type 0} {A : Type 0} (o : Option (A × BeTree P)) (a : A)
    (s' : DiskEngine D P) : Type 0 where
  pub after : BeTree P
  pub runs : o ≡ some (a, after)
  pub mirror : IsMirror after s'

pub record Reaches {D P : Type 0} (o : Option (BeTree P)) (s' : DiskEngine D P) : Type 0 where
  pub after : BeTree P
  pub runs : o ≡ some after
  pub mirror : IsMirror after s'

err_ne_ok :
    {E B : Type 0} {e : DiskError} {b : B} {s s' : E}
    → Path (Option (DiskResult B × E)) (some (DiskResult.err e, s)) (some (DiskResult.ok b, s'))
    → ⊥
err_ne_ok e = cc

-- A walk that went through.
pub then_walk-ok :
    {A B E : Type 0} (o : Option (DiskResult A × E)) (f : A → E → Option (DiskResult B × E)) {b : B}
    {s' : E}
    → then_walk o f ≡ some (DiskResult.ok b, s')
    → (a : A) × (s1 : E) × (o ≡ some (DiskResult.ok a, s1)) × (f a s1 ≡ some (DiskResult.ok b, s'))
then_walk-ok none f h = cc
then_walk-ok (some (DiskResult.ok a, s1)) f h = (a, s1, refl, h)
then_walk-ok (some (DiskResult.err e, s1)) f h = absurd (err_ne_ok h)
