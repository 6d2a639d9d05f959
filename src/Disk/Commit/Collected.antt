-- ===== src/Disk/Commit/Collected.antt =====
-- src/disk.rs, `commit_inner`: the walk that collects the dirty nodes visits each of them once.
use beetree.Prelude.{ℕ, ◌≡◌, ◌≢◌, ◌⊎◌, some, List, [], ◌∷◌, AllOf, Distinct}
use beetree.Node.{NodeId, Node}
use beetree.Disk.{DiskEngine}
use beetree.Disk.Arena.{loaded}
use beetree.Disk.Commit.{next_visits}

-- No element of the one list stands in the other.
abbrev Apart : List ℕ → List ℕ → Type 0
Apart xs ys = AllOf (λ x. AllOf (λ y. x ≢ y) ys) xs

abbrev IsIn : ℕ → List ℕ → Type 0
IsIn x [] = ⊥
IsIn x (y ∷ ys) = (x ≡ y) ⊎ IsIn x ys

module _ {D P : Type 0} (s : DiskEngine D P) (parent : NodeId → NodeId) where
  -- A node's dirty children are distinct, have no other parent, and are not the root.
  pub record IsForest : Type 0 where
    pub below :
        (id : NodeId) (node : Node) (children : List NodeId)
        → loaded id s ≡ some node
        → next_visits node s ≡ some children
        → Distinct children × AllOf (λ child. (parent child ≡ id) × (child ≢ s.root)) children

  -- A node that the walk met: the root, or below a node that was visited.
  abbrev WasMet : List NodeId → NodeId → Type 0
  WasMet visited id = (id ≡ s.root) ⊎ IsIn (parent id) visited

  -- The stack and the visited nodes of the walk.
  record IsWalk (visit visited : List NodeId) : Type 0 where
    pub waiting : Distinct visit
    pub seen : Distinct visited
    pub apart : Apart visit visited
    pub waiting_met : AllOf (WasMet visited) visit
    pub seen_met : AllOf (WasMet visited) visited
