-- ===== src/Check/Sources.antt =====
-- src/betree.rs and src/disk.rs: how the engines resolve the nodes that the checker asks for.
use beetree.Prelude.{Option, none, some, get_elem?, ◌>>=◌}
use beetree.Node.{NodeId, Node}
use beetree.Tree.Arena.{BeTree}
use beetree.Disk.{DiskEngine, loaded_slot, on_disk, freed}
use beetree.Check.Nodes.{NodeSource}

module _ {P : Type 0} where
  abbrev pub be_tree_source : BeTree P → NodeSource
  be_tree_source s = record { root = s.root; params = s.params; node = λ id. get_elem? s.nodes id }

module _ {D P : Type 0} where
  -- Only resident nodes are found.
  abbrev pub resident_node : DiskEngine D P → NodeId → Option Node
  resident_node s id = do
    slot ← get_elem? s.slots id
    elim slot [ loaded_slot r ↦ some r.node | on_disk offset ↦ none | freed ↦ none ]

  abbrev pub disk_source : DiskEngine D P → NodeSource
  disk_source s = record { root = s.root; params = s.params; node = resident_node s }
