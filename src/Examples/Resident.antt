-- ===== src/Examples/Resident.antt =====
-- A tree of two nodes in memory, in both engines.
use beetree.Prelude.{zero, suc, ◌≡◌, refl, some, [], ◌∷◌, get_elem?, true, some_inj}
use beetree.Bytes.{to_le_bytes, wrapping_add}
use beetree.Engine.{default_params}
use beetree.Key.{cmp}
use beetree.BTreeMap
use beetree.Message
use beetree.Message.{Value}
use beetree.Node.{NodeId, Node, route, apply_chain, unbounded, range_is_empty, range}
use beetree.Trace
use beetree.Tree.Arena.{BeTree}
use beetree.Tree.Get
use beetree.Vfs.{FaultyState}
use beetree.Vfs.Counting.{faulty}
use beetree.Disk.{DiskEngine, DiskResult, NodeSlot, Resident}
use beetree.Tree.Scan
use beetree.Disk.Scan.{try_scan}
use beetree.Disk.Scan.Rounds.{Answers}
use beetree.Disk.Scan.Resident.{try_scan-scan}
use beetree.Disk.Get.{try_get}
use beetree.Disk.Get.Resident.{IsResident, try_get-get}
use beetree.Examples.Codec.{numbers}
use beetree.Examples.Disk.{engine, dirty_root}

-- An upsert waits in the root, above a leaf without entries.
abbrev top : Node
top = Node.internal [] (1 ∷ []) ((7 ∷ [], Message.upsert 2 (Message.add 5)) ∷ [])

abbrev tree : BeTree (Unit {0})
tree = record {
  params = default_params;
  nodes = top ∷ Node.leaf [] ∷ [];
  dirty = true ∷ true ∷ [];
  root = 0;
  next_seq = 2;
  ops_since_commit = 2;
  policy = tt;
  trace = Trace.default;
}

abbrev loaded_engine : DiskEngine FaultyState (Unit {0})
loaded_engine = record engine {
  slots =
      NodeSlot.loaded_slot (record dirty_root { node = top })
      ∷ NodeSlot.loaded_slot dirty_root
      ∷ [];
}

loaded_engine-IsResident : IsResident tree.nodes loaded_engine
loaded_engine-IsResident = record { unbounded = refl; slots = held }
  where
    held :
        (id : NodeId) (node : Node)
        → get_elem? tree.nodes id ≡ some node
        → (r : Resident) × (get_elem? loaded_engine.slots id ≡ some (NodeSlot.loaded_slot r))
          × (r.node ≡ node)
    held zero node e = (record dirty_root { node = top }, refl, some_inj e)
    held (suc zero) node e = (dirty_root, refl, some_inj e)
    held (suc (suc n)) node e = cc

try_get-get_example :
    (t : DiskEngine FaultyState (Unit {0})) × (try_get faulty numbers 2 (7 ∷ []) loaded_engine
      ≡ some (DiskResult.ok (some (5 ∷ 0 ∷ 0 ∷ 0 ∷ 0 ∷ 0 ∷ 0 ∷ 0 ∷ [])), t))
    × (t.slots ≡ loaded_engine.slots)
unfolding Get.get BTreeMap.get cmp route apply_chain Message.apply to_le_bytes wrapping_add
try_get-get_example =
    try_get-get faulty numbers (7 ∷ []) tree
      (record tree { trace = Trace.record_get (7 ∷ []) tree.trace }) loaded_engine
      (some (5 ∷ 0 ∷ 0 ∷ 0 ∷ 0 ∷ 0 ∷ 0 ∷ 0 ∷ [])) loaded_engine-IsResident refl refl

try_scan-scan_example :
    Answers tree.nodes
      (try_scan faulty numbers 4 unbounded unbounded loaded_engine)
      ((7 ∷ [], 5 ∷ 0 ∷ 0 ∷ 0 ∷ 0 ∷ 0 ∷ 0 ∷ 0 ∷ []) ∷ [])
      loaded_engine
unfolding Scan.scan BTreeMap.get BTreeMap.insert BTreeMap.retain BTreeMap.append Message.apply
    to_le_bytes wrapping_add cmp range_is_empty range
try_scan-scan_example =
    try_scan-scan faulty numbers 4 unbounded unbounded tree
      (record tree { trace = Trace.record_scan unbounded unbounded tree.trace }) loaded_engine
      ((7 ∷ [], 5 ∷ 0 ∷ 0 ∷ 0 ∷ 0 ∷ 0 ∷ 0 ∷ 0 ∷ []) ∷ []) loaded_engine-IsResident refl refl
