-- ===== src/Disk/Scan/Rounds.antt =====
-- src/disk.rs, one round of `try_scan` against one of the scan of an in-memory tree.
use beetree.Prelude.{
  ◌+◌, ◌≡◌, refl, sym, ap, ◌∙◌, Bool, true, false, Option, none, some, List, [], ◌∷◌, get_elem?,
  map, Option-cases, inl, inr, some_inj, bind_some, if◌then◌else◌, ◌>>=◌,
}
use beetree.Key.{Key}
use beetree.BTreeMap.{BTreeMap}
use beetree.Message.{Message}
use beetree.Node.{NodeId, Node, internal, leaf, Bound, range_is_empty, range}
use beetree.Tree.Scan
use beetree.Tree.Scan.{
  Frame, values_in, fold_messages, child_lower, child_upper, hand_down, visit_child,
}
use beetree.Vfs.Counting.{Vfs}
use beetree.Format.{Codec}
use beetree.Disk.{DiskEngine, DiskResult}
use beetree.Disk.Arena.{loaded}
use beetree.Disk.Get.{then_walk}
use beetree.Disk.Get.Resident.{IsResident, hit, ensure_loaded-hit, loaded-hit, IsResident-hit}
use beetree.Disk.Scan as DiskScan
use beetree.Disk.Mirror.Relation.{bind_to}

module _ {D P : Type 0} where
  -- A computation that answers, with the nodes still in memory.
  pub record Answers {A : Type 0} (nodes : List Node) (o : Option (DiskResult A × DiskEngine D P))
      (a : A) (s : DiskEngine D P) : Type 0 where
    pub after : DiskEngine D P
    pub runs : o ≡ some (DiskResult.ok a, after)
    pub slots : after.slots ≡ s.slots
    pub held : IsResident nodes after

  pub at_once :
      {A : Type 0} (nodes : List Node) (a b : A) (s : DiskEngine D P)
      → IsResident nodes s
      → a ≡ b
      → Answers nodes (some (DiskResult.ok a, s)) b s
  at_once nodes a b s held e = record {
    after = s;
    runs = ap (λ x. some (DiskResult.ok x, s)) e;
    slots = refl;
    held = held;
  }

module _ (nodes : List Node) where
  -- One round of the tree in memory, at an internal node.
  abbrev at_child :
      List Key → Option NodeId → BTreeMap Message → Frame → List Frame → Option Scan.Progress
  at_child pivots found buffer frame rest = elim found [
    | none ↦ some (hand_down (fold_messages (range frame.lo frame.hi buffer) frame.acc) rest)
    | some child ↦ (do
      c_lo ← child_lower frame.lo pivots frame.next_child
      c_hi ← child_upper frame.hi pivots frame.next_child
      let frame' : Frame = record frame { next_child = frame.next_child + 1 }
      if range_is_empty c_lo c_hi
          then some (Scan.Progress.again (frame' ∷ rest))
          else visit_child child (get_elem? nodes child) c_lo c_hi frame' rest)
  ]

  abbrev tree_at : Node → Frame → List Frame → Option Scan.Progress
  tree_at (leaf entries) frame rest = none
  tree_at (internal pivots children buffer) frame rest =
      at_child pivots (get_elem? children frame.next_child) buffer frame rest

  tree_round :
      (frame : Frame) (rest : List Frame) (node : Node)
      → get_elem? nodes frame.id ≡ some node
      → Scan.scan_round nodes (frame ∷ rest) ≡ tree_at node frame rest
  unfolding Scan.scan_round
  tree_round frame rest (leaf entries) e = rw (e, Scan.scan_round) refl
  tree_round frame rest (internal pivots children buffer) e = rw (e, Scan.scan_round) refl

module _ {D P : Type 0} (vfs : Vfs D) (c : Codec) (nodes : List Node) where
  enter_child-Answers :
      (child : NodeId) (c_lo c_hi : Bound) (frame : Frame) (rest : List Frame) (s : DiskEngine D P)
      (progress : Scan.Progress)
      → IsResident nodes s
      → visit_child child (get_elem? nodes child) c_lo c_hi frame rest ≡ some progress
      → Answers nodes (DiskScan.enter_child vfs c child c_lo c_hi frame rest s) progress s
  unfolding DiskScan.enter_child visit_child
  enter_child-Answers child c_lo c_hi frame rest s progress held h =
      elim (Option-cases (get_elem? nodes child)) [
        | inl e ↦ cc (rw (e, visit_child) at h)
        | inr (node, e) ↦
            let (r, at, same) = held.slots child node e in
            record {
              after = hit vfs c s;
              runs =
                  ap
                    (λ o. then_walk o λ done s'. (do
                      n ← loaded child s'
                      p ← visit_child child (some n) c_lo c_hi frame rest
                      some (DiskResult.ok p, s')))
                    (ensure_loaded-hit vfs c child (map (λ f. f.id) (frame ∷ rest)) s r
                      held.unbounded at)
                  ∙ bind_to (loaded child (hit vfs c s)) _
                      (loaded-hit vfs c child s r at ∙ ap some same)
                      (bind_to (visit_child child (some node) c_lo c_hi frame rest) _
                        (sym (ap (λ o. visit_child child o c_lo c_hi frame rest) e) ∙ h) refl);
              slots = refl;
              held = IsResident-hit vfs c nodes s held;
            }
      ]

  by_range :
      (empty : Bool) (child : NodeId) (c_lo c_hi : Bound) (frame : Frame) (rest : List Frame)
      (s : DiskEngine D P) (progress : Scan.Progress)
      → IsResident nodes s
      → (if empty
          then some (Scan.Progress.again (frame ∷ rest))
          else visit_child child (get_elem? nodes child) c_lo c_hi frame rest)
        ≡ some progress
      → Answers nodes
          (if empty
            then some (DiskResult.ok (Scan.Progress.again (frame ∷ rest)), s)
            else DiskScan.enter_child vfs c child c_lo c_hi frame rest s)
          progress
          s
  by_range true child c_lo c_hi frame rest s progress held h =
      at_once nodes _ progress s held (some_inj h)
  by_range false child c_lo c_hi frame rest s progress held h =
      enter_child-Answers child c_lo c_hi frame rest s progress held h

  scan_node-Answers :
      (pivots : List Key) (child : Option NodeId) (buffer : BTreeMap Message) (frame : Frame)
      (rest : List Frame) (s : DiskEngine D P) (progress : Scan.Progress)
      → IsResident nodes s
      → at_child nodes pivots child buffer frame rest ≡ some progress
      → Answers nodes (DiskScan.scan_node vfs c pivots child buffer frame rest s) progress s
  unfolding DiskScan.scan_node
  scan_node-Answers pivots none buffer frame rest s progress held h =
      at_once nodes _ progress s held (some_inj h)
  scan_node-Answers pivots (some child) buffer frame rest s progress held h =
      let (c_lo, e, h') = bind_some (child_lower frame.lo pivots frame.next_child) h in
      let (c_hi, e', h'') = bind_some (child_upper frame.hi pivots frame.next_child) h' in
      let f = by_range (range_is_empty c_lo c_hi) child c_lo c_hi _ rest s progress held h'' in
      record {
        after = f.after;
        runs =
            bind_to (child_lower frame.lo pivots frame.next_child) _ e
              (bind_to (child_upper frame.hi pivots frame.next_child) _ e' f.runs);
        slots = f.slots;
        held = f.held;
      }

  -- One round of the engine, at the node of its frame.
  abbrev disk_at :
      Node
      → Frame
      → List Frame
      → DiskEngine D P
      → Option (DiskResult Scan.Progress × DiskEngine D P)
  disk_at (leaf entries) frame rest s = none
  disk_at (internal pivots children buffer) frame rest s =
      DiskScan.scan_node vfs c pivots (get_elem? children frame.next_child) buffer frame rest s

  disk_at-Answers :
      (node : Node) (frame : Frame) (rest : List Frame) (s : DiskEngine D P)
      (progress : Scan.Progress)
      → IsResident nodes s
      → tree_at nodes node frame rest ≡ some progress
      → Answers nodes (disk_at node frame rest s) progress s
  disk_at-Answers (leaf entries) frame rest s progress held h = cc
  disk_at-Answers (internal pivots children buffer) frame rest s progress held h =
      scan_node-Answers pivots (get_elem? children frame.next_child) buffer frame rest s progress
        held h

  disk_round :
      (frame : Frame) (rest : List Frame) (s : DiskEngine D P) (node : Node)
      → loaded frame.id s ≡ some node
      → DiskScan.scan_round vfs c (frame ∷ rest) s ≡ disk_at node frame rest s
  unfolding DiskScan.scan_round
  disk_round frame rest s (leaf entries) e = rw (e, DiskScan.scan_round) refl
  disk_round frame rest s (internal pivots children buffer) e = rw (e, DiskScan.scan_round) refl

  pub scan_round-Answers :
      (stack : List Frame) (s : DiskEngine D P) (progress : Scan.Progress)
      → IsResident nodes s
      → Scan.scan_round nodes stack ≡ some progress
      → Answers nodes (DiskScan.scan_round vfs c stack s) progress s
  unfolding Scan.scan_round loaded
  scan_round-Answers [] s progress held h = cc
  scan_round-Answers (frame ∷ rest) s progress held h =
      elim (Option-cases (get_elem? nodes frame.id)) [
        | inl e ↦ cc (rw (e, Scan.scan_round) at h)
        | inr (node, e) ↦
            let (r, at, same) = held.slots frame.id node e in
            let f =
              disk_at-Answers node frame rest s progress held
                (sym (tree_round nodes frame rest node e) ∙ h) in
            record {
              after = f.after;
              runs =
                  disk_round frame rest s node (loaded-hit vfs c frame.id s r at ∙ ap some same)
                  ∙ f.runs;
              slots = f.slots;
              held = f.held;
            }
      ]
