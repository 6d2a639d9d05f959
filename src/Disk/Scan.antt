-- ===== src/Disk/Scan.antt =====
-- src/disk.rs: `try_scan`, bottom-up over explicit frames whose nodes are pinned against eviction.
-- `fuel` is fuel; `none` is a panic, and also means that it ran out.
pub mod Rounds
pub mod Resident
use beetree.Prelude.{
  ℕ, zero, suc, ◌+◌, Option, none, some, List, [], ◌∷◌, get_elem?, if◌then◌else◌, ◌>>=◌, map,
}
use beetree.Key.{Key}
use beetree.BTreeMap.{BTreeMap}
use beetree.Message.{Value, Message}
use beetree.Node.{NodeId, internal, leaf, Bound, range_is_empty, range}
use beetree.Trace.{record_scan}
use beetree.Tree.Scan
use beetree.Tree.Scan.{
  Frame, values_in, fold_messages, child_lower, child_upper, hand_down, visit_child,
}
use beetree.Vfs.Counting.{Vfs}
use beetree.Format.{Codec}
use beetree.Disk.{DiskEngine, DiskResult}
use beetree.Disk.Arena.{loaded}
use beetree.Disk.Load.{ensure_loaded}
use beetree.Disk.Get.{then_walk}

module _ {D P : Type 0} (vfs : Vfs D) (c : Codec) where
  -- A child whose clipped range is not empty is loaded.
  unfoldable pub enter_child :
      NodeId
      → Bound
      → Bound
      → Frame
      → List Frame
      → DiskEngine D P
      → Option (DiskResult Scan.Progress × DiskEngine D P)
  enter_child child c_lo c_hi frame rest s =
      then_walk (ensure_loaded vfs c child (map (λ f. f.id) (frame ∷ rest)) s) λ done s'. (do
        node ← loaded child s'
        progress ← visit_child child (some node) c_lo c_hi frame rest
        some (DiskResult.ok progress, s'))

  -- One round at a resident internal node.
  unfoldable pub scan_node :
      List Key
      → Option NodeId
      → BTreeMap Message
      → Frame
      → List Frame
      → DiskEngine D P
      → Option (DiskResult Scan.Progress × DiskEngine D P)
  unfolding enter_child
  scan_node pivots none buffer frame rest s =
      some (
        DiskResult.ok (hand_down (fold_messages (range frame.lo frame.hi buffer) frame.acc) rest),
        s,
      )
  scan_node pivots (some child) buffer frame rest s = do
    c_lo ← child_lower frame.lo pivots frame.next_child
    c_hi ← child_upper frame.hi pivots frame.next_child
    let frame' : Frame = record frame { next_child = frame.next_child + 1 }
    if range_is_empty c_lo c_hi
        then some (DiskResult.ok (Scan.Progress.again (frame' ∷ rest)), s)
        else enter_child child c_lo c_hi frame' rest s

  unfoldable pub scan_round :
      List Frame → DiskEngine D P → Option (DiskResult Scan.Progress × DiskEngine D P)
  unfolding scan_node
  scan_round [] s = none
  scan_round (frame ∷ rest) s = elim (loaded frame.id s) [
    | none ↦ none
    | some (leaf entries) ↦ none
    | some (internal pivots children buffer) ↦
        scan_node pivots (get_elem? children frame.next_child) buffer frame rest s
  ]

  unfoldable pub scan_loop :
      ℕ → List Frame → DiskEngine D P → Option (DiskResult (BTreeMap Value) × DiskEngine D P)
  unfolding scan_round
  scan_loop zero stack s = none
  scan_loop (suc fuel) stack s = then_walk (scan_round stack s) λ progress s'. elim progress [
    | Scan.Progress.done acc ↦ some (DiskResult.ok acc, s')
    | Scan.Progress.again stack' ↦ scan_loop fuel stack' s'
  ]

  unfoldable pub scan_root :
      ℕ → Bound → Bound → DiskEngine D P → Option (DiskResult (BTreeMap Value) × DiskEngine D P)
  unfolding scan_loop
  scan_root fuel lo hi s = then_walk (ensure_loaded vfs c s.root [] s) λ done s'.
      elim (loaded s'.root s') [
        | none ↦ none
        | some (leaf entries) ↦ some (DiskResult.ok (values_in lo hi entries), s')
        | some (internal pivots children buffer) ↦
            scan_loop fuel
              (record { id = s'.root; lo = lo; hi = hi; next_child = 0; acc = [] } ∷ []) s'
      ]

  unfoldable pub try_scan :
      ℕ → Bound → Bound → DiskEngine D P → Option (DiskResult (List (Key × Value)) × DiskEngine D P)
  unfolding scan_root
  try_scan fuel lo hi s =
      let s' = record s { trace = record_scan lo hi s.trace } in
      if range_is_empty lo hi then some (DiskResult.ok [], s') else scan_root fuel lo hi s'
