-- ===== src/Disk/Scan/Resident.antt =====
-- src/disk.rs, `try_scan`: the disk engine against the in-memory tree.
use beetree.Prelude.{
  ℕ, zero, suc, ◌≡◌, refl, sym, ap, ◌∙◌, Bool, true, false, Option, none, some, List, [], ◌∷◌,
  get_elem?, Option-cases, inl, inr, some_inj, bind_some, if◌then◌else◌, ◌>>=◌,
}
use mathlib.Core.Path.{subst}
use beetree.Key.{Key}
use beetree.BTreeMap.{BTreeMap}
use beetree.Message.{Value}
use beetree.Node.{NodeId, Node, internal, leaf, Bound, range_is_empty}
use beetree.Trace.{record_scan}
use beetree.Tree.Arena.{BeTree}
use beetree.Tree.Scan
use beetree.Tree.Scan.{
  Frame, values_in, fold_messages, child_lower, child_upper, hand_down, visit_child,
}
use beetree.Vfs.Counting.{Vfs}
use beetree.Format.{Codec}
use beetree.Disk.{DiskEngine, DiskResult}
use beetree.Disk.Arena.{loaded}
use beetree.Disk.Get.{then_walk}
use beetree.Disk.Get.Resident.{IsResident, hit, ensure_loaded-hit, loaded-hit, IsResident-hit}
use beetree.Disk.Scan as DiskScan
use beetree.Disk.Scan.Rounds.{Answers, at_once, scan_round-Answers}

-- The tree's answer, with its found items.
abbrev tree_answer :
    {Q : Type 0}
    → Bool
    → Option (BTreeMap Value)
    → BeTree Q
    → Option (List (Key × Value) × BeTree Q)
tree_answer empty found tree =
    if empty then some ([], tree) else (do items ← found; some (items, tree))

module _ {D P : Type 0} (vfs : Vfs D) (c : Codec) (nodes : List Node) where
  next-Answers :
      (fuel : ℕ) (progress : Scan.Progress) (s : DiskEngine D P) (acc : BTreeMap Value)
      → IsResident nodes s
      → ((stack : List Frame)
          → Scan.scan_loop fuel nodes stack ≡ some acc
          → Answers nodes (DiskScan.scan_loop vfs c fuel stack s) acc s)
      → elim progress [
        | Scan.Progress.done found ↦ some found
        | Scan.Progress.again stack ↦ Scan.scan_loop fuel nodes stack
      ]
        ≡ some acc
      → Answers nodes
          (elim progress [
            | Scan.Progress.done found ↦ some (DiskResult.ok found, s)
            | Scan.Progress.again stack ↦ DiskScan.scan_loop vfs c fuel stack s
          ])
          acc
          s
  next-Answers fuel (Scan.Progress.done found) s acc held next h =
      at_once nodes found acc s held (some_inj h)
  next-Answers fuel (Scan.Progress.again stack) s acc held next h = next stack h

  scan_loop-Answers :
      (fuel : ℕ) (stack : List Frame) (s : DiskEngine D P) (acc : BTreeMap Value)
      → IsResident nodes s
      → Scan.scan_loop fuel nodes stack ≡ some acc
      → Answers nodes (DiskScan.scan_loop vfs c fuel stack s) acc s
  unfolding Scan.scan_loop DiskScan.scan_loop
  scan_loop-Answers zero stack s acc held h = cc
  scan_loop-Answers (suc fuel) stack s acc held h =
      elim (Option-cases (Scan.scan_round nodes stack)) [
        | inl e ↦ cc (rw (e, Scan.scan_loop) at h)
        | inr (progress, e) ↦
            let f = scan_round-Answers vfs c nodes stack s progress held e in
            let g =
              next-Answers fuel progress f.after acc f.held
                (λ stack' h'. scan_loop-Answers fuel stack' f.after acc f.held h')
                (rw (e, Scan.scan_loop) at h) in
            record {
              after = g.after;
              runs =
                  ap
                    (λ o. then_walk o λ p s'. elim p [
                      | Scan.Progress.done found ↦ some (DiskResult.ok found, s')
                      | Scan.Progress.again stack' ↦ DiskScan.scan_loop vfs c fuel stack' s'
                    ])
                    f.runs
                  ∙ g.runs;
              slots = g.slots ∙ f.slots;
              held = g.held;
            }
      ]

  -- What follows the load of the root.
  abbrev disk_root :
      ℕ
      → NodeId
      → Bound
      → Bound
      → DiskEngine D P
      → Node
      → Option (DiskResult (BTreeMap Value) × DiskEngine D P)
  disk_root fuel root lo hi s (leaf entries) = some (DiskResult.ok (values_in lo hi entries), s)
  disk_root fuel root lo hi s (internal pivots children buffer) =
      DiskScan.scan_loop vfs c fuel
        (record { id = root; lo = lo; hi = hi; next_child = 0; acc = [] } ∷ []) s

  disk_root-Answers :
      (fuel : ℕ) (root : NodeId) (node : Node) (lo hi : Bound) (s : DiskEngine D P)
      (acc : BTreeMap Value)
      → IsResident nodes s
      → Scan.scan_root fuel nodes root (some node) lo hi ≡ some acc
      → Answers nodes (disk_root fuel root lo hi s node) acc s
  unfolding Scan.scan_root
  disk_root-Answers fuel root (leaf entries) lo hi s acc held h =
      at_once nodes (values_in lo hi entries) acc s held (some_inj h)
  disk_root-Answers fuel root (internal pivots children buffer) lo hi s acc held h =
      scan_loop-Answers fuel _ s acc held h

  loaded_root :
      (fuel : ℕ) (lo hi : Bound) (s : DiskEngine D P) (node : Node)
      → loaded s.root s ≡ some node
      → elim (loaded s.root s) [
        | none ↦ none
        | some (leaf entries) ↦ some (DiskResult.ok (values_in lo hi entries), s)
        | some (internal pivots children buffer) ↦
            DiskScan.scan_loop vfs c fuel
              (record { id = s.root; lo = lo; hi = hi; next_child = 0; acc = [] } ∷ [])
              s
      ]
        ≡ disk_root fuel s.root lo hi s node
  loaded_root fuel lo hi s (leaf entries) e = rw e refl
  loaded_root fuel lo hi s (internal pivots children buffer) e = rw e refl

  scan_root-Answers :
      (fuel : ℕ) (lo hi : Bound) (s : DiskEngine D P) (acc : BTreeMap Value)
      → IsResident nodes s
      → Scan.scan_root fuel nodes s.root (get_elem? nodes s.root) lo hi ≡ some acc
      → Answers nodes (DiskScan.scan_root vfs c fuel lo hi s) acc s
  unfolding Scan.scan_root DiskScan.scan_root
  scan_root-Answers fuel lo hi s acc held h = elim (Option-cases (get_elem? nodes s.root)) [
    | inl e ↦ cc (rw (e, Scan.scan_root) at h)
    | inr (node, e) ↦
        let (r, at, same) = held.slots s.root node e in
        let f =
          disk_root-Answers fuel s.root node lo hi (hit vfs c s) acc
            (IsResident-hit vfs c nodes s held)
            (sym (ap (λ o. Scan.scan_root fuel nodes s.root o lo hi) e) ∙ h) in
        record {
          after = f.after;
          runs =
              ap
                (λ o. then_walk o λ done s'. elim (loaded s'.root s') [
                  | none ↦ none
                  | some (leaf entries) ↦ some (DiskResult.ok (values_in lo hi entries), s')
                  | some (internal pivots children buffer) ↦
                      DiskScan.scan_loop vfs c fuel
                        (record { id = s'.root; lo = lo; hi = hi; next_child = 0; acc = [] } ∷ [])
                        s'
                ])
                (ensure_loaded-hit vfs c s.root [] s r held.unbounded at)
              ∙ loaded_root fuel lo hi (hit vfs c s) node
                  (loaded-hit vfs c s.root s r at ∙ ap some same)
              ∙ f.runs;
          slots = f.slots;
          held = f.held;
        }
  ]

  by_bounds :
      {Q : Type 0} (empty : Bool) (fuel : ℕ) (lo hi : Bound) (tree tree' : BeTree Q)
      (s : DiskEngine D P) (items : List (Key × Value))
      → IsResident nodes s
      → tree_answer empty (Scan.scan_root fuel nodes s.root (get_elem? nodes s.root) lo hi) tree
        ≡ some (items, tree')
      → Answers nodes
          (if empty then some (DiskResult.ok [], s) else DiskScan.scan_root vfs c fuel lo hi s)
          items
          s
  by_bounds true fuel lo hi tree tree' s items held h =
      at_once nodes [] items s held (ap (λ p. p.0) (some_inj h))
  by_bounds false fuel lo hi tree tree' s items held h =
      let (found, e, h') =
        bind_some (Scan.scan_root fuel nodes s.root (get_elem? nodes s.root) lo hi) h in
      scan_root-Answers fuel lo hi s items held (e ∙ ap (λ p. some p.0) (some_inj h'))

-- An engine with an unbounded cache that holds in memory the nodes of an in-memory tree, under its
-- root: where `scan` answers on that tree within some fuel, `try_scan` gives the same answer with that
-- fuel, over any file system whose state reads leave as it is; the slots are as they were, and the nodes still in memory.
pub try_scan-scan :
    {D P Q : Type 0} (vfs : Vfs D) (c : Codec) (fuel : ℕ) (lo hi : Bound) (tree tree' : BeTree Q)
    (s : DiskEngine D P) (items : List (Key × Value))
    → IsResident tree.nodes s
    → s.root ≡ tree.root
    → Scan.scan fuel lo hi tree ≡ some (items, tree')
    → Answers tree.nodes (DiskScan.try_scan vfs c fuel lo hi s) items s
unfolding DiskScan.try_scan Scan.scan
try_scan-scan vfs c fuel lo hi tree tree' s items held root h =
    let f =
      by_bounds vfs c tree.nodes (range_is_empty lo hi) fuel lo hi
        (record tree { trace = record_scan lo hi tree.trace }) tree'
        (record s { trace = record_scan lo hi s.trace }) items
        (record { unbounded = held.unbounded; slots = held.slots })
        (subst
          (λ root.
            tree_answer (range_is_empty lo hi)
              (Scan.scan_root fuel tree.nodes root (get_elem? tree.nodes root) lo hi)
              (record tree { trace = record_scan lo hi tree.trace })
            ≡ some (items, tree'))
          (sym root) h) in
    record { after = f.after; runs = f.runs; slots = f.slots; held = f.held }
