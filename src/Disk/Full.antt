-- ===== src/Disk/Full.antt =====
-- src/disk.rs: the check of a whole tree, which loads it first with the budget of the cache taken away.
use beetree.Prelude.{ℕ, zero, suc, Option, none, some, [], length, get_elem?, ◌>>=◌}
use beetree.Vfs.Counting.{Vfs}
use beetree.Format.{Codec}
use beetree.Disk.{DiskEngine, DiskResult, loaded_slot, on_disk, freed}
use beetree.Disk.Cache.{touch, enforce_budget}
use beetree.Disk.Get.{load_all}
use beetree.Check.{check_invariants}
use beetree.Check.Violation.{InvariantViolation}
use beetree.Check.Sources.{disk_source}

module _ {D P : Type 0} where
  -- The resident nodes from `id` on are stamped, `n` slots in all.
  unfoldable pub restamp : ℕ → ℕ → DiskEngine D P → Option (DiskEngine D P)
  restamp zero id s = some s
  restamp (suc n) id s = do
    slot ← get_elem? s.slots id
    s' ← elim slot [ loaded_slot r ↦ touch id s | on_disk offset ↦ some s | freed ↦ some s ]
    restamp n (suc id) s'

  abbrev pub with_budget : Option ℕ → DiskEngine D P → DiskEngine D P
  with_budget budget s = record s { cache = record s.cache { budget = budget } }

  -- The budget is back, and enforced.
  unfoldable pub resume_budget : Option ℕ → DiskEngine D P → Option (DiskEngine D P)
  unfolding restamp
  resume_budget none s = enforce_budget [] none (with_budget none s)
  resume_budget (some budget) s = do
    s' ← restamp (length s.slots) 0 (with_budget (some budget) s)
    enforce_budget [] none s'

  unfoldable pub check_invariants_full :
      Vfs D → Codec → ℕ → ℕ → DiskEngine D P → Option (Option InvariantViolation × DiskEngine D P)
  unfolding resume_budget
  check_invariants_full vfs c visits f s = do
    (answer, s') ← load_all vfs c visits (with_budget none s)
    elim answer [
      | DiskResult.err e ↦ none
      | DiskResult.ok done ↦ (do
        result ← check_invariants f (disk_source s')
        s'' ← resume_budget s.cache.budget s'
        some (result, s''))
    ]
