-- ===== src/Disk/Cache.antt =====
-- src/disk.rs: the bounded node cache: `touch` and `enforce_budget`. `none` is a panic: an index
-- out of range, or a clean resident node without a disk offset.
pub mod Safety
pub mod Budget
use beetree.Prelude.{
  ℕ, zero, suc, ◌+◌, ◌*◌, ◌%◌, Bool, true, false, not, ◌||◌, ◌==◌, Option, none, some, List, [],
  ◌∷◌, ◌++◌, length, get_elem?, set, ltb, if◌then◌else◌, ◌>>=◌,
}
use beetree.Bytes.{u64_mod, wrapping_add, wrapping_sub}
use beetree.Node.{NodeId}
use beetree.Disk.{
  NodeSlot, loaded_slot, on_disk, freed, NodeCache, CacheStats, DiskEngine, Resident,
}

unfoldable pub contains : List NodeId → NodeId → Bool
contains [] id = false
contains (p ∷ pins) id = p == id || contains pins id

-- `just_loaded == Some(id)`.
abbrev pub is_id : Option NodeId → NodeId → Bool
is_id none id = false
is_id (some j) id = j == id

-- The entry of the queue is the latest access of a resident node.
unfoldable pub is_current : List NodeSlot → NodeId × ℕ → Option Bool
is_current slots (id, tick) = do
  slot ← get_elem? slots id
  elim slot [
    | loaded_slot r ↦ some (r.last_tick == tick)
    | on_disk offset ↦ some false
    | freed ↦ some false
  ]

unfoldable pub retain_current : List NodeSlot → List (NodeId × ℕ) → Option (List (NodeId × ℕ))
unfolding is_current
retain_current slots [] = some []
retain_current slots (e ∷ lru) = do
  current ← is_current slots e
  rest ← retain_current slots lru
  some (if current then e ∷ rest else rest)

unfoldable pub stamped : ℕ → NodeSlot → NodeSlot
stamped tick (loaded_slot r) = loaded_slot (record r { last_tick = tick })
stamped tick (on_disk offset) = on_disk offset
stamped tick freed = freed

-- `64.max(resident * 4)`.
abbrev pub lru_limit : ℕ → ℕ
lru_limit resident = let four = (resident * 4) % u64_mod in if ltb 64 four then four else 64

module _ {D P : Type 0} where
  abbrev pub set_slot : NodeId → NodeSlot → DiskEngine D P → DiskEngine D P
  set_slot id slot s = record s { slots = set s.slots id slot }

  -- A fresh tick, as the latest access of the node if it is resident, and its entry at the back.
  unfoldable pub push_tick : NodeId → DiskEngine D P → Option (DiskEngine D P)
  unfolding stamped
  push_tick id s = do
    slot ← get_elem? s.slots id
    let tick = wrapping_add s.cache.tick 1
    some (record s {
      slots = set s.slots id (stamped tick slot);
      cache = record s.cache { tick = tick; lru = s.cache.lru ++ (id, tick) ∷ [] };
    })

  unfoldable pub compact : DiskEngine D P → Option (DiskEngine D P)
  compact s =
      if ltb (lru_limit s.cache.resident) (length s.cache.lru)
      then (do
        lru ← retain_current s.slots s.cache.lru
        some (record s { cache = record s.cache { lru = lru } }))
      else some s

  unfoldable pub touch : NodeId → DiskEngine D P → Option (DiskEngine D P)
  unfolding push_tick compact
  touch id s = elim s.cache.budget [
    | none ↦ some s
    | some budget ↦ (do s' ← push_tick id s; compact s')
  ]

  -- A clean node goes back to its record.
  unfoldable pub evict : NodeId → Resident → DiskEngine D P → Option (DiskEngine D P)
  evict id r s = do
    offset ← r.disk_offset
    some (record s {
      slots = set s.slots id (on_disk offset);
      cache = record s.cache {
        bytes = wrapping_sub s.cache.bytes r.bytes;
        resident = wrapping_sub s.cache.resident 1;
        evictions = wrapping_add s.cache.evictions 1;
      };
    })

  -- What happens to a resident node whose entry was taken from the front of the queue.
  unfoldable pub examine_resident :
      List NodeId → Option NodeId → NodeId → ℕ → Resident → DiskEngine D P → Option (DiskEngine D P)
  unfolding push_tick evict contains
  examine_resident pins just_loaded id tick r s =
      if not (r.last_tick == tick)
      then some s
      else if r.dirty || contains pins id || is_id just_loaded id
      then push_tick id s
      else evict id r s

  unfoldable pub examine :
      List NodeId → Option NodeId → NodeId → ℕ → DiskEngine D P → Option (DiskEngine D P)
  unfolding examine_resident
  examine pins just_loaded id tick s = do
    slot ← get_elem? s.slots id
    elim slot [
      | loaded_slot r ↦ examine_resident pins just_loaded id tick r s
      | on_disk offset ↦ some s
      | freed ↦ some s
    ]

  -- The rounds that are left, at most one for each entry that the queue had.
  unfoldable pub enforce_loop :
      ℕ → ℕ → List NodeId → Option NodeId → DiskEngine D P → Option (DiskEngine D P)
  enforce_loop zero budget pins just_loaded s = some s
  enforce_loop (suc n) budget pins just_loaded s = elim (ltb budget s.cache.bytes) [
    | false ↦ some s
    | true ↦ elim s.cache.lru [
      | [] ↦ some s
      | (id, tick) ∷ rest ↦ (do
        s' ← examine pins just_loaded id tick (record s { cache = record s.cache { lru = rest } })
        enforce_loop n budget pins just_loaded s')
    ]
  ]

  abbrev pub count_overcommit : ℕ → DiskEngine D P → DiskEngine D P
  count_overcommit budget s =
      if ltb budget s.cache.bytes
      then record s {
        cache = record s.cache { overcommit_events = wrapping_add s.cache.overcommit_events 1 };
      }
      else s

  unfoldable pub enforce_budget :
      List NodeId → Option NodeId → DiskEngine D P → Option (DiskEngine D P)
  unfolding enforce_loop
  enforce_budget pins just_loaded s = elim s.cache.budget [
    | none ↦ some s
    | some budget ↦ (do
      s' ← enforce_loop (length s.cache.lru) budget pins just_loaded s
      some (count_overcommit budget s'))
  ]

  unfoldable pub cache_stats : DiskEngine D P → CacheStats
  cache_stats s = record {
    hits = s.cache.hits;
    misses = s.cache.misses;
    evictions = s.cache.evictions;
    overcommit_events = s.cache.overcommit_events;
    resident_bytes = s.cache.bytes;
  }
