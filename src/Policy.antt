-- ===== src/Policy.antt =====
-- src/policy.rs: the context of a flush decision, the greedy rule, and the size of an entry.
pub mod Greedy
use beetree.Prelude.{
  ℕ, zero, suc, ◌+◌, Bool, Option, none, some, List, [], ◌∷◌, get_elem?, length, ltb, if◌then◌else◌,
}
use beetree.Key.{Key}
use beetree.Message.{Message, put, delete, upsert}
use beetree.Node.{NodeId}

pub record FlushCtx : Type 0 where
  pub node : NodeId
  pub depth : ℕ
  pub child_pending : List ℕ
  pub child_pending_bytes : List ℕ
  pub child_dirty : List Bool
  pub buffer_total : ℕ
  pub ops_since_commit : ℕ

-- A `FlushPolicy` in a state of type `P`: its choice, and its state afterwards.
abbrev pub FlushPolicy : Type 0 → Type 0
FlushPolicy P = P → FlushCtx → ℕ × P

-- `child_pending[i]`, where the index is in range.
abbrev pub count_at : List ℕ → ℕ → ℕ
count_at xs i = elim (get_elem? xs i) [ none ↦ 0 | some n ↦ n ]

-- The scan from index `i` on, with the child that is chosen so far.
unfoldable pub pick_loop : List ℕ → ℕ → ℕ → List ℕ → ℕ
pick_loop child_pending chosen i [] = chosen
pick_loop child_pending chosen i (count ∷ rest) =
    let better = ltb (count_at child_pending chosen) count in
    pick_loop child_pending (if better then i else chosen) (suc i) rest

-- `GreedyFullest::pick`.
unfoldable pub pick : List ℕ → ℕ
unfolding pick_loop
pick child_pending = pick_loop child_pending 0 0 child_pending

-- `GreedyFullest::choose`, a policy without state.
abbrev pub greedy : FlushPolicy (Unit {0})
greedy s ctx = (pick ctx.child_pending, s)

-- The bytes of a message: the variant tag, the sequence number, and the fields.
unfoldable pub message_bytes : Message → ℕ
message_bytes (put s value) = 4 + 8 + 8 + length value
message_bytes (delete s) = 4 + 8
message_bytes (upsert s op) = 4 + 8 + 4 + 8

unfoldable pub entry_bytes : Key → Message → ℕ
unfolding message_bytes
entry_bytes key message = 8 + length key + message_bytes message
