-- ===== src/Message.antt =====
-- src/types.rs: values, upserts and messages.
pub mod Algebra
use beetree.Prelude.{ℕ, Option, none, some, List, Bool, ◌==◌, length, if◌then◌else◌}
use beetree.Bytes.{wrapping_add, to_le_bytes, from_le_bytes}

abbrev pub Value : Type 0
Value = List ℕ

-- An `i64` delta is its two's-complement bit pattern.
pub data UpsertOp : Type 0 where
  add : ℕ → UpsertOp

-- The number that `UpsertOp::apply` starts from.
unfoldable pub base : Option Value → ℕ
base none = 0
base (some bytes) = if length bytes == 8 then from_le_bytes bytes else 0

unfoldable pub apply : UpsertOp → Option Value → Value
unfolding base
apply (add delta) existing = to_le_bytes (wrapping_add (base existing) delta)

pub data Message : Type 0 where
  put : ℕ → Value → Message
  delete : ℕ → Message
  upsert : ℕ → UpsertOp → Message

unfoldable pub seq : Message → ℕ
seq (put s value) = s
seq (delete s) = s
seq (upsert s op) = s

-- `newer.coalesce(older)`. Its `debug_assert!` is no part of a release build.
unfoldable pub coalesce : Message → Message → Message
coalesce (put s value) older = put s value
coalesce (delete s) older = delete s
coalesce (upsert s op) (put _ value) = put s (apply op (some value))
coalesce (upsert s op) (delete _) = put s (apply op none)
coalesce (upsert s (add d)) (upsert _ (add d_old)) = upsert s (add (wrapping_add d_old d))
