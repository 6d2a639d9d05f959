-- ===== src/Message/Algebra.antt =====
-- What a message does to the value below it, and that coalescing composes.
use beetree.Prelude.{ℕ, ◌≡◌, refl, sym, Option, none, some, ap, arith}
use beetree.Bytes.{
  wrapping_add, to_le_bytes, length-to_le_bytes, from_le_bytes-to_le_bytes, wrapping_add_lt,
  wrapping_add_assoc,
}
use beetree.Message.{Value, add, base, apply, Message, put, delete, upsert, seq, coalesce}

-- The meaning of a message: the value of its key, from the value of the key below it
-- (docs/SPEC.md, "Semantics").
unfoldable pub act : Message → Option Value → Option Value
act (put s value) old = some value
act (delete s) old = none
act (upsert s op) old = some (apply op old)

-- No message leaves the value below as it is.
unfoldable pub act_on : Option Message → Option Value → Option Value
unfolding act
act_on none old = old
act_on (some m) old = act m old

pub base-apply :
    (d : ℕ) (old : Option Value) → base (some (apply (add d) old)) ≡ wrapping_add (base old) d
unfolding apply
base-apply d old = ground (
  arith,
  length-to_le_bytes (wrapping_add (base old) d),
  from_le_bytes-to_le_bytes (wrapping_add (base old) d),
  wrapping_add_lt (base old) d,
)

pub apply_lem :
    (d : ℕ) (old : Option Value) → apply (add d) old ≡ to_le_bytes (wrapping_add (base old) d)
unfolding apply
apply_lem d old = refl

-- Two additions in a row are one addition of the wrapping sum.
pub apply-apply :
    (d_old d : ℕ) (old : Option Value)
    → apply (add d) (some (apply (add d_old) old)) ≡ apply (add (wrapping_add d_old d)) old
apply-apply d_old d old =
    rw
      (
        apply_lem d (some (apply (add d_old) old)),
        apply_lem (wrapping_add d_old d) old,
        base-apply d_old old,
      )
      (ap to_le_bytes (wrapping_add_assoc (base old) d_old d))

-- Coalescing composes: the merged message does what the older and then the newer one do.
pub act-coalesce :
    (newer older : Message) (old : Option Value)
    → act (coalesce newer older) old ≡ act newer (act older old)
unfolding act coalesce
act-coalesce (put s v) older old = refl
act-coalesce (delete s) older old = refl
act-coalesce (upsert s op) (put t v) old = refl
act-coalesce (upsert s op) (delete t) old = refl
act-coalesce (upsert s (add d)) (upsert t (add d_old)) old = ap some (sym (apply-apply d_old d old))

-- The merged message carries the newer sequence number.
pub seq-coalesce : (newer older : Message) → seq (coalesce newer older) ≡ seq newer
unfolding seq coalesce
seq-coalesce (put s v) older = refl
seq-coalesce (delete s) older = refl
seq-coalesce (upsert s op) (put t v) = refl
seq-coalesce (upsert s op) (delete t) = refl
seq-coalesce (upsert s (add d)) (upsert t (add d_old)) = refl
