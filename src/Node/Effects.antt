-- ===== src/Node/Effects.antt =====
-- Delivering messages to a node, key by key.
use beetree.Prelude.{◌≡◌, refl, Option, none, some, arith, if◌then◌else◌}
use beetree.Key.{Key, key_eq}
use beetree.Key.Order.{eq_of_cmp}
use beetree.BTreeMap.{BTreeMap, get, insert}
use beetree.BTreeMap.Lookup.{get-insert, get-remove}
use beetree.Message.{Value, apply, Message, put, delete, upsert, coalesce}
use beetree.Message.Algebra.{act, act_on, act-coalesce}
use beetree.Node.{LeafEntry, entry_value, apply_to_leaf, coalesce_into}

-- The value of a key in a leaf.
abbrev pub leaf_value : Key → BTreeMap LeafEntry → Option Value
leaf_value k entries = entry_value (get k entries)

pub leaf_value-apply_to_leaf :
    (q k : Key) (m : Message) (entries : BTreeMap LeafEntry)
    → leaf_value q (apply_to_leaf entries k m)
      ≡ (if key_eq q k then act m (leaf_value q entries) else leaf_value q entries)
unfolding apply_to_leaf act
leaf_value-apply_to_leaf q k (put s v) entries =
    ground (arith, get-insert q k (record { seq = s; value = v }) entries)
leaf_value-apply_to_leaf q k (delete s) entries = ground (arith, get-remove q k entries)
leaf_value-apply_to_leaf q k (upsert s op) entries = ground (
  arith,
  eq_of_cmp q k,
  get-insert q k (record { seq = s; value = apply op (leaf_value k entries) }) entries,
)

-- What a message becomes when it meets the buffered one.
abbrev pub merged : Message → Option Message → Message
merged m none = m
merged m (some older) = coalesce m older

pub coalesce_into_lem :
    (k : Key) (m : Message) (buffer : BTreeMap Message)
    → coalesce_into buffer k m ≡ insert k (merged m (get k buffer)) buffer
unfolding coalesce_into
coalesce_into_lem k m buffer = ground arith

pub get-coalesce_into :
    (q k : Key) (m : Message) (buffer : BTreeMap Message)
    → get q (coalesce_into buffer k m)
      ≡ (if key_eq q k then some (merged m (get k buffer)) else get q buffer)
get-coalesce_into q k m buffer =
    rw (coalesce_into_lem k m buffer) (get-insert q k (merged m (get k buffer)) buffer)

act_on-merged :
    (m : Message) (o : Option Message) (old : Option Value)
    → act_on (some (merged m o)) old ≡ act m (act_on o old)
unfolding act_on
act_on-merged m none old = refl
act_on-merged m (some older) old = act-coalesce m older old

-- A message that settles into a buffer acts after those that are there, on its key alone.
pub act_on-coalesce_into :
    (q k : Key) (m : Message) (buffer : BTreeMap Message) (old : Option Value)
    → act_on (get q (coalesce_into buffer k m)) old
      ≡ (if key_eq q k then act m (act_on (get q buffer) old) else act_on (get q buffer) old)
act_on-coalesce_into q k m buffer old =
    rw (get-coalesce_into q k m buffer)
      (ground (arith, eq_of_cmp q k, act_on-merged m (get k buffer) old))
