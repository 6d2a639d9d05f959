-- ===== src/Tree/Flush/Delivered.antt =====
-- A delivered batch acts, key by key, on what the receiving node holds.
use beetree.Prelude.{◌≡◌, refl, ◌∙◌, Option, [], ◌∷◌, arith}
use beetree.Key.{Key}
use beetree.Key.Order.{eq_of_cmp}
use beetree.BTreeMap.{BTreeMap, get}
use beetree.BTreeMap.Sorted.{IsSorted, get_beyond}
use beetree.Message.{Value, Message}
use beetree.Message.Algebra.{act_on}
use beetree.Node.{LeafEntry, apply_to_leaf, coalesce_into}
use beetree.Node.Effects.{leaf_value, leaf_value-apply_to_leaf, act_on-coalesce_into}
use beetree.Tree.Flush.{deliver_leaf, deliver_buffer}

-- After a delivery to a leaf, each key has the value that its message in the batch makes of the
-- value before.
pub leaf_value-deliver_leaf :
    (q : Key) (batch : BTreeMap Message) (entries : BTreeMap LeafEntry)
    → IsSorted batch
    → leaf_value q (deliver_leaf entries batch) ≡ act_on (get q batch) (leaf_value q entries)
unfolding deliver_leaf act_on get
leaf_value-deliver_leaf q [] entries s = refl
leaf_value-deliver_leaf q ((k, m) ∷ batch) entries s =
    leaf_value-deliver_leaf q batch (apply_to_leaf entries k m) s.1
    ∙ ground (arith, leaf_value-apply_to_leaf q k m entries, get_beyond k batch s.0, eq_of_cmp q k)

-- After a delivery to a buffer, the message of each key acts as the old message and then the
-- message of the batch.
pub act_on-deliver_buffer :
    (q : Key) (batch buffer : BTreeMap Message) (old : Option Value)
    → IsSorted batch
    → act_on (get q (deliver_buffer buffer batch)) old
      ≡ act_on (get q batch) (act_on (get q buffer) old)
unfolding deliver_buffer act_on get
act_on-deliver_buffer q [] buffer old s = refl
act_on-deliver_buffer q ((k, m) ∷ batch) buffer old s =
    act_on-deliver_buffer q batch (coalesce_into buffer k m) old s.1
    ∙ ground (arith, act_on-coalesce_into q k m buffer old, get_beyond k batch s.0, eq_of_cmp q k)
