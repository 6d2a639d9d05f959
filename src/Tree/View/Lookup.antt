-- ===== src/Tree/View/Lookup.antt =====
-- `get` returns the value of the key.
use native.Mathlib.Nat.{add_comm}
use beetree.Prelude.{
  ℕ, zero, suc, ◌≡◌, ◌<◌, refl, sym, ap, ◌∙◌, Option, none, some, List, arith, length, get_elem?,
  ◌%◌, get_elem?-in_range, get_elem?-map, AllOf-get_elem?, map,
}
use beetree.Bytes.{wrapping_add, to_le_bytes, u64_mod}
use beetree.Key.{Key}
use beetree.BTreeMap
use beetree.Message.{Value, add, apply, Message, put, delete, upsert}
use beetree.Message.Algebra.{act_on, apply-apply, apply_lem}
use beetree.BTreeMap.{BTreeMap}
use beetree.Node.{NodeId, Node, internal, route, apply_chain}
use beetree.Node.Routing.{route-le-length}
use beetree.Trace.{record_get}
use beetree.Tree.Arena.{BeTree}
use beetree.Tree.Get.{chain_add, at_buffer, Step, get_loop, get}
use beetree.Tree.View.{Tall, id_of, IsStored, IsShaped, value, IsTree}

-- A pending sum with an older delta added does what the delta and then the sum do.
apply_chain-chain_add :
    (chain : Option ℕ) (delta : ℕ) (old : Option Value)
    → apply_chain (some (chain_add chain delta)) old
      ≡ apply_chain chain (some (apply (add delta) old))
unfolding apply_chain chain_add wrapping_add
apply_chain-chain_add none delta old =
    ap some (apply_lem _ old ∙ ap to_le_bytes (omega arith) ∙ sym (apply_lem delta old))
apply_chain-chain_add (some sum) delta old = ap some (
    ap (λ d. apply (add d) old) (ap (λ n. n % u64_mod) (add_comm sum delta))
    ∙ sym (apply-apply delta sum old))

value_at_child :
    (h : ℕ) (t : Tall (suc h)) (key : Key) (c : Tall h)
    → get_elem? t.children (route t.pivots key) ≡ some c
    → value (suc h) t key ≡ act_on (BTreeMap.get key t.buffer) (value h c key)
unfolding value
value_at_child h t key c e = rw e

-- What follows the look at a buffer.
abbrev proceed : ℕ → List Node → Key → NodeId → Step → Option (Option Value)
proceed f nodes key child (Step.stop v) = some v
proceed f nodes key child (Step.walk chain) = get_loop f nodes key chain child

get_loop_internal :
    (f : ℕ) (nodes : List Node) (key : Key) (chain : Option ℕ) (id child : NodeId)
    (pivots : List Key) (children : List NodeId) (buffer : BTreeMap Message)
    → get_elem? nodes id ≡ some (internal pivots children buffer)
    → get_elem? children (route pivots key) ≡ some child
    → get_loop (suc f) nodes key chain id
      ≡ proceed f nodes key child (at_buffer chain (BTreeMap.get key buffer))
unfolding get_loop
get_loop_internal f nodes key chain id child pivots children buffer e h = ground arith

proceed-at_buffer :
    (f : ℕ) (nodes : List Node) (key : Key) (child : NodeId) (below : Option Value)
    → ((chain : Option ℕ) → get_loop f nodes key chain child ≡ some (apply_chain chain below))
    → (chain : Option ℕ) (o : Option Message)
    → proceed f nodes key child (at_buffer chain o) ≡ some (apply_chain chain (act_on o below))
unfolding at_buffer act_on
proceed-at_buffer f nodes key child below ih chain none = ih chain
proceed-at_buffer f nodes key child below ih chain (some (put s v)) = refl
proceed-at_buffer f nodes key child below ih chain (some (delete s)) = refl
proceed-at_buffer f nodes key child below ih chain (some (upsert s (add delta))) =
    ih (some (chain_add chain delta)) ∙ ap some (apply_chain-chain_add chain delta below)

-- The walk from a stored tree on, with its pending sum, ends with the value of the key.
pub get_loop-value :
    (h f : ℕ) (nodes : List Node) (t : Tall h) (key : Key) (chain : Option ℕ)
    → IsStored nodes h t
    → IsShaped h t
    → h < f
    → get_loop f nodes key chain (id_of h t) ≡ some (apply_chain chain (value h t key))
get_loop-value zero zero nodes t key chain st sh lt = absurd (omega arith)
get_loop-value (suc h) zero nodes t key chain st sh lt = absurd (omega arith)
get_loop-value zero (suc f) nodes t key chain st sh lt = unfold value get_loop in rw (st, get_loop)
get_loop-value (suc h) (suc f) nodes t key chain st sh lt =
    at_child
      (get_elem?-in_range t.children (route t.pivots key)
        (omega (arith, route-le-length t.pivots key, sh.1)))
      (λ c e chain'.
        get_loop-value h f nodes c key chain'
          (AllOf-get_elem? (IsStored nodes h) t.children (route t.pivots key) st.1 e)
          (AllOf-get_elem? (IsShaped h) t.children (route t.pivots key) sh.3 e) (omega arith))
  where
    at_child :
        (c : Tall h) × (get_elem? t.children (route t.pivots key) ≡ some c)
        → ((c : Tall h)
            → get_elem? t.children (route t.pivots key) ≡ some c
            → (chain' : Option ℕ)
            → get_loop f nodes key chain' (id_of h c) ≡ some (apply_chain chain' (value h c key)))
        → get_loop (suc f) nodes key chain t.id ≡ some (apply_chain chain (value (suc h) t key))
    at_child (c, e) ih =
        get_loop_internal f nodes key chain t.id (id_of h c) t.pivots (map (id_of h) t.children)
          t.buffer st.0 (get_elem?-map (id_of h) t.children (route t.pivots key) e)
        ∙ proceed-at_buffer f nodes key (id_of h c) (value h c key) (ih c e) chain
            (BTreeMap.get key t.buffer)
        ∙ sym (ap (λ o. some (apply_chain chain o)) (value_at_child h t key c e))

-- `get` in a tree succeeds: it returns the value of the key, and changes only the trace.
pub get-value :
    {P : Type 0} (s : BeTree P) (key : Key) (t : IsTree s)
    → get key s ≡ some (value t.height t.tree key, record s { trace = record_get key s.trace })
unfolding get apply_chain
get-value s key t =
    let walk : get_loop (length s.nodes) s.nodes key none s.root
        ≡ some (value t.height t.tree key) =
      ap (get_loop (length s.nodes) s.nodes key none) (sym t.at_root)
      ∙ get_loop-value t.height (length s.nodes) s.nodes t.tree key none t.stored t.shaped t.tall in
    rw walk
