-- ===== src/Disk/Mirror/Flush.antt =====
-- Extraction, delivery and reclamation: the engine does what the tree does.
use beetree.Prelude.{
  ℕ, ◌≡◌, refl, sym, ap, ◌∙◌, Option, none, some, List, [], ◌∷◌, length, some_inj, bind_some, ◌>>=◌,
  ltb,
}
use mathlib.Core.Path.{subst}
use beetree.Key.{Key}
use beetree.BTreeMap.{BTreeMap}
use beetree.Message.{Message}
use beetree.Node.{NodeId, Node, internal, leaf, LeafEntry, Delivery, Outcome, splits, removed}
use beetree.Tree.Arena
use beetree.Tree.Arena.{BeTree, node_at, set_node, mark_dirty, remove_at}
use beetree.Tree.Split
use beetree.Tree.Flush
use beetree.Tree.Flush.{
  tally, extract, Extracted, deliver_leaf, deliver_buffer, is_empty, drop_pivot, position,
}
use beetree.Vfs.Counting.{Vfs}
use beetree.Format.{Codec}
use beetree.Disk.{DiskEngine, DiskResult}
use beetree.Disk.Arena.{loaded, loaded_mut, put_node, release_slot}
use beetree.Disk.Load.{ensure_loaded}
use beetree.Disk.Split as DiskSplit
use beetree.Disk.Flush as DiskFlush
use beetree.Disk.Mirror.Relation.{
  IsMirror, answer, strip-ok, bind_to, Follows, Reaches, then_walk-ok,
}
use beetree.Disk.Mirror.Slots.{release_slot-IsMirror, ensure_loaded-IsMirror}
use beetree.Disk.Mirror.Steps.{loaded-IsMirror, loaded_mut-IsMirror, put_node-IsMirror}
use beetree.Disk.Mirror.Split.{split_if_needed-Follows}

module _ {D P : Type 0} where
  pub buffer_len-IsMirror :
      (id : NodeId) (t : BeTree P) (s : DiskEngine D P) {n : ℕ}
      → IsMirror t s
      → DiskFlush.buffer_len id s ≡ some n
      → Arena.buffer_len id t ≡ some n
  unfolding DiskFlush.buffer_len Arena.buffer_len
  buffer_len-IsMirror id t s m h =
      let a = bind_some (loaded id s) h in
      bind_to (node_at t id) _ (loaded-IsMirror id t s m a.1) a.2

  unlink :
      (parent child : NodeId) (n : Node) (u : BeTree P) (s s' : DiskEngine D P)
      → IsMirror u s
      → elim n [
        | leaf entries ↦ none
        | internal pivots children buffer ↦ position child children >>= λ at.
            remove_at at children >>= λ children'. drop_pivot at pivots >>= λ pivots'.
            put_node parent (internal pivots' children' buffer) s >>= λ s1. release_slot child s1
      ]
        ≡ some s'
      → Reaches
          (elim n [
            | leaf entries ↦ none
            | internal pivots children buffer ↦ position child children >>= λ at.
                remove_at at children >>= λ children'. drop_pivot at pivots >>= λ pivots'.
                some (set_node parent (internal pivots' children' buffer) u)
          ])
          s'
  unlink parent child (leaf entries) u s s' m h = cc
  unlink parent child (internal pivots children buffer) u s s' m h =
      let a = bind_some (position child children) h in
      let b = bind_some (remove_at a.0 children) a.2 in
      let c = bind_some (drop_pivot a.0 pivots) b.2 in
      let d = bind_some (put_node parent (internal c.0 b.0 buffer) s) c.2 in
      record {
        after = set_node parent (internal c.0 b.0 buffer) u;
        runs =
            bind_to (position child children) _ a.1
              (bind_to (remove_at a.0 children) _ b.1 (bind_to (drop_pivot a.0 pivots) _ c.1 refl));
        mirror =
            release_slot-IsMirror child (set_node parent (internal c.0 b.0 buffer) u) d.0 s'
              (put_node-IsMirror parent (internal c.0 b.0 buffer) u s d.0 m d.1) d.2;
      }

  pub remove_child-Reaches :
      (parent child : NodeId) (t : BeTree P) (s s' : DiskEngine D P)
      → IsMirror t s
      → DiskFlush.remove_child parent child s ≡ some s'
      → Reaches (Flush.remove_child parent child t) s'
  unfolding DiskFlush.remove_child Flush.remove_child
  remove_child-Reaches parent child t s s' m h =
      let a = bind_some (loaded_mut parent s) h in
      let x = loaded_mut-IsMirror parent t s a.0.1 a.0.0 m a.1 in
      let f = unlink parent child a.0.0 x.marked a.0.1 s' x.mirror a.2 in
      record {
        after = f.after;
        runs =
            bind_to (mark_dirty parent t) _ x.marks
              (bind_to (node_at x.marked parent) _ x.reads f.runs);
        mirror = f.mirror;
      }

abbrev split_outcome : {P : Type 0} → NodeId → BeTree P → Option (Outcome × BeTree P)
split_outcome id t = Split.split_if_needed id t >>= λ p. answer (splits p.0) p.1

settle-removed :
    {P : Type 0} (id : NodeId) (t : BeTree P) (pivots : List Key) (buffer : BTreeMap Message)
    → node_at t id ≡ some (internal pivots [] buffer)
    → Flush.settle id t ≡ some (removed, t)
unfolding Flush.settle
settle-removed id t pivots buffer e = rw (e, Flush.settle) refl

settle-split_leaf :
    {P : Type 0} (id : NodeId) (t : BeTree P) (entries : BTreeMap LeafEntry)
    → node_at t id ≡ some (leaf entries)
    → Flush.settle id t ≡ split_outcome id t
unfolding Flush.settle
settle-split_leaf id t entries e = rw (e, Flush.settle) refl

settle-split_internal :
    {P : Type 0} (id : NodeId) (t : BeTree P) (pivots : List Key) (c : NodeId)
    (children : List NodeId) (buffer : BTreeMap Message)
    → node_at t id ≡ some (internal pivots (c ∷ children) buffer)
    → Flush.settle id t ≡ split_outcome id t
unfolding Flush.settle
settle-split_internal id t pivots c children buffer e = rw (e, Flush.settle) refl

module _ {D P : Type 0} where
  split_outcome-Follows :
      (id : NodeId) (t : BeTree P) (s s' : DiskEngine D P) (outcome : Outcome)
      → IsMirror t s
      → (DiskSplit.split_if_needed id s >>= λ p. answer (splits p.0) p.1) ≡ some (outcome, s')
      → Follows (split_outcome id t) outcome s'
  split_outcome-Follows id t s s' outcome m h =
      let a = bind_some (DiskSplit.split_if_needed id s) h in
      let f = split_if_needed-Follows id t s a.0.1 a.0.0 m a.1 in
      subst (λ p. Follows (split_outcome id t) p.0 p.1) (some_inj a.2)
        (record {
          after = f.after;
          runs = bind_to (Split.split_if_needed id t) _ f.runs refl;
          mirror = f.mirror;
        })

  settle_at :
      (id : NodeId) (o : Option Node) (t : BeTree P) (s s' : DiskEngine D P) (outcome : Outcome)
      → IsMirror t s
      → ((n : Node) → o ≡ some n → node_at t id ≡ some n)
      → elim o [
        | some (internal pivots [] buffer) ↦ answer removed s
        | some other ↦ DiskSplit.split_if_needed id s >>= λ p. answer (splits p.0) p.1
        | none ↦ none
      ]
        ≡ some (outcome, s')
      → Follows (Flush.settle id t) outcome s'
  settle_at id none t s s' outcome m held h = cc
  settle_at id (some (leaf entries)) t s s' outcome m held h =
      subst (λ o. Follows o outcome s') (sym (settle-split_leaf id t entries (held _ refl)))
        (split_outcome-Follows id t s s' outcome m h)
  settle_at id (some (internal pivots [] buffer)) t s s' outcome m held h = record {
    after = t;
    runs = settle-removed id t pivots buffer (held _ refl) ∙ ap (λ p. some (p.0, t)) (some_inj h);
    mirror = subst (IsMirror t) (ap (λ p. p.1) (some_inj h)) m;
  }
  settle_at id (some (internal pivots (c ∷ children) buffer)) t s s' outcome m held h =
      subst (λ o. Follows o outcome s')
        (sym (settle-split_internal id t pivots c children buffer (held _ refl)))
        (split_outcome-Follows id t s s' outcome m h)

  pub settle-Follows :
      (id : NodeId) (t : BeTree P) (s s' : DiskEngine D P) (outcome : Outcome)
      → IsMirror t s
      → DiskFlush.settle id s ≡ some (outcome, s')
      → Follows (Flush.settle id t) outcome s'
  unfolding DiskFlush.settle
  settle-Follows id t s s' outcome m h =
      settle_at id (loaded id s) t s s' outcome m (λ n e. loaded-IsMirror id t s m e) h

  deliver_node :
      (id : NodeId) (batch : BTreeMap Message) (threshold : ℕ) (n : Node) (u : BeTree P)
      (s s' : DiskEngine D P) (delivery : Delivery)
      → IsMirror u s
      → elim n [
        | leaf entries ↦ put_node id (leaf (deliver_leaf entries batch)) s >>= λ s1.
            answer (Delivery.leaf (is_empty (deliver_leaf entries batch))) s1
        | internal pivots children buffer ↦
            put_node id (internal pivots children (deliver_buffer buffer batch)) s >>= λ s1.
            answer (Delivery.internal (ltb threshold (length (deliver_buffer buffer batch)))) s1
      ]
        ≡ some (delivery, s')
      → Follows (some (Flush.deliver id n batch threshold u)) delivery s'
  unfolding Flush.deliver
  deliver_node id batch threshold (leaf entries) u s s' delivery m h =
      let n : Node = leaf (deliver_leaf entries batch) in
      let a = bind_some (put_node id n s) h in
      record {
        after = set_node id n u;
        runs = ap (λ p. some (p.0, set_node id n u)) (some_inj a.2);
        mirror =
            subst (IsMirror (set_node id n u)) (ap (λ p. p.1) (some_inj a.2))
              (put_node-IsMirror id n u s a.0 m a.1);
      }
  deliver_node id batch threshold (internal pivots children buffer) u s s' delivery m h =
      let n : Node = internal pivots children (deliver_buffer buffer batch) in
      let a = bind_some (put_node id n s) h in
      record {
        after = set_node id n u;
        runs = ap (λ p. some (p.0, set_node id n u)) (some_inj a.2);
        mirror =
            subst (IsMirror (set_node id n u)) (ap (λ p. p.1) (some_inj a.2))
              (put_node-IsMirror id n u s a.0 m a.1);
      }

  deliver-Follows :
      (id : NodeId) (batch : BTreeMap Message) (threshold : ℕ) (t : BeTree P)
      (s s' : DiskEngine D P) (delivery : Delivery)
      → IsMirror t s
      → DiskFlush.deliver id batch threshold s ≡ some (delivery, s')
      → Follows (Flush.apply_batch id batch threshold t) delivery s'
  unfolding DiskFlush.deliver Flush.apply_batch
  deliver-Follows id batch threshold t s s' delivery m h =
      let a = bind_some (loaded_mut id s) h in
      let x = loaded_mut-IsMirror id t s a.0.1 a.0.0 m a.1 in
      let f = deliver_node id batch threshold a.0.0 x.marked a.0.1 s' delivery x.mirror a.2 in
      record {
        after = f.after;
        runs = bind_to (mark_dirty id t) _ x.marks (bind_to (node_at x.marked id) _ x.reads f.runs);
        mirror = f.mirror;
      }

  pub apply_batch-Follows :
      (vfs : Vfs D) (c : Codec) (id : NodeId) (batch : BTreeMap Message) (pins : List NodeId)
      (threshold : ℕ) (t : BeTree P) (s s' : DiskEngine D P) (delivery : Delivery)
      → IsMirror t s
      → DiskFlush.apply_batch vfs c id batch pins threshold s ≡ some (DiskResult.ok delivery, s')
      → Follows (Flush.apply_batch id batch threshold t) delivery s'
  unfolding DiskFlush.apply_batch
  apply_batch-Follows vfs c id batch pins threshold t s s' delivery m h =
      let a = then_walk-ok (ensure_loaded vfs c id pins s) _ h in
      let b = bind_some (DiskFlush.deliver id batch threshold a.1) a.3 in
      deliver-Follows id batch threshold t a.1 s' delivery
        (ensure_loaded-IsMirror vfs c id pins t s a.1 m a.2) (b.1 ∙ strip-ok b.2)
