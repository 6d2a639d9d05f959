-- ===== src/Naive.antt =====
-- src/naive.rs: the reference engine, a map with sequence numbers and a trace.
pub mod Faithful
use beetree.Prelude.{ℕ, ◌+◌, ◌%◌, Option, none, some, List, [], if◌then◌else◌}
use beetree.Bytes.{u64_mod}
use beetree.Key.{Key}
use beetree.BTreeMap
use beetree.BTreeMap.{BTreeMap}
use beetree.Message.{Value, UpsertOp, apply}
use beetree.Node.{Bound, range_is_empty, range}
use beetree.Engine.{Params, KvEngine}
use beetree.Trace.{OpKind2, Recorder, default, record_op, record_get, record_scan}

pub record NaiveEngine : Type 0 where
  pub map : BTreeMap Value
  pub next_seq : ℕ
  pub trace : Recorder

unfoldable pub new : Params → NaiveEngine
new params = record { map = []; next_seq = 0; trace = default }

-- `self.next_seq += 1` on a `u64`, and the recorded operation under the new number.
unfoldable pub stamp : OpKind2 → NaiveEngine → NaiveEngine
unfolding record_op
stamp o s =
    let seq = (s.next_seq + 1) % u64_mod in
    record s { next_seq = seq; trace = record_op seq o s.trace }

unfoldable pub insert : Key → Value → NaiveEngine → NaiveEngine
unfolding stamp
insert key value s = record (stamp (OpKind2.insert key value) s) {
  map = BTreeMap.insert key value s.map;
}

unfoldable pub delete : Key → NaiveEngine → NaiveEngine
unfolding stamp
delete key s = record (stamp (OpKind2.delete key) s) { map = BTreeMap.remove key s.map }

unfoldable pub upsert : Key → UpsertOp → NaiveEngine → NaiveEngine
unfolding stamp
upsert key o s =
    let value = apply o (BTreeMap.get key s.map) in
    record (stamp (OpKind2.upsert key o) s) { map = BTreeMap.insert key value s.map }

unfoldable pub scan : Bound → Bound → NaiveEngine → List (Key × Value) × NaiveEngine
unfolding record_scan
scan lo hi s = (
  if range_is_empty lo hi then [] else range lo hi s.map,
  record s { trace = record_scan lo hi s.trace },
)

unfoldable pub get : Key → NaiveEngine → Option Value × NaiveEngine
unfolding record_get
get key s = (BTreeMap.get key s.map, record s { trace = record_get key s.trace })

-- The reference engine behind the common interface: none of its methods panics.
abbrev pub naive : KvEngine NaiveEngine
naive = record {
  new = λ params. some (new params);
  insert = λ key value s. some (insert key value s);
  delete = λ key s. some (delete key s);
  upsert = λ key o s. some (upsert key o s);
  scan = λ lo hi s. some (scan lo hi s);
  get = λ key s. some (get key s);
}
