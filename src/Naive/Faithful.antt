-- ===== src/Naive/Faithful.antt =====
-- The complete trace of the reference engine is faithful: replaying it rebuilds the engine.
use beetree.Prelude.{◌≡◌, refl, some, List, [], ◌∷◌, ◌++◌, ◌∙◌, ap, ℕ}
use beetree.Key.{Key}
use beetree.BTreeMap
use beetree.Message.{apply}
use beetree.Node.{Bound}
use beetree.Engine.{Params}
use beetree.Trace.{OpKind2, TraceEvent2, replay2_from, replay2}
use beetree.Trace.Replay.{replay2_from-append}
use beetree.Naive
use beetree.Naive.{NaiveEngine, new, stamp, insert, delete, upsert, naive}

-- A call of a public operation.
pub data Call : Type 0 where
  write : OpKind2 → Call
  scan : Bound → Bound → Call
  get : Key → Call

abbrev pub write_op : OpKind2 → NaiveEngine → NaiveEngine
write_op (OpKind2.insert key value) s = insert key value s
write_op (OpKind2.delete key) s = delete key s
write_op (OpKind2.upsert key o) s = upsert key o s

unfoldable pub call : Call → NaiveEngine → NaiveEngine
unfolding insert delete upsert Naive.scan Naive.get
call (write o) s = write_op o s
call (Call.scan lo hi) s = (Naive.scan lo hi s).1
call (Call.get key) s = (Naive.get key s).1

unfoldable pub run : List Call → NaiveEngine → NaiveEngine
unfolding call
run [] s = s
run (c ∷ calls) s = run calls (call c s)

-- An engine that the trace of `s` rebuilds from `e`, in the contents and the numbering.
pub record IsRebuilt (e s : NaiveEngine) : Type 0 where
  pub rebuilt : NaiveEngine
  pub replayed : replay2_from naive e s.trace.v2 ≡ some rebuilt
  pub same_map : rebuilt.map ≡ s.map
  pub same_seq : rebuilt.next_seq ≡ s.next_seq

replay_write :
    (e s r : NaiveEngine) (n : ℕ) (o : OpKind2)
    → replay2_from naive e s.trace.v2 ≡ some r
    → replay2_from naive e (s.trace.v2 ++ TraceEvent2.op n o ∷ []) ≡ some (write_op o r)
replay_write e s r n (OpKind2.insert key value) h =
    replay2_from-append naive e s.trace.v2 _ ∙ rw h (unfold replay2_from in refl)
replay_write e s r n (OpKind2.delete key) h =
    replay2_from-append naive e s.trace.v2 _ ∙ rw h (unfold replay2_from in refl)
replay_write e s r n (OpKind2.upsert key o) h =
    replay2_from-append naive e s.trace.v2 _ ∙ rw h (unfold replay2_from in refl)

write-IsRebuilt : (e s : NaiveEngine) (o : OpKind2) → IsRebuilt e s → IsRebuilt e (write_op o s)
unfolding insert delete upsert
write-IsRebuilt e s (OpKind2.insert key value) h = record {
  rebuilt = insert key value h.rebuilt;
  replayed = replay_write e s h.rebuilt _ (OpKind2.insert key value) h.replayed;
  same_map = ap (BTreeMap.insert key value) h.same_map;
  same_seq = rw h.same_seq;
}
write-IsRebuilt e s (OpKind2.delete key) h = record {
  rebuilt = delete key h.rebuilt;
  replayed = replay_write e s h.rebuilt _ (OpKind2.delete key) h.replayed;
  same_map = ap (BTreeMap.remove key) h.same_map;
  same_seq = rw h.same_seq;
}
write-IsRebuilt e s (OpKind2.upsert key o) h = record {
  rebuilt = upsert key o h.rebuilt;
  replayed = replay_write e s h.rebuilt _ (OpKind2.upsert key o) h.replayed;
  same_map = ap (λ m. BTreeMap.insert key (apply o (BTreeMap.get key m)) m) h.same_map;
  same_seq = rw h.same_seq;
}

call-IsRebuilt : (e s : NaiveEngine) (c : Call) → IsRebuilt e s → IsRebuilt e (call c s)
unfolding call
call-IsRebuilt e s (write o) h = write-IsRebuilt e s o h
call-IsRebuilt e s (Call.scan lo hi) h = record {
  rebuilt = h.rebuilt;
  replayed = replay2_from-append naive e s.trace.v2 _ ∙ rw h.replayed (unfold replay2_from in refl);
  same_map = h.same_map;
  same_seq = h.same_seq;
}
call-IsRebuilt e s (Call.get key) h = record {
  rebuilt = h.rebuilt;
  replayed = replay2_from-append naive e s.trace.v2 _ ∙ rw h.replayed (unfold replay2_from in refl);
  same_map = h.same_map;
  same_seq = h.same_seq;
}

run-IsRebuilt : (e s : NaiveEngine) (calls : List Call) → IsRebuilt e s → IsRebuilt e (run calls s)
unfolding run
run-IsRebuilt e s [] h = h
run-IsRebuilt e s (c ∷ calls) h = run-IsRebuilt e (call c s) calls (call-IsRebuilt e s c h)

-- After any calls, reads included, `replay2` of the complete trace succeeds, and the engine it
-- rebuilds has the same entries and the same sequence number.
pub replay2_faithful :
    (params : Params) (calls : List Call)
    → (r : NaiveEngine) × (replay2 naive params (run calls (new params)).trace.v2 ≡ some r)
      × (r.map ≡ (run calls (new params)).map)
      × (r.next_seq ≡ (run calls (new params)).next_seq)
unfolding replay2
replay2_faithful params calls =
    let h = run-IsRebuilt (new params) (new params) calls (record {
      rebuilt = new params;
      replayed = unfold new replay2_from in refl;
      same_map = refl;
      same_seq = refl;
    }) in
    (h.rebuilt, h.replayed, h.same_map, h.same_seq)
