-- ===== src/Vfs/Crash.antt =====
-- src/vfs.rs: what the fault-injecting device guarantees, for every history of requests.
use beetree.Prelude.{
  if_some, take-length, bind_some, ℕ, zero, suc, ◌+◌, ◌-◌, ◌≤◌, ◌<◌, ◌≡◌, ◌≢◌, refl, sym, ap, ◌∙◌,
  Bool, true, false, Option, none, some, List, [], ◌∷◌, ◌++◌, length, take, AllOf, AllOf-append,
  length-append, length-snoc, leb, le→leb, Option-cases, some_inj, inl, inr, ◌>>=◌, if◌then◌else◌,
  arith,
}
use beetree.Prelude
use mathlib.Core.Path.{subst}
use beetree.Vfs.{Fate, LogEntry, FaultyState, IoResult}
use beetree.Vfs.Faulty.{
  apply_window, between, replay_syncs, crash_image_at, from_image, write_all_at, write_at, set_len,
  sync, sync_with, fail_nth_sync, disjoint, resize, close_window,
}
use beetree.Vfs.Replay.{between-snoc, between-length, replay_syncs-grow}

-- The devices that requests lead to, from an image.
pub data Reachable (image : List ℕ) : FaultyState → Type 0 where
  start : Reachable image (from_image image)
  after_write :
      {s s' : FaultyState} (off : ℕ) (bytes : List ℕ)
      → Reachable image s
      → write_all_at off bytes s ≡ some s'
      → Reachable image s'
  after_set_len :
      {s : FaultyState} (new_len : ℕ) → Reachable image s → Reachable image (set_len new_len s)
  after_sync :
      {s s' : FaultyState} {result : IoResult Unit}
      → Reachable image s
      → sync s ≡ some (result, s')
      → Reachable image s'
  after_arm :
      {s : FaultyState} (skip : ℕ) (fates : List Fate)
      → Reachable image s
      → Reachable image (fail_nth_sync skip fates s)

-- The replay of the log leads to the durable bytes and the pending window.
pub record IsReplayed (s : FaultyState) : Type 0 where
  pub replayed : replay_syncs s.log 0 0 s.log s.initial ≡ some (s.window_start, s.durable)
  pub start_le : s.window_start ≤ length s.log

-- An entry that opens no window: a write or a change of length.
abbrev pub IsPending : LogEntry → Type 0
IsPending (LogEntry.write off bytes) = Unit
IsPending (LogEntry.set_len len) = Unit
IsPending LogEntry.sync_ok = ⊥
IsPending (LogEntry.sync_failed fates) = ⊥

-- A new operation of the window keeps the replay.
IsReplayed-grow :
    (s : FaultyState) (e : LogEntry) (view : List ℕ)
    → IsPending e
    → IsReplayed s
    → IsReplayed (record s { view = view; log = s.log ++ e ∷ [] })
unfolding replay_syncs
IsReplayed-grow s (LogEntry.write off bytes) view p h = record {
  replayed = replay_syncs-grow s.log _ s.initial (s.window_start, s.durable) h.replayed;
  start_le = omega (arith, h.start_le, length-snoc s.log (LogEntry.write off bytes));
}
IsReplayed-grow s (LogEntry.set_len len) view p h = record {
  replayed = replay_syncs-grow s.log _ s.initial (s.window_start, s.durable) h.replayed;
  start_le = omega (arith, h.start_le, length-snoc s.log (LogEntry.set_len len));
}
IsReplayed-grow s LogEntry.sync_ok view p h = absurd p
IsReplayed-grow s (LogEntry.sync_failed fates) view p h = absurd p

-- The end of a sync keeps the replay.
IsReplayed-close :
    (s : FaultyState) (e : LogEntry) (durable : List ℕ) (armed : Option (ℕ × List Fate))
    → replay_syncs (s.log ++ e ∷ []) (length s.log) s.window_start (e ∷ []) s.durable
      ≡ some (suc (length s.log), durable)
    → IsReplayed s
    → IsReplayed (record s {
      durable = durable;
      log = s.log ++ e ∷ [];
      window_start = length (s.log ++ e ∷ []);
      fail_sync = armed;
    })
IsReplayed-close s e durable armed step h = record {
  replayed =
      replay_syncs-grow s.log e s.initial (s.window_start, s.durable) h.replayed
      ∙ step
      ∙ ap (λ n. some (n, durable)) (sym (length-snoc s.log e));
  start_le = omega arith;
}

IsReplayed-sync_ok :
    (s s' : FaultyState) (armed : Option (ℕ × List Fate))
    → IsReplayed s
    → close_window LogEntry.sync_ok [] true armed s ≡ some s'
    → IsReplayed s'
unfolding replay_syncs
IsReplayed-sync_ok s s' armed h e =
    let (durable, e1, e2) =
      bind_some (apply_window s.durable (Prelude.drop s.window_start s.log) [] true) e in
    let one =
      ap (λ window. apply_window s.durable window [] true >>= λ r. some (suc (length s.log), r))
        (between-snoc s.window_start s.log LogEntry.sync_ok h.start_le)
      ∙ ap (λ o. o >>= λ r. some (suc (length s.log), r)) e1 in
    subst IsReplayed (some_inj e2) (IsReplayed-close s LogEntry.sync_ok durable armed one h)

IsReplayed-sync_failed :
    (s s' : FaultyState) (fates : List Fate) (armed : Option (ℕ × List Fate))
    → IsReplayed s
    → close_window (LogEntry.sync_failed fates) fates false armed s ≡ some s'
    → IsReplayed s'
unfolding replay_syncs
IsReplayed-sync_failed s s' fates armed h e =
    let (durable, e1, e2) =
      bind_some (apply_window s.durable (Prelude.drop s.window_start s.log) fates false) e in
    let one =
      ap (λ window. apply_window s.durable window fates false >>= λ r. some (suc (length s.log), r))
        (between-snoc s.window_start s.log (LogEntry.sync_failed fates) h.start_le)
      ∙ ap (λ o. o >>= λ r. some (suc (length s.log), r)) e1 in
    subst IsReplayed (some_inj e2)
      (IsReplayed-close s (LogEntry.sync_failed fates) durable armed one h)

IsReplayed-sync_with :
    (armed : Option (ℕ × List Fate)) (s s' : FaultyState) (result : IoResult Unit)
    → IsReplayed s
    → sync_with armed s ≡ some (result, s')
    → IsReplayed s'
IsReplayed-sync_with none s s' result h e =
    let (r, e1, e2) = bind_some (close_window LogEntry.sync_ok [] true none s) e in
    IsReplayed-sync_ok s s' none h (e1 ∙ ap some (ap (λ p. p.1) (some_inj e2)))
IsReplayed-sync_with (some (zero, fates)) s s' result h e =
    let (r, e1, e2) = bind_some (close_window (LogEntry.sync_failed fates) fates false none s) e in
    IsReplayed-sync_failed s s' fates none h (e1 ∙ ap some (ap (λ p. p.1) (some_inj e2)))
IsReplayed-sync_with (some (suc skip, fates)) s s' result h e =
    let (r, e1, e2) = bind_some (close_window LogEntry.sync_ok [] true (some (skip, fates)) s) e in
    IsReplayed-sync_ok s s' (some (skip, fates)) h (e1 ∙ ap some (ap (λ p. p.1) (some_inj e2)))

-- What a write leaves.
pub write_all_at_lem :
    (off : ℕ) (bytes : List ℕ) (s s' : FaultyState)
    → write_all_at off bytes s ≡ some s'
    → (view : List ℕ) × (write_at off bytes s.view ≡ some view)
      × (record s { view = view; log = s.log ++ LogEntry.write off bytes ∷ [] } ≡ s')
unfolding write_all_at
write_all_at_lem off bytes s s' e =
    let (b, e1) = if_some (disjoint off _ (Prelude.drop s.window_start s.log)) e in
    let (view, e2, e3) = bind_some (write_at off bytes s.view) e1 in (view, e2, some_inj e3)

-- Every history: the replay of the log agrees with the bytes the device keeps.
pub Reachable-IsReplayed : {image : List ℕ} {s : FaultyState} → Reachable image s → IsReplayed s
unfolding from_image set_len sync fail_nth_sync replay_syncs
Reachable-IsReplayed start = record { replayed = refl; start_le = omega arith }
Reachable-IsReplayed (after_write {s = s} {s' = s'} off bytes r e) =
    let (view, e1, e2) = write_all_at_lem off bytes s s' e in
    subst IsReplayed e2
      (IsReplayed-grow s (LogEntry.write off bytes) view tt (Reachable-IsReplayed r))
Reachable-IsReplayed (after_set_len {s = s} new_len r) =
    IsReplayed-grow s (LogEntry.set_len new_len) (resize new_len s.view) tt (Reachable-IsReplayed r)
Reachable-IsReplayed (after_sync {s = s} {s' = s'} {result = result} r e) =
    IsReplayed-sync_with s.fail_sync s s' result (Reachable-IsReplayed r) e
Reachable-IsReplayed (after_arm skip fates r) =
    let h = Reachable-IsReplayed r in record { replayed = h.replayed; start_le = h.start_le }

-- For a device that requests have led to from an image, the file that a crash after the whole log
-- leaves is the device's durable bytes with the fates applied to the pending window: the replay of
-- the log from the image agrees with the bytes that writes and syncs, failed ones too, maintain.
pub crash_image_at-durable :
    {image : List ℕ} {s : FaultyState}
    → Reachable image s
    → (fates : List Fate)
    → crash_image_at (length s.log) fates s
      ≡ apply_window s.durable (Prelude.drop s.window_start s.log) fates false
unfolding crash_image_at
crash_image_at-durable {s = s} r fates =
    let h = Reachable-IsReplayed r in
    let image_of : Option (ℕ × List ℕ) → Option (List ℕ) =
      λ o. o >>= λ p. apply_window p.1 (between p.0 (length s.log) s.log) fates false in
    ap
      (λ b.
        if b then image_of (replay_syncs s.log 0 0 (take (length s.log) s.log) s.initial) else none)
      (le→leb (length s.log) (length s.log) (omega arith))
    ∙ ap (λ log. image_of (replay_syncs s.log 0 0 log s.initial))
        (take-length s.log (length s.log) (omega arith))
    ∙ ap image_of h.replayed
    ∙ ap (λ window. apply_window s.durable window fates false) (between-length s.window_start s.log)
