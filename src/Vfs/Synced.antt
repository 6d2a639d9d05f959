-- ===== src/Vfs/Synced.antt =====
-- src/vfs.rs: what a sync that succeeds makes durable.
use beetree.Prelude.{
  drop-append, drop-length, bind_some, ℕ, zero, suc, ◌+◌, ◌≤◌, ◌≡◌, ◌≢◌, refl, sym, ap, ◌∙◌, true,
  false, Option, none, some, List, [], ◌∷◌, ◌++◌, length, AllOf, some_inj, ◌>>=◌, arith,
}
use beetree.Prelude
use mathlib.Core.Path.{subst}
use beetree.Vfs.{Fate, LogEntry, FaultyState, IoResult, ok}
use beetree.Vfs.Faulty.{
  apply_window, apply_from, apply_entry, crash_image_at, from_image, set_len, sync, sync_with,
  fail_nth_sync, resize, close_window,
}
use beetree.Vfs.Replay.{apply_from-snoc}
use beetree.Vfs.Crash.{
  Reachable, start, after_write, after_set_len, after_sync, after_arm, write_all_at_lem,
  crash_image_at-durable, Reachable-IsReplayed,
}

-- No sync of a log failed.
abbrev pub IsGood : LogEntry → Type 0
IsGood (LogEntry.write off bytes) = Unit
IsGood (LogEntry.set_len len) = Unit
IsGood LogEntry.sync_ok = Unit
IsGood (LogEntry.sync_failed fates) = ⊥

AllOf-prefix {ℓ κ} :
    {A : Type ℓ} (P : A → Type κ) (xs ys : List A) → AllOf P (xs ++ ys) → AllOf P xs × AllOf P ys
AllOf-prefix P [] ys h = (tt, h)
AllOf-prefix P (x ∷ xs) ys h = let (a, b) = AllOf-prefix P xs ys h.1 in ((h.0, a), b)

-- The view is the durable bytes with the pending window applied in full.
abbrev pub IsCached : FaultyState → Type 0
IsCached s = apply_window s.durable (Prelude.drop s.window_start s.log) [] true ≡ some s.view

IsCached-grow :
    (s : FaultyState) (e : LogEntry) (view : List ℕ)
    → s.window_start ≤ length s.log
    → apply_entry e Fate.apply s.view ≡ some view
    → IsCached s
    → IsCached (record s { view = view; log = s.log ++ e ∷ [] })
unfolding apply_window
IsCached-grow s e view h step c =
    ap (λ window. apply_window s.durable window [] true)
      (drop-append s.window_start s.log (e ∷ []) h)
    ∙ apply_from-snoc 0 (Prelude.drop s.window_start s.log) e [] s.durable
    ∙ ap (λ o. o >>= λ r. apply_entry e Fate.apply r) c
    ∙ step

-- A sync that succeeds on a cached view.
pub close_window-sync_ok :
    (s : FaultyState) (armed : Option (ℕ × List Fate))
    → IsCached s
    → close_window LogEntry.sync_ok [] true armed s
      ≡ some (record s {
        durable = s.view;
        log = s.log ++ LogEntry.sync_ok ∷ [];
        window_start = length (s.log ++ LogEntry.sync_ok ∷ []);
        fail_sync = armed;
      })
close_window-sync_ok s armed c =
    ap
      (λ o. o >>= λ durable. some (record s {
        durable = durable;
        log = s.log ++ LogEntry.sync_ok ∷ [];
        window_start = length (s.log ++ LogEntry.sync_ok ∷ []);
        fail_sync = armed;
      }))
      c

IsCached-close :
    (s s' : FaultyState) (armed : Option (ℕ × List Fate))
    → IsCached s
    → close_window LogEntry.sync_ok [] true armed s ≡ some s'
    → IsCached s'
unfolding apply_window apply_from
IsCached-close s s' armed c e =
    subst IsCached (some_inj (sym (close_window-sync_ok s armed c) ∙ e)) (
      ap (λ window. apply_window s.view window [] true)
        (drop-length (s.log ++ LogEntry.sync_ok ∷ [])))

-- The log after a sync that was let through.
close_window-log :
    (s s' : FaultyState) (e : LogEntry) (fates : List Fate) (all : _)
    (armed : Option (ℕ × List Fate))
    → close_window e fates all armed s ≡ some s'
    → s.log ++ e ∷ [] ≡ s'.log
close_window-log s s' e fates all armed h =
    let (durable, e1, e2) =
      bind_some (apply_window s.durable (Prelude.drop s.window_start s.log) fates all) h in
    ap (λ r. r.log) (some_inj e2)

-- The answer of a sync that was let through.
abbrev passed : Option FaultyState → Option (IoResult Unit × FaultyState)
passed o = o >>= λ s. some (ok tt, s)

-- A sync that was let through, on a log without failures.
IsCached-passed :
    (armed : Option (ℕ × List Fate)) (s s' : FaultyState) {result : IoResult Unit}
    → (AllOf IsGood s.log → IsCached s)
    → passed (close_window LogEntry.sync_ok [] true armed s) ≡ some (result, s')
    → AllOf IsGood s'.log
    → IsCached s'
IsCached-passed armed s s' c e good =
    let (r, e1, e2) = bind_some (close_window LogEntry.sync_ok [] true armed s) e in
    let e3 = e1 ∙ ap some (ap (λ p. p.1) (some_inj e2)) in
    let log = close_window-log s s' LogEntry.sync_ok [] true armed e3 in
    let before = AllOf-prefix IsGood s.log _ (subst (AllOf IsGood) (sym log) good) in
    IsCached-close s s' armed (c before.0) e3

IsCached-sync_with :
    (armed : Option (ℕ × List Fate)) (s s' : FaultyState) (result : IoResult Unit)
    → (AllOf IsGood s.log → IsCached s)
    → sync_with armed s ≡ some (result, s')
    → AllOf IsGood s'.log
    → IsCached s'
IsCached-sync_with none s s' result c e good = IsCached-passed none s s' c e good
IsCached-sync_with (some (zero, fates)) s s' result c e good =
    let (r, e1, e2) = bind_some (close_window (LogEntry.sync_failed fates) fates false none s) e in
    let e3 = e1 ∙ ap some (ap (λ p. p.1) (some_inj e2)) in
    let log = close_window-log s s' (LogEntry.sync_failed fates) fates false none e3 in
    absurd (AllOf-prefix IsGood s.log _ (subst (AllOf IsGood) (sym log) good)).1.0
IsCached-sync_with (some (suc skip, fates)) s s' result c e good =
    IsCached-passed (some (skip, fates)) s s' c e good

-- Every history without a failed sync keeps the view cached.
pub Reachable-IsCached :
    {image : List ℕ} {s : FaultyState} → Reachable image s → AllOf IsGood s.log → IsCached s
unfolding from_image set_len sync fail_nth_sync apply_window apply_entry
Reachable-IsCached start good = refl
Reachable-IsCached (after_write {s = s} {s' = s'} off bytes r e) good =
    let (view, e1, e2) = write_all_at_lem off bytes s s' e in
    let before = AllOf-prefix IsGood s.log _ (subst (λ t. AllOf IsGood t.log) (sym e2) good) in
    subst IsCached e2 (
      IsCached-grow s (LogEntry.write off bytes) view (Reachable-IsReplayed r).start_le e1
        (Reachable-IsCached r before.0))
Reachable-IsCached (after_set_len {s = s} new_len r) good =
    IsCached-grow s (LogEntry.set_len new_len) (resize new_len s.view)
      (Reachable-IsReplayed r).start_le refl
      (Reachable-IsCached r (AllOf-prefix IsGood s.log _ good).0)
Reachable-IsCached (after_sync {s = s} {s' = s'} {result = result} r e) good =
    IsCached-sync_with s.fail_sync s s' result (Reachable-IsCached r) e good
Reachable-IsCached (after_arm skip fates r) good = Reachable-IsCached r good

-- A sync that nothing fails.
sync_with-IsCached :
    (armed : Option (ℕ × List Fate)) (s : FaultyState)
    → ((fates : List Fate) → armed ≢ some (0, fates))
    → IsCached s
    → (s' : FaultyState) × (sync_with armed s ≡ some (ok tt, s'))
      × (s'.durable ≡ s.view)
      × (Prelude.drop s'.window_start s'.log ≡ [])
sync_with-IsCached none s unarmed c = (
  _,
  ap passed (close_window-sync_ok s none c),
  refl,
  drop-length (s.log ++ LogEntry.sync_ok ∷ []),
)
sync_with-IsCached (some (zero, fates)) s unarmed c = absurd (unarmed fates refl)
sync_with-IsCached (some (suc skip, fates)) s unarmed c = (
  _,
  ap passed (close_window-sync_ok s (some (skip, fates)) c),
  refl,
  drop-length (s.log ++ LogEntry.sync_ok ∷ []),
)

-- On a device that requests have led to from an image, with no failed sync in its log and none
-- armed for now, `sync` succeeds, and a crash right after it, with any fates, leaves exactly the
-- bytes that a reader saw before the sync.
pub sync-crash_image_at :
    {image : List ℕ} {s : FaultyState}
    → Reachable image s
    → AllOf IsGood s.log
    → ((fates : List Fate) → s.fail_sync ≢ some (0, fates))
    → (s' : FaultyState) × (sync s ≡ some (ok tt, s'))
      × ((fates : List Fate) → crash_image_at (length s'.log) fates s' ≡ some s.view)
unfolding sync apply_window apply_from
sync-crash_image_at {s = s} r good unarmed =
    let (s', e, durable, window) =
      sync_with-IsCached s.fail_sync s unarmed (Reachable-IsCached r good) in
    (
      s',
      e,
      λ fates.
          crash_image_at-durable (after_sync r e) fates
          ∙ ap (λ w. apply_window s'.durable w fates false) window
          ∙ ap some durable,
    )
