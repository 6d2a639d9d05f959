-- ===== src/Disk/Recovery/Failed.antt =====
-- src/disk.rs on the device of src/vfs.rs: a commit that fails.
use beetree.Prelude.{
  ℕ, zero, suc, ◌≡◌, ◌≢◌, ◌⊎◌, inl, inr, sym, ap, ◌∙◌, true, false, Option, none, some, List, [],
  ◌∷◌, length, drop, bind_some, some_inj, drop-length, ◌++◌,
}
use mathlib.Core.Path.{subst}
use beetree.Vfs.{FaultyState, IoResult, Fate, LogEntry}
use beetree.Vfs.Faulty.{crash_image_at, sync, sync_with, close_window, apply_window, apply_from}
use beetree.Vfs.Crash.{Reachable, after_sync, crash_image_at-durable}
use beetree.Vfs.Counting.{faulty}
use beetree.Disk.{DiskResult, DiskError}
use beetree.Disk.Recovery.Device.{lifted}
use beetree.Disk.Publish.{sync_device}

-- What a sync that failed has done: some fates of the pending operations became durable, and nothing
-- is pending.
pub record IsFailed (s s' : FaultyState) : Type 0 where
  pub fates : List Fate
  pub image : crash_image_at (length s.log) fates s ≡ some s'.durable
  pub settled : drop s'.window_start s'.log ≡ []

-- What a sync answers, and, where that is not success, what it leaves.
sync_with-failed :
    (armed : Option (ℕ × List Fate)) (s s' : FaultyState) (result : IoResult (Unit {0}))
    → sync_with armed s ≡ some (result, s')
    → (result ≡ IoResult.ok tt)
      ⊎ ((fates : List Fate) × (apply_window s.durable (drop s.window_start s.log) fates false
            ≡ some s'.durable)
          × (drop s'.window_start s'.log ≡ []))
sync_with-failed none s s' result h =
    let (t, e, h') = bind_some (close_window LogEntry.sync_ok [] true none s) h in
    inl (sym (ap (λ p. p.0) (some_inj h')))
sync_with-failed (some (zero, fates)) s s' result h =
    let (t, e, h') = bind_some (close_window (LogEntry.sync_failed fates) fates false none s) h in
    let (durable, e1, e2) =
      bind_some (apply_window s.durable (drop s.window_start s.log) fates false) e in
    let state = some_inj e2 ∙ ap (λ p. p.1) (some_inj h') in
    inr (
      fates,
      e1 ∙ ap (λ u. some u.durable) state,
      subst (λ u. drop u.window_start u.log ≡ []) state
          (drop-length (s.log ++ LogEntry.sync_failed fates ∷ [])),
    )
sync_with-failed (some (suc skip, fates)) s s' result h =
    let (t, e, h') = bind_some (close_window LogEntry.sync_ok [] true (some (skip, fates)) s) h in
    inl (sym (ap (λ p. p.0) (some_inj h')))

ok_ne_err :
    (e : DiskError) (t s' : FaultyState)
    → ◌≢◌ {A = DiskResult (Unit {0}) × FaultyState} (DiskResult.ok tt, t) (DiskResult.err e, s')
ok_ne_err e t s' h = cc (ap (λ p. p.0) h)

eof_ne_ok : ◌≢◌ {A = IoResult (Unit {0})} IoResult.unexpected_eof (IoResult.ok tt)
eof_ne_ok h = cc

other_ne_ok : ◌≢◌ {A = IoResult (Unit {0})} IoResult.other (IoResult.ok tt)
other_ne_ok h = cc

-- The answer of the device behind an error of the engine.
lifted-err :
    (e : DiskError) (s' : FaultyState) (o : Option (IoResult (Unit {0}) × FaultyState))
    → lifted o ≡ some (DiskResult.err e, s')
    → (result : IoResult (Unit {0})) × (o ≡ some (result, s')) × (result ≢ IoResult.ok tt)
lifted-err e s' none h = cc
lifted-err e s' (some (IoResult.ok a, t)) h = absurd (ok_ne_err e t s' (some_inj h))
lifted-err e s' (some (IoResult.unexpected_eof, t)) h = (
  IoResult.unexpected_eof,
  ap (λ u. some (IoResult.unexpected_eof, u)) (ap (λ p. p.1) (some_inj h)),
  eof_ne_ok,
)
lifted-err e s' (some (IoResult.other, t)) h =
    (IoResult.other, ap (λ u. some (IoResult.other, u)) (ap (λ p. p.1) (some_inj h)), other_ne_ok)

pub sync_device-IsFailed :
    {image : List ℕ} (s s' : FaultyState) (e : DiskError)
    → Reachable image s
    → sync_device faulty s ≡ some (DiskResult.err e, s')
    → IsFailed s s' × Reachable image s'
unfolding sync_device faulty sync
sync_device-IsFailed s s' e r h =
    let (result, at, failed) = lifted-err e s' (sync s) h in
    elim (sync_with-failed s.fail_sync s s' result at) [
      | inl fine ↦ absurd (failed fine)
      | inr (fates, durable, settled) ↦ (
        record {
          fates = fates;
          image = crash_image_at-durable r fates ∙ durable;
          settled = settled;
        },
        after_sync {result = result} r at,
      )
    ]

-- After a sync that failed, every crash leaves the durable bytes.
pub crash_image_at-settled :
    {image : List ℕ} (s : FaultyState)
    → Reachable image s
    → drop s.window_start s.log ≡ []
    → (fates : List Fate) → crash_image_at (length s.log) fates s ≡ some s.durable
unfolding apply_window apply_from
crash_image_at-settled s r settled fates =
    crash_image_at-durable r fates
    ∙ ap (λ window. apply_window s.durable window fates false) settled
