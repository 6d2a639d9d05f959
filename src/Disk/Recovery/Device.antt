-- ===== src/Disk/Recovery/Device.antt =====
-- src/disk.rs on the device of src/vfs.rs: what the steps of a commit do to the durable bytes.
use beetree.Prelude.{
  Option-cases, bind_cong, ℕ, zero, suc, ◌+◌, ◌≤◌, ◌<◌, ◌≡◌, ◌≢◌, ◌⊎◌, inl, inr, refl, sym, ap, ◌∙◌,
  true, false, Option, none, some, List, [], ◌∷◌, ◌++◌, length, take, drop, ltb, ltb→lt,
  if◌then◌else◌, ◌>>=◌, arith, AllOf, AllOf-append, some_inj, bind_some, if_some, drop-append,
  drop-length, length-append, length-take, drop-append_exact, take-append_exact,
}
use mathlib.Core.Path.{subst}
use beetree.Bytes.{u64_mod}
use beetree.Vfs.{FaultyState, IoResult, Fate, LogEntry}
use beetree.Vfs.Faulty.{
  crash_image_at, write_at, resize, sync, sync_with, close_window, apply_window, apply_from,
  fate_at, apply_entry, write_all_at,
}
use beetree.Vfs.Replay.{apply_from-snoc}
use beetree.Vfs.Crash.{
  Reachable, after_write, write_all_at_lem, crash_image_at-durable, Reachable-IsReplayed,
}
use beetree.Vfs.Survival.{Spares, length-resize}
use beetree.Vfs.Counting.{faulty}
use beetree.Disk.{DiskResult, io}
use beetree.Disk.Load.{from_io}
use beetree.Disk.Publish.{write_bytes, sync_device}

-- A write of the engine is a write of the device.
pub write_bytes-write_all_at :
    (off : ℕ) (bytes : List ℕ) (s s' : FaultyState) (answer : DiskResult (Unit {0}))
    → write_bytes faulty off bytes s ≡ some (answer, s')
    → write_all_at off bytes s ≡ some s'
unfolding write_bytes faulty
write_bytes-write_all_at off bytes s s' answer h = elim (Option-cases (write_all_at off bytes s)) [
  | inl e ↦ cc (rw e at h)
  | inr (q, e) ↦ e ∙ ap some (ap (λ p. p.1) (some_inj (rw e at h)))
]

-- A part of a list that was replaced, where the list is long enough.
splice_parts :
    (off : ℕ) (bytes grown : List ℕ)
    → off + length bytes ≤ length grown
    → (off + length bytes ≤ length (take off grown ++ bytes ++ drop (off + length bytes) grown))
      × (take (length bytes) (drop off (take off grown ++ bytes ++ drop (off + length bytes) grown))
          ≡ bytes)
splice_parts off bytes grown long =
    let tail = drop (off + length bytes) grown in
    let front : length (take off grown) ≡ off = omega (arith, length-take off grown) in
    let both = length-append (take off grown) bytes in
    (
      omega (arith, both, length-append (take off grown ++ bytes) tail),
      ap (take (length bytes)) (
            drop-append off (take off grown ++ bytes) tail (omega arith)
            ∙ ap (λ l. l ++ tail) (drop-append_exact off (take off grown) bytes front))
          ∙ take-append_exact (length bytes) bytes tail refl,
    )

-- What a write leaves in a file.
pub write_at-parts :
    (off : ℕ) (bytes buf r : List ℕ)
    → write_at off bytes buf ≡ some r
    → (off + length bytes < u64_mod)
      × (off + length bytes ≤ length r)
      × (take (length bytes) (drop off r) ≡ bytes)
unfolding write_at
write_at-parts off bytes buf r h =
    let end = off + length bytes in
    let grown = if ltb (length buf) end then resize end buf else buf in
    let (fits, e) = if_some (ltb end u64_mod) h in
    let long : end ≤ length grown = ground (arith, length-resize end buf) in
    let (far, same) = splice_parts off bytes grown long in
    (
      ltb→lt end u64_mod fits,
      subst (λ l. end ≤ length l) (some_inj e) far,
      subst (λ l. take (length bytes) (drop off l) ≡ bytes) (some_inj e) same,
    )

-- A write spares the bytes outside it.
pub Spares-write_all_at :
    (i off : ℕ) (bytes : List ℕ) (s s' : FaultyState)
    → s.window_start ≤ length s.log
    → write_all_at off bytes s ≡ some s'
    → (i < off) ⊎ (off + length bytes ≤ i)
    → AllOf (Spares i) (drop s.window_start s.log)
    → AllOf (Spares i) (drop s'.window_start s'.log)
Spares-write_all_at i off bytes s s' start h apart spared =
    let (view, e, state) = write_all_at_lem off bytes s s' h in
    let fits = (write_at-parts off bytes s.view view e).0 in
    let entry = LogEntry.write off bytes in
    let grown : AllOf (Spares i) (drop s.window_start (s.log ++ entry ∷ [])) =
      subst (AllOf (Spares i)) (sym (drop-append s.window_start s.log (entry ∷ []) start)) (
        AllOf-append (Spares i) (drop s.window_start s.log) (entry ∷ []) spared
          ((fits, apart), tt)) in
    subst (λ t. AllOf (Spares i) (drop t.window_start t.log)) state grown

-- What a write does not change.
pub write_all_at-durable :
    (off : ℕ) (bytes : List ℕ) (s s' : FaultyState)
    → write_all_at off bytes s ≡ some s'
    → s'.durable ≡ s.durable
write_all_at-durable off bytes s s' h =
    let (view, e, state) = write_all_at_lem off bytes s s' h in ap (λ t. t.durable) (sym state)

-- A sync that is let through is a crash in which every pending operation applies.
apply_from-all :
    (n : ℕ) (window : List LogEntry) (buf : List ℕ)
    → apply_from n window [] true buf ≡ apply_from n window [] false buf
unfolding apply_from fate_at
apply_from-all n [] buf = refl
apply_from-all n (e ∷ window) buf =
    bind_cong (apply_entry e Fate.apply buf) (λ r. apply_from-all (suc n) window r)

abbrev answered :
    IoResult (Unit {0}) → Option FaultyState → Option (IoResult (Unit {0}) × FaultyState)
answered result o = o >>= λ t. some (result, t)

close_window-durable :
    (armed : Option (ℕ × List Fate)) (s s' : FaultyState) (result : IoResult (Unit {0}))
    → answered result (close_window LogEntry.sync_ok [] true armed s) ≡ some (IoResult.ok tt, s')
    → (apply_window s.durable (drop s.window_start s.log) [] true ≡ some s'.durable)
      × (drop s'.window_start s'.log ≡ [])
close_window-durable armed s s' result h =
    let (t, e, h') = bind_some (close_window LogEntry.sync_ok [] true armed s) h in
    let (durable, e1, e2) =
      bind_some (apply_window s.durable (drop s.window_start s.log) [] true) e in
    let state = some_inj e2 ∙ ap (λ p. p.1) (some_inj h') in
    (
      e1 ∙ ap (λ u. some u.durable) state,
      subst (λ u. drop u.window_start u.log ≡ []) state
          (drop-length (s.log ++ LogEntry.sync_ok ∷ [])),
    )

other_ne_ok :
    (t s' : FaultyState)
    → ◌≢◌ {A = IoResult (Unit {0}) × FaultyState} (IoResult.other, t) (IoResult.ok tt, s')
other_ne_ok t s' h = cc (ap (λ p. p.0) h)

sync_with-durable :
    (armed : Option (ℕ × List Fate)) (s s' : FaultyState)
    → sync_with armed s ≡ some (IoResult.ok tt, s')
    → (apply_window s.durable (drop s.window_start s.log) [] true ≡ some s'.durable)
      × (drop s'.window_start s'.log ≡ [])
sync_with-durable none s s' h = close_window-durable none s s' (IoResult.ok tt) h
sync_with-durable (some (zero, fates)) s s' h =
    let (t, e, h') = bind_some (close_window (LogEntry.sync_failed fates) fates false none s) h in
    absurd (other_ne_ok t s' (some_inj h'))
sync_with-durable (some (suc skip, fates)) s s' h =
    close_window-durable (some (skip, fates)) s s' (IoResult.ok tt) h

abbrev pub lifted :
    Option (IoResult (Unit {0}) × FaultyState) → Option (DiskResult (Unit {0}) × FaultyState)
lifted o = do (answer, d) ← o; result ← from_io (some answer); some (result, d)

err_ne_ok :
    (t s' : FaultyState)
    → ◌≢◌ {A = DiskResult (Unit {0}) × FaultyState} (DiskResult.err io, t) (DiskResult.ok tt, s')
err_ne_ok t s' h = cc (ap (λ p. p.0) h)

-- The answer of the device behind the answer of the engine.
sync_device-sync :
    (s s' : FaultyState) (o : Option (IoResult (Unit {0}) × FaultyState))
    → lifted o ≡ some (DiskResult.ok tt, s')
    → o ≡ some (IoResult.ok tt, s')
sync_device-sync s s' none h = cc
sync_device-sync s s' (some (IoResult.ok a, t)) h =
    ap (λ u. some (IoResult.ok tt, u)) (ap (λ p. p.1) (some_inj h))
sync_device-sync s s' (some (IoResult.unexpected_eof, t)) h = absurd (err_ne_ok t s' (some_inj h))
sync_device-sync s s' (some (IoResult.other, t)) h = absurd (err_ne_ok t s' (some_inj h))

-- A sync of the engine that succeeds: the durable bytes are what a crash leaves that applies every
-- pending operation, and no operation is pending.
pub sync_device-durable :
    {image : List ℕ} (s s' : FaultyState)
    → Reachable image s
    → sync_device faulty s ≡ some (DiskResult.ok tt, s')
    → (sync s ≡ some (IoResult.ok tt, s'))
      × (crash_image_at (length s.log) [] s ≡ some s'.durable)
      × (apply_window s.durable (drop s.window_start s.log) [] true ≡ some s'.durable)
      × (drop s'.window_start s'.log ≡ [])
unfolding sync_device faulty sync apply_window
sync_device-durable s s' r h =
    let e : sync s ≡ some (IoResult.ok tt, s') = sync_device-sync s s' (sync s) h in
    let (durable, window) = sync_with-durable s.fail_sync s s' e in
    (
      e,
      crash_image_at-durable r []
          ∙ sym (apply_from-all 0 (drop s.window_start s.log) s.durable)
          ∙ durable,
      durable,
      window,
    )

-- A write that was synced stands in the durable bytes.
pub sync_device-write :
    {image : List ℕ} (off : ℕ) (bytes : List ℕ) (s s1 s2 : FaultyState)
    → Reachable image s
    → write_all_at off bytes s ≡ some s1
    → sync_device faulty s1 ≡ some (DiskResult.ok tt, s2)
    → (off + length bytes ≤ length s2.durable) × (take (length bytes) (drop off s2.durable) ≡ bytes)
unfolding apply_window apply_entry
sync_device-write off bytes s s1 s2 r w e =
    let (view, e0, state) = write_all_at_lem off bytes s s1 w in
    let (e1, crash, all, window) = sync_device-durable s1 s2 (after_write off bytes r w) e in
    let entry = LogEntry.write off bytes in
    let applied : apply_window s.durable (drop s.window_start (s.log ++ entry ∷ [])) [] true
        ≡ some s2.durable =
      ap (λ t. apply_window t.durable (drop t.window_start t.log) [] true) state ∙ all in
    let split =
      sym (apply_from-snoc 0 (drop s.window_start s.log) entry [] s.durable)
      ∙ ap (λ t. apply_window s.durable t [] true)
          (sym (drop-append s.window_start s.log (entry ∷ []) (Reachable-IsReplayed r).start_le))
      ∙ applied in
    let (mid, em, ew) =
      bind_some (apply_from 0 (drop s.window_start s.log) [] true s.durable) split in
    let (fits, far, same) = write_at-parts off bytes mid s2.durable ew in (far, same)
