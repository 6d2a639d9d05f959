-- ===== src/Vfs/Replay.antt =====
-- src/vfs.rs: the replay of a log that grows at its end.
use beetree.Prelude.{
  drop-append, take-append, take-length, bind_cong, bind_some, bind_pure, bind_assoc, ℕ, zero, suc,
  ◌+◌, ◌-◌, ◌≤◌, ◌≡◌, refl, sym, ap, ◌∙◌, true, false, Option, none, some, List, [], ◌∷◌, ◌++◌,
  length, take, length-drop, Option-cases, some_inj, inl, inr, ◌>>=◌, arith,
}
use beetree.Prelude
use beetree.Vfs.{Fate, LogEntry}
use beetree.Vfs.Faulty.{apply_window, apply_from, apply_entry, fate_at, between, replay_syncs}

pub between-append :
    (from to : ℕ) (log tail : List LogEntry)
    → from ≤ to
    → to ≤ length log
    → between from to (log ++ tail) ≡ between from to log
between-append from to log tail h h' =
    ap (take (to - from)) (drop-append from log tail (omega arith))
    ∙ take-append (to - from) (Prelude.drop from log) tail (omega (arith, length-drop from log))

pub between-length :
    (from : ℕ) (log : List LogEntry) → between from (length log) log ≡ Prelude.drop from log
between-length from log =
    take-length (Prelude.drop from log) (length log - from) (omega (arith, length-drop from log))

-- A longer log does not change the replay of what was there.
pub replay_syncs-append :
    (log tail : List LogEntry) (i w : ℕ) (entries : List LogEntry) (img : List ℕ)
    → w ≤ i
    → i + length entries ≤ length log
    → replay_syncs (log ++ tail) i w entries img ≡ replay_syncs log i w entries img
unfolding replay_syncs
replay_syncs-append log tail i w [] img h h' = refl
replay_syncs-append log tail i w (LogEntry.write off bytes ∷ entries) img h h' =
    replay_syncs-append log tail (suc i) w entries img (omega arith) (omega arith)
replay_syncs-append log tail i w (LogEntry.set_len len ∷ entries) img h h' =
    replay_syncs-append log tail (suc i) w entries img (omega arith) (omega arith)
replay_syncs-append log tail i w (LogEntry.sync_ok ∷ entries) img h h' =
    ap
      (λ window. apply_window img window [] true >>= λ img'.
        replay_syncs (log ++ tail) (suc i) (suc i) entries img')
      (between-append w i log tail h (omega arith))
    ∙ bind_cong (apply_window img (between w i log) [] true) (λ img'.
      replay_syncs-append log tail (suc i) (suc i) entries img' (omega arith) (omega arith))
replay_syncs-append log tail i w (LogEntry.sync_failed fates ∷ entries) img h h' =
    ap
      (λ window. apply_window img window fates false >>= λ img'.
        replay_syncs (log ++ tail) (suc i) (suc i) entries img')
      (between-append w i log tail h (omega arith))
    ∙ bind_cong (apply_window img (between w i log) fates false) (λ img'.
      replay_syncs-append log tail (suc i) (suc i) entries img' (omega arith) (omega arith))

pub replay_syncs-at :
    (log entries : List LogEntry) {i j : ℕ} (p : ℕ × List ℕ)
    → i ≡ j
    → replay_syncs log i p.0 entries p.1 ≡ replay_syncs log j p.0 entries p.1
replay_syncs-at log entries p h = ap (λ n. replay_syncs log n p.0 entries p.1) h

-- The last entry is replayed where the rest has led.
pub replay_syncs-snoc :
    (log : List LogEntry) (i w : ℕ) (entries : List LogEntry) (e : LogEntry) (img : List ℕ)
    (p : ℕ × List ℕ)
    → replay_syncs log i w entries img ≡ some p
    → replay_syncs log i w (entries ++ e ∷ []) img
      ≡ replay_syncs log (i + length entries) p.0 (e ∷ []) p.1
unfolding replay_syncs
replay_syncs-snoc log i w [] e img p h =
    ap (λ q. replay_syncs log i q.0 (e ∷ []) q.1) (some_inj h)
    ∙ replay_syncs-at log (e ∷ []) p (omega arith)
replay_syncs-snoc log i w (LogEntry.write off bytes ∷ entries) e img p h =
    replay_syncs-snoc log (suc i) w entries e img p h ∙ replay_syncs-at log (e ∷ []) p (omega arith)
replay_syncs-snoc log i w (LogEntry.set_len len ∷ entries) e img p h =
    replay_syncs-snoc log (suc i) w entries e img p h ∙ replay_syncs-at log (e ∷ []) p (omega arith)
replay_syncs-snoc log i w (LogEntry.sync_ok ∷ entries) e img p h =
    let (img', e1, e2) = bind_some (apply_window img (between w i log) [] true) h in
    ap (λ o. o >>= λ r. replay_syncs log (suc i) (suc i) (entries ++ e ∷ []) r) e1
    ∙ replay_syncs-snoc log (suc i) (suc i) entries e img' p e2
    ∙ replay_syncs-at log (e ∷ []) p (omega arith)
replay_syncs-snoc log i w (LogEntry.sync_failed fates ∷ entries) e img p h =
    let (img', e1, e2) = bind_some (apply_window img (between w i log) fates false) h in
    ap (λ o. o >>= λ r. replay_syncs log (suc i) (suc i) (entries ++ e ∷ []) r) e1
    ∙ replay_syncs-snoc log (suc i) (suc i) entries e img' p e2
    ∙ replay_syncs-at log (e ∷ []) p (omega arith)

-- The replay of a whole log, after one more entry.
pub replay_syncs-grow :
    (log : List LogEntry) (e : LogEntry) (img : List ℕ) (p : ℕ × List ℕ)
    → replay_syncs log 0 0 log img ≡ some p
    → replay_syncs (log ++ e ∷ []) 0 0 (log ++ e ∷ []) img
      ≡ replay_syncs (log ++ e ∷ []) (length log) p.0 (e ∷ []) p.1
replay_syncs-grow log e img p h =
    replay_syncs-snoc (log ++ e ∷ []) 0 0 log e img p
      (replay_syncs-append log (e ∷ []) 0 0 log img (omega arith) (omega arith) ∙ h)
    ∙ replay_syncs-at (log ++ e ∷ []) (e ∷ []) p (omega arith)

-- Windows: the last operation of a good sync is applied last.
pub apply_from-snoc :
    (n : ℕ) (window : List LogEntry) (e : LogEntry) (fates : List Fate) (buf : List ℕ)
    → apply_from n (window ++ e ∷ []) fates true buf
      ≡ (apply_from n window fates true buf >>= λ r. apply_entry e Fate.apply r)
unfolding apply_from fate_at
apply_from-snoc n [] e fates buf = bind_pure (apply_entry e Fate.apply buf)
apply_from-snoc n (x ∷ window) e fates buf =
    bind_cong (apply_entry x Fate.apply buf) (λ r. apply_from-snoc (suc n) window e fates r)
    ∙ bind_assoc (apply_entry x Fate.apply buf) (λ r. apply_from (suc n) window fates true r)
        (λ r. apply_entry e Fate.apply r)

-- The window that the end of a log closes.
pub between-snoc :
    (from : ℕ) (log : List LogEntry) (e : LogEntry)
    → from ≤ length log
    → between from (length log) (log ++ e ∷ []) ≡ Prelude.drop from log
between-snoc from log e h =
    between-append from (length log) log (e ∷ []) h (omega arith) ∙ between-length from log
