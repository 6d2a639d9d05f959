-- ===== src/Disk/Poison/Writes.antt =====
-- src/disk.rs: a public write that fails has changed nothing, or poisons the engine.
use beetree.Prelude.{
  ℕ, suc, ◌≡◌, ◌<◌, ◌⊎◌, inl, inr, refl, sym, ap, ◌∙◌, true, Option, none, some, List, [], ◌∷◌,
  arith, length, take, bind_some,
}
use beetree.Key.{Key}
use beetree.Message.{Message, put}
use beetree.Policy.{FlushPolicy}
use beetree.Trace.{OpKind2}
use beetree.Vfs.Counting.{Vfs}
use beetree.Format.{Codec}
use beetree.Disk.{DiskEngine, DiskResult, DiskError, poisoned_engine}
use beetree.Disk.Arena.{loaded_mut, put_node}
use beetree.Disk.Load.{ensure_loaded}
use beetree.Disk.Get.{then_walk}
use beetree.Disk.Publish.{commit}
use beetree.Disk.Write.{write, apply_root, poison_if_err, try_insert, try_delete, try_upsert}
use beetree.Disk.Poison.{refused}
use beetree.Disk.Mirror.Runs.{Write, insert, delete, upsert, disk_run}
use beetree.Disk.Poison.Loads.{ok_is_no_err, err_state, then_walk-err, ensure_loaded-err}

module _ {D P : Type 0} (vfs : Vfs D) (c : Codec) where
  poison_if_err-err :
      (o : Option (DiskResult (Unit {0}) × DiskEngine D P)) (s' : DiskEngine D P) {e : DiskError}
      → poison_if_err o ≡ some (DiskResult.err e, s')
      → s'.poisoned ≡ true
  unfolding poison_if_err
  poison_if_err-err none s' h = cc
  poison_if_err-err (some (DiskResult.ok done, s)) s' h = absurd (ok_is_no_err h)
  poison_if_err-err (some (DiskResult.err d, s)) s' h = ap (λ u. u.poisoned) (err_state h)

  -- A poisoned engine, which refuses to commit.
  pub record IsRefusing (s' : DiskEngine D P) : Type 0 where
    pub poisoned : s'.poisoned ≡ true
    pub refuses : commit vfs c s' ≡ some (DiskResult.err poisoned_engine, s')

  module _ (choose : FlushPolicy P) (fuel visits : ℕ) where
    apply_root-err :
        (key : Key) (message : Message) (s s' : DiskEngine D P) {e : DiskError}
        → apply_root vfs c choose fuel visits key message s ≡ some (DiskResult.err e, s')
        → s'.poisoned ≡ true
    unfolding apply_root
    apply_root-err key message s s' h =
        let a = bind_some (loaded_mut s.root s) h in
        let b = bind_some (put_node s.root _ a.0.1) a.2 in poison_if_err-err _ s' b.2

    write-err :
        (key : Key) (o : OpKind2) (message : ℕ → Message) (s s' : DiskEngine D P) {e : DiskError}
        → write vfs c choose fuel visits key o message s ≡ some (DiskResult.err e, s')
        → (s' ≡ s) ⊎ (s'.poisoned ≡ true)
    unfolding write
    write-err key o message s s' h = elim (then_walk-err (ensure_loaded vfs c s.root [] s) _ h) [
      | inl k ↦ inl (ensure_loaded-err vfs c s.root [] s s' k)
      | inr (done, s1, k, rest) ↦ inr (apply_root-err key _ _ s' rest)
    ]

    -- The engine after some of the writes, none of which failed.
    pub record IsPrefix (writes : List Write) (s s' : DiskEngine D P) : Type 0 where
      pub done : ℕ
      pub before : done < length writes
      pub ran : disk_run vfs c choose fuel visits (take done writes) s ≡ some (DiskResult.ok tt, s')

    one_more :
        (w : Write) (writes : List Write) (o : Option (DiskResult (Unit {0}) × DiskEngine D P))
        (s s1 s' : DiskEngine D P)
        → ((ws : List Write)
            → disk_run vfs c choose fuel visits (w ∷ ws) s
              ≡ then_walk o (λ done u. disk_run vfs c choose fuel visits ws u))
        → o ≡ some (DiskResult.ok tt, s1)
        → IsPrefix writes s1 s' ⊎ IsRefusing s'
        → IsPrefix (w ∷ writes) s s' ⊎ IsRefusing s'
    one_more w writes o s s1 s' step k (inl x) = inl (record {
      done = suc x.done;
      before = omega (arith, x.before);
      ran =
          step (take x.done writes)
          ∙ ap
              (λ r.
                then_walk r (λ done u. disk_run vfs c choose fuel visits (take x.done writes) u))
              k
          ∙ x.ran;
    })
    one_more w writes o s s1 s' step k (inr x) = inr x

    stopped :
        (w : Write) (writes : List Write) (o : Option (DiskResult (Unit {0}) × DiskEngine D P))
        (s s' : DiskEngine D P) {e : DiskError}
        → ((ws : List Write)
            → disk_run vfs c choose fuel visits (w ∷ ws) s
              ≡ then_walk o (λ done u. disk_run vfs c choose fuel visits ws u))
        → (o ≡ some (DiskResult.err e, s') → (s' ≡ s) ⊎ (s'.poisoned ≡ true))
        → ((u : DiskEngine D P)
            → disk_run vfs c choose fuel visits writes u ≡ some (DiskResult.err e, s')
            → IsPrefix writes u s' ⊎ IsRefusing s')
        → then_walk o (λ done u. disk_run vfs c choose fuel visits writes u)
          ≡ some (DiskResult.err e, s')
        → IsPrefix (w ∷ writes) s s' ⊎ IsRefusing s'
    unfolding disk_run
    stopped w writes o s s' step fails rest h = elim (then_walk-err o _ h) [
      | inl k ↦ elim (fails k) [
        | inl same ↦ inl (record {
          done = 0;
          before = omega arith;
          ran = ap (λ u. some (DiskResult.ok tt, u)) (sym same);
        })
        | inr poisoned ↦ inr (record { poisoned = poisoned; refuses = refused vfs c s' poisoned })
      ]
      | inr (done, s1, k, tail) ↦ one_more w writes o s s1 s' step k (rest s1 tail)
    ]

    -- On any file system whose state reads leave as it is, and under any policy: where a sequence of
    -- public writes answers with an error, the engine is either exactly what the writes before one of them left, with nothing of that one or
    -- of a later one, or it is poisoned, and its next commit refuses and changes nothing.
    pub disk_run-err :
        (writes : List Write) (s s' : DiskEngine D P) (e : DiskError)
        → disk_run vfs c choose fuel visits writes s ≡ some (DiskResult.err e, s')
        → IsPrefix writes s s' ⊎ IsRefusing s'
    unfolding disk_run try_insert try_delete try_upsert
    disk_run-err [] s s' e h = absurd (ok_is_no_err h)
    disk_run-err (insert key value ∷ writes) s s' e h =
        stopped (insert key value) writes (try_insert vfs c choose fuel visits key value s) s s'
          (λ ws. refl) (write-err key _ (λ seq. put seq value) s s')
          (λ u. disk_run-err writes u s' e) h
    disk_run-err (delete key ∷ writes) s s' e h =
        stopped (delete key) writes (try_delete vfs c choose fuel visits key s) s s' (λ ws. refl)
          (write-err key _ (Message.delete) s s') (λ u. disk_run-err writes u s' e) h
    disk_run-err (upsert key op ∷ writes) s s' e h =
        stopped (upsert key op) writes (try_upsert vfs c choose fuel visits key op s) s s'
          (λ ws. refl) (write-err key _ (λ seq. Message.upsert seq op) s s')
          (λ u. disk_run-err writes u s' e) h
