-- ===== src/Disk/Poison.antt =====
-- src/disk.rs: a commit that fails poisons the engine.
pub mod Loads
pub mod Writes
use beetree.Prelude.{
  ◌≡◌, ◌≢◌, refl, sym, ap, ◌∙◌, Bool, true, false, Option, some, bind_some, some_inj, if◌then◌else◌,
  ◌>>=◌,
}
use beetree.Vfs.Counting.{Vfs}
use beetree.Format.{Codec}
use beetree.Disk.{DiskEngine, DiskResult, DiskError, CommitStats, poisoned_engine}
use beetree.Disk.Publish.{commit, commit_inner, poison_on_error}

ok_ne_err :
    {A : Type 0} (a : A) (e : DiskError)
    → ◌≢◌ {A = DiskResult A} (DiskResult.ok a) (DiskResult.err e)
ok_ne_err a e h = cc

module _ {D P : Type 0} (vfs : Vfs D) (c : Codec) where
  pub refused :
      (s : DiskEngine D P)
      → s.poisoned ≡ true
      → commit vfs c s ≡ some (DiskResult.err poisoned_engine, s)
  unfolding commit
  refused s h = rw h refl

  poisoned_by :
      (answer : DiskResult CommitStats × DiskEngine D P) (e : DiskError) (t : DiskEngine D P)
      → poison_on_error vfs c answer ≡ (DiskResult.err e, t)
      → t.poisoned ≡ true
  poisoned_by (DiskResult.ok stats, s) e t h = absurd (ok_ne_err stats e (ap (λ p. p.0) h))
  poisoned_by (DiskResult.err e', s) e t h = sym (ap (λ p. p.1.poisoned) h)

  poisoned_if :
      (already : Bool) (s t : DiskEngine D P) (e : DiskError)
      (o : Option (DiskResult CommitStats × DiskEngine D P))
      → s.poisoned ≡ already
      → (if already
          then some (DiskResult.err poisoned_engine, s)
          else o >>= λ answer. some (poison_on_error vfs c answer))
        ≡ some (DiskResult.err e, t)
      → t.poisoned ≡ true
  poisoned_if true s t e o same h = sym (ap (λ p. p.1.poisoned) (some_inj h)) ∙ same
  poisoned_if false s t e o same h =
      let (answer, e1, e2) = bind_some o h in poisoned_by answer e t (some_inj e2)

  -- A commit that answers with an error leaves a poisoned engine.
  commit-err :
      (s t : DiskEngine D P) (e : DiskError)
      → commit vfs c s ≡ some (DiskResult.err e, t)
      → t.poisoned ≡ true
  unfolding commit
  commit-err s t e h = poisoned_if s.poisoned s t e (commit_inner vfs c s) refl h

  -- On any file system: a commit that answers with an error leaves a poisoned engine, and the next
  -- commit refuses and changes nothing.
  pub commit-poisoned :
      (s t : DiskEngine D P) (e : DiskError)
      → commit vfs c s ≡ some (DiskResult.err e, t)
      → (t.poisoned ≡ true) × (commit vfs c t ≡ some (DiskResult.err poisoned_engine, t))
  commit-poisoned s t e h = let poisoned = commit-err s t e h in (poisoned, refused t poisoned)
