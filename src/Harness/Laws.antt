-- ===== src/Harness/Laws.antt =====
-- The harnesses meet the contract of `run_prog`.
use mathlib.Core.List.{Perm}
use linux_scheduler_comparis.Base.{
  Bool, true, false, List, ◌∷◌, ◌≡◌, ◌≢◌, subst, ap, sym, Text, codes, if◌then◌else◌,
}
use linux_scheduler_comparis.Base.Int.{ℤ, minus_one}
use linux_scheduler_comparis.Base.Outcome.{Outcome, done, ◌>>=◌, >>=-eq-done, done-injective}
use linux_scheduler_comparis.Process.{Child, System, IsLawful, TestRun, IsTestProgram}
use linux_scheduler_comparis.Harness.{
  ffmpeg, tar, gunzip, timed, below, remove_if_exists, remove_all_if_directory, run_ffmpeg,
  run_extract, run_gzip,
}

module _ (S : System) {children : S.State → List ℤ} (L : IsLawful S children) where
  -- One child more and one child less.
  pub timed_lem :
      (c : Child) (s : S.State)
      → (timed S c s).0.spawned ≢ minus_one
      → (timed S c s).0.waited ≢ minus_one
      → Perm
          ((timed S c s).0.spawned ∷ children s)
          ((timed S c s).0.waited ∷ children (timed S c s).1)
  unfolding timed
  timed_lem c s h k =
      rw (L.children-now, ← L.children-now s, ← L.children-fork c (S.now s).1 h)
        (L.children-wait _ k)

  pub remove_if_exists-children :
      (p : Text) (s : S.State) {t : S.State}
      → remove_if_exists S p s ≡ done t
      → children t ≡ children s
  unfolding remove_if_exists
  remove_if_exists-children p s h =
      let (there, asked, rest) = >>=-eq-done (S.exists p s) _ h in go there rest
    where
      go :
          (there : Bool) {t : S.State}
          → (if there then S.remove p s else done s) ≡ done t
          → children t ≡ children s
      go true e = L.children-remove p s e
      go false e = ap children (sym (done-injective e))

  pub remove_all_if_directory-children :
      (p : Text) (s : S.State) {t : S.State}
      → remove_all_if_directory S p s ≡ done t
      → children t ≡ children s
  unfolding remove_all_if_directory
  remove_all_if_directory-children p s h =
      let (there, asked, rest) = >>=-eq-done (S.is_directory p s) _ h in go there rest
    where
      go :
          (there : Bool) {t : S.State}
          → (if there then S.remove_all p s else done s) ≡ done t
          → children t ≡ children s
      go true e = L.children-remove_all p s e
      go false e = ap children (sym (done-injective e))

  -- The shape that the three harnesses share: prepare, time the child, clean up.
  framed :
      (prepare : Outcome S.State) (c : Child) (cleanup : S.State → Outcome S.State) (s : S.State)
      (run : TestRun) (t : S.State)
      → ((s1 : S.State) → prepare ≡ done s1 → children s1 ≡ children s)
      → ((s2 s3 : S.State) → cleanup s2 ≡ done s3 → children s3 ≡ children s2)
      → (prepare >>= λ s1.
          ◌>>=◌ {B = TestRun × S.State}
            (cleanup (timed S c s1).1)
            (λ s3. done ((timed S c s1).0, s3)))
        ≡ done (run, t)
      → run.spawned ≢ minus_one
      → run.waited ≢ minus_one
      → Perm (run.spawned ∷ children s) (run.waited ∷ children t)
  framed prepare c cleanup s run t before after h =
      let (s1, prepared, rest) = >>=-eq-done prepare _ h in
      let (s3, cleaned, last) = >>=-eq-done (cleanup (timed S c s1).1) _ rest in
      subst
        (λ (r : TestRun × S.State).
          r.0.spawned ≢ minus_one
          → r.0.waited ≢ minus_one
          → Perm (r.0.spawned ∷ children s) (r.0.waited ∷ children r.1))
        (done-injective last)
        (λ spawned waited.
          rw (← before s1 prepared, after (timed S c s1).1 s3 cleaned)
            (timed_lem c s1 spawned waited))

  -- Over a lawful system: if `run_prog` of the gzip harness returns, and neither its `fork` nor
  -- its `wait` failed, then the children are those before, with the spawned one added and the
  -- waited one taken away.
  pub run_gzip-children :
      (pin : ℤ) (s : S.State) (run : TestRun) (t : S.State)
      → run_gzip S pin s ≡ done (run, t)
      → run.spawned ≢ minus_one
      → run.waited ≢ minus_one
      → Perm (run.spawned ∷ children s) (run.waited ∷ children t)
  unfolding run_gzip
  run_gzip-children pin s run t h =
      framed (remove_if_exists S (below S (codes "gcc-13.2.0.tar") s) s) (gunzip pin)
        (remove_if_exists S (below S (codes "gcc-13.2.0.tar") s)) s run t
        (λ s1. remove_if_exists-children _ s) (λ s2 s3. remove_if_exists-children _ s2) h

  -- Over a lawful system: if `run_prog` of the extract harness returns, and neither its `fork` nor
  -- its `wait` failed, then the children are those before, with the spawned one added and the
  -- waited one taken away.
  pub run_extract-children :
      (pin : ℤ) (s : S.State) (run : TestRun) (t : S.State)
      → run_extract S pin s ≡ done (run, t)
      → run.spawned ≢ minus_one
      → run.waited ≢ minus_one
      → Perm (run.spawned ∷ children s) (run.waited ∷ children t)
  unfolding run_extract
  run_extract-children pin s run t h =
      framed (remove_all_if_directory S (below S (codes "gcc-13.2.0") s) s) (tar pin)
        (remove_all_if_directory S (below S (codes "gcc-13.2.0") s)) s run t
        (λ s1. remove_all_if_directory-children _ s)
        (λ s2 s3. remove_all_if_directory-children _ s2) h

  -- Over a lawful system: if `run_prog` of the ffmpeg harness returns, and neither its `fork` nor
  -- its `wait` failed, then the children are those before, with the spawned one added and the
  -- waited one taken away.
  pub run_ffmpeg-children :
      (pin : ℤ) (s : S.State) (run : TestRun) (t : S.State)
      → run_ffmpeg S pin s ≡ done (run, t)
      → run.spawned ≢ minus_one
      → run.waited ≢ minus_one
      → Perm (run.spawned ∷ children s) (run.waited ∷ children t)
  unfolding run_ffmpeg
  run_ffmpeg-children pin s run t h =
      framed (S.create_directories (below S (codes "images") s) s) (ffmpeg pin)
        (λ s2. S.remove_all (below S (codes "images") s2) s2) s run t
        (λ s1. L.children-create_directories _ s) (λ s2 s3. L.children-remove_all _ s2) h

  -- So each may be linked with the launcher.
  pub run_gzip-IsTestProgram : IsTestProgram S children (run_gzip S)
  run_gzip-IsTestProgram = run_gzip-children

  pub run_extract-IsTestProgram : IsTestProgram S children (run_extract S)
  run_extract-IsTestProgram = run_extract-children

  pub run_ffmpeg-IsTestProgram : IsTestProgram S children (run_ffmpeg S)
  run_ffmpeg-IsTestProgram = run_ffmpeg-children
