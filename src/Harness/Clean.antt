-- ===== src/Harness/Clean.antt =====
-- What the harnesses leave: their children and their files.
use mathlib.Core.List.{Perm}
use linux_scheduler_comparis.Base.{◌≡◌, refl, arith, Bool, true, false, List, ◌∷◌, Text, codes}
use linux_scheduler_comparis.Base.Int.{ℤ}
use linux_scheduler_comparis.Base.Outcome.{Outcome, done, ◌>>=◌}
use linux_scheduler_comparis.Process.{Child, System, IsLawful, TestRun}
use linux_scheduler_comparis.Process.Count.{NeverFails, length-fork}
use linux_scheduler_comparis.Harness.{
  ffmpeg, tar, gunzip, timed, below, remove_if_exists, remove_all_if_directory, run_ffmpeg,
  run_extract, run_gzip,
}
use linux_scheduler_comparis.Harness.Laws.{timed_lem}

-- A file system on which no call throws, and where what has been removed is gone.
pub record Removes (S : System) : Type 0 where
  pub exists_total : (p : Text) (s : S.State) → (b : Bool) × (S.exists p s ≡ done b)
  pub is_directory_total : (p : Text) (s : S.State) → (b : Bool) × (S.is_directory p s ≡ done b)
  pub create_directories_total :
      (p : Text) (s : S.State) → (t : S.State) × (S.create_directories p s ≡ done t)
  pub remove_total : (p : Text) (s : S.State) → (t : S.State) × (S.remove p s ≡ done t)
  pub remove_all_total : (p : Text) (s : S.State) → (t : S.State) × (S.remove_all p s ≡ done t)
  pub exists-remove :
      (p : Text) (s : S.State) {t : S.State} → S.remove p s ≡ done t → S.exists p t ≡ done false
  pub is_directory-remove_all :
      (p : Text) (s : S.State) {t : S.State}
      → S.remove_all p s ≡ done t
      → S.is_directory p t ≡ done false

module _ (S : System) (children : S.State → List ℤ) (L : IsLawful S children)
    (F : NeverFails S children) (R : Removes S) where
  -- The run returns; the spawned child is added, the waited one is taken away, and the last state
  -- has no trace of the output.
  abbrev pub Cleaned : (S.State → Outcome Bool) → S.State → Outcome (TestRun × S.State) → Type 0
  Cleaned trace s o =
      (run : TestRun) × (t : S.State) × (o ≡ done (run, t))
      × Perm (run.spawned ∷ children s) (run.waited ∷ children t)
      × (trace t ≡ done false)

  -- A step that ends, keeps the children and leaves no trace.
  abbrev Cleanup : (S.State → Outcome Bool) → S.State → Outcome S.State → Type 0
  Cleanup trace s o =
      (t : S.State) × (o ≡ done t) × (children t ≡ children s) × (trace t ≡ done false)

  remove_if_exists-Cleanup :
      (p : Text) (s : S.State) → Cleanup (S.exists p) s (remove_if_exists S p s)
  unfolding remove_if_exists
  remove_if_exists-Cleanup p s = let (there, asked) = R.exists_total p s in go there asked
    where
      go :
          (there : Bool)
          → S.exists p s ≡ done there
          → Cleanup (S.exists p) s (remove_if_exists S p s)
      go true asked =
          let (t, removed) = R.remove_total p s in
          (t, rw asked removed, L.children-remove p s removed, R.exists-remove p s removed)
      go false asked = (s, rw asked refl, refl, asked)

  remove_all_if_directory-Cleanup :
      (p : Text) (s : S.State) → Cleanup (S.is_directory p) s (remove_all_if_directory S p s)
  unfolding remove_all_if_directory
  remove_all_if_directory-Cleanup p s =
      let (there, asked) = R.is_directory_total p s in go there asked
    where
      go :
          (there : Bool)
          → S.is_directory p s ≡ done there
          → Cleanup (S.is_directory p) s (remove_all_if_directory S p s)
      go true asked =
          let (t, removed) = R.remove_all_total p s in
          (
            t,
            rw asked removed,
            L.children-remove_all p s removed,
            R.is_directory-remove_all p s removed,
          )
      go false asked = (s, rw asked refl, refl, asked)

  timed-Perm :
      (c : Child) (s : S.State)
      → Perm
          ((timed S c s).0.spawned ∷ children s)
          ((timed S c s).0.waited ∷ children (timed S c s).1)
  timed-Perm c s =
      let s1 = (S.now s).1 in
      let s2 = (S.fork c s1).1 in
      timed_lem S L c s (unfold timed in F.forks c s1)
        (unfold timed in F.waits s2 (omega (arith, length-fork S children L F c s1)))

  framed :
      (trace : S.State → Outcome Bool) (prepare : Outcome S.State) (c : Child)
      (cleanup : S.State → Outcome S.State) (s s1 : S.State)
      → prepare ≡ done s1
      → children s1 ≡ children s
      → ((s2 : S.State) → Cleanup trace s2 (cleanup s2))
      → Cleaned trace s (
          prepare >>= λ s1.
          ◌>>=◌ {B = TestRun × S.State}
            (cleanup (timed S c s1).1)
            (λ s3. done ((timed S c s1).0, s3)))
  framed trace prepare c cleanup s s1 prepared before after =
      let (t, cleaned, same, gone) = after (timed S c s1).1 in
      (
        (timed S c s1).0,
        t,
        rw (prepared, cleaned) refl,
        rw (← before, same) (timed-Perm c s1),
        gone,
      )

  gzip_clean :
      (pin : ℤ) (s : S.State)
      → Cleaned (S.exists (below S (codes "gcc-13.2.0.tar") s)) s (run_gzip S pin s)
  unfolding run_gzip
  gzip_clean pin s =
      let path = below S (codes "gcc-13.2.0.tar") s in
      let (s1, prepared, same, gone) = remove_if_exists-Cleanup path s in
      framed (S.exists path) (remove_if_exists S path s) (gunzip pin) (remove_if_exists S path) s s1
        prepared same (remove_if_exists-Cleanup path)

  extract_clean :
      (pin : ℤ) (s : S.State)
      → Cleaned (S.is_directory (below S (codes "gcc-13.2.0") s)) s (run_extract S pin s)
  unfolding run_extract
  extract_clean pin s =
      let path = below S (codes "gcc-13.2.0") s in
      let (s1, prepared, same, gone) = remove_all_if_directory-Cleanup path s in
      framed (S.is_directory path) (remove_all_if_directory S path s) (tar pin)
        (remove_all_if_directory S path) s s1 prepared same (remove_all_if_directory-Cleanup path)

  ffmpeg_clean :
      ((s t : S.State) → S.current_path s ≡ S.current_path t)
      → (pin : ℤ) (s : S.State)
      → Cleaned (S.is_directory (below S (codes "images") s)) s (run_ffmpeg S pin s)
  unfolding run_ffmpeg
  ffmpeg_clean fixed pin s =
      let path = below S (codes "images") s in
      let (s1, made) = R.create_directories_total path s in
      framed (S.is_directory path) (S.create_directories path s) (ffmpeg pin)
        (λ s2. S.remove_all (below S (codes "images") s2) s2) s s1 made
        (L.children-create_directories path s made)
        (λ s2.
          let (t, removed) = R.remove_all_total path s2 in
          (
            t,
            rw (fixed s2 s) removed,
            L.children-remove_all path s2 removed,
            R.is_directory-remove_all path s2 removed,
          ))

  -- Over a lawful system whose forks never fail and whose waits fail only without a child, with a
  -- file system on which no call throws and what is removed is gone, and a working directory that
  -- does not change: `run_prog` of each of the three harnesses returns; the children are those
  -- before, with the spawned one added and the waited one taken away; and the output of the test
  -- program is not there any more.
  pub harnesses-Cleaned :
      ((s t : S.State) → S.current_path s ≡ S.current_path t)
      → (pin : ℤ) (s : S.State)
      → Cleaned (S.exists (below S (codes "gcc-13.2.0.tar") s)) s (run_gzip S pin s)
        × Cleaned (S.is_directory (below S (codes "gcc-13.2.0") s)) s (run_extract S pin s)
        × Cleaned (S.is_directory (below S (codes "images") s)) s (run_ffmpeg S pin s)
  harnesses-Cleaned fixed pin s = (gzip_clean pin s, extract_clean pin s, ffmpeg_clean fixed pin s)
