-- ===== src/Tests/HarnessRuns.antt =====
-- Runs of the harnesses over a system with files.
use mathlib.Core.List.{Perm}
use mathlib.Core.List.Perm
use linux_scheduler_comparis.Base.{
  ℕ, ◌<◌, ◌≢◌, refl, Bool, true, false, List, [], ◌∷◌, codes, map, length, arith,
}
use linux_scheduler_comparis.Base.Int.{ℤ, pos, minus_one}
use linux_scheduler_comparis.Base.Outcome.{done}
use linux_scheduler_comparis.Process
use linux_scheduler_comparis.Process.Count.{NeverFails}
use linux_scheduler_comparis.Harness.{run_gzip, run_extract, run_ffmpeg}
use linux_scheduler_comparis.Harness.Clean.{Removes, Cleaned, harnesses-Cleaned}

-- The children, and whether the output of the test program is there: each child writes it.
abbrev Disk : Type 0
Disk = List ℕ × Bool

abbrev wait_first : List ℕ → Bool → ℤ × Disk
wait_first [] b = (minus_one, ([], b))
wait_first (c ∷ cs) b = (pos c, (cs, b))

abbrev disk : Process.System
disk = record {
  State = Disk;
  fork = λ c (cs, b). (pos 7, (7 ∷ cs, true));
  wait = λ (cs, b). wait_first cs b;
  sigterm = λ pid s. s;
  sleep_for = λ n s. s;
  now = λ s. (0, s);
  current_path = λ s. codes "/tmp";
  exists = λ p (cs, b). done b;
  is_directory = λ p (cs, b). done b;
  create_directories = λ p (cs, b). done (cs, true);
  remove = λ p (cs, b). done (cs, false);
  remove_all = λ p (cs, b). done (cs, false);
}

abbrev pids_of : Disk → List ℤ
pids_of s = map pos s.0

wait_first-Perm :
    (cs : List ℕ) (b : Bool)
    → (wait_first cs b).0 ≢ minus_one
    → Perm (map pos cs) ((wait_first cs b).0 ∷ pids_of (wait_first cs b).1)
wait_first-Perm [] b h = absurd (h refl)
wait_first-Perm (c ∷ cs) b h = Perm.refl (pos c ∷ map pos cs)

disk-IsLawful : Process.IsLawful disk pids_of
disk-IsLawful = record {
  children-fork = λ c s h. refl;
  children-wait = λ s h. wait_first-Perm s.0 s.1 h;
  children-sigterm = λ pid s. refl;
  children-sleep_for = λ n s. refl;
  children-now = λ s. refl;
  children-create_directories = λ p s h. cc;
  children-remove = λ p s h. cc;
  children-remove_all = λ p s h. cc;
}

wait_first_succeeds :
    (cs : List ℕ) (b : Bool) → 0 < length (map pos cs) → (wait_first cs b).0 ≢ minus_one
wait_first_succeeds [] b h = absurd (omega arith)
wait_first_succeeds (c ∷ cs) b h = λ e. cc

disk-NeverFails : NeverFails disk pids_of
disk-NeverFails = record { forks = λ c s e. cc; waits = λ s h. wait_first_succeeds s.0 s.1 h }

disk-Removes : Removes disk
disk-Removes = record {
  exists_total = λ p s. (s.1, refl);
  is_directory_total = λ p s. (s.1, refl);
  create_directories_total = λ p s. ((s.0, true), refl);
  remove_total = λ p s. ((s.0, false), refl);
  remove_all_total = λ p s. ((s.0, false), refl);
  exists-remove = λ p s h. cc;
  is_directory-remove_all = λ p s h. cc;
}

abbrev found : Disk
found = (3 ∷ [], true)

harnesses-Cleaned_example :
    Cleaned disk pids_of disk-IsLawful disk-NeverFails disk-Removes
      (λ t. done t.1)
      found
      (run_gzip disk (pos 0) found)
    × Cleaned disk pids_of disk-IsLawful disk-NeverFails disk-Removes
        (λ t. done t.1)
        found
        (run_extract disk (pos 0) found)
    × Cleaned disk pids_of disk-IsLawful disk-NeverFails disk-Removes
        (λ t. done t.1)
        found
        (run_ffmpeg disk (pos 0) found)
harnesses-Cleaned_example =
    harnesses-Cleaned disk pids_of disk-IsLawful disk-NeverFails disk-Removes (λ s t. refl) (pos 0)
      found
