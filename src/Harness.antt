-- ===== src/Harness.antt =====
-- The implementations of `run_prog`: ffmpeg/test_ffmpeg_harness.cpp,
-- extract/test_extract_harness.cpp and gzip/test_gzip_harness.cpp.
pub mod Laws
pub mod Clean
pub mod Count
use linux_scheduler_comparis.Base.{
  ℕ, ◌-◌, Bool, true, false, Option, none, some, List, [], ◌∷◌, ◌++◌, Text, codes, if◌then◌else◌,
}
use linux_scheduler_comparis.Base.Int.{ℤ, minus_one, eqb_ℤ}
use linux_scheduler_comparis.Base.Outcome.{Outcome, done, ◌>>=◌}
use linux_scheduler_comparis.Process.{Child, ChildEnd, execs, exited, System, TestRun, RunProg}

-- `if (pin_to_core != -1) { … }` in the child.
unfoldable pub pin_of : ℤ → Option ℤ
pin_of core = if eqb_ℤ core minus_one then none else some core

-- The child: a failed `sched_setaffinity` or `execl` ends it with -1.
affinity_then : (ℤ → Bool) → Option ℤ → ChildEnd → ChildEnd
affinity_then set_affinity none rest = rest
affinity_then set_affinity (some core) rest = if set_affinity core then rest else exited minus_one

unfoldable pub start_child : (ℤ → Bool) → (Text → Bool) → Child → ChildEnd
unfolding affinity_then
start_child set_affinity exec c =
    affinity_then set_affinity c.pin
      (if exec c.program then execs c.program c.arguments else exited minus_one)

abbrev pub ffmpeg : ℤ → Child
ffmpeg pin_to_core = record {
  pin = pin_of pin_to_core;
  program = codes "/usr/bin/ffmpeg";
  arguments =
      codes "/usr/bin/ffmpeg"
      ∷ codes "-v"
      ∷ codes "quiet"
      ∷ codes "-i"
      ∷ codes "this_is_the_way.mp4"
      ∷ codes "images/image-%05d.png"
      ∷ [];
}

abbrev pub tar : ℤ → Child
tar pin_to_core = record {
  pin = pin_of pin_to_core;
  program = codes "/usr/bin/tar";
  arguments = codes "/usr/bin/tar" ∷ codes "-xf" ∷ codes "gcc-13.2.0.tar" ∷ [];
}

abbrev pub gunzip : ℤ → Child
gunzip pin_to_core = record {
  pin = pin_of pin_to_core;
  program = codes "/usr/bin/gzip";
  arguments = codes "/usr/bin/gzip" ∷ codes "-k" ∷ codes "-d" ∷ codes "gcc-13.2.0.tar.gz" ∷ [];
}

module _ (S : System) where
  abbrev pub below : Text → S.State → Text
  below name s = S.current_path s ++ (b'/' ∷ name)

  -- Fork the child, wait for one, and read the clock before and after.
  unfoldable pub timed : Child → S.State → TestRun × S.State
  timed child s =
      let (start, s1) = S.now s in
      let (test_proc_id, s2) = S.fork child s1 in
      let (wait_pid, s3) = S.wait s2 in
      let (end_time, s4) = S.now s3 in
      (record { spawned = test_proc_id; waited = wait_pid; nanoseconds = end_time - start }, s4)

  unfoldable pub remove_if_exists : Text → S.State → Outcome S.State
  remove_if_exists path s = do there ← S.exists path s; if there then S.remove path s else done s

  unfoldable pub remove_all_if_directory : Text → S.State → Outcome S.State
  remove_all_if_directory path s = do
    there ← S.is_directory path s
    if there then S.remove_all path s else done s

  -- ffmpeg/test_ffmpeg_harness.cpp
  unfoldable pub run_ffmpeg : RunProg S
  run_ffmpeg pin_to_core s = do
    s1 ← S.create_directories (below (codes "images") s) s
    let (run, s2) = timed (ffmpeg pin_to_core) s1
    s3 ← S.remove_all (below (codes "images") s2) s2
    done (run, s3)

  -- extract/test_extract_harness.cpp
  unfoldable pub run_extract : RunProg S
  run_extract pin_to_core s = do
    let path = below (codes "gcc-13.2.0") s
    s1 ← remove_all_if_directory path s
    let (run, s2) = timed (tar pin_to_core) s1
    s3 ← remove_all_if_directory path s2
    done (run, s3)

  -- gzip/test_gzip_harness.cpp
  unfoldable pub run_gzip : RunProg S
  run_gzip pin_to_core s = do
    let path = below (codes "gcc-13.2.0.tar") s
    s1 ← remove_if_exists path s
    let (run, s2) = timed (gunzip pin_to_core) s1
    s3 ← remove_if_exists path s2
    done (run, s3)
