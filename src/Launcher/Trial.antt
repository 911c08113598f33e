-- ===== src/Launcher/Trial.antt =====
-- `run_trial` of launcher/launcher.cpp, over the system and the linked test program. The system's
-- state and the messages so far are passed along; floating-point formatting is left out, and a
-- message carries the nanoseconds that it prints as milliseconds.
pub mod Children
pub mod Count
use linux_scheduler_comparis.Base.{
  ℕ, ◌*◌, ◌^◌, ◌≡◌, refl, Bool, true, false, none, List, [], ◌∷◌, ◌++◌, Text, codes, if◌then◌else◌,
}
use linux_scheduler_comparis.Base.Int.{ℤ, minus_one, eqb_ℤ}
use linux_scheduler_comparis.Base.Outcome.{Outcome, done, ◌>>=◌}
use linux_scheduler_comparis.Text.Number.{to_string}
use linux_scheduler_comparis.Process.{Child, System, TestRun, RunProg}
use linux_scheduler_comparis.Launcher.Args.{Stream}

abbrev pub hackbench_data_size : Text
hackbench_data_size = codes "100000"

-- The words after `execl(hackbench_abs_path, …)`.
unfoldable pub hackbench_argv : Text → ℤ → List Text
hackbench_argv pairs pin_to_core =
    codes "hackbench"
    ∷ codes "-s"
    ∷ hackbench_data_size
    ∷ codes "-g"
    ∷ pairs
    ∷ codes "-i"
    ∷ (if eqb_ℤ pin_to_core minus_one then [] else codes "-p" ∷ to_string pin_to_core ∷ [])

-- hackbench pins itself, so its child does not.
unfoldable pub hackbench_child : Text → Text → ℤ → Child
hackbench_child hackbench_abs_path pairs pin_to_core = record {
  pin = none;
  program = hackbench_abs_path;
  arguments = hackbench_argv pairs pin_to_core;
}

pub data Message : Type 0 where
  letting_run : Message
  waited_wrong : ℤ → ℤ → ℤ → Message
  file_time : Stream → ℕ → Message
  cout_time : ℕ → Message
  not_hackbench : ℤ → Message

module _ (S : System) (run_prog : RunProg S) where
  -- The part behind `run_prog`.
  unfoldable pub finish_trial :
      ℤ → TestRun → Stream → Bool → S.State × List Message → S.State × List Message
  finish_trial hackbench run out use_out (s, log) =
      if eqb_ℤ run.waited run.spawned
      then (let log1 = if use_out then log ++ file_time out run.nanoseconds ∷ [] else log in
          let log2 = log1 ++ cout_time run.nanoseconds ∷ [] in
          let (hackbench_wait_pid, s') = S.wait (S.sigterm hackbench s) in
          if eqb_ℤ hackbench_wait_pid hackbench
          then (s', log2)
          else (s', log2 ++ not_hackbench hackbench_wait_pid ∷ []))
      else (s, log ++ waited_wrong run.spawned run.waited hackbench ∷ [])

  unfoldable pub run_trial :
      Text → Text → ℤ → Stream → Bool → S.State × List Message → Outcome (S.State × List Message)
  run_trial hackbench_abs_path pairs pin_to_core out use_out (s, log) = do
    let (hackbench, s1) = S.fork (hackbench_child hackbench_abs_path pairs pin_to_core) s
    (run, s2) ← run_prog pin_to_core (S.sleep_for (10 * 10 ^ 9) s1)
    done (finish_trial hackbench run out use_out (s2, log ++ letting_run ∷ []))

  -- A trial ends with its test program.
  pub run_trial_total :
      ((pin : ℤ) (s : S.State) → (r : TestRun × S.State) × (run_prog pin s ≡ done r))
      → (path pairs : Text) (pin : ℤ) (out : Stream) (use_out : Bool) (w : S.State × List Message)
      → (w' : S.State × List Message) × (run_trial path pairs pin out use_out w ≡ done w')
  unfolding run_trial
  run_trial_total total path pairs pin out use_out (s, log) =
      let (hackbench, s1) = S.fork (hackbench_child path pairs pin) s in
      let (r, ran) = total pin (S.sleep_for (10 * 10 ^ 9) s1) in
      (finish_trial hackbench r.0 out use_out (r.1, log ++ letting_run ∷ []), rw ran refl)
