-- ===== src/Toy/Launcher.antt =====
-- toy/launcher.c: `run_trial`, with its own hackbench and fib, and the three loops of `main`. The
-- buffers for the printed numbers are left out.
pub mod Plan
pub mod Fibs
use linux_scheduler_comparis.Base.{
  ℕ, ◌+◌, ◌*◌, ◌^◌, Bool, true, false, none, List, [], ◌∷◌, ◌++◌, Text, codes, if◌then◌else◌,
}
use linux_scheduler_comparis.Base.Int.{ℤ, pos, pos_part, minus_one, eqb_ℤ}
use linux_scheduler_comparis.Base.Outcome.{Outcome, done, ◌>>=◌}
use linux_scheduler_comparis.Text.Number.{atoi, to_string}
use linux_scheduler_comparis.Loop.{for_le, for_lt}
use linux_scheduler_comparis.Process.{Child, System}

-- The words after `execl("hackbench", …)`: pinned only for 1.
unfoldable pub hackbench_argv : Text → ℤ → List Text
hackbench_argv pairs pin_to_core =
    codes "hackbench"
    ∷ codes "-s"
    ∷ codes "100000"
    ∷ codes "-g"
    ∷ pairs
    ∷ codes "-i"
    ∷ (if eqb_ℤ pin_to_core (pos 1) then codes "-a" ∷ [] else [])

-- The words after `execl("fib", …)`: pinned for all but 0.
unfoldable pub fib_argv : Text → ℤ → List Text
fib_argv fib_num pin_to_core =
    codes "fib" ∷ fib_num ∷ (if eqb_ℤ pin_to_core (pos 0) then codes "-1" else codes "0") ∷ []

pub child : Text → List Text → Child
child program arguments = record { pin = none; program = program; arguments = arguments }

-- A child whose `execl` fails goes on with the launcher's own code.
pub data ChildEnd : Type 0 where
  execs : Text → List Text → ChildEnd
  goes_on : ChildEnd

unfoldable pub start_child : (Text → Bool) → Child → ChildEnd
start_child exec c = if exec c.program then execs c.program c.arguments else goes_on

pub data Message : Type 0 where
  letting_run : Message
  wrong_wait : ℤ → ℤ → ℤ → Message
  not_hackbench : ℤ → Message

module _ (S : System) where
  -- The part behind the first `wait`.
  pub finish_trial : ℤ → ℤ → ℤ → S.State × List Message → S.State × List Message
  finish_trial hackbench fib wait_pid (s, log) =
      if eqb_ℤ wait_pid fib
      then (let (last_pid, s') = S.wait (S.sigterm hackbench s) in
          if eqb_ℤ last_pid hackbench then (s', log) else (s', log ++ not_hackbench last_pid ∷ []))
      else (s, log ++ wrong_wait hackbench fib wait_pid ∷ [])

  unfoldable pub run_trial : Text → Text → ℤ → S.State × List Message → S.State × List Message
  run_trial pairs fib_num pin_to_core (s, log) =
      let (hackbench, s1) =
        S.fork (child (codes "hackbench") (hackbench_argv pairs pin_to_core)) s in
      let s2 = S.sleep_for (10 * 10 ^ 9) s1 in
      let (fib, s3) = S.fork (child (codes "fib") (fib_argv fib_num pin_to_core)) s2 in
      let (wait_pid, s4) = S.wait s3 in
      finish_trial hackbench fib wait_pid (s4, log ++ letting_run ∷ [])

-- `run_trial(pair_buff, fib_num_buff, pin_to_core)`
abbrev pub Trial {ℓ} : Type ℓ → Type ℓ
Trial W = Text → Text → ℤ → W → W

-- The static variables that `main` sets from its arguments.
pub record Settings : Type 0 where
  pub min_hackbench_pairs : ℤ
  pub max_hackbench_pairs : ℤ
  pub hackbench_pairs_step_size : ℤ
  pub min_fib_number : ℤ
  pub max_fib_number : ℤ
  pub fib_number_step_size : ℤ
  pub num_reps : ℤ
  pub pin_to_core : ℤ

module _ {ℓ} {W : Type ℓ} (run_trial : Trial W) (c : Settings) where
  pub reps_loop : ℤ → ℤ → W → Outcome W
  reps_loop num_pairs fib_num w =
      for_lt (λ rep w'. done (run_trial (to_string num_pairs) (to_string fib_num) c.pin_to_core w'))
        (pos_part c.num_reps + 1) (pos 0) c.num_reps w

  -- The fuel bounds the rounds of this loop.
  pub fibs_loop : ℕ → ℤ → W → Outcome W
  unfolding reps_loop
  fibs_loop fuel num_pairs w =
      for_le (reps_loop num_pairs) fuel c.min_fib_number c.max_fib_number c.fib_number_step_size w

  pub pairs_loop : ℕ → ℕ → W → Outcome W
  unfolding fibs_loop
  pairs_loop pairs_fuel fibs_fuel w =
      for_le (fibs_loop fibs_fuel) pairs_fuel c.min_hackbench_pairs c.max_hackbench_pairs
        c.hackbench_pairs_step_size w

-- `main` returns a status: -1 unless there are eight arguments.
unfoldable pub main {ℓ} : {W : Type ℓ} → Trial W → ℕ → ℕ → List Text → W → Outcome (ℤ × W)
unfolding pairs_loop
main run_trial pairs_fuel fibs_fuel (prog ∷ a ∷ b ∷ c ∷ d ∷ e ∷ f ∷ g ∷ h ∷ []) w = do
  min_hackbench_pairs ← atoi a
  max_hackbench_pairs ← atoi b
  hackbench_pairs_step_size ← atoi c
  min_fib_number ← atoi d
  max_fib_number ← atoi e
  fib_number_step_size ← atoi f
  num_reps ← atoi g
  pin_to_core ← atoi h
  w' ←
      pairs_loop run_trial
        (record {
          min_hackbench_pairs = min_hackbench_pairs;
          max_hackbench_pairs = max_hackbench_pairs;
          hackbench_pairs_step_size = hackbench_pairs_step_size;
          min_fib_number = min_fib_number;
          max_fib_number = max_fib_number;
          fib_number_step_size = fib_number_step_size;
          num_reps = num_reps;
          pin_to_core = pin_to_core;
        })
        pairs_fuel fibs_fuel w
  done (pos 0, w')
main run_trial pairs_fuel fibs_fuel _ w = done (minus_one, w)
