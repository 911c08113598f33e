-- ===== src/TimeTracker/Cycle.antt =====
-- `main` of time_tracker/time_tracker.cpp: the set-up and the loop that takes samples. Times are in
-- nanoseconds of the steady clock.
use linux_scheduler_comparis.Base.{
  ℕ, zero, suc, ◌+◌, ◌-◌, ◌*◌, ◌^◌, ◌≤◌, ◌<◌, ◌≡◌, ◌∙◌, Bool, true, false, List, Text, arith, leb,
  ltb, if◌then◌else◌, Bool-cases, inl, inr,
}
use linux_scheduler_comparis.Base.Int.{ℤ, pos, negsuc, minus_one}
use linux_scheduler_comparis.Base.Outcome.{Outcome, done, exits, spent, ◌>>=◌}
use linux_scheduler_comparis.Getopt.{Call}
use linux_scheduler_comparis.TimeTracker.Args.{Args, parse_args}

-- The clock, the sleep, and the calls that pin the process and make it real-time.
pub record System : Type 1 where
  pub State : Type 0
  pub now : State → ℕ × State
  pub sleep_for : ℕ → State → State
  pub sched_setaffinity : ℤ → State → Bool × State
  pub sched_setscheduler : State → Bool × State

-- `(cycle_start - prog_start) >= args.max_duration`
abbrev pub reached : ℤ → ℕ → Bool
reached (pos m) passed = leb (m * 10 ^ 6) passed
reached (negsuc m) passed = true

-- `const auto max_duration{10ms};` in the loop.
abbrev pub cycle_length : ℕ
cycle_length = 10_000_000

module _ (S : System) (retrieve_data : S.State → S.State) where
  -- The body of the loop behind its `break`: a sample, and the rest of the 10 ms.
  pub sample_cycle : ℕ → S.State → S.State
  sample_cycle cycle_start s =
      let (cycle_end, s1) = S.now (retrieve_data s) in
      let time_spent = cycle_end - cycle_start in
      if ltb cycle_length time_spent then s1 else S.sleep_for (cycle_length - time_spent) s1

  -- `while(true)`, with the number of samples so far.
  pub cycles : ℕ → ℤ → ℕ → ℕ → S.State → Outcome (ℕ × S.State)
  cycles zero max_duration prog_start samples s = spent
  cycles (suc fuel) max_duration prog_start samples s =
      let (cycle_start, s1) = S.now s in
      elim (reached max_duration (cycle_start - prog_start)) [
        | true ↦ done (samples, s1)
        | false ↦ cycles fuel max_duration prog_start (samples + 1) (sample_cycle cycle_start s1)
      ]

  unfoldable pub main : ℕ → List Text → List Call → S.State → Outcome (ℕ × S.State)
  main fuel argv calls s = do
    args ← parse_args argv calls
    let (pinned, s1) = S.sched_setaffinity args.core_to_pin s
    let (real_time, s2) = S.sched_setscheduler s1
    let (prog_start, s3) = S.now s2
    let run = cycles fuel args.max_duration prog_start 0 s3
    if pinned then (if real_time then run else exits minus_one) else exits minus_one

-- A clock that does not go back and a sleep that is not short.
pub record IsClock (S : System) (clock : S.State → ℕ) (retrieve_data : S.State → S.State)
    : Type 0 where
  pub reads : (s : S.State) → ((S.now s).0 ≡ clock s) × (clock s ≤ clock (S.now s).1)
  pub sleeps : (d : ℕ) (s : S.State) → clock s + d ≤ clock (S.sleep_for d s)
  pub retrieves : (s : S.State) → clock s ≤ clock (retrieve_data s)

module _ (S : System) (retrieve_data : S.State → S.State) (clock : S.State → ℕ)
    (C : IsClock S clock retrieve_data) where
  sample_cycle-clock :
      (start : ℕ) (s : S.State)
      → start ≤ clock s
      → start + cycle_length ≤ clock (sample_cycle S retrieve_data start s)
  unfolding sample_cycle
  sample_cycle-clock start s h =
      let sampled = retrieve_data s in
      let after = (S.now sampled).1 in
      ground (
        arith,
        C.retrieves s,
        C.reads sampled,
        C.sleeps (cycle_length - ((S.now sampled).0 - start)) after,
      )

  cycles_more :
      (fuel prog_start samples : ℕ) (max_duration : ℤ) (s : S.State)
      → reached max_duration ((S.now s).0 - prog_start) ≡ false
      → cycles S retrieve_data (suc fuel) max_duration prog_start samples s
        ≡ cycles S retrieve_data fuel max_duration prog_start
            (samples + 1)
            (sample_cycle S retrieve_data (S.now s).0 (S.now s).1)
  unfolding cycles
  cycles_more fuel prog_start samples max_duration s h = ground arith

  cycles_ends :
      (fuel max_duration prog_start samples : ℕ) (s : S.State)
      → prog_start + samples * cycle_length ≤ clock s
      → max_duration * 10 ^ 6 + cycle_length ≤ (samples + fuel) * cycle_length
      → samples * cycle_length < max_duration * 10 ^ 6 + cycle_length
      → (n : ℕ) × (t : S.State) × (cycles S retrieve_data fuel
            (pos max_duration)
            prog_start
            samples
            s
          ≡ done (n, t))
        × (n * cycle_length < max_duration * 10 ^ 6 + cycle_length)
  cycles_ends zero max_duration prog_start samples s late enough few = absurd (omega arith)
  cycles_ends (suc fuel) max_duration prog_start samples s late enough few =
      let start = (S.now s).0 in
      let s1 = (S.now s).1 in
      let (exact, forward) = C.reads s in
      elim (Bool-cases (reached (pos max_duration) (start - prog_start))) [
        | inl over ↦ (samples, s1, unfold cycles in ground arith, few)
        | inr more ↦
            let later = sample_cycle-clock start s1 (omega arith) in
            let (n, t, ran, bound) =
              cycles_ends fuel max_duration prog_start (samples + 1)
                (sample_cycle S retrieve_data start s1) (omega arith) (omega arith)
                (ground arith) in
            (n, t, cycles_more fuel prog_start samples (pos max_duration) s more ∙ ran, bound)
      ]

  -- With a clock that does not go back, a sleep that is not short, and one more round of fuel than
  -- the duration has cycles of 10 ms, the loop ends, and its number of samples is at most the
  -- duration divided by 10 ms, rounded up.
  pub cycles_bound :
      (fuel max_duration : ℕ) (s : S.State)
      → max_duration * 10 ^ 6 + cycle_length ≤ fuel * cycle_length
      → (n : ℕ) × (t : S.State) × (cycles S retrieve_data fuel (pos max_duration) (clock s) 0 s
          ≡ done (n, t))
        × (n * cycle_length < max_duration * 10 ^ 6 + cycle_length)
  cycles_bound fuel max_duration s enough =
      cycles_ends fuel max_duration (clock s) 0 s (omega arith) (omega arith) (omega arith)

  -- With a clock that does not go back, a sleep that is not short, arguments that parse to a
  -- duration that is not negative, a system that pins the process and makes it real-time, and one
  -- more round of fuel than the duration has cycles of 10 ms, time_tracker ends, and its number of
  -- samples is at most the duration divided by 10 ms, rounded up.
  pub main-samples :
      (fuel max_duration : ℕ) (argv : List Text) (calls : List Call) (s : S.State) (args : Args)
      → parse_args argv calls ≡ done args
      → args.max_duration ≡ pos max_duration
      → ((core : ℤ) (s : S.State) → (S.sched_setaffinity core s).0 ≡ true)
      → ((s : S.State) → (S.sched_setscheduler s).0 ≡ true)
      → max_duration * 10 ^ 6 + cycle_length ≤ fuel * cycle_length
      → (n : ℕ) × (t : S.State) × (main S retrieve_data fuel argv calls s ≡ done (n, t))
        × (n * cycle_length < max_duration * 10 ^ 6 + cycle_length)
  unfolding main
  main-samples fuel max_duration argv calls s args parsed lasts pins real_time enough =
      let s1 = (S.sched_setaffinity args.core_to_pin s).1 in
      let s2 = (S.sched_setscheduler s1).1 in
      let (exact, forward) = C.reads s2 in
      let (n, t, ran, bound) =
        cycles_ends fuel max_duration (S.now s2).0 0 (S.now s2).1 (omega arith) (omega arith)
          (omega arith) in
      (n, t, rw (parsed, pins args.core_to_pin s, real_time s1, lasts) ran, bound)
