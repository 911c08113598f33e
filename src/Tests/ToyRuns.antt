-- ===== src/Tests/ToyRuns.antt =====
-- Runs of toy/hackbench.c.
use linux_scheduler_comparis.Base.{
  ℕ, zero, suc, ◌+◌, ◌*◌, ◌≤◌, ◌<◌, ◌≡◌, ◌⊎◌, refl, Bool, true, false, some, List, [], ◌∷◌, arith,
  Text, ◌==◌, if◌then◌else◌,
}
use linux_scheduler_comparis.Base.Int.{pos, minus_one, eqb_ℤ}
use linux_scheduler_comparis.Base.Outcome.{done, ◌>>=◌}
use linux_scheduler_comparis.Text.Number.{to_string}
use linux_scheduler_comparis.Getopt.{Call}
use linux_scheduler_comparis.Hackbench.Options.Laws.{with_text}
use linux_scheduler_comparis.Hackbench.Options.Launched.{flag, operands}
use linux_scheduler_comparis.Hackbench.Workers
use linux_scheduler_comparis.Hackbench.Workers.{exited}
use linux_scheduler_comparis.Toy.Launcher.{hackbench_argv}
use linux_scheduler_comparis.Toy.Hackbench.Options.{
  Options, default_options, adjust_loops, threads, process_options,
}
use linux_scheduler_comparis.Toy.Hackbench.Options.Launched.{
  IsGetopt, launched, process_options-toy_argv,
}
use linux_scheduler_comparis.Toy.Hackbench.Workers.{System, Table, pid, num_packets_of, group}
use linux_scheduler_comparis.Toy.Hackbench.Workers.Same.{as_processes, outcome, group-as_processes}
use linux_scheduler_comparis.Toy.Hackbench.SetUp.Packets.{num_packets_of-wraps}

-- `getopt_long` for the options of toy/hackbench.c, as words of their own.
abbrev letter : Text → ℕ
letter (d ∷ c ∷ []) = c
letter w = 0

abbrev takes : ℕ → Bool
takes c =
    if c == b's' then true else if c == b'l' then true else if c == b'g' then true else c == b'f'

toy_words : List Text → List Call
toy_words [] = []
toy_words (w ∷ []) = if takes (letter w) then [] else flag (letter w) ∷ []
toy_words (w ∷ a ∷ rest) = elim (takes (letter w)) [
  | true ↦ with_text (letter w) a ∷ toy_words rest
  | false ↦ flag (letter w) ∷ toy_words (a ∷ rest)
]

no_argument_lem :
    (c : ℕ) (rest : List Text)
    → (c ≡ b'p') ⊎ (c ≡ b'T') ⊎ (c ≡ b'P') ⊎ (c ≡ b'F') ⊎ (c ≡ b'h') ⊎ (c ≡ b'a') ⊎ (c ≡ b'i')
    → toy_words ((b'-' ∷ c ∷ []) ∷ rest) ≡ flag c ∷ toy_words rest
unfolding toy_words
no_argument_lem c [] h = ground arith
no_argument_lem c (a ∷ rest) h = ground arith

argument_lem :
    (c : ℕ) (text : Text) (rest : List Text)
    → (c ≡ b's') ⊎ (c ≡ b'l') ⊎ (c ≡ b'g') ⊎ (c ≡ b'f')
    → toy_words ((b'-' ∷ c ∷ []) ∷ text ∷ rest) ≡ with_text c text ∷ toy_words rest
unfolding toy_words
argument_lem c text rest h = ground arith

toy_words-IsGetopt : IsGetopt toy_words
unfolding toy_words
toy_words-IsGetopt = record {
  no_words = refl;
  argument = argument_lem;
  no_argument = no_argument_lem;
}

process_options-toy_argv_example :
    process_options
      (hackbench_argv (to_string (pos 4)) (pos 1))
      (toy_words (operands (hackbench_argv (to_string (pos 4)) (pos 1))))
    ≡ done (launched 4 (if eqb_ℤ (pos 1) (pos 1) then pos 0 else minus_one))
process_options-toy_argv_example =
    process_options-toy_argv toy_words toy_words-IsGetopt 4 (pos 1) (omega arith) (omega arith)

-- A system with room for some threads, and a count of the workers.
abbrev Room : Type 0
Room = ℕ × ℕ × ℕ × ℕ

abbrev thread_in : ℕ → ℕ → ℕ → ℕ → Bool × ℕ × Room
thread_in zero n t a = (false, 0, (0, n, t, a))
thread_in (suc room) n t a = (true, 100 + n, (room, n + 1, t, a))

abbrev small_system : System
small_system = record {
  State = Room;
  malloc = λ s. (true, s);
  pipe = λ s. (some (3, 4), s);
  socketpair = λ s. (some (5, 6), s);
  fork = λ w s. (minus_one, s);
  pthread_attr_init = λ s. (true, s);
  pthread_attr_setstacksize = λ s. (true, s);
  pthread_create = λ w (room, n, t, a). thread_in room n t a;
  close = λ fd s. s;
  kill = λ pid (room, n, t, a). (room, n, t + 1, a);
  ignore_sigterm = λ s. s;
  wait = λ (room, n, t, a). (exited, (room, n, t, a + 1));
  pthread_join = λ id (room, n, t, a). (true, (room, n, t, a + 1));
  as_pid = λ t. pos t;
  as_threadid = λ p. 0;
}

abbrev workers_of : Room → ℕ
workers_of s = s.1

abbrev told_of : Room → ℕ
told_of s = s.2

abbrev awaited_of : Room → ℕ
awaited_of s = s.3

abbrev no_table : Table
no_table i = pid (pos 0)

-- Room for three of four threads.
abbrev room : Room
room = (3, 0, 0, 0)

abbrev no_pids : Workers.Table
no_pids i = pos 0

group-as_processes_example :
    (group small_system threads false no_table 0 2 5 3 4 room >>= λ r.
    done (outcome small_system threads false r))
    ≡ (Workers.group (as_processes small_system threads false) no_pids 0 2 5 3 4 room >>= λ r.
        done (outcome small_system threads false r))
group-as_processes_example =
    group-as_processes small_system threads false no_table no_pids 0 2 5 3 4 room

abbrev endless : Options
endless = record default_options { is_infinite = true }

num_packets_of-wraps_example :
    ((20 ≤ 2)
      × (num_packets_of 20 (adjust_loops endless).loops ≡ 20 * (adjust_loops endless).loops))
    ⊎ ((2 < 20)
        × (num_packets_of 20 (adjust_loops endless).loops < 20 * (adjust_loops endless).loops))
unfolding default_options
num_packets_of-wraps_example = num_packets_of-wraps endless refl (omega arith) (omega arith)
