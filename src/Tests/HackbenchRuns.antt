-- ===== src/Tests/HackbenchRuns.antt =====
-- Runs of hackbench.
use linux_scheduler_comparis.Base.{
  ℕ, ◌+◌, ◌-◌, ◌*◌, ◌≤◌, ◌<◌, ◌≡◌, refl, ◌⊎◌, inr, true, [], ◌∷◌, arith, codes, ◌==◌, if◌then◌else◌,
}
use linux_scheduler_comparis.Base.Int.{pos, negsuc, minus_one}
use linux_scheduler_comparis.Base.Outcome.{done, spent}
use linux_scheduler_comparis.Text.Number.{to_string}
use linux_scheduler_comparis.Launcher.Trial.{hackbench_argv}
use linux_scheduler_comparis.Hackbench.Options.{process_options}
use linux_scheduler_comparis.Hackbench.Options.Laws.{
  groups, letter, accepted, with_text, process_options-accepted,
}
use linux_scheduler_comparis.Hackbench.Options.Launched.{
  operands, launched, process_options-hackbench_argv,
}
use linux_scheduler_comparis.Hackbench.Workers.{
  Table, write_entry, fdpair, create_worker, make_receivers, make_senders, finish_group,
  signal_from, signal_workers, reap_rounds, reap_workers, group, start_groups, Start,
  creating_failed,
}
use linux_scheduler_comparis.Hackbench.Workers.Created.{Returns}
use linux_scheduler_comparis.Hackbench.Workers.Started.{Starts}
use linux_scheduler_comparis.Hackbench.Workers.Ends.{group-created, start_groups-created}
use linux_scheduler_comparis.Hackbench.Pump.{Pipes, sender, receiver}
use linux_scheduler_comparis.Hackbench.Pump.Packets.{
  Works, count, sender-wrote, receiver-took, receiver-wraps, receiver-eof,
}
use linux_scheduler_comparis.Hackbench.Barrier.{
  waiting, going, World, Step, write_ready, poll_wake, read_ready, write_wake, Reach, here, next,
  start,
}
use linux_scheduler_comparis.Hackbench.Barrier.Order.{
  count_fresh, count_going, Reach-barrier, Reach-progress,
}
use linux_scheduler_comparis.Tests.Machine.{
  Forks, workers_system, forked_of, told_of, awaited_of, workers_system-IsCount,
  workers_system-IsReaping, getopt_words, getopt_words-IsGetopt,
}

process_options-hackbench_argv_example :
    process_options
      (hackbench_argv (to_string (pos 4)) (pos 2))
      (getopt_words (operands (hackbench_argv (to_string (pos 4)) (pos 2))))
    ≡ done (launched 4 (pos 2))
process_options-hackbench_argv_example =
    process_options-hackbench_argv getopt_words getopt_words-IsGetopt 4 (pos 2) (omega arith)
      (omega arith) (omega arith) (inr refl)

process_options-accepted_example :
    process_options (codes "hackbench" ∷ []) (with_text (letter groups) (to_string (negsuc 0)) ∷ [])
    ≡ accepted groups (negsuc 0)
process_options-accepted_example =
    process_options-accepted (codes "hackbench") [] groups (negsuc 0) (omega arith)

-- Two pairs, of which the first sender cannot be created.
abbrev forks : Forks
forks = (pos 7 ∷ pos 8 ∷ minus_one ∷ [], 0, 0, 0)

abbrev no_table : Table
no_table i = pos 0

abbrev table : Table
table = write_entry (write_entry (write_entry no_table 0 (pos 7)) 1 (pos 8)) 2 minus_one

short_group : group workers_system no_table 0 2 5 3 4 forks ≡ done (1, table, ([], 2, 0, 0))
unfolding group make_receivers finish_group make_senders fdpair create_worker
short_group = refl

group-created_example :
    (count : ℕ) × (tab' : Table) × (s' : Forks) × (group workers_system no_table 0 2 5 3 4 forks
      ≡ done (count, tab', s'))
    × (0 ≤ forked_of s')
    × Returns workers_system forked_of workers_system-IsCount 2 (forked_of s' - 0) count
group-created_example =
    group-created workers_system (λ s. ((3, 4), refl)) forked_of workers_system-IsCount no_table 0 2
      5 3 4 forks (omega arith)

short_start :
    start_groups workers_system 1 true 0 2 5 3 4 no_table forks
    ≡ done (creating_failed table ([], 2, 1, 1))
unfolding start_groups group make_receivers finish_group make_senders fdpair create_worker
    reap_workers reap_rounds signal_workers signal_from
short_start = refl

start_groups-created_example :
    (r : Start workers_system) × (start_groups workers_system 1 true 0 2 5 3 4 no_table forks
      ≡ done r)
    × Starts workers_system forked_of workers_system-IsCount told_of awaited_of
        workers_system-IsReaping 4 0 0 r
start_groups-created_example =
    start_groups-created workers_system (λ s. ((3, 4), refl)) forked_of workers_system-IsCount
      told_of awaited_of workers_system-IsReaping 1 true 2 5 3 4 no_table forks 4 refl (omega arith)
      (omega arith)

-- Pipes that move a byte with each call.
abbrev Bytes : Type 0
Bytes = (ℕ → ℕ) × (ℕ → ℕ)

abbrev more_at : ℕ → (ℕ → ℕ) → ℕ → ℕ
more_at fd f other = if other == fd then f other + 1 else f other

abbrev byte_pipes : Pipes
byte_pipes = record {
  State = Bytes;
  write = λ fd n (w, t). (pos 1, (more_at fd w, t));
  read = λ fd n (w, t). (pos 1, (w, more_at fd t));
}

abbrev wrote_of : ℕ → Bytes → ℕ
wrote_of fd s = s.0 fd

abbrev took_of : ℕ → Bytes → ℕ
took_of fd s = s.1 fd

byte_pipes-Works : Works byte_pipes wrote_of took_of
byte_pipes-Works = record {
  write_some = λ fd n s h. (1, refl, omega arith, omega arith, λ other. refl);
  read_some = λ fd n s h. (1, refl, omega arith, omega arith, λ other. refl);
}

abbrev no_bytes : Bytes
no_bytes = ((λ fd. 0), (λ fd. 0))

sender-wrote_example :
    (t : Bytes) × (sender byte_pipes 3 3 2 (4 ∷ 6 ∷ []) no_bytes ≡ done t)
    × ((fd : ℕ) → wrote_of fd t ≡ wrote_of fd no_bytes + 2 * (count fd (4 ∷ 6 ∷ []) * 3))
sender-wrote_example =
    sender-wrote byte_pipes wrote_of took_of byte_pipes-Works 3 3 2 (4 ∷ 6 ∷ []) no_bytes
      (omega arith) (omega arith) (omega arith)

receiver-took_example :
    (t : Bytes) × (receiver byte_pipes 3 3 3 0 2 5 no_bytes ≡ done t)
    × ((other : ℕ)
        → took_of other t
          ≡ (if other == 5 then took_of other no_bytes + 2 * 3 else took_of other no_bytes))
receiver-took_example =
    receiver-took byte_pipes wrote_of took_of byte_pipes-Works 3 3 3 2 5 no_bytes (omega arith)
      (omega arith) (omega arith) (omega arith) (omega arith)

receiver-wraps_example : receiver byte_pipes 9 3 3 0 (3 * 2000000000) 5 no_bytes ≡ spent
receiver-wraps_example =
    receiver-wraps byte_pipes wrote_of took_of byte_pipes-Works 9 3 3 0 (3 * 2000000000) 5 no_bytes
      (omega arith) (omega arith) (omega arith) (omega arith) (omega arith)

abbrev closed_pipes : Pipes
closed_pipes = record byte_pipes { read = λ fd n s. (pos 0, s) }

receiver-eof_example : receiver closed_pipes 4 9 3 0 2 5 no_bytes ≡ spent
receiver-eof_example = receiver-eof closed_pipes 5 3 (λ n s. refl) (omega arith) 4 9 1 no_bytes

-- One pair of processes, up to the first one that goes on.
abbrev ended : World
ended = record {
  workers = going ∷ waiting ∷ [];
  ready_bytes = 0;
  wake_bytes = 1;
  main_read = 2;
  main_woke = 1;
}

to_ended : Reach (start 2) ended
unfolding start
to_ended =
    next
      (next
        (next
          (next (next (next here (write_ready _ 0 refl)) (write_ready _ 1 refl))
            (read_ready _ 1 (omega arith) refl))
          (read_ready _ 0 (omega arith) refl))
        (write_wake _ refl refl))
      (poll_wake _ 0 refl (omega arith))

one_going : 0 < count_going ended.workers
unfolding count_going
one_going = omega arith

Reach-barrier_example : count_fresh ended.workers ≡ 0
Reach-barrier_example = Reach-barrier 2 to_ended one_going

Reach-progress_example : (count_going ended.workers ≡ 2) ⊎ ((v : World) × Step ended v)
Reach-progress_example = Reach-progress 2 to_ended
