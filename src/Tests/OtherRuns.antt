-- ===== src/Tests/OtherRuns.antt =====
-- Runs of toy/fib.cpp, of the HTTP client and of the trackers.
use linux_scheduler_comparis.Base.{
  ℕ, zero, suc, ◌+◌, ◌*◌, ◌^◌, ◌%◌, ◌<◌, ◌≡◌, refl, true, false, Option, none, some, map, List, [],
  ◌∷◌, ◌++◌, arith, Text, codes, length, take,
}
use linux_scheduler_comparis.Base.Int.{pos}
use linux_scheduler_comparis.Base.Outcome.{done, exits}
use linux_scheduler_comparis.Text.Number.{stoi}
use linux_scheduler_comparis.Launcher.Split.Fields.{join}
use linux_scheduler_comparis.Toy.Fib.{fib}
use linux_scheduler_comparis.Toy.Fib.Values.{fibonacci, fib-fibonacci}
use linux_scheduler_comparis.HttpClient.Transfer.{Socket, get_message, send_all, recv_until_eof}
use linux_scheduler_comparis.HttpClient.Transfer.Stream.{
  Works, repeated, send_all-sent, recv_until_eof-unread,
}
use linux_scheduler_comparis.TimeTracker.Row.{Entry}
use linux_scheduler_comparis.Getopt.Loop.{parse_calls, parse_with}
use linux_scheduler_comparis.Getopt.Loop.Short.{short_option, apply_options, parse_with-short}
use linux_scheduler_comparis.TimeTracker.Args
use linux_scheduler_comparis.TimeTracker.Cycle
use linux_scheduler_comparis.TimeTracker.Cycle.{IsClock, cycle_length, main-samples}
use linux_scheduler_comparis.SchedTracker.Report.{sched_lines, sched_lines-five}

fib_thirty : fib 40 (pos 30) ≡ done (fibonacci 30 % 2 ^ 64)
fib_thirty = fib-fibonacci 29 40 (omega arith)

-- A connection that moves a byte with each call.
abbrev Connection : Type 0
Connection = Text × ℕ

abbrev read_byte : Text → ℕ → Option ℕ × Connection
read_byte sent zero = (some 0, (sent, 0))
read_byte sent (suc n) = (some 1, (sent, n))

abbrev byte_socket : Socket
byte_socket = record {
  State = Connection;
  write = λ text (sent, n). (some 1, (sent ++ take 1 text, n));
  read = λ count (sent, n). read_byte sent n;
}

abbrev sent_of : Connection → Text
sent_of s = s.0

abbrev unread_of : Connection → ℕ
unread_of s = s.1

read_byte_lem :
    (sent : Text) (unread : ℕ)
    → (n : ℕ) × ((read_byte sent unread).0 ≡ some n)
      × (unread ≡ n + unread_of (read_byte sent unread).1)
      × (n ≡ 0 → unread ≡ 0)
read_byte_lem sent zero = (0, refl, refl, λ h. refl)
read_byte_lem sent (suc n) = (1, refl, omega arith, λ h. absurd (omega (arith, h)))

byte_socket-Works : Works byte_socket sent_of unread_of
byte_socket-Works = record {
  write_some = λ c text s. (0, refl, omega arith, refl);
  read_some = λ s. read_byte_lem s.0 s.1;
}

short_message : length get_message < 100
unfolding get_message
short_message = omega arith

send_all-sent_example :
    (t : Connection) × (send_all byte_socket 100 2 ([], 0) ≡ done t)
    × (sent_of t ≡ [] ++ repeated 2 get_message)
send_all-sent_example =
    send_all-sent byte_socket sent_of unread_of byte_socket-Works 100 2 ([], 0) short_message

recv_until_eof-unread_example :
    (t : Connection) × (recv_until_eof byte_socket 400 ([], 300) ≡ done (300, t))
    × (unread_of t ≡ 0)
recv_until_eof-unread_example =
    recv_until_eof-unread byte_socket sent_of unread_of byte_socket-Works 400 ([], 300)
      (omega arith) (omega arith)

abbrev proc : List Entry
proc =
    record { name = codes "7"; stat = codes "7 (sh) S" }
    ∷ record { name = codes "acpi"; stat = [] }
    ∷ record { name = codes "81"; stat = codes "81 (fib) R" }
    ∷ []

-- A clock that counts nanoseconds, and a sample that takes a millisecond.
abbrev clock_system : Cycle.System
clock_system = record {
  State = ℕ;
  now = λ s. (s, s + 100);
  sleep_for = λ d s. s + d;
  sched_setaffinity = λ core s. (true, s);
  sched_setscheduler = λ s. (true, s);
}

abbrev sampling : ℕ → ℕ
sampling s = s + 1_000_000

clock_system-IsClock : IsClock clock_system (λ s. s) sampling
clock_system-IsClock = record {
  reads = λ s. (refl, omega arith);
  sleeps = λ d s. omega arith;
  retrieves = λ s. omega arith;
}

no_options : Args.parse_args (codes "time_tracker" ∷ []) [] ≡ done Args.default_args
unfolding Args.parse_args parse_with parse_calls
no_options = refl

main-samples_example :
    (n : ℕ) × (t : ℕ) × (Cycle.main clock_system sampling 101 (codes "time_tracker" ∷ []) [] 500
      ≡ done (n, t))
    × (n * cycle_length < 1000 * 10 ^ 6 + cycle_length)
unfolding Args.default_args
main-samples_example =
    main-samples clock_system sampling (λ s. s) clock_system-IsClock 101 1000
      (codes "time_tracker" ∷ []) [] 500 Args.default_args no_options refl (λ core s. refl)
      (λ s. refl) (omega arith)

abbrev options : List (ℕ × Option Text)
options = (b't', some (codes "25")) ∷ (b'x', none) ∷ (b'c', some (codes "3")) ∷ []

parse_with-short_example :
    parse_with Args.handler (codes "time_tracker" ∷ []) Args.default_args (map short_option options)
    ≡ apply_options Args.handler options false Args.default_args
parse_with-short_example =
    parse_with-short Args.handler (codes "time_tracker") [] Args.default_args options

unknown_ends : apply_options Args.handler options false Args.default_args ≡ exits (pos 0)
unfolding apply_options Args.handler stoi
unknown_ends = refl

sched_lines-five_example :
    sched_lines (codes "sh (7, #threads: 1)\n---\na : 1\nb : 2\nc : 3\nd : 4\n")
    ≡ join b'\n'
        (codes "sh (7, #threads: 1)" ∷ codes "a : 1" ∷ codes "b : 2" ∷ codes "c : 3" ∷ [] ∷ [])
sched_lines-five_example =
    sched_lines-five (codes "sh (7, #threads: 1)") (codes "---") (codes "a : 1") (codes "b : 2")
      (codes "c : 3") (codes "d : 4\n") (omega arith) (omega arith) (omega arith) (omega arith)
      (omega arith)
