-- ===== src/Lib.antt =====
-- A model of the programs of this repository, which load a Linux scheduler and time what runs
-- beside the load, with the theorems that show what they do.
--
-- launcher/launcher.cpp forks hackbench/hackbench.c as the load, calls `run_prog` of the harness
-- that it is linked with (ffmpeg, extract or gzip), ends the load and repeats this over a range of
-- group counts. The trackers sample /proc, the HTTP client loads a web server, postgresql/ fills and
-- queries a database, and toy/ has a launcher and a test program of its own.
--
--   Base        shared names: numbers, C integers, texts as lists of bytes, and `Outcome`, what a
--               piece of code comes to: a value, an exit, an exception, undefined behaviour, or
--               fuel that is spent
--   Text        `find`, `substr`, `std::stoi`, `atoi` and `std::to_string`
--   Getopt      the results of `getopt_long`; Getopt.Loop is the option loop that the trackers and
--               the client share
--   Process     the system calls of the launcher as an interface with laws, and `run_prog`
--   Harness     ffmpeg/test_ffmpeg_harness.cpp, extract/test_extract_harness.cpp and
--               gzip/test_gzip_harness.cpp, as `run_ffmpeg`, `run_extract` and `run_gzip`
--   Loop        the `for` loops over an `int` that the launchers share
--   Launcher    launcher/launcher.cpp: Split (`string_to_vec_by_delim`), Args (`parse_args`), Trial
--               (`run_trial`) and Sweep (the loops of `main`)
--   Interrupt   gzip/hackbench_interupt.cpp: its `run_trial`; the rest is the launcher's text
--   Hackbench   hackbench/hackbench.c: Options (`process_options`), Workers (`group`,
--               `create_worker`, `reap_workers`), Pump (`sender`, `receiver`), Flow (the processes of
--               a group at once), Barrier (`ready`), SetUp (`main` up to `setjmp`) and Main (the rest
--               of it, with `sigcatcher`)
--   Toy         toy/fib.cpp, toy/launcher.c and toy/hackbench.c: Hackbench.Options, Workers, Reap,
--               SetUp and Main are its own, over processes and threads; Pump and Barrier, and the
--               steps of `main` itself, are those of hackbench/hackbench.c, which it shares
--   HttpClient  apache/http_client/http_client.cpp: Args (`parse_args`), Transfer (`send_get`,
--               `recv_until_eof`), SetUp (`main` up to `fork`) and Session (`child_task` and the
--               rest of `main`, as two processes with pipes between them)
--   Postgres    postgresql/seed_db.cpp and postgresql/query_test.cpp
--   TimeTracker time_tracker/time_tracker.cpp, and SchedTracker for time_tracker/sched_tracker.cpp
--   Tests       runs of the model, and small systems that meet the hypotheses
--
-- The operating system, the file system, libpq and `getopt_long` are parameters; what is asked of them
-- stands in records of laws next to the theorems. An `int` is a ℤ with the predicate IsInt, and a
-- sum out of range is undefined behaviour; unsigned numbers wrap with `% 2 ^ 32` or `% 2 ^ 64`.
-- Loops that need not end take fuel, and `spent` is an outcome of its own: the theorems give the
-- fuel that is enough, or state that none is.
--
-- Not modelled: printed text, the formatting of times and the lines that the client writes at its
-- end; the measured time of both hackbench programs; what a signal does that a worker thread of
-- toy/hackbench.c takes; scripts, configurations and data.
pub mod Base
pub mod Getopt
pub mod Hackbench
pub mod Harness
pub mod HttpClient
pub mod Interrupt
pub mod Launcher
pub mod Loop
pub mod Postgres
pub mod Process
pub mod SchedTracker
pub mod Tests
pub mod Text
pub mod TimeTracker
pub mod Toy
