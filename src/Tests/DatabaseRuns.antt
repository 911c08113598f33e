-- ===== src/Tests/DatabaseRuns.antt =====
-- Runs of the two programs over the database.
use linux_scheduler_comparis.Base.{
  ℕ, ◌+◌, ◌-◌, ◌≡◌, refl, true, List, [], ◌∷◌, ◌++◌, Text, codes, arith, length, replicate,
}
use linux_scheduler_comparis.Base.Outcome.{done}
use linux_scheduler_comparis.Postgres.Libpq.{Libpq, command_ok, tuples_ok, Counts}
use linux_scheduler_comparis.Postgres.Query
use linux_scheduler_comparis.Postgres.Query.Runs.{main-queries}
use linux_scheduler_comparis.Postgres.Seed
use linux_scheduler_comparis.Postgres.Seed.Inserts.{Seeded, main-Seeded}

-- A database that notes the commands and counts the results, and draws the lower bound.
abbrev Notes : Type 0
Notes = List Text × ℕ

abbrev notes : Libpq
notes = record {
  State = Notes;
  connectdb = λ c s. s;
  connection_ok = λ s. true;
  exec = λ q (log, n). (command_ok, (log ++ q ∷ [], n + 1));
  clear = λ (log, n). (log, n - 1);
  finish = λ s. s;
  draw = λ l u s. (l, s);
  sleep_for = λ n s. s;
  now = λ s. (0, s);
}

abbrev queries_of : Notes → List Text
queries_of s = s.0

abbrev results_of : Notes → ℕ
results_of s = s.1

notes-Counts : Counts notes queries_of results_of
notes-Counts = record {
  queries-exec = λ q s. refl;
  results-exec = λ q s. refl;
  queries-clear = λ s. refl;
  results-clear = λ s. refl;
  queries-connectdb = λ c s. refl;
  results-connectdb = λ c s. refl;
  queries-finish = λ s. refl;
  results-finish = λ s. refl;
  queries-draw = λ l u s. refl;
  results-draw = λ l u s. refl;
  queries-sleep_for = λ d s. refl;
  results-sleep_for = λ d s. refl;
  queries-now = λ s. refl;
  results-now = λ s. refl;
  draw_range = λ l u s h. (omega arith, h);
}

main-Seeded_example :
    Seeded notes queries_of results_of notes-Counts
      (λ q s. refl)
      ([], 0)
      (Seed.main notes (codes "seed_db" ∷ codes "localhost" ∷ []) ([], 0))
main-Seeded_example =
    main-Seeded notes queries_of results_of notes-Counts (λ q s. refl) (codes "seed_db")
      (codes "localhost") ([], 0) refl

-- The same, with rows as the result of each command.
abbrev rows : Libpq
rows = record notes { exec = λ q (log, n). (tuples_ok, (log ++ q ∷ [], n + 1)) }

rows-Counts : Counts rows queries_of results_of
rows-Counts = record {
  queries-exec = λ q s. refl;
  results-exec = λ q s. refl;
  queries-clear = λ s. refl;
  results-clear = λ s. refl;
  queries-connectdb = λ c s. refl;
  results-connectdb = λ c s. refl;
  queries-finish = λ s. refl;
  results-finish = λ s. refl;
  queries-draw = λ l u s. refl;
  results-draw = λ l u s. refl;
  queries-sleep_for = λ d s. refl;
  results-sleep_for = λ d s. refl;
  queries-now = λ s. refl;
  results-now = λ s. refl;
  draw_range = λ l u s h. (omega arith, h);
}

main-queries_example :
    (log : List ℕ) × (t : Notes) × (Query.main rows
        (codes "query_test" ∷ codes "localhost" ∷ [])
        ([], 0)
      ≡ done (0, log, t))
    × (length log ≡ 100)
    × (queries_of t ≡ [] ++ replicate 100 Query.query)
    × (results_of t ≡ 0)
main-queries_example =
    main-queries rows queries_of results_of rows-Counts (λ info s. refl) (λ s. refl)
      (codes "query_test") (codes "localhost") ([], 0)
