-- ===== src/Postgres/Libpq.antt =====
-- What postgresql/seed_db.cpp and postgresql/query_test.cpp call.
use linux_scheduler_comparis.Base.{ℕ, ◌+◌, ◌-◌, ◌≤◌, ◌≡◌, Bool, List, [], ◌∷◌, ◌++◌, Text, codes}

-- The status of a result: `PGRES_COMMAND_OK`, `PGRES_TUPLES_OK`, or another.
pub data Status : Type 0 where
  command_ok tuples_ok other : Status

-- One connection at a time, and the latest result. `draw lower upper` is a number of a
-- `std::uniform_int_distribution`.
pub record Libpq : Type 1 where
  pub State : Type 0
  pub connectdb : Text → State → State
  pub connection_ok : State → Bool
  pub exec : Text → State → Status × State
  pub clear : State → State
  pub finish : State → State
  pub draw : ℕ → ℕ → State → ℕ × State
  pub sleep_for : ℕ → State → State
  pub now : State → ℕ × State

abbrev pub conninfo : Text → Text
conninfo hostname =
    codes "dbname=test user=bigblue password=bigblue host=" ++ (hostname ++ codes " port=5432")

-- A library that counts: `queries` are the commands so far, `results` those that are not cleared.
pub record Counts (P : Libpq) (queries : P.State → List Text) (results : P.State → ℕ) : Type 0 where
  pub queries-exec : (q : Text) (s : P.State) → queries (P.exec q s).1 ≡ queries s ++ q ∷ []
  pub results-exec : (q : Text) (s : P.State) → results (P.exec q s).1 ≡ results s + 1
  pub queries-clear : (s : P.State) → queries (P.clear s) ≡ queries s
  pub results-clear : (s : P.State) → results (P.clear s) ≡ results s - 1
  pub queries-connectdb : (c : Text) (s : P.State) → queries (P.connectdb c s) ≡ queries s
  pub results-connectdb : (c : Text) (s : P.State) → results (P.connectdb c s) ≡ results s
  pub queries-finish : (s : P.State) → queries (P.finish s) ≡ queries s
  pub results-finish : (s : P.State) → results (P.finish s) ≡ results s
  pub queries-draw : (l u : ℕ) (s : P.State) → queries (P.draw l u s).1 ≡ queries s
  pub results-draw : (l u : ℕ) (s : P.State) → results (P.draw l u s).1 ≡ results s
  pub queries-sleep_for : (d : ℕ) (s : P.State) → queries (P.sleep_for d s) ≡ queries s
  pub results-sleep_for : (d : ℕ) (s : P.State) → results (P.sleep_for d s) ≡ results s
  pub queries-now : (s : P.State) → queries (P.now s).1 ≡ queries s
  pub results-now : (s : P.State) → results (P.now s).1 ≡ results s
  pub draw_range : (l u : ℕ) (s : P.State) → l ≤ u → (l ≤ (P.draw l u s).0) × ((P.draw l u s).0 ≤ u)
