-- ===== src/Postgres/Query.antt =====
-- postgresql/query_test.cpp. The lines of the file `measurements` are the durations, in nanoseconds
-- of the steady clock.
pub mod Runs
use linux_scheduler_comparis.Base.{
  ℕ, zero, suc, ◌-◌, ◌*◌, ◌^◌, Bool, true, false, List, [], ◌∷◌, ◌++◌, Text, codes, if◌then◌else◌,
}
use linux_scheduler_comparis.Base.Int.{pos}
use linux_scheduler_comparis.Base.Outcome.{Outcome, done, exits, ◌>>=◌}
use linux_scheduler_comparis.Postgres.Libpq.{Status, tuples_ok, Libpq, conninfo}

abbrev is_tuples_ok : Status → Bool
is_tuples_ok tuples_ok = true
is_tuples_ok _ = false

pub query : Text
query =
    codes
      "SELECT customer_id, order_count, average_amount FROM (SELECT customer_id, COUNT(order_id) AS order_count, AVG(total_amount) AS average_amount FROM (SELECT customer_id, order_id,total_amount FROM orders WHERE order_date BETWEEN '2022-03-01' AND '2022-10-01' UNION ALL SELECT NULL AS customer_id, generate_series(1, 1000000) AS order_id, 0 AS total_amount) AS subquery GROUP BY customer_id HAVING COUNT(order_id) >= 100) AS final_subquery ORDER BY average_amount DESC"

abbrev five_seconds : ℕ
five_seconds = 5 * 10 ^ 9

module _ (P : Libpq) where
  -- The duration of one query over a connection of its own.
  unfoldable pub query_once : Text → P.State → Outcome (ℕ × P.State)
  query_once info s =
      let s1 = P.connectdb info s in
      let (start, s2) = P.now (P.sleep_for five_seconds s1) in
      let (res_status, s3) = P.exec query s2 in
      let (end_time, s4) = P.now s3 in
      if P.connection_ok s1
      then (if is_tuples_ok res_status
          then done (end_time - start, P.finish (P.clear s4))
          else exits (pos 1))
      else exits (pos 1)

  -- `for (int i = 0; i < 100; i++)`, with the rounds that are left.
  unfoldable pub query_loop : ℕ → Text → List ℕ → P.State → Outcome (List ℕ × P.State)
  query_loop zero info log s = done (log, s)
  query_loop (suc left) info log s = do
    (res, s') ← query_once info s
    query_loop left info (log ++ res ∷ []) (P.sleep_for five_seconds s')

  -- `main` truncates the log, and returns a status.
  unfoldable pub main : List Text → P.State → Outcome (ℕ × List ℕ × P.State)
  main (prog ∷ hostname ∷ []) s = do
    (log, s') ← query_loop 100 (conninfo hostname) [] s
    done (0, log, s')
  main _ s = done (1, [], s)
