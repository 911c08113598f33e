-- ===== src/Postgres/Seed.antt =====
-- postgresql/seed_db.cpp.
pub mod Inserts
use linux_scheduler_comparis.Base.{
  ℕ, zero, suc, ◌+◌, Bool, true, false, List, [], ◌∷◌, ◌++◌, Text, codes, if◌then◌else◌,
}
use linux_scheduler_comparis.Base.Int.{ℤ, pos}
use linux_scheduler_comparis.Text.Number.{to_string}
use linux_scheduler_comparis.Postgres.Libpq.{Status, command_ok, Libpq, conninfo}

abbrev pub is_command_ok : Status → Bool
is_command_ok command_ok = true
is_command_ok _ = false

abbrev pub drop_table_query : Text
drop_table_query = codes "DROP TABLE IF EXISTS orders"

abbrev pub create_table_query : Text
create_table_query =
    codes
      "CREATE TABLE IF NOT EXISTS orders (order_id INT PRIMARY KEY, customer_id INT, order_date DATE NOT NULL, total_amount INT)"

-- The text of one `INSERT`.
unfoldable pub insert_query : ℕ → ℕ → ℕ → ℕ → ℕ → Text
insert_query order_id customer_id month day order_amount =
    codes "INSERT INTO orders(order_id, customer_id, order_date, total_amount) VALUES ("
    ++ (to_string (pos order_id)
        ++ (codes ","
            ++ (to_string (pos customer_id)
                ++ (codes ", '2022-"
                    ++ (to_string (pos month)
                        ++ (codes "-"
                            ++ (to_string (pos day)
                                ++ (codes "',"
                                    ++ (to_string (pos order_amount) ++ codes ")")))))))))

unfoldable pub entries : ℕ
entries = 10_000_000

module _ (P : Libpq) where
  -- A failed command: `PQclear`, `PQfinish`, `return 1`.
  abbrev pub give_up : P.State → ℕ × P.State
  give_up s = (1, P.finish (P.clear s))

  -- The body of the loop up to the `INSERT`: the numbers of one entry, in the order that they are
  -- drawn.
  unfoldable pub insert_one : ℕ → P.State → Status × P.State
  insert_one i s =
      let (customer_id, s1) = P.draw 1 10000 s in
      let (order_amount, s2) = P.draw 0 1000 s1 in
      let (month, s3) = P.draw 1 11 s2 in
      let (day, s4) = P.draw 1 20 s3 in
      P.exec (insert_query i customer_id month day order_amount) s4

  -- `for (int i = 1; i <= entries; i++)`, with the rounds that are left.
  unfoldable pub insert_loop : ℕ → ℕ → P.State → ℕ × P.State
  insert_loop zero i s = (0, P.finish s)
  insert_loop (suc left) i s =
      let (status, s') = insert_one i s in
      let rest = insert_loop left (i + 1) s' in if is_command_ok status then rest else give_up s'

  -- Behind the connection.
  unfoldable pub seed : P.State → ℕ × P.State
  seed s =
      let (dropped, s1) = P.exec drop_table_query s in
      let (created, s2) = P.exec create_table_query (P.clear s1) in
      if is_command_ok dropped
      then (if is_command_ok created then insert_loop entries 1 (P.clear s2) else give_up s2)
      else give_up s1

  -- `main`, with its status.
  unfoldable pub main : List Text → P.State → ℕ × P.State
  main (prog ∷ hostname ∷ []) s =
      let s' = P.connectdb (conninfo hostname) s in
      if P.connection_ok s' then seed s' else (1, P.finish s')
  main _ s = (1, s)
