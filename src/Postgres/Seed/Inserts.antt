-- ===== src/Postgres/Seed/Inserts.antt =====
-- The commands that postgresql/seed_db.cpp executes, and the results that it keeps.
use linux_scheduler_comparis.Base.{
  ℕ, zero, suc, ◌+◌, ◌≤◌, ◌≡◌, refl, sym, ap, ◌∙◌, true, List, [], ◌∷◌, ◌++◌, append_assoc,
  append-nil, Text, length, arith,
}
use linux_scheduler_comparis.Postgres.Libpq.{command_ok, Libpq, conninfo, Counts}
use linux_scheduler_comparis.Postgres.Seed.{
  drop_table_query, create_table_query, insert_query, entries, insert_one, insert_loop, seed, main,
}

-- An `INSERT` of an entry with its four numbers in their ranges.
abbrev pub IsInsert : ℕ → Text → Type 0
IsInsert i q =
    (customer : ℕ) × (amount : ℕ) × (month : ℕ) × (day : ℕ) × (q
      ≡ insert_query i customer month day amount)
    × (1 ≤ customer)
    × (customer ≤ 10000)
    × (amount ≤ 1000)
    × (1 ≤ month)
    × (month ≤ 11)
    × (1 ≤ day)
    × (day ≤ 20)

-- One for each number from `i`.
abbrev pub Inserts : ℕ → List Text → Type 0
Inserts i [] = Unit
Inserts i (q ∷ qs) = IsInsert i q × Inserts (i + 1) qs

module _ (P : Libpq) (queries : P.State → List Text) (results : P.State → ℕ)
    (C : Counts P queries results)
    (ok : (q : Text) (s : P.State) → (P.exec q s).0 ≡ command_ok) where
  insert_one_lem :
      (i : ℕ) (s : P.State)
      → (q : Text) × IsInsert i q
        × (queries (insert_one P i s).1 ≡ queries s ++ q ∷ [])
        × (results (insert_one P i s).1 ≡ results s + 1)
        × ((insert_one P i s).0 ≡ command_ok)
  unfolding insert_one
  insert_one_lem i s =
      let a = P.draw 1 10000 s in
      let b = P.draw 0 1000 a.1 in
      let c = P.draw 1 11 b.1 in
      let d = P.draw 1 20 c.1 in
      let q = insert_query i a.0 c.0 d.0 b.0 in
      let ra = C.draw_range 1 10000 s (omega arith) in
      let rb = C.draw_range 0 1000 a.1 (omega arith) in
      let rc = C.draw_range 1 11 b.1 (omega arith) in
      let rd = C.draw_range 1 20 c.1 (omega arith) in
      (
        q,
        (a.0, b.0, c.0, d.0, refl, ra.0, ra.1, rb.1, rc.0, rc.1, rd.0, rd.1),
        C.queries-exec q d.1
            ∙ ap (λ l. l ++ q ∷ [])
                (C.queries-draw 1 20 c.1
                  ∙ (C.queries-draw 1 11 b.1
                      ∙ (C.queries-draw 0 1000 a.1 ∙ C.queries-draw 1 10000 s))),
        omega (
          arith,
          C.results-exec q d.1,
          C.results-draw 1 20 c.1,
          C.results-draw 1 11 b.1,
          C.results-draw 0 1000 a.1,
          C.results-draw 1 10000 s,
        ),
        ok q d.1,
      )

  insert_loop_lem :
      (left i : ℕ) (s : P.State)
      → (qs : List Text) × Inserts i qs
        × (length qs ≡ left)
        × ((insert_loop P left i s).0 ≡ 0)
        × (queries (insert_loop P left i s).1 ≡ queries s ++ qs)
        × (results (insert_loop P left i s).1 ≡ results s + left)
  unfolding insert_loop
  insert_loop_lem zero i s = (
    [],
    tt,
    refl,
    refl,
    C.queries-finish s ∙ sym (append-nil (queries s)),
    omega (arith, C.results-finish s),
  )
  insert_loop_lem (suc left) i s =
      let (q, is_insert, logged, counted, fine) = insert_one_lem i s in
      let (qs, inserts, long, status, others, total) =
        insert_loop_lem left (i + 1) (insert_one P i s).1 in
      (
        q ∷ qs,
        (is_insert, inserts),
        ap suc long,
        rw fine status,
        rw fine (others ∙ (ap (λ l. l ++ qs) logged ∙ append_assoc (queries s) (q ∷ []) qs)),
        rw fine (omega (arith, total, counted)),
      )

  abbrev pub Seeded : P.State → ℕ × P.State → Type 0
  Seeded s r =
      (r.0 ≡ 0)
      × ((inserts : List Text) × Inserts 1 inserts
          × (length inserts ≡ entries)
          × (queries r.1 ≡ queries s ++ (drop_table_query ∷ create_table_query ∷ inserts)))
      × (results r.1 ≡ results s + entries)

  seed_lem : (s : P.State) → Seeded s (seed P s)
  unfolding seed
  seed_lem s =
      let s1 = (P.exec drop_table_query s).1 in
      let s2 = (P.exec create_table_query (P.clear s1)).1 in
      let (qs, inserts, long, status, others, total) = insert_loop_lem entries 1 (P.clear s2) in
      let dropped = C.queries-exec drop_table_query s in
      let created = C.queries-exec create_table_query (P.clear s1) in
      rw (ok drop_table_query s, ok create_table_query (P.clear s1))
        (
          status,
          (
            qs,
            inserts,
            long,
            others
                ∙ rw (C.queries-clear s2, created, C.queries-clear s1, dropped)
                    (append_assoc _ (create_table_query ∷ []) qs
                      ∙ append_assoc (queries s) (drop_table_query ∷ []) (create_table_query ∷ qs)),
          ),
          omega (
            arith,
            total,
            C.results-clear s2,
            C.results-exec create_table_query (P.clear s1),
            C.results-clear s1,
            C.results-exec drop_table_query s,
          ),
        )

  -- With a host name, a connection that succeeds and commands that all succeed, seed_db returns 0
  -- after exactly the `DROP`, the `CREATE` and one `INSERT` for each order from 1 to the number of
  -- entries, in order, each with its random numbers in their ranges; and it has cleared none of
  -- the results of the `INSERT`s.
  pub main-Seeded :
      (prog hostname : Text) (s : P.State)
      → P.connection_ok (P.connectdb (conninfo hostname) s) ≡ true
      → Seeded s (main P (prog ∷ hostname ∷ []) s)
  unfolding main
  main-Seeded prog hostname s connected =
      let s0 = P.connectdb (conninfo hostname) s in
      let (status, (qs, inserts, long, all), total) = seed_lem s0 in
      rw connected (
        status,
        (
          qs,
          inserts,
          long,
          all
              ∙ ap (λ l. l ++ (drop_table_query ∷ create_table_query ∷ qs))
                  (C.queries-connectdb _ s),
        ),
        total ∙ ap (λ n. n + entries) (C.results-connectdb _ s),
      )
