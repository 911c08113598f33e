-- ===== src/Postgres/Query/Runs.antt =====
-- The queries that postgresql/query_test.cpp runs, and the durations that it logs.
use linux_scheduler_comparis.Base.{
  ℕ, zero, suc, ◌+◌, ◌-◌, ◌≡◌, refl, sym, ◌∙◌, true, List, [], ◌∷◌, ◌++◌, append_assoc, append-nil,
  replicate, Text, length, length-append, arith,
}
use linux_scheduler_comparis.Base.Outcome.{done}
use linux_scheduler_comparis.Postgres.Libpq.{tuples_ok, Libpq, conninfo, Counts}
use linux_scheduler_comparis.Postgres.Query.{query, five_seconds, query_once, query_loop, main}

module _ (P : Libpq) (queries : P.State → List Text) (results : P.State → ℕ)
    (C : Counts P queries results)
    (connects : (info : Text) (s : P.State) → P.connection_ok (P.connectdb info s) ≡ true)
    (ok : (s : P.State) → (P.exec query s).0 ≡ tuples_ok) where
  query_once_lem :
      (info : Text) (s : P.State)
      → (res : ℕ) × (t : P.State) × (query_once P info s ≡ done (res, t))
        × (queries t ≡ queries s ++ query ∷ [])
        × (results t ≡ results s)
  unfolding query_once
  query_once_lem info s =
      let s1 = P.connectdb info s in
      let slept = P.sleep_for five_seconds s1 in
      let (start, s2) = P.now slept in
      let s3 = (P.exec query s2).1 in
      let (end_time, s4) = P.now s3 in
      (
        end_time - start,
        P.finish (P.clear s4),
        rw (connects info s, ok s2) refl,
        rw
            (
              C.queries-finish,
              C.queries-clear,
              C.queries-now s3,
              C.queries-exec query s2,
              C.queries-now slept,
              C.queries-sleep_for five_seconds s1,
              C.queries-connectdb info s,
            )
            refl,
        omega (
          arith,
          C.results-finish (P.clear s4),
          C.results-clear s4,
          C.results-now s3,
          C.results-exec query s2,
          C.results-now slept,
          C.results-sleep_for five_seconds s1,
          C.results-connectdb info s,
        ),
      )

  query_loop_lem :
      (left : ℕ) (info : Text) (log : List ℕ) (s : P.State)
      → (log' : List ℕ) × (t : P.State) × (query_loop P left info log s ≡ done (log', t))
        × (length log' ≡ length log + left)
        × (queries t ≡ queries s ++ replicate left query)
        × (results t ≡ results s)
  unfolding query_loop
  query_loop_lem zero info log s = (log, s, refl, omega arith, sym (append-nil (queries s)), refl)
  query_loop_lem (suc left) info log s =
      let (res, s', once, asked, balanced) = query_once_lem info s in
      let slept = P.sleep_for five_seconds s' in
      let (log', t, rest, long, all, total) = query_loop_lem left info (log ++ res ∷ []) slept in
      (
        log',
        t,
        rw once rest,
        omega (arith, long, length-append log (res ∷ [])),
        all
            ∙ rw (C.queries-sleep_for five_seconds s', asked)
                (append_assoc (queries s) (query ∷ []) (replicate left query)),
        total ∙ (C.results-sleep_for five_seconds s' ∙ balanced),
      )

  -- With a host name, and connections and queries that all succeed, query_test returns 0 after
  -- exactly one hundred runs of its query, with one hundred durations written, and every result
  -- cleared.
  pub main-queries :
      (prog hostname : Text) (s : P.State)
      → (log : List ℕ) × (t : P.State) × (main P (prog ∷ hostname ∷ []) s ≡ done (0, log, t))
        × (length log ≡ 100)
        × (queries t ≡ queries s ++ replicate 100 query)
        × (results t ≡ results s)
  unfolding main
  main-queries prog hostname s =
      let (log, t, ran, long, asked, balanced) = query_loop_lem 100 (conninfo hostname) [] s in
      (log, t, rw ran refl, long, asked, balanced)
