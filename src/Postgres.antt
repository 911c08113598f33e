-- ===== src/Postgres.antt =====
-- The programs of postgresql/. libpq, the clock and the random numbers are parameters; messages are
-- left out.
pub mod Libpq
pub mod Seed
pub mod Query
