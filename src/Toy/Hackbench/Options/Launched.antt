-- ===== src/Toy/Hackbench/Options/Launched.antt =====
-- From toy/launcher.c to toy/hackbench.c: the words that the launcher gives to `execl` are read back
-- by `process_options`.
use linux_scheduler_comparis.Base.{
  ℕ, ◌≤◌, ◌<◌, ◌≡◌, ◌⊎◌, inl, inr, refl, true, false, List, [], ◌∷◌, arith, Text, codes, Bool-cases,
  if◌then◌else◌,
}
use linux_scheduler_comparis.Base.Int.{ℤ, pos, minus_one, eqb_ℤ, int_max}
use linux_scheduler_comparis.Base.Outcome.{done}
use linux_scheduler_comparis.Text.Number.{atoi, to_string}
use linux_scheduler_comparis.Text.Number.RoundTrip.{atoi-to_string}
use linux_scheduler_comparis.Getopt.{Call}
use linux_scheduler_comparis.Hackbench.Options.Laws.{with_text}
use linux_scheduler_comparis.Hackbench.Options.Launched.{flag, operands}
use linux_scheduler_comparis.Toy.Launcher.{hackbench_argv}
use linux_scheduler_comparis.Toy.Hackbench.Options.{Options, processes, process_options}

-- What is relied on of `getopt_long` with the options of toy/hackbench.c: short options as words of
-- their own, each argument as the next word. `calls` reads the words behind `argv[0]`.
pub record IsGetopt (calls : List Text → List Call) : Type 0 where
  pub no_words : calls [] ≡ []
  pub argument :
      (c : ℕ) (text : Text) (rest : List Text)
      → (c ≡ b's') ⊎ (c ≡ b'l') ⊎ (c ≡ b'g') ⊎ (c ≡ b'f')
      → calls ((b'-' ∷ c ∷ []) ∷ text ∷ rest) ≡ with_text c text ∷ calls rest
  pub no_argument :
      (c : ℕ) (rest : List Text)
      → (c ≡ b'p') ⊎ (c ≡ b'T') ⊎ (c ≡ b'P') ⊎ (c ≡ b'F') ⊎ (c ≡ b'h') ⊎ (c ≡ b'a') ⊎ (c ≡ b'i')
      → calls ((b'-' ∷ c ∷ []) ∷ rest) ≡ flag c ∷ calls rest

abbrev pub launched : ℕ → ℤ → Options
launched pairs core = record {
  datasize = 100_000;
  loops = 100;
  num_groups = pairs;
  num_fds = 20;
  fifo = false;
  process_mode = processes;
  core_to_pin = core;
  is_infinite = true;
  use_pipes = false;
}

module _ (calls : List Text → List Call) (G : IsGetopt calls) where
  calls-hackbench_argv :
      (pairs : Text) (rest : List Text)
      → calls (codes "-s" ∷ codes "100000" ∷ codes "-g" ∷ pairs ∷ codes "-i" ∷ rest)
        ≡ with_text b's' (codes "100000") ∷ with_text b'g' pairs ∷ flag b'i' ∷ calls rest
  calls-hackbench_argv pairs rest = rw (
    G.argument b's' _ _ (inl refl),
    G.argument b'g' _ _ (inr (inr (inl refl))),
    G.no_argument b'i' _ (inr (inr (inr (inr (inr (inr refl)))))),
  )

  data_size : atoi (codes "100000") ≡ done (pos 100_000)
  unfolding atoi
  data_size = refl

  process_unpinned :
      (prog : Text) (argv : List Text) (pairs : ℕ)
      → 0 < pairs
      → pairs ≤ int_max
      → process_options (prog ∷ argv) (
          with_text b's' (codes "100000") ∷ with_text b'g' (to_string (pos pairs)) ∷ flag b'i' ∷ [])
        ≡ done (launched pairs minus_one)
  unfolding process_options
  process_unpinned prog argv pairs low high =
      rw (data_size, atoi-to_string (pos pairs) (omega arith)) (ground arith)

  process_pinned :
      (prog : Text) (argv : List Text) (pairs : ℕ)
      → 0 < pairs
      → pairs ≤ int_max
      → process_options (prog ∷ argv) (
          with_text b's' (codes "100000")
          ∷ with_text b'g' (to_string (pos pairs))
          ∷ flag b'i'
          ∷ flag b'a'
          ∷ [])
        ≡ done (launched pairs (pos 0))
  unfolding process_options
  process_pinned prog argv pairs low high =
      rw (data_size, atoi-to_string (pos pairs) (omega arith)) (ground arith)

  -- For a `getopt_long` that cuts the words into options and arguments, and a pair count from 1 to
  -- `INT_MAX`, `process_options` of toy/hackbench.c accepts the words that toy/launcher.c gives
  -- it, whatever the pinning: 100000 bytes, as many groups as pairs, 20 descriptors, processes,
  -- socket pairs, core 0 if the pinning is 1 and no core otherwise, and an endless run.
  pub process_options-toy_argv :
      (pairs : ℕ) (pin : ℤ)
      → 0 < pairs
      → pairs ≤ int_max
      → process_options
          (hackbench_argv (to_string (pos pairs)) pin)
          (calls (operands (hackbench_argv (to_string (pos pairs)) pin)))
        ≡ done (launched pairs (if eqb_ℤ pin (pos 1) then pos 0 else minus_one))
  unfolding hackbench_argv
  process_options-toy_argv pairs pin low high = elim (Bool-cases (eqb_ℤ pin (pos 1))) [
    | inl pinned ↦ rw (
      pinned,
      calls-hackbench_argv,
      G.no_argument b'a' _ (inr (inr (inr (inr (inr (inl refl)))))),
      G.no_words,
      process_pinned _ _ pairs low high,
    )
    | inr unpinned ↦
        rw (unpinned, calls-hackbench_argv, G.no_words, process_unpinned _ _ pairs low high)
  ]
