-- ===== src/Hackbench/Options/Launched.antt =====
-- From launcher/launcher.cpp to hackbench/hackbench.c: the words that the launcher gives to `execl`
-- are read back by `process_options`.
use linux_scheduler_comparis.Base.{
  ℕ, ◌≤◌, ◌<◌, ◌≡◌, ◌≢◌, ◌⊎◌, inl, inr, refl, ap, true, false, none, List, [], ◌∷◌, arith, Text,
  codes,
}
use linux_scheduler_comparis.Base.Int.{
  ℤ, pos, minus_one, eqb_ℤ_self, eqb_ℤ_ne, ltb_ℤ, IsInt, int_max,
}
use linux_scheduler_comparis.Base.Outcome.{done}
use linux_scheduler_comparis.Text.Number.{atoi, to_string}
use linux_scheduler_comparis.Text.Number.RoundTrip.{atoi-to_string}
use linux_scheduler_comparis.Getopt.{Call}
use linux_scheduler_comparis.Launcher.Trial.{hackbench_argv}
use linux_scheduler_comparis.Hackbench.Options.{Options, process_options}
use linux_scheduler_comparis.Hackbench.Options.Laws.{with_text}

abbrev pub flag : ℕ → Call
flag c = record { option = c; optarg = none; longindex = none }

-- What is relied on of `getopt_long` with the options of hackbench: short options as words of
-- their own, each argument as the next word. `calls` reads the words behind `argv[0]`.
pub record IsGetopt (calls : List Text → List Call) : Type 0 where
  pub no_words : calls [] ≡ []
  pub argument :
      (c : ℕ) (text : Text) (rest : List Text)
      → (c ≡ b's') ⊎ (c ≡ b'l') ⊎ (c ≡ b'g') ⊎ (c ≡ b'f') ⊎ (c ≡ b'p')
      → calls ((b'-' ∷ c ∷ []) ∷ text ∷ rest) ≡ with_text c text ∷ calls rest
  pub no_argument :
      (c : ℕ) (rest : List Text)
      → (c ≡ b'F') ⊎ (c ≡ b'h') ⊎ (c ≡ b'i')
      → calls ((b'-' ∷ c ∷ []) ∷ rest) ≡ flag c ∷ calls rest

-- `argv` without its first word.
abbrev pub operands : List Text → List Text
operands [] = []
operands (prog ∷ words) = words

abbrev pub launched : ℕ → ℤ → Options
launched pairs pin = record {
  datasize = 100_000;
  loops = 100;
  num_groups = pairs;
  num_fds = 1;
  fifo = false;
  core_to_pin = pin;
  is_infinite = true;
}

module _ (calls : List Text → List Call) (G : IsGetopt calls) where
  calls-hackbench_argv :
      (pairs : Text) (rest : List Text)
      → calls (codes "-s" ∷ codes "100000" ∷ codes "-g" ∷ pairs ∷ codes "-i" ∷ rest)
        ≡ with_text b's' (codes "100000") ∷ with_text b'g' pairs ∷ flag b'i' ∷ calls rest
  calls-hackbench_argv pairs rest = rw (
    G.argument b's' _ _ (inl refl),
    G.argument b'g' _ _ (inr (inr (inl refl))),
    G.no_argument b'i' _ (inr (inr refl)),
  )

  data_size : atoi (codes "100000") ≡ done (pos 100_000)
  unfolding atoi
  data_size = refl

  process_unpinned :
      (prog : Text) (argv : List Text) (pairs : ℕ)
      → 0 < pairs
      → pairs ≤ int_max
      → process_options (prog ∷ argv) (
          with_text b's' (codes "100000") ∷ with_text b'g' (to_string (pos pairs)) ∷ flag b'i' ∷ [])
        ≡ done (launched pairs minus_one)
  unfolding process_options
  process_unpinned prog argv pairs low high =
      rw (data_size, atoi-to_string (pos pairs) (omega arith)) (ground arith)

  process_pinned :
      (prog : Text) (argv : List Text) (pairs : ℕ) (pin : ℤ)
      → 0 < pairs
      → pairs ≤ int_max
      → IsInt pin
      → ltb_ℤ pin (pos 0) ≡ false
      → process_options (prog ∷ argv) (
          with_text b's' (codes "100000")
          ∷ with_text b'g' (to_string (pos pairs))
          ∷ flag b'i'
          ∷ with_text b'p' (to_string pin)
          ∷ [])
        ≡ done (launched pairs pin)
  unfolding process_options
  process_pinned prog argv pairs pin low high h valid =
      rw (data_size, atoi-to_string (pos pairs) (omega arith), atoi-to_string pin h, valid)
        (ground arith)

  -- For a `getopt_long` that cuts the words into options and arguments, a pair count from 1 to
  -- `INT_MAX`, and a core that is an `int` and either -1 or not negative, `process_options` of
  -- hackbench accepts the words that `run_trial` of the launcher gives it: 100000 bytes, as many
  -- groups as pairs, one descriptor, pipes, that core, and an endless run; the other options keep
  -- their defaults.
  pub process_options-hackbench_argv :
      (pairs : ℕ) (pin : ℤ)
      → 0 < pairs
      → pairs ≤ int_max
      → IsInt pin
      → (pin ≡ minus_one) ⊎ (ltb_ℤ pin (pos 0) ≡ false)
      → process_options
          (hackbench_argv (to_string (pos pairs)) pin)
          (calls (operands (hackbench_argv (to_string (pos pairs)) pin)))
        ≡ done (launched pairs pin)
  unfolding hackbench_argv
  process_options-hackbench_argv pairs pin low high h (inl e) = rw (
    eqb_ℤ_self pin minus_one e,
    calls-hackbench_argv,
    G.no_words,
    process_unpinned _ _ pairs low high,
    e,
  )
  process_options-hackbench_argv pairs pin low high h (inr e) =
      let other : pin ≢ minus_one = λ same. cc (ap (λ z. ltb_ℤ z (pos 0)) same) in
      rw
        (
          eqb_ℤ_ne pin minus_one other,
          calls-hackbench_argv,
          G.argument b'p' _ _ (inr (inr (inr (inr refl)))),
          G.no_words,
        )
        (process_pinned _ _ pairs pin low high h e)
