-- ===== src/Hackbench/Options/Laws.antt =====
-- Which numbers `process_options` of hackbench/hackbench.c accepts.
use linux_scheduler_comparis.Base.{
  ℕ, zero, suc, ◌-◌, ◌%◌, ◌^◌, ◌≡◌, ◌∙◌, none, some, List, [], ◌∷◌, arith, Text, ltb, if◌then◌else◌,
}
use linux_scheduler_comparis.Base.Int.{ℤ, pos, negsuc, ltb_ℤ, IsInt}
use linux_scheduler_comparis.Base.Outcome.{Outcome, done, exits}
use linux_scheduler_comparis.Text.Number.{to_string}
use linux_scheduler_comparis.Text.Number.RoundTrip.{atoi-to_string}
use linux_scheduler_comparis.Getopt.{Call}
use linux_scheduler_comparis.Hackbench.Options.{
  Options, default_options, to_unsigned, process_options,
}

-- The call for a short option with its argument.
abbrev pub with_text : ℕ → Text → Call
with_text c text = record { option = c; optarg = some text; longindex = none }

-- The four options that want an integer above 0, and the variable of each.
pub data Positive : Type 0 where
  datasize loops groups fds : Positive

pub letter : Positive → ℕ
letter datasize = b's'
letter loops = b'l'
letter groups = b'g'
letter fds = b'f'

pub assign : Positive → ℕ → Options → Options
assign datasize x o = record o { datasize = x }
assign loops x o = record o { loops = x }
assign groups x o = record o { num_groups = x }
assign fds x o = record o { num_fds = x }

-- What becomes of one such option with the number `z`.
pub accepted : Positive → ℤ → Outcome Options
accepted v (pos zero) = exits (pos 1)
accepted v (pos (suc n)) = done (assign v (suc n) default_options)
accepted v (negsuc n) = done (assign v (2 ^ 32 - suc n) default_options)

run_one :
    (prog : Text) (argv : List Text) (v : Positive) (z : ℤ)
    → IsInt z
    → process_options (prog ∷ argv) (with_text (letter v) (to_string z) ∷ []) ≡ (
        if ltb 0 (to_unsigned z)
        then done (assign v (to_unsigned z) default_options)
        else exits (pos 1))
unfolding process_options letter assign
run_one prog argv datasize z h = rw (atoi-to_string z h) (ground arith)
run_one prog argv loops z h = rw (atoi-to_string z h) (ground arith)
run_one prog argv groups z h = rw (atoi-to_string z h) (ground arith)
run_one prog argv fds z h = rw (atoi-to_string z h) (ground arith)

-- With one of `-s`, `-l`, `-g` and `-f` and an `int` as its argument, `process_options` exits with
-- status 1 for 0, stores a positive number, and stores a negative one modulo 2 ^ 32.
pub process_options-accepted :
    (prog : Text) (argv : List Text) (v : Positive) (z : ℤ)
    → IsInt z
    → process_options (prog ∷ argv) (with_text (letter v) (to_string z) ∷ []) ≡ accepted v z
unfolding accepted
process_options-accepted prog argv v (pos zero) h = run_one prog argv v (pos zero) h
process_options-accepted prog argv v (pos (suc n)) h =
    let small : suc n % 2 ^ 32 ≡ suc n = omega arith in
    run_one prog argv v (pos (suc n)) h ∙ rw small (ground arith)
process_options-accepted prog argv v (negsuc n) h =
    let small : 2 ^ 32 - 1 - n % 2 ^ 32 ≡ 2 ^ 32 - suc n = omega arith in
    run_one prog argv v (negsuc n) h ∙ rw small (ground arith)

-- With `-p` and an `int` as its argument, `process_options` exits with status 1 for a negative
-- number and stores any other.
pub process_options-pin :
    (prog : Text) (argv : List Text) (z : ℤ)
    → IsInt z
    → process_options (prog ∷ argv) (with_text b'p' (to_string z) ∷ []) ≡ (
        if ltb_ℤ z (pos 0)
        then exits (pos 1)
        else done (record default_options { core_to_pin = z }))
unfolding process_options
process_options-pin prog argv z h = rw (atoi-to_string z h) (ground arith)
