-- ===== src/Toy/Hackbench/Options.antt =====
-- The static variables of toy/hackbench.c and `process_options`, which sets them. Messages on the
-- standard error are left out: they change nothing, and `error` records that there was one.
pub mod Launched
use linux_scheduler_comparis.Base.{
  ℕ, ◌-◌, ◌^◌, Bool, true, false, List, [], ◌∷◌, Text, ltb, ◌==◌, if◌then◌else◌,
}
use linux_scheduler_comparis.Base.Int.{ℤ, pos, minus_one}
use linux_scheduler_comparis.Base.Outcome.{Outcome, done, exits, ◌>>=◌}
use linux_scheduler_comparis.Text.Number.{atoi}
use linux_scheduler_comparis.Getopt.{Call, next_optind, is_null, string_of}
use linux_scheduler_comparis.Hackbench.Options.{to_unsigned}

-- `THREAD_MODE` and `PROCESS_MODE`.
pub data Mode : Type 0 where
  threads processes : Mode

-- `unsigned int` variables are numbers below 2 ^ 32.
pub record Options : Type 0 where
  pub datasize : ℕ
  pub loops : ℕ
  pub num_groups : ℕ
  pub num_fds : ℕ
  pub fifo : Bool
  pub process_mode : Mode
  pub core_to_pin : ℤ
  pub is_infinite : Bool
  pub use_pipes : Bool

unfoldable pub default_options : Options
default_options = record {
  datasize = 100;
  loops = 100;
  num_groups = 10;
  num_fds = 20;
  fifo = false;
  process_mode = processes;
  core_to_pin = minus_one;
  is_infinite = false;
  use_pipes = false;
}

pub record Parsing : Type 0 where
  pub options : Options
  pub error : Bool

-- `if (!(argv[optind] && (x = atoi(optarg)) > 0)) error = 1;` for an unsigned `x`.
pub set_unsigned : List Text → Call → (ℕ → Options → Options) → Parsing → Outcome Parsing
set_unsigned argv call set p = do
  missing ← is_null argv (next_optind call.longindex 0)
  if missing then done (record p { error = true }) else do
    text ← string_of call.optarg
    value ← atoi text
    let x = to_unsigned value
    done (record { options = set x p.options; error = if ltb 0 x then p.error else true })

abbrev set_flag : (Options → Options) → Parsing → Outcome Parsing
set_flag set p = done (record p { options = set p.options })

-- One round of the loop, behind the test for -1; `optind` is 0 anew in each.
pub parse_call : List Text → Call → Parsing → Outcome Parsing
unfolding set_unsigned
parse_call argv call p =
    if call.option == b'p'
    then set_flag (λ o. record o { use_pipes = true }) p
    else if call.option == b's'
    then set_unsigned argv call (λ x o. record o { datasize = x }) p
    else if call.option == b'l'
    then set_unsigned argv call (λ x o. record o { loops = x }) p
    else if call.option == b'g'
    then set_unsigned argv call (λ x o. record o { num_groups = x }) p
    else if call.option == b'f'
    then set_unsigned argv call (λ x o. record o { num_fds = x }) p
    else if call.option == b'T'
    then set_flag (λ o. record o { process_mode = threads }) p
    else if call.option == b'P'
    then set_flag (λ o. record o { process_mode = processes }) p
    else if call.option == b'F'
    then set_flag (λ o. record o { fifo = true }) p
    else if call.option == b'a'
    then set_flag (λ o. record o { core_to_pin = pos 0 }) p
    else if call.option == b'i'
    then set_flag (λ o. record o { is_infinite = true }) p
    else if call.option == b'h'
    then exits (pos 1)
    else done (record p { error = true })

pub parse_calls : List Text → List Call → Parsing → Outcome Parsing
unfolding parse_call
parse_calls argv [] p = done p
parse_calls argv (call ∷ calls) p = do p' ← parse_call argv call p; parse_calls argv calls p'

unfoldable pub process_options : List Text → List Call → Outcome Options
unfolding parse_calls default_options is_null
process_options argv calls = do
  p ← parse_calls argv calls (record { options = default_options; error = false })
  if p.error then exits (pos 1) else done p.options

-- `if (is_infinite == 1) loops = INT_MAX;`
unfoldable pub adjust_loops : Options → Options
adjust_loops o = if o.is_infinite then record o { loops = 2 ^ 31 - 1 } else o
