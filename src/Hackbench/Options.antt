-- ===== src/Hackbench/Options.antt =====
-- The static variables of hackbench/hackbench.c and `process_options`, which sets them. Messages on
-- the standard error are left out: they change nothing, and `error` records that there was one.
pub mod Laws
pub mod Launched
use linux_scheduler_comparis.Base.{
  ℕ, zero, ◌+◌, ◌-◌, ◌%◌, ◌^◌, Bool, true, false, Option, none, some, List, [], ◌∷◌, Text, ltb,
  ◌==◌, if◌then◌else◌,
}
use linux_scheduler_comparis.Base.Int.{ℤ, pos, negsuc, minus_one, ltb_ℤ}
use linux_scheduler_comparis.Base.Outcome.{Outcome, done, exits, undefined, ◌>>=◌}
use linux_scheduler_comparis.Text.Number.{atoi}
use linux_scheduler_comparis.Getopt.{Call, next_optind, is_null, string_of}

-- `unsigned int` variables are numbers below 2 ^ 32.
pub record Options : Type 0 where
  pub datasize : ℕ
  pub loops : ℕ
  pub num_groups : ℕ
  pub num_fds : ℕ
  pub fifo : Bool
  pub core_to_pin : ℤ
  pub is_infinite : Bool

unfoldable pub default_options : Options
default_options = record {
  datasize = 100;
  loops = 100;
  num_groups = 10;
  num_fds = 1;
  fifo = false;
  core_to_pin = minus_one;
  is_infinite = false;
}

-- The conversion of an `int` to `unsigned int`.
abbrev pub to_unsigned : ℤ → ℕ
to_unsigned (pos n) = n % 2 ^ 32
to_unsigned (negsuc n) = 2 ^ 32 - 1 - n % 2 ^ 32

pub record Parsing : Type 0 where
  pub options : Options
  pub error : Bool

-- `if (!(argv[optind] && (x = atoi(optarg)) > 0)) error = 1;` for an unsigned `x`.
pub set_unsigned : List Text → Call → (ℕ → Options → Options) → Parsing → Outcome Parsing
set_unsigned argv call set p = do
  missing ← is_null argv (next_optind call.longindex 0)
  if missing then done (record p { error = true }) else do
    text ← string_of call.optarg
    value ← atoi text
    let x = to_unsigned value
    done (record { options = set x p.options; error = if ltb 0 x then p.error else true })

-- `if (!argv[optind] || ((core_to_pin = atoi(optarg)) < 0)) error = 1;`
pub set_pin : List Text → Call → Parsing → Outcome Parsing
set_pin argv call p = do
  missing ← is_null argv (next_optind call.longindex 0)
  if missing then done (record p { error = true }) else do
    text ← string_of call.optarg
    core ← atoi text
    done (record {
      options = record (p.options) { core_to_pin = core };
      error = if ltb_ℤ core (pos 0) then true else p.error;
    })

-- One round of the loop, behind the test for -1; `optind` is 0 anew in each.
pub parse_call : List Text → Call → Parsing → Outcome Parsing
unfolding set_unsigned set_pin
parse_call argv call p =
    if call.option == b's'
    then set_unsigned argv call (λ x o. record o { datasize = x }) p
    else if call.option == b'l'
    then set_unsigned argv call (λ x o. record o { loops = x }) p
    else if call.option == b'g'
    then set_unsigned argv call (λ x o. record o { num_groups = x }) p
    else if call.option == b'f'
    then set_unsigned argv call (λ x o. record o { num_fds = x }) p
    else if call.option == b'F'
    then done (record p { options = record (p.options) { fifo = true } })
    else if call.option == b'p'
    then set_pin argv call p
    else if call.option == b'i'
    then done (record p { options = record (p.options) { is_infinite = true } })
    else if call.option == b'h'
    then exits (pos 1)
    else done (record p { error = true })

pub parse_calls : List Text → List Call → Parsing → Outcome Parsing
unfolding parse_call
parse_calls argv [] p = done p
parse_calls argv (call ∷ calls) p = do p' ← parse_call argv call p; parse_calls argv calls p'

unfoldable pub process_options : List Text → List Call → Outcome Options
unfolding parse_calls default_options is_null
process_options argv calls = do
  p ← parse_calls argv calls (record { options = default_options; error = false })
  if p.error then exits (pos 1) else done p.options

-- `if (is_infinite == 1) loops = INT_MAX;`
unfoldable pub adjust_loops : Options → Options
adjust_loops o = if o.is_infinite then record o { loops = 2 ^ 31 - 1 } else o
