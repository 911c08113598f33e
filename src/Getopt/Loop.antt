-- ===== src/Getopt/Loop.antt =====
-- The shape of `parse_args` in time_tracker/time_tracker.cpp, time_tracker/sched_tracker.cpp and
-- apache/http_client/http_client.cpp: a `switch` whose cases test `argv[optind]`, and an end that
-- exits with status 0 if there was an error. Messages on the standard error are left out.
pub mod Short
use linux_scheduler_comparis.Base.{
  ℕ, zero, Bool, true, false, Option, none, some, List, [], ◌∷◌, Text, ◌==◌, if◌then◌else◌,
}
use linux_scheduler_comparis.Base.Int.{pos}
use linux_scheduler_comparis.Base.Outcome.{Outcome, done, exits, ◌>>=◌}
use linux_scheduler_comparis.Getopt.{Call, next_optind, is_null, string_of}

pub record Parsing (A : Type 0) : Type 0 where
  pub args : A
  pub error : Bool
  pub optind : ℕ

-- What an option with an argument sets; `none` for any other character.
abbrev pub Handler : Type 0 → Type 0
Handler A = ℕ → Option (Text → A → Outcome A)

module _ {A : Type 0} (handler : Handler A) (argv : List Text) where
  unfoldable pub with_argument :
      Option Text → (Text → A → Outcome A) → Parsing A → Outcome (Parsing A)
  with_argument optarg set p = do
    missing ← is_null argv p.optind
    if missing
        then done (record p { error = true })
        else do text ← string_of optarg; args ← set text p.args; done (record p { args = args })

  -- One round; `print_usage_and_exit` has status 0.
  unfoldable pub parse_call : Call → Parsing A → Outcome (Parsing A)
  unfolding with_argument
  parse_call call p =
      let p' : Parsing A = record p { optind = next_optind call.longindex p.optind } in
      elim (handler call.option) [
        | some set ↦ with_argument call.optarg set p'
        | none ↦ if call.option == b'h' then exits (pos 0) else done (record p' { error = true })
      ]

  unfoldable pub parse_calls : List Call → Parsing A → Outcome (Parsing A)
  unfolding parse_call
  parse_calls [] p = done p
  parse_calls (call ∷ calls) p = do p' ← parse_call call p; parse_calls calls p'

  unfoldable pub parse_with : A → List Call → Outcome A
  unfolding parse_calls
  parse_with defaults calls = do
    p ← parse_calls calls (record { args = defaults; error = false; optind = zero })
    if p.error then exits (pos 0) else done p.args
