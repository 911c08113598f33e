-- ===== src/Getopt.antt =====
-- What the programs see of `getopt_long`, which is not theirs: the results of its calls up to the
-- one that returns -1. It is a parameter of every parser, as the list of these results.
pub mod Loop
use linux_scheduler_comparis.Base.{
  ℕ, zero, suc, Bool, true, false, Option, none, some, List, [], ◌∷◌, Text,
}
use linux_scheduler_comparis.Base.Outcome.{Outcome, done, undefined}

-- The returned option character (`?` for an unknown option), `optarg`, and the index written
-- through the last argument, which happens for a long option only.
pub record Call : Type 0 where
  pub option : ℕ
  pub optarg : Option Text
  pub longindex : Option ℕ

abbrev pub next_optind : Option ℕ → ℕ → ℕ
next_optind none optind = optind
next_optind (some index) optind = index

-- `!argv[i]` for an `argv` of `argc` words: word `argc` is NULL, and behind it `argv` has ended.
unfoldable pub is_null : List Text → ℕ → Outcome Bool
is_null [] zero = done true
is_null [] (suc i) = undefined
is_null (word ∷ argv) zero = done false
is_null (word ∷ argv) (suc i) = is_null argv i

-- A `std::string` from `optarg`: from NULL it is undefined.
abbrev pub string_of : Option Text → Outcome Text
string_of none = undefined
string_of (some text) = done text
