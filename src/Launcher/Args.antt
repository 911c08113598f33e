-- ===== src/Launcher/Args.antt =====
-- `Args` and `parse_args` of launcher/launcher.cpp. The usage text on the standard output is left
-- out; what goes to the standard error is the field `cerr`.
pub mod Tuple
pub mod Laws
use linux_scheduler_comparis.Base.{
  ℕ, zero, ◌+◌, ◌-◌, ◌%◌, ◌^◌, Bool, true, false, Option, none, some, List, [], ◌∷◌, ◌++◌, Text,
  codes, length, get_elem?, ◌==◌, if◌then◌else◌,
}
use linux_scheduler_comparis.Base.Int.{ℤ, pos, minus_one}
use linux_scheduler_comparis.Base.Outcome.{Outcome, done, exits, undefined, ◌>>=◌}
use linux_scheduler_comparis.Text.Search.{substr}
use linux_scheduler_comparis.Text.Number.{stoi}
use linux_scheduler_comparis.Getopt.{Call, next_optind, is_null, string_of}
use linux_scheduler_comparis.Launcher.Split.{string_to_vec_by_delim}

-- A `std::fstream`: the file that it has open, and the digits that it prints.
pub record Stream : Type 0 where
  pub file : Option Text
  pub precision : ℕ

pub record Args : Type 0 where
  pub groups_lower_bound : ℤ
  pub groups_upper_bound : ℤ
  pub groups_step_size : ℤ
  pub core_to_pin_to : ℤ
  pub reps : ℤ
  pub file_name : Text
  pub file : Stream
  pub file_valid : Bool
  pub hackbench_abs_path : Text

abbrev pub closed_stream : Stream
closed_stream = record { file = none; precision = 6 }

unfoldable pub default_args : Args
default_args = record {
  groups_lower_bound = pos 1;
  groups_upper_bound = pos 1;
  groups_step_size = pos 1;
  core_to_pin_to = minus_one;
  reps = pos 1;
  file_name = [];
  file = closed_stream;
  file_valid = false;
  hackbench_abs_path = codes "hackbench";
}

-- `tup[i]` of a vector: no test, so a missing element is undefined behaviour.
abbrev element : Option Text → Outcome Text
element none = undefined
element (some t) = done t

abbrev first_is : ℕ → Text → Bool
first_is c [] = false
first_is c (x ∷ s) = x == c

abbrev size_mod : ℕ
size_mod = 2 ^ 64

-- `groups.substr(1, groups.size() - 2)`, split at the commas, and three numbers.
pub set_tuple : Text → Args → Outcome Args
set_tuple groups args = do
  inner ← substr groups 1 ((length groups + size_mod - 2) % size_mod)
  tup ← string_to_vec_by_delim inner (b',' ∷ [])
  lower ← element (get_elem? tup 0)
  lower_bound ← stoi lower
  upper ← element (get_elem? tup 1)
  upper_bound ← stoi upper
  step ← element (get_elem? tup 2)
  step_size ← stoi step
  done (record args {
    groups_lower_bound = lower_bound;
    groups_upper_bound = upper_bound;
    groups_step_size = step_size;
  })

set_count : Text → Args → Outcome Args
set_count groups args = do
  num_group ← stoi groups
  done (record args { groups_lower_bound = num_group; groups_upper_bound = num_group })

-- The cases of the `switch`, each with its `optarg`.
unfoldable pub set_groups : Text → Args → Outcome Args
unfolding set_tuple set_count
set_groups groups args =
    if first_is b'(' groups then set_tuple groups args else set_count groups args

unfoldable pub set_pin : Text → Args → Outcome Args
set_pin proc args = do core ← stoi proc; done (record args { core_to_pin_to = core })

unfoldable pub set_reps : Text → Args → Outcome Args
set_reps text args = do reps ← stoi text; done (record args { reps = reps })

abbrev pub opened : (Text → Bool) → Text → Option Text
opened opens name = if opens name then some name else none

-- `opens` says which paths the system opens for the `std::fstream`.
unfoldable pub set_file : (Text → Bool) → Text → Args → Outcome Args
set_file opens name args = done (record args {
  file_name = name;
  file = record { file = opened opens name; precision = 12 };
  file_valid = true;
})

unfoldable pub set_path : Text → Args → Outcome Args
set_path path args = done (record args { hackbench_abs_path = path })

-- The variables of `parse_args`.
pub record Parsing : Type 0 where
  pub args : Args
  pub error : Bool
  pub optind : ℕ
  pub cerr : List Text

-- `if (!argv[optind]) { …; error = true; break; }`, and the rest of the case.
unfoldable pub with_argument :
    List Text → Option Text → Text → (Text → Args → Outcome Args) → Parsing → Outcome Parsing
with_argument argv optarg message set p = do
  missing ← is_null argv p.optind
  if missing
      then done (record p { error = true; cerr = p.cerr ++ message ∷ [] })
      else do text ← string_of optarg; args ← set text p.args; done (record p { args = args })

-- The case of an option that takes an argument: its message and what it sets.
unfoldable pub handler : (Text → Bool) → ℕ → Option (Text × (Text → Args → Outcome Args))
handler opens c =
    if c == b'g'
    then some (codes "Missing arg for -g\n", set_groups)
    else if c == b'p'
    then some (codes "Missing arg for -p\n", set_pin)
    else if c == b'r'
    then some (codes "Missing arg for -r\n", set_reps)
    else if c == b'f'
    then some (codes "Missing arg for -f\n", set_file opens)
    else if c == b'H'
    then some (codes "Missing arg for -H\n", set_path)
    else none

-- One round of the `while` loop, behind the test for -1.
unfoldable pub parse_call : (Text → Bool) → List Text → Call → Parsing → Outcome Parsing
parse_call opens argv call p =
    let p' : Parsing = record p { optind = next_optind call.longindex p.optind } in
    elim (handler opens call.option) [
      | some (message, set) ↦ with_argument argv call.optarg message set p'
      | none ↦ if call.option == b'h' then exits minus_one else done (record p' { error = true })
    ]

unfoldable pub parse_calls : (Text → Bool) → List Text → List Call → Parsing → Outcome Parsing
parse_calls opens argv [] p = done p
parse_calls opens argv (call ∷ calls) p = do
  p' ← parse_call opens argv call p
  parse_calls opens argv calls p'

-- `if (error) print_usage_and_exit(); return args;`
unfoldable pub parse_args : (Text → Bool) → List Text → List Call → Outcome Args
parse_args opens argv calls = do
  p ←
      parse_calls opens argv calls
        (record { args = default_args; error = false; optind = zero; cerr = [] })
  if p.error then exits minus_one else done p.args
