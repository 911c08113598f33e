-- ===== src/Launcher/Split.antt =====
-- `string_to_vec_by_delim` of launcher/launcher.cpp, and what it promises for a one-byte delimiter.
pub mod Fields
use linux_scheduler_comparis.Base.{
  ℕ, zero, suc, ◌+◌, ◌-◌, Option, none, some, List, [], ◌∷◌, ◌++◌, Text, length,
}
use linux_scheduler_comparis.Base.Outcome.{Outcome, done, spent, ◌>>=◌}
use linux_scheduler_comparis.Text.Search.{find, substr, substr_from}

-- The `while` loop and the last `push_back`, with `last` and `res` as its variables.
pub split_loop : ℕ → Text → Text → ℕ → List Text → Outcome (List Text)
split_loop zero s delimiter last res = spent
split_loop (suc fuel) s delimiter last res = elim (find s delimiter last) [
  | some next ↦ do
    part ← substr s last (next - last)
    split_loop fuel s delimiter (next + 1) (res ++ part ∷ [])
  | none ↦ do part ← substr_from s last; done (res ++ part ∷ [])
]

-- Each round moves `last` by at least one, and `find` fails behind the end.
unfoldable pub string_to_vec_by_delim : Text → Text → Outcome (List Text)
unfolding split_loop
string_to_vec_by_delim s delimiter = split_loop (length s + 2) s delimiter 0 []
