-- ===== src/Launcher/Args/Tuple.antt =====
-- `-g (lower,upper,step)` of launcher/launcher.cpp: the text and what `parse_args` sets from it.
use mathlib.Core.List.{cons-ne-nil}
use linux_scheduler_comparis.Base.{
  suc, ◌+◌, ◌-◌, ◌%◌, ◌^◌, ◌<◌, ◌≡◌, refl, ◌∙◌, ap, List, [], ◌∷◌, ◌++◌, arith, Text, length,
  length-append, take, Lacks,
}
use linux_scheduler_comparis.Base.Int.{ℤ, IsInt}
use linux_scheduler_comparis.Base.Outcome.{done}
use linux_scheduler_comparis.Text.Search.{substr}
use linux_scheduler_comparis.Text.Number.{to_string}
use linux_scheduler_comparis.Text.Number.RoundTrip.{
  stoi-to_string, to_string-Lacks, length-to_string,
}
use linux_scheduler_comparis.Launcher.Split.{string_to_vec_by_delim}
use linux_scheduler_comparis.Launcher.Split.Fields.{join, split-fields, fields-join}
use linux_scheduler_comparis.Launcher.Args.{Args, set_groups}

-- The text "(lower,upper,step)".
abbrev pub tuple_text : ℤ → ℤ → ℤ → Text
tuple_text lower upper step =
    b'(' ∷ (join b',' (to_string lower ∷ to_string upper ∷ to_string step ∷ []) ++ b')' ∷ [])

take-append : (xs ys : Text) → take (length xs) (xs ++ ys) ≡ xs
take-append [] ys = refl
take-append (x ∷ xs) ys = ap (λ t. x ∷ t) (take-append xs ys)

abbrev three : ℤ → ℤ → ℤ → List Text
three a b c = to_string a ∷ to_string b ∷ to_string c ∷ []

length-join3 : (a b c : ℤ) → IsInt a → IsInt b → IsInt c → length (join b',' (three a b c)) < 2 ^ 40
length-join3 a b c ha hb hc =
    omega (
      arith,
      length-append {0},
      length-to_string a ha,
      length-to_string b hb,
      length-to_string c hc,
    )

substr_inner :
    (inner : Text)
    → length inner < 2 ^ 40
    → let s = b'(' ∷ (inner ++ b')' ∷ []) in
      substr s 1 ((length s + 2 ^ 64 - 2) % 2 ^ 64) ≡ done inner
unfolding substr
substr_inner inner h =
    let total : length (inner ++ b')' ∷ []) ≡ length inner + 1 =
      omega (arith, length-append inner (b')' ∷ [])) in
    let count : (suc (length (inner ++ b')' ∷ [])) + 2 ^ 64 - 2) % 2 ^ 64 ≡ length inner =
      omega arith in
    rw (count, total) (ground (arith, take-append inner (b')' ∷ [])))

split-three :
    (a b c : ℤ) → string_to_vec_by_delim (join b',' (three a b c)) (b',' ∷ []) ≡ done (three a b c)
split-three a b c =
    split-fields _ _
    ∙ ap done (fields-join b',' (three a b c) (cons-ne-nil _ _) (plain a, (plain b, (plain c, tt))))
  where
    plain : (z : ℤ) → Lacks b',' (to_string z)
    plain z = to_string-Lacks b',' z refl (omega arith)

-- `-g (a,b,c)` with three numbers of type `int` sets the two bounds and the step to them and keeps
-- the rest.
pub set_groups-tuple_text :
    (lower upper step : ℤ) (args : Args)
    → IsInt lower
    → IsInt upper
    → IsInt step
    → set_groups (tuple_text lower upper step) args
      ≡ done (record args {
        groups_lower_bound = lower;
        groups_upper_bound = upper;
        groups_step_size = step;
      })
unfolding set_groups
set_groups-tuple_text lower upper step args hl hu hs = rw (
  substr_inner (join b',' (three lower upper step)) (length-join3 lower upper step hl hu hs),
  split-three lower upper step,
  stoi-to_string lower hl,
  stoi-to_string upper hu,
  stoi-to_string step hs,
)
