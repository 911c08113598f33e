-- ===== src/Text/Number.antt =====
-- `std::stoi`, `atoi` and `std::to_string(int)`.
pub mod RoundTrip
use mathlib.Core.WellFounded.{Acc, WellFounded}
use mathlib.Core.Logic.{dite}
use native.Mathlib.Decide.{dec_lt}
use linux_scheduler_comparis.Base.{
  ℕ, zero, suc, ◌+◌, ◌-◌, ◌*◌, ◌/◌, ◌%◌, ◌≤◌, ◌<◌, ◌≡◌, refl, Bool, true, false, ◌&&◌, ◌||◌, Option,
  none, some, List, [], ◌∷◌, ◌++◌, arith, Text, codes, leb, ltb, ◌==◌, if◌then◌else◌,
}
use linux_scheduler_comparis.Base.Int.{ℤ, pos, negsuc, fits_int}
use linux_scheduler_comparis.Base.Outcome.{
  Outcome, done, throws, undefined, invalid_argument, out_of_range,
}

abbrev pub is_digit : ℕ → Bool
is_digit c = leb b'0' c && leb c b'9'

-- `isspace` of the C locale.
abbrev pub is_space : ℕ → Bool
is_space c = c == 32 || (leb 9 c && leb c 13)

pub skip_spaces : Text → Text
skip_spaces [] = []
skip_spaces (c ∷ s) = let rest = skip_spaces s in if is_space c then rest else c ∷ s

-- The value of the digits at the front, behind the digits that spell `n`.
pub read_digits : Text → ℕ → ℕ
read_digits [] n = n
read_digits (c ∷ s) n = if is_digit c then read_digits s (n * 10 + (c - b'0')) else n

-- The digits of an optional number: `none` if there is no digit.
pub read_unsigned : Text → Option ℕ
unfolding read_digits
read_unsigned [] = none
read_unsigned (c ∷ s) = if is_digit c then some (read_digits (c ∷ s) 0) else none

abbrev pub negate : ℕ → ℤ
negate zero = pos 0
negate (suc n) = negsuc n

abbrev pub negative : Option ℕ → Option ℤ
negative none = none
negative (some n) = some (negate n)

abbrev pub positive : Option ℕ → Option ℤ
positive none = none
positive (some n) = some (pos n)

pub read_signed : Text → Option ℤ
unfolding read_unsigned
read_signed [] = none
read_signed (c ∷ s) =
    if c == b'-'
    then negative (read_unsigned s)
    else if c == b'+'
    then positive (read_unsigned s)
    else positive (read_unsigned (c ∷ s))

-- `std::stoi(s)`: what follows the number is ignored.
abbrev stoi_of : Option ℤ → Outcome ℤ
stoi_of none = throws invalid_argument
stoi_of (some z) = if fits_int z then done z else throws out_of_range

unfoldable pub stoi : Text → Outcome ℤ
unfolding read_signed skip_spaces
stoi s = stoi_of (read_signed (skip_spaces s))

-- `atoi(s)`: 0 without a number; a value that is no `int` is undefined behaviour.
abbrev atoi_of : Option ℤ → Outcome ℤ
atoi_of none = done (pos 0)
atoi_of (some z) = if fits_int z then done z else undefined

unfoldable pub atoi : Text → Outcome ℤ
unfolding read_signed skip_spaces
atoi s = atoi_of (read_signed (skip_spaces s))

pub acc_below : (k n : ℕ) → n < k → Acc ◌<◌ n
acc_below zero n h = absurd (omega arith)
acc_below (suc k) n h = Acc.intro n λ m lt. acc_below k m (omega arith)

pub lt_wf : WellFounded ◌<◌
unfolding acc_below
lt_wf = record { apply = λ n. acc_below (suc n) n (omega arith) }

-- The digits of `n` in front of `out`; at least one digit is written.
pub digits_onto : (n : ℕ) → Acc ◌<◌ n → Text → Text
digits_onto n (Acc.intro _ smaller) out =
    dite (dec_lt 9 n)
      (λ h. digits_onto (n / 10) (smaller (n / 10) (omega arith)) ((b'0' + n % 10) ∷ out))
      (λ _. (b'0' + n) ∷ out)

unfoldable pub decimal : ℕ → Text
unfolding digits_onto lt_wf dec_lt
decimal n = digits_onto n (lt_wf.apply n) []

-- `std::to_string(int)`.
unfoldable pub to_string : ℤ → Text
to_string (pos n) = decimal n
to_string (negsuc n) = b'-' ∷ decimal (suc n)

to_string_runs : to_string (negsuc 119) ≡ codes "-120"
unfolding to_string decimal
to_string_runs = refl

stoi_runs : stoi (codes " +42abc") ≡ done (pos 42)
unfolding stoi
stoi_runs = refl
