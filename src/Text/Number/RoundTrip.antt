-- ===== src/Text/Number/RoundTrip.antt =====
-- Printing an `int` and reading it back.
use mathlib.Core.WellFounded.{Acc}
use mathlib.Core.Logic.{dif_pos, dif_neg}
use native.Mathlib.Decide.{dec_lt}
use native.Mathlib.Bridge.{le_prop}
use linux_scheduler_comparis.Base.{
  ℕ, suc, ◌+◌, ◌/◌, ◌%◌, ◌≤◌, ◌<◌, ◌≡◌, refl, ap, ◌∙◌, true, false, some, [], ◌∷◌, arith, ◌≢◌, sym,
  ◌^◌, length, Lacks, Text,
}
use linux_scheduler_comparis.Base.Int.{ℤ, pos, negsuc, IsInt, fits_int_of_IsInt}
use linux_scheduler_comparis.Base.Outcome.{done}
use linux_scheduler_comparis.Text.Number.{
  is_digit, skip_spaces, read_digits, read_unsigned, read_signed, digits_onto, decimal, to_string,
  stoi, atoi, lt_wf, positive,
}

-- A text that begins with a digit.
abbrev StartsWithDigit : Text → Type 0
StartsWithDigit s = (c : ℕ) × (r : Text) × (s ≡ c ∷ r) × (is_digit c ≡ true)

digits_onto-StartsWithDigit :
    (n : ℕ) (w : Acc ◌<◌ n) (out : Text) → StartsWithDigit (digits_onto n w out)
unfolding digits_onto
digits_onto-StartsWithDigit n (Acc.intro _ smaller) out = elim (dec_lt 9 n) [
  | yes h ↦
      rw (dif_pos _ le_prop h)
        (digits_onto-StartsWithDigit (n / 10) (smaller (n / 10) (omega arith)) _)
  | no h ↦ rw (dif_neg _ h) (b'0' + n, out, refl, ground arith)
]

read_digits-digits_onto :
    (n : ℕ) (w : Acc ◌<◌ n) (out : Text) → read_digits (digits_onto n w out) 0 ≡ read_digits out n
unfolding digits_onto
read_digits-digits_onto n (Acc.intro _ smaller) out = elim (dec_lt 9 n) [
  | yes h ↦ rw (dif_pos _ le_prop h) (
      read_digits-digits_onto (n / 10) (smaller (n / 10) (omega arith)) _
      ∙ unfold read_digits in ground arith)
  | no h ↦ rw (dif_neg _ h) (unfold read_digits in ground arith)
]

read_digits-decimal : (n : ℕ) → read_digits (decimal n) 0 ≡ n
read_digits-decimal n =
    unfold decimal in read_digits-digits_onto n (lt_wf.apply n) [] ∙ unfold read_digits in refl

decimal-StartsWithDigit : (n : ℕ) → StartsWithDigit (decimal n)
decimal-StartsWithDigit n = unfold decimal in digits_onto-StartsWithDigit n (lt_wf.apply n) []

read_unsigned_of_digit : (s : Text) → StartsWithDigit s → read_unsigned s ≡ some (read_digits s 0)
read_unsigned_of_digit s (c, r, e, d) = rw e (unfold read_unsigned in ground arith)

read_signed_of_digit :
    (s : Text)
    → StartsWithDigit s
    → (skip_spaces s ≡ s) × (read_signed s ≡ positive (read_unsigned s))
read_signed_of_digit s (c, r, e, d) =
    rw e (unfold skip_spaces in ground arith, unfold read_signed in ground arith)

signed_of_digit :
    (s : Text)
    → StartsWithDigit s
    → (skip_spaces s ≡ s) × (read_signed s ≡ some (pos (read_digits s 0)))
signed_of_digit s d =
    let (skipped, signed) = read_signed_of_digit s d in
    (skipped, signed ∙ ap positive (read_unsigned_of_digit s d))

read_signed-to_string :
    (z : ℤ) → (skip_spaces (to_string z) ≡ to_string z) × (read_signed (to_string z) ≡ some z)
unfolding to_string
read_signed-to_string (pos n) =
    let (skipped, signed) = signed_of_digit (decimal n) (decimal-StartsWithDigit n) in
    (skipped, rw signed (rw read_digits-decimal))
read_signed-to_string (negsuc n) = (
  unfold skip_spaces in refl,
  unfold read_signed in
      rw (read_unsigned_of_digit _ (decimal-StartsWithDigit (suc n)), read_digits-decimal) refl,
)

-- Reading back a printed `int` gives it, by either function.
pub stoi-to_string : (z : ℤ) → IsInt z → stoi (to_string z) ≡ done z
unfolding stoi
stoi-to_string z h =
    let (skipped, signed) = read_signed-to_string z in rw (skipped, signed, fits_int_of_IsInt z h)

pub atoi-to_string : (z : ℤ) → IsInt z → atoi (to_string z) ≡ done z
unfolding atoi
atoi-to_string z h =
    let (skipped, signed) = read_signed-to_string z in rw (skipped, signed, fits_int_of_IsInt z h)

digits_onto-Lacks :
    (c n : ℕ) (w : Acc ◌<◌ n) (out : Text)
    → is_digit c ≡ false
    → Lacks c out
    → Lacks c (digits_onto n w out)
unfolding digits_onto
digits_onto-Lacks c n (Acc.intro _ smaller) out h l = elim (dec_lt 9 n) [
  | yes p ↦
      rw (dif_pos _ le_prop p)
        (digits_onto-Lacks c (n / 10) (smaller (n / 10) (omega arith)) _ h (ground arith, l))
  | no p ↦ rw (dif_neg _ p) (ground arith, l)
]

-- A printed `int` holds digits and a minus sign only.
pub to_string-Lacks : (c : ℕ) (z : ℤ) → is_digit c ≡ false → c ≢ b'-' → Lacks c (to_string z)
unfolding to_string decimal
to_string-Lacks c (pos n) h m = digits_onto-Lacks c n (lt_wf.apply n) [] h tt
to_string-Lacks c (negsuc n) h m =
    (λ e. m (sym e), digits_onto-Lacks c (suc n) (lt_wf.apply (suc n)) [] h tt)

length-digits_onto :
    (n : ℕ) (w : Acc ◌<◌ n) (out : Text) → length (digits_onto n w out) ≤ n + 1 + length out
unfolding digits_onto
length-digits_onto n (Acc.intro _ smaller) out = elim (dec_lt 9 n) [
  | yes p ↦
      let shorter =
        length-digits_onto (n / 10) (smaller (n / 10) (omega arith)) ((b'0' + n % 10) ∷ out) in
      rw (dif_pos _ le_prop p) (omega (arith, shorter))
  | no p ↦ rw (dif_neg _ p) (omega arith)
]

-- A crude bound on the length, which keeps every length far from 2 ^ 64.
pub length-to_string : (z : ℤ) → IsInt z → length (to_string z) ≤ 2 ^ 31 + 2
unfolding to_string decimal
length-to_string (pos n) h = omega (arith, length-digits_onto n (lt_wf.apply n) [])
length-to_string (negsuc n) h = omega (arith, length-digits_onto (suc n) (lt_wf.apply (suc n)) [])
