-- ===== src/Toy/Fib/Values.antt =====
-- What toy/fib.cpp computes and prints, against the Fibonacci numbers.
use native.Mathlib.Decide.{dec_le}
use linux_scheduler_comparis.Base.{
  ℕ, zero, suc, ◌+◌, ◌%◌, ◌^◌, ◌≤◌, ◌<◌, ◌≡◌, refl, ◌∙◌, ap, sym, Bool, true, false, [], ◌∷◌, ◌++◌,
  Text, arith,
}
use linux_scheduler_comparis.Base.Int.{ℤ, pos, negsuc, ◌+ℤ◌, eqb_ℤ_ne, leb_ℤ, IsInt}
use linux_scheduler_comparis.Base.Outcome.{done, spent}
use linux_scheduler_comparis.Text.Number.{to_string}
use linux_scheduler_comparis.Text.Number.RoundTrip.{atoi-to_string}
use linux_scheduler_comparis.Toy.Fib.{fib, add_u64, to_int64, computing, nth_is, pinned, main}

-- The Fibonacci numbers, with no bound.
pub fibonacci : ℕ → ℕ
fibonacci zero = 0
fibonacci (suc zero) = 1
fibonacci (suc (suc n)) = fibonacci (suc n) + fibonacci n

add_u64-mod : (a b : ℕ) → add_u64 (a % 2 ^ 64) (b % 2 ^ 64) ≡ (a + b) % 2 ^ 64
add_u64-mod a b = omega arith

-- `fib` of a positive number ends, if the fuel is at least that number, with the Fibonacci number
-- modulo 2 ^ 64.
pub fib-fibonacci :
    (n fuel : ℕ) → n < fuel → fib fuel (pos (suc n)) ≡ done (fibonacci (suc n) % 2 ^ 64)
unfolding fib fibonacci
fib-fibonacci n zero h = absurd (omega arith)
fib-fibonacci zero (suc fuel) h = refl
fib-fibonacci (suc zero) (suc fuel) h = refl
fib-fibonacci (suc (suc n)) (suc fuel) h =
    let one : pos (suc (suc (suc n))) +ℤ negsuc 0 ≡ pos (suc (suc n)) =
      unfold ◌+ℤ◌ in ground arith in
    let two : pos (suc (suc (suc n))) +ℤ negsuc 1 ≡ pos (suc n) = unfold ◌+ℤ◌ in ground arith in
    let big = pos (suc (suc (suc n))) in
    rw
      (
        one,
        two,
        eqb_ℤ_ne big (pos 1) (ground arith),
        eqb_ℤ_ne big (pos 2) (ground arith),
        fib-fibonacci (suc n) fuel (omega arith),
        fib-fibonacci n fuel (omega arith),
      )
      (ap done (add_u64-mod (fibonacci (suc (suc n))) (fibonacci (suc n))))

-- `fib` of a number below 1 does not end, whatever the fuel.
pub fib-spent : (fuel : ℕ) (n : ℤ) → leb_ℤ n (pos 0) ≡ true → fib fuel n ≡ spent
unfolding fib
fib-spent zero n h = refl
fib-spent (suc fuel) n h =
    let smaller : leb_ℤ (n +ℤ negsuc 0) (pos 0) ≡ true = unfold ◌+ℤ◌ in ground arith in
    ground (arith, fib-spent fuel (n +ℤ negsuc 0) smaller)

-- Two neighbours at once, to evaluate.
pair : ℕ → ℕ × ℕ
pair zero = (0, 1)
pair (suc n) = let (a, b) = pair n in (b, a + b)

pair-fibonacci : (n : ℕ) → pair n ≡ (fibonacci n, fibonacci (suc n))
unfolding pair fibonacci
pair-fibonacci zero = refl
pair-fibonacci (suc n) = ground (arith, pair-fibonacci n)

fibonacci-le-suc : (n : ℕ) → fibonacci n ≤ fibonacci (suc n)
unfolding fibonacci
fibonacci-le-suc zero = omega arith
fibonacci-le-suc (suc n) = omega arith

fibonacci_mono : (m n : ℕ) → n ≤ m → fibonacci n ≤ fibonacci m
fibonacci_mono zero n h = let e : n ≡ 0 = omega arith in rw e (omega arith)
fibonacci_mono (suc m) n h = elim (dec_le n m) [
  | yes below ↦ omega (arith, fibonacci_mono m n below, fibonacci-le-suc m)
  | no above ↦ let e : n ≡ suc m = omega arith in rw e (omega arith)
]

-- The largest Fibonacci number that an `int64_t` holds is that of 92.
fibonacci-92 : fibonacci 92 < 2 ^ 63
fibonacci-92 =
    let e : fibonacci 92 ≡ 7540113804746346429 =
      ap (λ (p : ℕ × ℕ). p.0) (sym (pair-fibonacci 92)) ∙ unfold pair in refl in
    omega (arith, e)

fibonacci-93 : fibonacci 93 ≡ 12200160415121876738
fibonacci-93 = ap (λ (p : ℕ × ℕ). p.0) (sym (pair-fibonacci 93)) ∙ unfold pair in refl

to_int64-small : (x : ℕ) → x < 2 ^ 63 → to_int64 (x % 2 ^ 64) ≡ pos x
to_int64-small x h = ground arith

-- With a number from 1 to 92 and a core that is not negative and to which the system pins the
-- process, and at least as much fuel as that number, `main` returns 0 and prints the true
-- Fibonacci number.
pub main-fibonacci :
    (set_affinity : ℤ → Bool) (fuel n : ℕ) (prog : Text) (core : ℤ)
    → n < 92
    → n < fuel
    → IsInt core
    → leb_ℤ (pos 0) core ≡ true
    → set_affinity core ≡ true
    → main set_affinity fuel (prog ∷ to_string (pos (suc n)) ∷ to_string core ∷ [])
      ≡ done (
        pos 0,
        (pinned core ∷ [])
            ++ (computing (pos (suc n)) ∷ nth_is (pos (suc n)) (pos (fibonacci (suc n))) ∷ []),
      )
unfolding main
main-fibonacci set_affinity fuel n prog core small enough h pinning ok =
    let value : fibonacci (suc n) < 2 ^ 63 =
      omega (arith, fibonacci_mono 92 (suc n) (omega arith), fibonacci-92) in
    rw
      (
        atoi-to_string (pos (suc n)) (omega arith),
        atoi-to_string core h,
        pinning,
        ok,
        fib-fibonacci n fuel enough,
        to_int64-small (fibonacci (suc n)) value,
      )
      (ground arith)

-- The same with a core below 0: it pins nothing.
pub main-fibonacci_unpinned :
    (set_affinity : ℤ → Bool) (fuel n : ℕ) (prog : Text) (core : ℤ)
    → n < 92
    → n < fuel
    → IsInt core
    → leb_ℤ (pos 0) core ≡ false
    → main set_affinity fuel (prog ∷ to_string (pos (suc n)) ∷ to_string core ∷ [])
      ≡ done (pos 0, computing (pos (suc n)) ∷ nth_is (pos (suc n)) (pos (fibonacci (suc n))) ∷ [])
unfolding main
main-fibonacci_unpinned set_affinity fuel n prog core small enough h unpinned =
    let value : fibonacci (suc n) < 2 ^ 63 =
      omega (arith, fibonacci_mono 92 (suc n) (omega arith), fibonacci-92) in
    rw
      (
        atoi-to_string (pos (suc n)) (omega arith),
        atoi-to_string core h,
        unpinned,
        fib-fibonacci n fuel enough,
        to_int64-small (fibonacci (suc n)) value,
      )
      (ground arith)
