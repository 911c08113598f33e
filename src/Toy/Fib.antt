-- ===== src/Toy/Fib.antt =====
-- toy/fib.cpp: `fib`, and the part of `main` up to the printed number. `sched_setaffinity` is a
-- parameter; the clock and the measured time are left out.
pub mod Values
use linux_scheduler_comparis.Base.{
  ℕ, zero, suc, ◌+◌, ◌-◌, ◌%◌, ◌^◌, Bool, true, false, List, [], ◌∷◌, ◌++◌, Text, ltb, ◌==◌,
  if◌then◌else◌,
}
use linux_scheduler_comparis.Base.Int.{ℤ, pos, negsuc, minus_one, ◌+ℤ◌, eqb_ℤ, leb_ℤ}
use linux_scheduler_comparis.Base.Outcome.{Outcome, done, spent, ◌>>=◌}
use linux_scheduler_comparis.Text.Number.{atoi}

-- `std::uint64_t` addition.
abbrev pub add_u64 : ℕ → ℕ → ℕ
add_u64 a b = (a + b) % 2 ^ 64

-- `fib`; the fuel bounds the depth of the calls.
pub fib : ℕ → ℤ → Outcome ℕ
fib zero n = spent
fib (suc fuel) n =
    let calls =
      fib fuel (n +ℤ negsuc 0) >>= λ a. fib fuel (n +ℤ negsuc 1) >>= λ b. done (add_u64 a b) in
    if eqb_ℤ n (pos 1) then done 1 else if eqb_ℤ n (pos 2) then done 1 else calls

-- `int64_t fib_num = fib(n);`
abbrev pub to_int64 : ℕ → ℤ
to_int64 x = if ltb x (2 ^ 63) then pos x else negsuc (2 ^ 64 - x - 1)

pub data Message : Type 0 where
  expected_arguments : Message
  must_be_at_least_1 : ℤ → Message
  failed_to_pin : ℤ → Message
  pinned : ℤ → Message
  computing : ℤ → Message
  nth_is : ℤ → ℤ → Message

-- `main` ends with a status, and has printed some messages.
abbrev pub Ended : Type 0
Ended = ℤ × List Message

compute : ℕ → ℤ → List Message → Outcome Ended
compute fuel n log = do
  fib_num ← fib fuel n
  done (pos 0, log ++ (computing n ∷ nth_is n (to_int64 fib_num) ∷ []))

with_core : (ℤ → Bool) → ℕ → ℤ → ℤ → Outcome Ended
with_core set_affinity fuel n core_to_pin =
    if leb_ℤ (pos 0) core_to_pin
    then (if set_affinity core_to_pin
        then compute fuel n (pinned core_to_pin ∷ [])
        else done (minus_one, failed_to_pin core_to_pin ∷ []))
    else compute fuel n []

unfoldable pub main : (ℤ → Bool) → ℕ → List Text → Outcome Ended
unfolding compute with_core
main set_affinity fuel (prog ∷ nth ∷ core ∷ []) = do
  n ← atoi nth
  if leb_ℤ n (pos 0)
      then done (minus_one, must_be_at_least_1 n ∷ [])
      else do core_to_pin ← atoi core; with_core set_affinity fuel n core_to_pin
main set_affinity fuel _ = done (minus_one, expected_arguments ∷ [])
