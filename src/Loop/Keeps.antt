-- ===== src/Loop/Keeps.antt =====
-- What each round of a loop keeps, a loop that ends has kept.
use linux_scheduler_comparis.Base.{
  ℕ, zero, suc, ◌≡◌, subst, Bool-cases, inl, inr, arith, true, false,
}
use linux_scheduler_comparis.Base.Int.{ℤ, pos, leb_ℤ, ltb_ℤ}
use linux_scheduler_comparis.Base.Outcome.{Outcome, done, ◌>>=◌, >>=-eq-done}
use linux_scheduler_comparis.Loop.{add_int, for_le, for_lt}

module _ {ℓ κ} {W : Type ℓ} (P : W → Type κ) (body : ℤ → W → Outcome W)
    (keep : (n : ℤ) (w w' : W) → body n w ≡ done w' → P w → P w') where
  for_le_stop :
      (fuel : ℕ) (n upper step : ℤ) (w : W) {w' : W}
      → leb_ℤ n upper ≡ false
      → for_le body (suc fuel) n upper step w ≡ done w'
      → w ≡ w'
  unfolding for_le
  for_le_stop fuel n upper step w h ran = ground arith

  for_le_more :
      (fuel : ℕ) (n upper step : ℤ) (w : W) {w' : W}
      → leb_ℤ n upper ≡ true
      → for_le body (suc fuel) n upper step w ≡ done w'
      → (body n w >>= λ w1. add_int n step >>= λ n'. for_le body fuel n' upper step w1) ≡ done w'
  unfolding for_le
  for_le_more fuel n upper step w h ran = ground arith

  pub for_le-keeps :
      (fuel : ℕ) (n upper step : ℤ) (w w' : W)
      → for_le body fuel n upper step w ≡ done w'
      → P w
      → P w'
  for_le-keeps zero n upper step w w' h p = unfold for_le in cc
  for_le-keeps (suc fuel) n upper step w w' h p = elim (Bool-cases (leb_ℤ n upper)) [
    | inl more ↦
        let (w1, ran, rest) = >>=-eq-done (body n w) _ (for_le_more fuel n upper step w more h) in
        let (n', added, last) = >>=-eq-done (add_int n step) _ rest in
        for_le-keeps fuel n' upper step w1 w' last (keep n w w1 ran p)
    | inr stop ↦ subst P (for_le_stop fuel n upper step w stop h) p
  ]

  for_lt_stop :
      (fuel : ℕ) (n limit : ℤ) (w : W) {w' : W}
      → ltb_ℤ n limit ≡ false
      → for_lt body (suc fuel) n limit w ≡ done w'
      → w ≡ w'
  unfolding for_lt
  for_lt_stop fuel n limit w h ran = ground arith

  for_lt_more :
      (fuel : ℕ) (n limit : ℤ) (w : W) {w' : W}
      → ltb_ℤ n limit ≡ true
      → for_lt body (suc fuel) n limit w ≡ done w'
      → (body n w >>= λ w1. add_int n (pos 1) >>= λ n'. for_lt body fuel n' limit w1) ≡ done w'
  unfolding for_lt
  for_lt_more fuel n limit w h ran = ground arith

  pub for_lt-keeps :
      (fuel : ℕ) (n limit : ℤ) (w w' : W) → for_lt body fuel n limit w ≡ done w' → P w → P w'
  for_lt-keeps zero n limit w w' h p = unfold for_lt in cc
  for_lt-keeps (suc fuel) n limit w w' h p = elim (Bool-cases (ltb_ℤ n limit)) [
    | inl more ↦
        let (w1, ran, rest) = >>=-eq-done (body n w) _ (for_lt_more fuel n limit w more h) in
        let (n', added, last) = >>=-eq-done (add_int n (pos 1)) _ rest in
        for_lt-keeps fuel n' limit w1 w' last (keep n w w1 ran p)
    | inr stop ↦ subst P (for_lt_stop fuel n limit w stop h) p
  ]
