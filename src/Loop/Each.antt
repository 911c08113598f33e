-- ===== src/Loop/Each.antt =====
-- The loops over an `int` against the list of its values.
use native.Mathlib.Nat.{div-eq-sub-div, div-eq_of_lt}
use linux_scheduler_comparis.Base.{
  ℕ, zero, suc, ◌+◌, ◌-◌, ◌/◌, ◌≤◌, ◌<◌, ◌≡◌, refl, sym, ◌∙◌, ap, true, false, List, [], ◌∷◌, arith,
  Bool-cases, inl, inr, if◌then◌else◌,
}
use linux_scheduler_comparis.Base.Int.{
  ℤ, pos, negsuc, pos_part, neg_part, ◌+ℤ◌, +ℤ_parts, ◌≤ℤ◌, leb_ℤ, ltb_ℤ, fits_int_of_IsInt, IsInt,
  int_max, int_laws,
}
use linux_scheduler_comparis.Base.Outcome.{Outcome, done, spent, ◌>>=◌, >>=-ext}
use linux_scheduler_comparis.Loop.{add_int, for_le, for_lt}

-- n, n + step, … : `count` values.
pub progression : ℕ → ℤ → ℤ → List ℤ
progression zero n step = []
progression (suc count) n step = n ∷ progression count (n +ℤ step) step

abbrev gap : ℤ → ℤ → ℕ
gap lower upper = pos_part upper + neg_part lower - (pos_part lower + neg_part upper)

-- How many values from `lower` to `upper` a positive step makes.
unfoldable pub steps : ℤ → ℤ → ℕ → ℕ
steps lower upper step = if leb_ℤ lower upper then suc (gap lower upper / step) else 0

-- The values of the two loops.
abbrev pub up_to : ℤ → ℤ → ℕ → List ℤ
up_to lower upper step = progression (steps lower upper step) lower (pos step)

abbrev pub below : ℤ → List ℤ
below limit = progression (pos_part limit) (pos 0) (pos 1)

add_int_lem : (a b : ℤ) → IsInt (a +ℤ b) → add_int a b ≡ done (a +ℤ b)
unfolding add_int
add_int_lem a b h = rw (fits_int_of_IsInt (a +ℤ b) h)

steps_stop : (n upper : ℤ) (step : ℕ) → leb_ℤ n upper ≡ false → steps n upper step ≡ 0
unfolding steps
steps_stop n upper step h = rw h

steps_more :
    (n upper : ℤ) (step : ℕ)
    → 0 < step
    → leb_ℤ n upper ≡ true
    → steps n upper step ≡ suc (steps (n +ℤ pos step) upper step)
unfolding steps
steps_more n upper step h more = elim (Bool-cases (leb_ℤ (n +ℤ pos step) upper)) [
  | inl again ↦
      let facts = +ℤ_parts n (pos step) in
      let far : step ≤ gap n upper = ground (arith, facts) in
      let less : gap (n +ℤ pos step) upper ≡ gap n upper - step = ground (arith, facts) in
      rw (more, again, less, div-eq-sub-div h far) (omega arith)
  | inr last ↦
      let facts = +ℤ_parts n (pos step) in
      let near : gap n upper < step = ground (arith, facts) in rw (more, last, div-eq_of_lt near)
]

module _ {ℓ} {W : Type ℓ} where
  -- The body for each value in turn.
  unfoldable pub each : (ℤ → W → Outcome W) → List ℤ → W → Outcome W
  each body [] w = done w
  each body (n ∷ ns) w = body n w >>= each body ns

  pub each_ext :
      (body body' : ℤ → W → Outcome W)
      → ((n : ℤ) (w : W) → body n w ≡ body' n w)
      → (ns : List ℤ) (w : W) → each body ns w ≡ each body' ns w
  unfolding each
  each_ext body body' h [] w = refl
  each_ext body body' h (n ∷ ns) w =
      ap (λ m. m >>= each body ns) (h n w) ∙ >>=-ext (body' n w) (each_ext body body' h ns)

  pub each_total :
      (body : ℤ → W → Outcome W)
      → ((n : ℤ) (w : W) → (w' : W) × (body n w ≡ done w'))
      → (ns : List ℤ) (w : W) → (w' : W) × (each body ns w ≡ done w')
  unfolding each
  each_total body total [] w = (w, refl)
  each_total body total (n ∷ ns) w =
      let (w1, ran) = total n w in let (w2, rest) = each_total body total ns w1 in (w2, rw ran rest)

module _ {ℓ} {W : Type ℓ} (body : ℤ → W → Outcome W) where
  each-progression :
      (count : ℕ) (n step : ℤ) (w : W)
      → each body (progression (suc count) n step) w
        ≡ (body n w >>= each body (progression count (n +ℤ step) step))
  unfolding each progression
  each-progression count n step w = refl

  for_lt_more :
      (fuel : ℕ) (n limit : ℤ) (w : W)
      → ltb_ℤ n limit ≡ true
      → for_lt body (suc fuel) n limit w
        ≡ (body n w >>= λ w'. add_int n (pos 1) >>= λ n'. for_lt body fuel n' limit w')
  unfolding for_lt
  for_lt_more fuel n limit w h = ground arith

  for_le_more :
      (fuel : ℕ) (n upper step : ℤ) (w : W)
      → leb_ℤ n upper ≡ true
      → for_le body (suc fuel) n upper step w
        ≡ (body n w >>= λ w'. add_int n step >>= λ n'. for_le body fuel n' upper step w')
  unfolding for_le
  for_le_more fuel n upper step w h = ground arith

  for_lt_lem :
      (fuel n count m : ℕ) (w : W)
      → n + count ≡ m
      → m ≤ int_max
      → count < fuel
      → for_lt body fuel (pos n) (pos m) w ≡ each body (progression count (pos n) (pos 1)) w
  unfolding progression each
  for_lt_lem zero n count m w e h f = absurd (omega arith)
  for_lt_lem (suc fuel) n zero m w e h f = unfold for_lt in ground arith
  for_lt_lem (suc fuel) n (suc count) m w e h f =
      let more : ltb_ℤ (pos n) (pos m) ≡ true = ground arith in
      let next : pos n +ℤ pos 1 ≡ pos (n + 1) = unfold ◌+ℤ◌ in ground arith in
      let fine : add_int (pos n) (pos 1) ≡ done (pos (n + 1)) =
        add_int_lem (pos n) (pos 1) (rw next (omega arith)) ∙ ap done next in
      rw (for_lt_more fuel (pos n) (pos m) w more, fine, next)
        (>>=-ext (body (pos n) w)
          λ w'. for_lt_lem fuel (n + 1) count m w' (omega arith) h (omega arith))

  -- From 0, the body runs for each number below the limit, never if that is not positive.
  pub for_lt-each :
      (limit : ℤ) (w : W)
      → IsInt limit
      → for_lt body (pos_part limit + 1) (pos 0) limit w ≡ each body (below limit) w
  for_lt-each (pos m) w h = for_lt_lem (m + 1) 0 m m w (omega arith) (omega arith) (omega arith)
  for_lt-each (negsuc m) w h = unfold for_lt progression each in ground arith

  -- With a positive step and no overflow, the body runs for each value up to the bound.
  pub for_le-each :
      (fuel : ℕ) (lower upper : ℤ) (step : ℕ) (w : W)
      → 0 < step
      → IsInt lower
      → upper +ℤ pos step ≤ℤ pos int_max
      → steps lower upper step < fuel
      → for_le body fuel lower upper (pos step) w ≡ each body (up_to lower upper step) w
  for_le-each zero lower upper step w h hl hu f = absurd (omega arith)
  for_le-each (suc fuel) lower upper step w h hl hu f = elim (Bool-cases (leb_ℤ lower upper)) [
    | inl more ↦
        let facts = +ℤ_parts lower (pos step) in
        let bound = +ℤ_parts upper (pos step) in
        let one_less = steps_more lower upper step h more in
        let inside : IsInt (lower +ℤ pos step) = ground (arith, facts, bound) in
        let next = lower +ℤ pos step in
        let rest =
          λ (w' : W). for_le-each fuel next upper step w' h inside hu (omega (arith, one_less)) in
        rw
          (
            for_le_more fuel lower upper (pos step) w more,
            add_int_lem lower (pos step) inside,
            one_less,
          )
          (>>=-ext (body lower w) rest
            ∙ sym (each-progression (steps next upper step) lower (pos step) w))
    | inr stop ↦
        rw (steps_stop lower upper step stop) (unfold for_le progression each in ground arith)
  ]

  -- With a step of 0 no amount of fuel is enough.
  pub for_le-zero :
      ((n : ℤ) (w : W) → (w' : W) × (body n w ≡ done w'))
      → (fuel : ℕ) (lower upper : ℤ) (w : W) → IsInt lower
      → lower ≤ℤ upper
      → for_le body fuel lower upper (pos 0) w ≡ spent
  for_le-zero total zero lower upper w hl hu = unfold for_le in refl
  for_le-zero total (suc fuel) lower upper w hl hu =
      let more : leb_ℤ lower upper ≡ true = ground arith in
      let same : lower +ℤ pos 0 ≡ lower = omega int_laws in
      let fine : add_int lower (pos 0) ≡ done lower =
        add_int_lem lower (pos 0) (rw same hl) ∙ ap done same in
      let (w', ran) = total lower w in
      rw (for_le_more fuel lower upper (pos 0) w more, fine, ran)
        (for_le-zero total fuel lower upper w' hl hu)
