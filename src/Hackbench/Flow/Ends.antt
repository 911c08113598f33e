-- ===== src/Hackbench/Flow/Ends.antt =====
-- A group of hackbench/hackbench.c takes finitely many steps.
use linux_scheduler_comparis.Base.{
  ℕ, ◌+◌, ◌-◌, ◌*◌, ◌%◌, ◌^◌, ◌≤◌, ◌<◌, ◌≡◌, ◌⊎◌, ap, arith, ◌==◌, ltb, Bool-cases, inl, inr,
}
use linux_scheduler_comparis.Base.Int.{int_max}
use linux_scheduler_comparis.Hackbench.Flow.{
  SenderAt, ReceiverAt, World, update, Sized, Step, Reach, here, next, start,
}
use linux_scheduler_comparis.Hackbench.Flow.Sum.{sum, sum-change, sum-const_le}
use linux_scheduler_comparis.Hackbench.Flow.Progress.{Delivered, goes_on}
use linux_scheduler_comparis.Hackbench.Flow.Inv.{SenderFits, ReceiverFits, Inv, Reach-Inv}

module _ (num_fds loops datasize capacity : ℕ) where
  -- The steps of one round of a sender over its descriptors, at most.
  abbrev pub round : ℕ
  round = num_fds * (datasize + 1) + 1

  -- How far a process has come.
  sender_at : SenderAt → ℕ
  sender_at s = s.i * round + (s.j * (datasize + 1) + s.moved)

  receiver_at : ReceiverAt → ℕ
  receiver_at r = r.i * (datasize + 1) + r.moved

  at_world : World → ℕ
  at_world w =
      sum num_fds (λ k. sender_at (w.senders k)) + sum num_fds (λ k. receiver_at (w.receivers k))

  -- One process comes further.
  sum_further {ℓ} :
      {A : Type ℓ} (at : A → ℕ) (f : ℕ → A) (k d : ℕ) (a : A)
      → k < num_fds
      → at a ≡ at (f k) + d
      → sum num_fds (λ m. at (update f k a m)) ≡ sum num_fds (λ m. at (f m)) + d
  sum_further at f k d a low e =
      sum-change num_fds k d (λ m. at (f m)) (λ m. at (update f k a m)) low
        (λ m. elim (Bool-cases (m == k)) [
          | inl at_k ↦ let same : m ≡ k = ground arith in rw (at_k, same) e
          | inr other ↦ rw other (omega arith)
        ])

  -- The number of steps of a run.
  pub steps_of : {w : World} → Reach num_fds loops datasize capacity start w → ℕ
  steps_of here = 0
  steps_of (next r s) = steps_of r + 1

  Step-at_world :
      {w v : World}
      → Sized num_fds loops datasize
      → Inv num_fds loops datasize capacity w
      → Step num_fds loops datasize capacity w v
      → at_world w + 1 ≤ at_world v
  unfolding at_world sender_at receiver_at
  Step-at_world {w} sized I (Step.write k n low l m p h int room e) =
      let s = w.senders k in
      rw e (
        omega (
          arith,
          sum_further sender_at w.senders k n (record s { moved = s.moved + n }) low (omega arith),
          p,
        ))
  Step-at_world {w} sized I (Step.next_fd k low l m h e) =
      let s = w.senders k in
      rw e (
        omega (
          arith,
          sum_further sender_at w.senders k 1 (record s { j = s.j + 1; moved = 0 }) low
              (omega (arith, h)),
        ))
  Step-at_world {w} sized I (Step.next_loop k low l m e) =
      let s = w.senders k in
      let (early, j_fits, small, over, ended) = I.senders_fit k in
      let product = ap (λ (t : ℕ). t * (datasize + 1)) m in
      rw e (
        omega (
          arith,
          sum_further sender_at w.senders k 1 (record { i = s.i + 1; j = 0; moved = 0 }) low
              (omega (arith, product, over m)),
        ))
  Step-at_world {w} sized I (Step.read k n low l p h int room e) =
      let r = w.receivers k in
      rw e (
        omega (
          arith,
          sum_further receiver_at w.receivers k n (record r { moved = r.moved + n }) low
              (omega arith),
          p,
        ))
  Step-at_world {w} sized I (Step.next_packet k low l h e) =
      let r = w.receivers k in
      let whole : (r.i + 1) % 2 ^ 32 ≡ r.i + 1 = omega arith in
      rw (e, whole)
        (omega (
          arith,
          sum_further receiver_at w.receivers k 1 (record { i = r.i + 1; moved = 0 }) low
              (omega (arith, h)),
        ))

  in_round :
      (s : SenderAt)
      → SenderFits num_fds loops datasize capacity s
      → s.j * (datasize + 1) + s.moved ≤ num_fds * (datasize + 1)
  in_round s (early, j_fits, small, over, ended) = elim (Bool-cases (ltb s.j num_fds)) [
    | inl more ↦
        let rest : num_fds ≡ s.j + 1 + (num_fds - s.j - 1) = ground arith in
        let product = ap (λ (t : ℕ). t * (datasize + 1)) rest in omega (arith, product, small)
    | inr last ↦
        let same : s.j ≡ num_fds = ground arith in
        let product = ap (λ (t : ℕ). t * (datasize + 1)) same in omega (arith, product, over same)
  ]

  sender_at_le :
      (s : SenderAt) → SenderFits num_fds loops datasize capacity s → sender_at s ≤ loops * round
  unfolding sender_at
  sender_at_le s fits =
      let (early, j_fits, small, over, ended) = fits in
      elim (Bool-cases (ltb s.i loops)) [
        | inl more ↦
            let rest : loops ≡ s.i + 1 + (loops - s.i - 1) = ground arith in
            let product = ap (λ (t : ℕ). t * round) rest in omega (arith, product, in_round s fits)
        | inr last ↦
            let same : s.i ≡ loops = ground arith in
            let (first, none_moved) = ended same in
            let product = ap (λ (t : ℕ). t * round) same in
            let none_j = ap (λ (t : ℕ). t * (datasize + 1)) first in
            omega (arith, product, none_j, none_moved)
      ]

  receiver_at_le :
      (r : ReceiverAt)
      → ReceiverFits num_fds loops datasize capacity r
      → receiver_at r ≤ num_fds * loops * (datasize + 1)
  unfolding receiver_at
  receiver_at_le r (early, small, ended) = elim (Bool-cases (ltb r.i (num_fds * loops))) [
    | inl more ↦
        let rest : num_fds * loops ≡ r.i + 1 + (num_fds * loops - r.i - 1) = ground arith in
        let product = ap (λ (t : ℕ). t * (datasize + 1)) rest in omega (arith, product, small)
    | inr last ↦
        let same : r.i ≡ num_fds * loops = ground arith in
        let product = ap (λ (t : ℕ). t * (datasize + 1)) same in omega (arith, product, ended same)
  ]

  counted :
      {w : World}
      → Sized num_fds loops datasize
      → (r : Reach num_fds loops datasize capacity start w) → steps_of r ≤ at_world w
  unfolding steps_of
  counted positive here = omega arith
  counted positive (next r s) = omega (
    arith,
    counted positive r,
    Step-at_world positive (Reach-Inv num_fds loops datasize capacity positive r) s,
  )

  -- Every run is finite.
  steps_of-bound :
      {w : World}
      → Sized num_fds loops datasize
      → (r : Reach num_fds loops datasize capacity start w)
      → steps_of r ≤ num_fds * (loops * round) + num_fds * (num_fds * loops * (datasize + 1))
  unfolding at_world
  steps_of-bound {w} positive r =
      let I = Reach-Inv num_fds loops datasize capacity positive r in
      omega (
        arith,
        counted positive r,
        sum-const_le num_fds (loops * round) (λ k. sender_at (w.senders k))
            (λ k l. sender_at_le (w.senders k) (I.senders_fit k)),
        sum-const_le num_fds (num_fds * loops * (datasize + 1)) (λ k. receiver_at (w.receivers k))
            (λ k l. receiver_at_le (w.receivers k) (I.receivers_fit k)),
      )

  -- With packets and pipes that are not empty, a packet size that fits `int` and fewer than 2 ^ 32
  -- packets for a receiver, however few bytes a pipe holds and a call moves, and in whatever order
  -- the senders and receivers of a group run: every run has a bounded number of steps, and in
  -- every state that is reached some process can take a step, or all senders and receivers are
  -- through, each receiver with `num_fds * loops` packets, and all pipes are empty.
  pub Reach-Delivered :
      {w : World}
      → 0 < datasize
      → datasize ≤ int_max
      → num_fds * loops < 2 ^ 32
      → 0 < capacity
      → (r : Reach num_fds loops datasize capacity start w)
      → (steps_of r ≤ num_fds * (loops * round) + num_fds * (num_fds * loops * (datasize + 1)))
        × (Delivered num_fds loops datasize capacity w
            ⊎ ((v : World) × Step num_fds loops datasize capacity w v))
  Reach-Delivered positive int few room r =
      let sized : Sized num_fds loops datasize = (positive, int, few) in
      (steps_of-bound sized r, goes_on num_fds loops datasize capacity sized room r)
