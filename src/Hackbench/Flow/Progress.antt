-- ===== src/Hackbench/Flow/Progress.antt =====
-- A group of hackbench/hackbench.c does not get stuck, and at its end all packets have arrived.
use linux_scheduler_comparis.Base.{
  ℕ, ◌+◌, ◌-◌, ◌*◌, ◌≤◌, ◌<◌, ◌≡◌, ◌⊎◌, inl, inr, refl, ap, arith, ◌==◌, ltb, Bool-cases,
}
use linux_scheduler_comparis.Hackbench.Flow.{
  SenderAt, World, num_packets, Sized, Step, Reach, start,
}
use linux_scheduler_comparis.Hackbench.Flow.Sum.{sum-const, sum-const_le, search_all}
use linux_scheduler_comparis.Hackbench.Flow.Inv.{wrote, took, SenderFits, Inv, Reach-Inv}

module _ (num_fds loops datasize capacity : ℕ) where
  -- Every process is through, and every pipe is empty.
  abbrev pub Delivered : World → Type 0
  Delivered w =
      (k : ℕ)
      → k < num_fds
      → ((w.senders k).i ≡ loops) × ((w.receivers k).i ≡ num_fds * loops) × (w.pipes k ≡ 0)

  wrote_all :
      (s : SenderAt) (fd : ℕ)
      → SenderFits num_fds loops datasize capacity s
      → s.i ≡ loops
      → wrote num_fds loops datasize capacity s fd ≡ loops * datasize
  unfolding wrote
  wrote_all s fd (early, j_fits, small, round, ended) same = ground (arith, ended same)

  wrote_le :
      (s : SenderAt) (fd : ℕ)
      → SenderFits num_fds loops datasize capacity s
      → wrote num_fds loops datasize capacity s fd ≤ loops * datasize
  unfolding wrote
  wrote_le s fd (early, j_fits, small, round, ended) = elim (Bool-cases (ltb s.i loops)) [
    | inl more ↦
        let rest : loops ≡ s.i + 1 + (loops - s.i - 1) = ground arith in
        let product = ap (λ (t : ℕ). t * datasize) rest in ground (arith, product)
    | inr last ↦ let same : s.i ≡ loops = ground arith in ground (arith, ended same)
  ]

  -- A receiver that is not through and has bytes in its pipe goes on.
  receiver_goes_on :
      (w : World) (k : ℕ)
      → Sized num_fds loops datasize
      → k < num_fds
      → Inv num_fds loops datasize capacity w
      → (w.receivers k).i < num_packets num_fds loops
      → ((w.receivers k).moved ≡ datasize) ⊎ (0 < w.pipes k)
      → (v : World) × Step num_fds loops datasize capacity w v
  receiver_goes_on w k sized low I more (inl full) = (_, Step.next_packet k low more full refl)
  receiver_goes_on w k sized low I more (inr bytes) =
      let (early, small, ended) = I.receivers_fit k in
      elim (Bool-cases ((w.receivers k).moved == datasize)) [
        | inl full ↦ (_, Step.next_packet k low more (ground arith) refl)
        | inr part ↦ (
          _,
          Step.read k 1 low more (omega arith) (ground arith) (ground (arith, sized)) (omega arith)
              refl,
        )
      ]

  -- With bytes in its pipe, a receiver is not through.
  receiver_waits :
      (w : World) (k : ℕ)
      → k < num_fds
      → Inv num_fds loops datasize capacity w
      → 0 < w.pipes k
      → (w.receivers k).i < num_packets num_fds loops
  receiver_waits w k low I bytes =
      let (early, small, ended) = I.receivers_fit k in
      let all =
        sum-const_le num_fds (loops * datasize)
          (λ m. wrote num_fds loops datasize capacity (w.senders m) k)
          (λ m l. wrote_le (w.senders m) k (I.senders_fit m)) in
      elim (Bool-cases (ltb (w.receivers k).i (num_fds * loops))) [
        | inl more ↦ ground arith
        | inr last ↦
            let same : (w.receivers k).i ≡ num_fds * loops = ground arith in
            let product = ap (λ (t : ℕ). t * datasize) same in
            absurd (omega (arith, all, I.balance k low, product))
      ]

  -- A sender that is not through goes on, or the receiver of its full pipe does.
  sender_goes_on :
      (w : World) (k : ℕ)
      → Sized num_fds loops datasize
      → 0 < capacity
      → k < num_fds
      → Inv num_fds loops datasize capacity w
      → (w.senders k).i < loops
      → (v : World) × Step num_fds loops datasize capacity w v
  sender_goes_on w k sized room low I more =
      let s = w.senders k in
      let (early, j_fits, small, round, ended) = I.senders_fit k in
      elim (Bool-cases (s.j == num_fds)) [
        | inl round_over ↦ (_, Step.next_loop k low more (ground arith) refl)
        | inr in_round ↦ elim (Bool-cases (s.moved == datasize)) [
          | inl full ↦ (_, Step.next_fd k low more (ground arith) (ground arith) refl)
          | inr part ↦ elim (Bool-cases (ltb (w.pipes s.j) capacity)) [
            | inl fits ↦ (
              _,
              Step.write k 1 low more (ground arith) (omega arith) (ground arith)
                  (ground (arith, sized)) (ground arith) refl,
            )
            | inr full_pipe ↦
                let there : s.j < num_fds = ground arith in
                let bytes : 0 < w.pipes s.j = ground arith in
                receiver_goes_on w s.j sized there I (receiver_waits w s.j there I bytes)
                  (inr bytes)
          ]
        ]
      ]

  module _ (w : World) (sized : Sized num_fds loops datasize)
      (I : Inv num_fds loops datasize capacity w)
      (through : (k : ℕ) → k < num_fds → (w.senders k).i ≡ loops) where
    all_wrote :
        (fd : ℕ)
        → fd < num_fds
        → num_fds * (loops * datasize)
          ≡ w.pipes fd + took num_fds loops datasize capacity (w.receivers fd)
    all_wrote fd low =
        let each =
          sum-const num_fds (loops * datasize)
            (λ m. wrote num_fds loops datasize capacity (w.senders m) fd)
            (λ m l. wrote_all (w.senders m) fd (I.senders_fit m) (through m l)) in
        omega (arith, each, I.balance fd low)

    -- A receiver that is not through.
    last_receiver :
        (k : ℕ)
        → k < num_fds
        → (w.receivers k).i < num_packets num_fds loops
        → (v : World) × Step num_fds loops datasize capacity w v
    last_receiver k low more =
        let (early, small, ended) = I.receivers_fit k in
        let rest : num_fds * loops
            ≡ (w.receivers k).i + 1 + (num_fds * loops - (w.receivers k).i - 1) =
          omega arith in
        let product = ap (λ (t : ℕ). t * datasize) rest in
        elim (Bool-cases ((w.receivers k).moved == datasize)) [
          | inl full ↦ receiver_goes_on w k sized low I more (inl (ground arith))
          | inr part ↦
              let short : (w.receivers k).moved < datasize = ground arith in
              receiver_goes_on w k sized low I more
                (inr (omega (arith, product, all_wrote k low, short)))
        ]

    emptied : (k : ℕ) → k < num_fds → (w.receivers k).i ≡ num_packets num_fds loops → w.pipes k ≡ 0
    emptied k low e =
        let (early, small, ended) = I.receivers_fit k in
        let product = ap (λ (t : ℕ). t * datasize) e in
        omega (arith, product, all_wrote k low, ended e)

  -- With packets and pipes that are not empty, however few bytes a pipe holds and a call moves,
  -- and in whatever order the senders and receivers of a group run: in every state that they
  -- reach, some process can take a step, or all senders and receivers are through, each receiver
  -- with `num_fds * loops` packets, and all pipes are empty.
  pub goes_on :
      {w : World}
      → Sized num_fds loops datasize
      → 0 < capacity
      → Reach num_fds loops datasize capacity start w
      → Delivered w ⊎ ((v : World) × Step num_fds loops datasize capacity w v)
  goes_on {w} sized room r =
      let I = Reach-Inv num_fds loops datasize capacity sized r in
      elim (search_all num_fds (λ k. (w.senders k).i == loops)) [
        | inl (k, low, other) ↦
            let (early, j_fits, small, round, ended) = I.senders_fit k in
            inr (sender_goes_on w k sized room low I (ground arith))
        | inr senders ↦
            let through : (k : ℕ) → k < num_fds → (w.senders k).i ≡ loops =
              λ k low. let same = senders k low in ground arith in
            elim (search_all num_fds (λ k. (w.receivers k).i == num_fds * loops)) [
              | inl (k, low, other) ↦
                  let (early, small, ended) = I.receivers_fit k in
                  inr (last_receiver w sized I through k low (ground arith))
              | inr receivers ↦ inl (λ k low.
                  let same = receivers k low in
                  let all : (w.receivers k).i ≡ num_fds * loops = ground arith in
                  (through k low, all, emptied w sized I through k low all))
            ]
      ]
