-- ===== src/Hackbench/Flow/Inv.antt =====
-- Every byte of a group of hackbench/hackbench.c that was written is in its pipe or was read.
use linux_scheduler_comparis.Base.{
  ℕ, ◌+◌, ◌-◌, ◌*◌, ◌%◌, ◌^◌, ◌≤◌, ◌<◌, ◌≡◌, refl, ◌∙◌, arith, ◌==◌, ltb, if◌then◌else◌, Bool-cases,
  inl, inr,
}
use linux_scheduler_comparis.Hackbench.Flow.{
  SenderAt, ReceiverAt, World, update, num_packets, Sized, Step, Reach, here, next, start,
}
use linux_scheduler_comparis.Hackbench.Flow.Sum.{sum, sum-change, sum-const}

-- What each value of a function has, an updated function has.
update_all {ℓ κ} :
    {A : Type ℓ} (P : A → Type κ) (f : ℕ → A) (k : ℕ) (a : A)
    → ((m : ℕ) → P (f m))
    → P a
    → (m : ℕ) → P (update f k a m)
update_all P f k a h p m = elim (Bool-cases (m == k)) [
  | inl same ↦ rw same p
  | inr other ↦ rw other (h m)
]

module _ (num_fds loops datasize capacity : ℕ) where
  -- The bytes that a sender has written to a pipe.
  unfoldable pub wrote : SenderAt → ℕ → ℕ
  wrote s fd = s.i * datasize + (if ltb fd s.j then datasize else if fd == s.j then s.moved else 0)

  abbrev pub took : ReceiverAt → ℕ
  took r = r.i * datasize + r.moved

  abbrev pub SenderFits : SenderAt → Type 0
  SenderFits s =
      (s.i ≤ loops)
      × (s.j ≤ num_fds)
      × (s.moved ≤ datasize)
      × (s.j ≡ num_fds → s.moved ≡ 0)
      × (s.i ≡ loops → (s.j ≡ 0) × (s.moved ≡ 0))

  abbrev pub ReceiverFits : ReceiverAt → Type 0
  ReceiverFits r =
      (r.i ≤ num_packets num_fds loops)
      × (r.moved ≤ datasize)
      × (r.i ≡ num_packets num_fds loops → r.moved ≡ 0)

  pub record Inv (w : World) : Type 0 where
    pub senders_fit : (k : ℕ) → SenderFits (w.senders k)
    pub receivers_fit : (k : ℕ) → ReceiverFits (w.receivers k)
    pub pipes_fit : (k : ℕ) → w.pipes k ≤ capacity
    pub balance :
        (fd : ℕ)
        → fd < num_fds
        → sum num_fds (λ k. wrote (w.senders k) fd) ≡ w.pipes fd + took (w.receivers fd)

  wrote-write :
      (s : SenderAt) (n fd : ℕ)
      → wrote (record s { moved = s.moved + n }) fd ≡ wrote s fd + (if fd == s.j then n else 0)
  unfolding wrote
  wrote-write s n fd = ground arith

  wrote-next_fd :
      (s : SenderAt) (fd : ℕ)
      → s.moved ≡ datasize
      → wrote (record s { j = s.j + 1; moved = 0 }) fd ≡ wrote s fd
  unfolding wrote
  wrote-next_fd s fd h = ground arith

  wrote-next_loop :
      (s : SenderAt) (fd : ℕ)
      → s.j ≡ num_fds
      → fd < num_fds
      → wrote (record { i = s.i + 1; j = 0; moved = 0 }) fd ≡ wrote s fd
  unfolding wrote
  wrote-next_loop s fd h l = ground arith

  -- One sender goes on.
  sum-update :
      (senders : ℕ → SenderAt) (k fd d : ℕ) (s : SenderAt)
      → k < num_fds
      → wrote s fd ≡ wrote (senders k) fd + d
      → sum num_fds (λ m. wrote (update senders k s m) fd)
        ≡ sum num_fds (λ m. wrote (senders m) fd) + d
  sum-update senders k fd d s low e =
      sum-change num_fds k d (λ m. wrote (senders m) fd) (λ m. wrote (update senders k s m) fd) low
        (λ m. elim (Bool-cases (m == k)) [
          | inl here_k ↦ let same : m ≡ k = ground arith in rw (here_k, same) e
          | inr other ↦ rw other (omega arith)
        ])

  sender_step :
      (w : World) (k : ℕ) (more pipes : ℕ → ℕ) (s : SenderAt)
      → Inv w
      → k < num_fds
      → SenderFits s
      → ((fd : ℕ) → pipes fd ≤ capacity)
      → ((fd : ℕ) → pipes fd ≡ w.pipes fd + more fd)
      → ((fd : ℕ) → fd < num_fds → wrote s fd ≡ wrote (w.senders k) fd + more fd)
      → Inv (record w { senders = update w.senders k s; pipes = pipes })
  sender_step w k more pipes s I low fits room added e = record {
    senders_fit = update_all SenderFits w.senders k s I.senders_fit fits;
    receivers_fit = I.receivers_fit;
    pipes_fit = room;
    balance = λ fd below. omega (
      arith,
      sum-update w.senders k fd (more fd) s low (e fd below),
      I.balance fd below,
      added fd,
    );
  }

  receiver_step :
      (w : World) (k : ℕ) (less pipes : ℕ → ℕ) (r : ReceiverAt)
      → Inv w
      → ReceiverFits r
      → ((fd : ℕ) → pipes fd + less fd ≡ w.pipes fd)
      → ((fd : ℕ) → took (update w.receivers k r fd) ≡ took (w.receivers fd) + less fd)
      → Inv (record w { receivers = update w.receivers k r; pipes = pipes })
  receiver_step w k less pipes r I fits taken e = record {
    senders_fit = I.senders_fit;
    receivers_fit = update_all ReceiverFits w.receivers k r I.receivers_fit fits;
    pipes_fit = λ fd. omega (arith, I.pipes_fit fd, taken fd);
    balance = λ fd below. omega (arith, I.balance fd below, taken fd, e fd);
  }

  update_add :
      (pipes : ℕ → ℕ) (k n fd : ℕ)
      → update pipes k (pipes k + n) fd ≡ pipes fd + (if fd == k then n else 0)
  update_add pipes k n fd = elim (Bool-cases (fd == k)) [
    | inl at_k ↦ let same : fd ≡ k = ground arith in rw (at_k, same) refl
    | inr other ↦ rw other (omega arith)
  ]

  update_sub :
      (pipes : ℕ → ℕ) (k n fd : ℕ)
      → n ≤ pipes k
      → update pipes k (pipes k - n) fd + (if fd == k then n else 0) ≡ pipes fd
  update_sub pipes k n fd h = elim (Bool-cases (fd == k)) [
    | inl at_k ↦ let same : fd ≡ k = ground arith in rw (at_k, same) (omega arith)
    | inr other ↦ rw other (omega arith)
  ]

  took-update :
      (receivers : ℕ → ReceiverAt) (k n fd : ℕ) (r : ReceiverAt)
      → took r ≡ took (receivers k) + n
      → took (update receivers k r fd) ≡ took (receivers fd) + (if fd == k then n else 0)
  took-update receivers k n fd r h = elim (Bool-cases (fd == k)) [
    | inl at_k ↦ let same : fd ≡ k = ground arith in rw (at_k, same) h
    | inr other ↦ rw other (omega arith)
  ]

  Step-Inv :
      {w v : World}
      → Sized num_fds loops datasize
      → Step num_fds loops datasize capacity w v
      → Inv w
      → Inv v
  Step-Inv {w} positive (Step.write k n low l m p h int room e) I =
      let s = w.senders k in
      let fits = I.senders_fit k in
      rw e (
        sender_step w k (λ fd. if fd == s.j then n else 0) (update w.pipes s.j (w.pipes s.j + n))
          (record s { moved = s.moved + n }) I low (ground (arith, fits))
          (update_all (λ x. x ≤ capacity) w.pipes s.j (w.pipes s.j + n) I.pipes_fit room)
          (update_add w.pipes s.j n) (λ fd below. wrote-write s n fd))
  Step-Inv {w} positive (Step.next_fd k low l m h e) I =
      let s = w.senders k in
      let fits = I.senders_fit k in
      rw e (
        sender_step w k (λ fd. 0) w.pipes (record s { j = s.j + 1; moved = 0 }) I low
          (ground (arith, fits)) I.pipes_fit (λ fd. omega arith)
          (λ fd below. omega (arith, wrote-next_fd s fd h)))
  Step-Inv {w} positive (Step.next_loop k low l m e) I =
      let s = w.senders k in
      let fits = I.senders_fit k in
      rw e (
        sender_step w k (λ fd. 0) w.pipes (record { i = s.i + 1; j = 0; moved = 0 }) I low
          (ground (arith, fits)) I.pipes_fit (λ fd. omega arith)
          (λ fd below. omega (arith, wrote-next_loop s fd m below)))
  Step-Inv {w} positive (Step.read k n low l p h int room e) I =
      let r = w.receivers k in
      let fits = I.receivers_fit k in
      rw e (
        receiver_step w k (λ fd. if fd == k then n else 0) (update w.pipes k (w.pipes k - n))
          (record r { moved = r.moved + n }) I (ground (arith, fits))
          (λ fd. update_sub w.pipes k n fd room)
          (λ fd. took-update w.receivers k n fd (record r { moved = r.moved + n }) (omega arith)))
  Step-Inv {w} positive (Step.next_packet k low l h e) I =
      let r = w.receivers k in
      let fits = I.receivers_fit k in
      let r' : ReceiverAt = record { i = r.i + 1; moved = 0 } in
      let whole : (r.i + 1) % 2 ^ 32 ≡ r.i + 1 = omega arith in
      rw (e, whole)
        (receiver_step w k (λ fd. if fd == k then 0 else 0) w.pipes r' I (ground (arith, fits))
          (λ fd. ground arith) (λ fd. took-update w.receivers k 0 fd r' (omega (arith, h))))

  start-balance : (fd : ℕ) → sum num_fds (λ k. wrote (record { i = 0; j = 0; moved = 0 }) fd) ≡ 0
  start-balance fd =
      sum-const num_fds 0 (λ k. wrote (record { i = 0; j = 0; moved = 0 }) fd)
        (λ k l. unfold wrote in ground arith)
      ∙ omega arith

  start-Inv : Inv start
  start-Inv = record {
    senders_fit = λ k. omega arith;
    receivers_fit = λ k. omega arith;
    pipes_fit = λ k. omega arith;
    balance = λ fd below. omega (arith, start-balance fd);
  }

  pub Reach-Inv :
      {w : World}
      → Sized num_fds loops datasize
      → Reach num_fds loops datasize capacity start w
      → Inv w
  Reach-Inv positive here = start-Inv
  Reach-Inv positive (next r s) = Step-Inv positive s (Reach-Inv positive r)
