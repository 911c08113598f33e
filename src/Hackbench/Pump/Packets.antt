-- ===== src/Hackbench/Pump/Packets.antt =====
-- How many bytes the senders and receivers of hackbench/hackbench.c move.
use linux_scheduler_comparis.Base.{
  ℕ, zero, suc, ◌+◌, ◌-◌, ◌*◌, ◌≤◌, ◌<◌, ◌≡◌, refl, List, [], ◌∷◌, arith, ◌%◌, ◌^◌, ltb, Bool-cases,
  inl, inr, ◌==◌, if◌then◌else◌, true,
}
use linux_scheduler_comparis.Base.Int.{pos, int_max}
use linux_scheduler_comparis.Base.Outcome.{done, spent}
use linux_scheduler_comparis.Hackbench.Pump.{
  Pipes, write_packet, read_packet, send_round, sender, receiver,
}

-- Pipes that work: a call moves between one byte and what was asked for, and counts it at its
-- descriptor. `wrote fd` and `took fd` are the bytes so far.
pub record Works (P : Pipes) (wrote took : ℕ → P.State → ℕ) : Type 0 where
  pub write_some :
      (fd count : ℕ) (s : P.State)
      → 0 < count
      → (n : ℕ) × ((P.write fd count s).0 ≡ pos n)
        × (0 < n)
        × (n ≤ count)
        × ((other : ℕ)
            → wrote other (P.write fd count s).1
              ≡ (if other == fd then wrote other s + n else wrote other s))
  pub read_some :
      (fd count : ℕ) (s : P.State)
      → 0 < count
      → (n : ℕ) × ((P.read fd count s).0 ≡ pos n)
        × (0 < n)
        × (n ≤ count)
        × ((other : ℕ)
            → took other (P.read fd count s).1
              ≡ (if other == fd then took other s + n else took other s))

-- How often a descriptor stands in a list.
unfoldable pub count : ℕ → List ℕ → ℕ
count fd [] = 0
count fd (x ∷ xs) = (if fd == x then 1 else 0) + count fd xs

module _ (P : Pipes) (wrote took : ℕ → P.State → ℕ) (W : Works P wrote took) where
  write_packet_lem :
      (fuel fd datasize moved : ℕ) (s : P.State)
      → moved < datasize
      → datasize ≤ moved + fuel
      → datasize ≤ int_max
      → (t : P.State) × (write_packet P fuel fd datasize moved s ≡ done t)
        × ((other : ℕ)
            → wrote other t
              ≡ (if other == fd then wrote other s + (datasize - moved) else wrote other s))
  unfolding write_packet
  write_packet_lem zero fd datasize moved s m f int = absurd (omega arith)
  write_packet_lem (suc fuel) fd datasize moved s m f int =
      let (n, returned, low, high, counted) = W.write_some fd (datasize - moved) s (omega arith) in
      elim (Bool-cases (ltb (moved + n) datasize)) [
        | inl more ↦
            let (t, ran, total) =
              write_packet_lem fuel fd datasize (moved + n) (P.write fd (datasize - moved) s).1
                (ground arith) (omega arith) int in
            (t, ground arith, λ other. ground (arith, total other, counted other))
        | inr full ↦ (
          (P.write fd (datasize - moved) s).1,
          ground arith,
          λ other. ground (arith, counted other),
        )
      ]

  send_round_lem :
      (fuel datasize : ℕ) (fds : List ℕ) (s : P.State)
      → 0 < datasize
      → datasize ≤ fuel
      → datasize ≤ int_max
      → (t : P.State) × (send_round P fuel datasize fds s ≡ done t)
        × ((fd : ℕ) → wrote fd t ≡ wrote fd s + count fd fds * datasize)
  unfolding send_round count
  send_round_lem fuel datasize [] s d f int = (s, refl, λ fd. omega arith)
  send_round_lem fuel datasize (x ∷ fds) s d f int =
      let (s1, ran, total) = write_packet_lem fuel x datasize 0 s d (omega arith) int in
      let (t, rest, totals) = send_round_lem fuel datasize fds s1 d f int in
      (t, rw ran rest, λ fd. ground (arith, total fd, totals fd))

  -- On pipes that move at least one byte with each call, with a packet size from 1 to `INT_MAX`
  -- and at least that much fuel, a sender ends, and has written `loops` packets to a descriptor
  -- for each place of it in its list, and nothing elsewhere.
  pub sender-wrote :
      (fuel datasize loops : ℕ) (out_fds : List ℕ) (s : P.State)
      → 0 < datasize
      → datasize ≤ fuel
      → datasize ≤ int_max
      → (t : P.State) × (sender P fuel datasize loops out_fds s ≡ done t)
        × ((fd : ℕ) → wrote fd t ≡ wrote fd s + loops * (count fd out_fds * datasize))
  unfolding sender
  sender-wrote fuel datasize zero out_fds s d f int = (s, refl, λ fd. omega arith)
  sender-wrote fuel datasize (suc loops) out_fds s d f int =
      let (s1, ran, total) = send_round_lem fuel datasize out_fds s d (omega arith) int in
      let (t, rest, totals) = sender-wrote fuel datasize loops out_fds s1 d f int in
      (t, rw ran rest, λ fd. ground (arith, total fd, totals fd))

  read_packet_lem :
      (fuel fd datasize moved : ℕ) (s : P.State)
      → moved < datasize
      → datasize ≤ moved + fuel
      → datasize ≤ int_max
      → (t : P.State) × (read_packet P fuel fd datasize moved s ≡ done t)
        × ((other : ℕ)
            → took other t
              ≡ (if other == fd then took other s + (datasize - moved) else took other s))
  unfolding read_packet
  read_packet_lem zero fd datasize moved s m f int = absurd (omega arith)
  read_packet_lem (suc fuel) fd datasize moved s m f int =
      let (n, returned, low, high, counted) = W.read_some fd (datasize - moved) s (omega arith) in
      elim (Bool-cases (ltb (moved + n) datasize)) [
        | inl more ↦
            let (t, ran, total) =
              read_packet_lem fuel fd datasize (moved + n) (P.read fd (datasize - moved) s).1
                (ground arith) (omega arith) int in
            (t, ground arith, λ other. ground (arith, total other, counted other))
        | inr full ↦ (
          (P.read fd (datasize - moved) s).1,
          ground arith,
          λ other. ground (arith, counted other),
        )
      ]

  -- The packets from the `i`-th on.
  receiver_from :
      (rounds fuel datasize i num_packets fd : ℕ) (s : P.State)
      → 0 < datasize
      → datasize ≤ fuel
      → datasize ≤ int_max
      → num_packets < 2 ^ 32
      → i ≤ num_packets
      → num_packets < i + rounds
      → (t : P.State) × (receiver P rounds fuel datasize i num_packets fd s ≡ done t)
        × ((other : ℕ)
            → took other t
              ≡ (if other == fd then took other s + (num_packets - i) * datasize else took other s))
  unfolding receiver
  receiver_from zero fuel datasize i num_packets fd s d f int small low enough =
      absurd (omega arith)
  receiver_from (suc rounds) fuel datasize i num_packets fd s d f int small low enough =
      elim (Bool-cases (ltb i num_packets)) [
        | inr last ↦
            let none_left : num_packets - i ≡ 0 = ground arith in
            (s, ground arith, λ other. rw none_left (ground arith))
        | inl more ↦
            let (s1, ran, total) = read_packet_lem fuel fd datasize 0 s d (omega arith) int in
            let fits : (i + 1) % 2 ^ 32 ≡ i + 1 = ground arith in
            let (t, rest, totals) =
              receiver_from rounds fuel datasize (i + 1) num_packets fd s1 d f int small
                (ground arith) (ground arith) in
            let left : num_packets - i ≡ num_packets - (i + 1) + 1 = ground arith in
            (
              t,
              ground (arith, ran, fits, rest),
              λ other. rw left (ground (arith, total other, totals other)),
            )
      ]

  -- On pipes that move at least one byte with each call, with a packet size from 1 to `INT_MAX`
  -- and at least that much fuel, fewer than 2 ^ 32 packets and more rounds than packets, a
  -- receiver ends, and has read exactly its packets from its own descriptor.
  pub receiver-took :
      (rounds fuel datasize num_packets fd : ℕ) (s : P.State)
      → 0 < datasize
      → datasize ≤ fuel
      → datasize ≤ int_max
      → num_packets < 2 ^ 32
      → num_packets < rounds
      → (t : P.State) × (receiver P rounds fuel datasize 0 num_packets fd s ≡ done t)
        × ((other : ℕ)
            → took other t
              ≡ (if other == fd then took other s + num_packets * datasize else took other s))
  receiver-took rounds fuel datasize num_packets fd s d f int small enough =
      let (t, ran, totals) =
        receiver_from rounds fuel datasize 0 num_packets fd s d f int small (omega arith)
          (omega arith) in
      let all : num_packets - 0 ≡ num_packets = omega arith in
      (t, ran, λ other. rw all at (totals other))

  -- On pipes that move at least one byte with each call, with a packet size from 1 to `INT_MAX`
  -- and at least that much fuel, a receiver with 2 ^ 32 packets or more does not end, whatever the
  -- number of rounds: its index wraps before it gets there.
  pub receiver-wraps :
      (rounds fuel datasize i num_packets fd : ℕ) (s : P.State)
      → 0 < datasize
      → datasize ≤ fuel
      → datasize ≤ int_max
      → 2 ^ 32 ≤ num_packets
      → i < 2 ^ 32
      → receiver P rounds fuel datasize i num_packets fd s ≡ spent
  unfolding receiver
  receiver-wraps zero fuel datasize i num_packets fd s d f int large low = refl
  receiver-wraps (suc rounds) fuel datasize i num_packets fd s d f int large low =
      let more : ltb i num_packets ≡ true = ground arith in
      let (s1, ran, total) = read_packet_lem fuel fd datasize 0 s d (omega arith) int in
      ground (
        arith,
        ran,
        receiver-wraps rounds fuel datasize ((i + 1) % 2 ^ 32) num_packets fd s1 d f int large
            (omega arith),
      )

read_packet_eof :
    (P : Pipes) (fd datasize : ℕ)
    → ((n : ℕ) (s : P.State) → (P.read fd n s).0 ≡ pos 0)
    → 0 < datasize
    → (fuel : ℕ) (s : P.State) → read_packet P fuel fd datasize 0 s ≡ spent
unfolding read_packet
read_packet_eof P fd datasize eof d zero s = refl
read_packet_eof P fd datasize eof d (suc fuel) s = ground (
  arith,
  eof (datasize - 0) s,
  read_packet_eof P fd datasize eof d fuel (P.read fd (datasize - 0) s).1,
)

-- Where every `read` of its descriptor returns 0, as at the end of the file, and the packet size
-- is above 0, a receiver with a packet to read does not end, whatever the fuel and the number of
-- rounds.
pub receiver-eof :
    (P : Pipes) (fd datasize : ℕ)
    → ((n : ℕ) (s : P.State) → (P.read fd n s).0 ≡ pos 0)
    → 0 < datasize
    → (rounds fuel num_packets : ℕ) (s : P.State)
    → receiver P rounds fuel datasize 0 (suc num_packets) fd s ≡ spent
unfolding receiver
receiver-eof P fd datasize eof d zero fuel num_packets s = refl
receiver-eof P fd datasize eof d (suc rounds) fuel num_packets s =
    ground (arith, read_packet_eof P fd datasize eof d fuel s)
