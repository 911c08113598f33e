-- ===== src/Hackbench/Pump.antt =====
-- `sender` and `receiver` of hackbench/hackbench.c behind `ready`: the loops that write and read
-- packets in pieces. A loop has fuel, since a call that moves no byte is made again for ever. The
-- `int done` that leaves its range is undefined behaviour, and the `unsigned int i` of a receiver
-- wraps, while `ctx->num_packets` has 64 bits: its loop has a bound on its rounds of its own.
pub mod Packets
use linux_scheduler_comparis.Base.{
  ℕ, zero, suc, ◌+◌, ◌-◌, ◌%◌, ◌^◌, Bool, true, false, List, [], ◌∷◌, ltb, leb, if◌then◌else◌,
}
use linux_scheduler_comparis.Base.Int.{ℤ, pos, negsuc, int_max}
use linux_scheduler_comparis.Base.Outcome.{Outcome, done, exits, undefined, spent, ◌>>=◌}

-- `write(fd, data + done, count)` and `read(fd, data + done, count)`: what they return, -1 for an
-- error.
pub record Pipes : Type 1 where
  pub State : Type 0
  pub write : ℕ → ℕ → State → ℤ × State
  pub read : ℕ → ℕ → State → ℤ × State

module _ (P : Pipes) where
  -- `again: ret = write(…); if (ret < 0) barf(…); done += ret; if (done < sizeof(data)) goto again;`
  pub write_packet : ℕ → ℕ → ℕ → ℕ → P.State → Outcome P.State
  write_packet zero fd datasize moved s = spent
  write_packet (suc fuel) fd datasize moved s =
      let (ret, s') = P.write fd (datasize - moved) s in
      elim ret [
        | negsuc n ↦ exits (pos 1)
        | pos n ↦ elim (leb (moved + n) int_max) [
          | false ↦ undefined
          | true ↦ elim (ltb (moved + n) datasize) [
            | true ↦ write_packet fuel fd datasize (moved + n) s'
            | false ↦ done s'
          ]
        ]
      ]

  pub read_packet : ℕ → ℕ → ℕ → ℕ → P.State → Outcome P.State
  read_packet zero fd datasize moved s = spent
  read_packet (suc fuel) fd datasize moved s =
      let (ret, s') = P.read fd (datasize - moved) s in
      elim ret [
        | negsuc n ↦ exits (pos 1)
        | pos n ↦ elim (leb (moved + n) int_max) [
          | false ↦ undefined
          | true ↦ elim (ltb (moved + n) datasize) [
            | true ↦ read_packet fuel fd datasize (moved + n) s'
            | false ↦ done s'
          ]
        ]
      ]

  -- `for (j = 0; j < ctx->num_fds; j++)`: one packet to each receiver.
  pub send_round : ℕ → ℕ → List ℕ → P.State → Outcome P.State
  send_round fuel datasize [] s = done s
  send_round fuel datasize (fd ∷ fds) s = do
    s' ← write_packet fuel fd datasize 0 s
    send_round fuel datasize fds s'

  -- `for (i = 0; i < loops; i++)`
  pub sender : ℕ → ℕ → ℕ → List ℕ → P.State → Outcome P.State
  sender fuel datasize zero out_fds s = done s
  sender fuel datasize (suc loops) out_fds s = do
    s' ← send_round fuel datasize out_fds s
    sender fuel datasize loops out_fds s'

  -- `for (i = 0; i < ctx->num_packets; i++)`, for `rounds` tests of its condition at most.
  pub receiver : ℕ → ℕ → ℕ → ℕ → ℕ → ℕ → P.State → Outcome P.State
  receiver zero fuel datasize i num_packets fd s = spent
  receiver (suc rounds) fuel datasize i num_packets fd s = elim (ltb i num_packets) [
    | false ↦ done s
    | true ↦ do
      s' ← read_packet fuel fd datasize 0 s
      receiver rounds fuel datasize ((i + 1) % 2 ^ 32) num_packets fd s'
  ]
