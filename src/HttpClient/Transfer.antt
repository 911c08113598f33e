-- ===== src/HttpClient/Transfer.antt =====
-- `send_get`, the loop of `main` that calls it, and `recv_until_eof`, of
-- apache/http_client/http_client.cpp. The clock and the printed text are left out.
pub mod Stream
use linux_scheduler_comparis.Base.{
  ℕ, zero, suc, ◌+◌, ◌-◌, ◌≤◌, Option, none, some, Bool, true, false, List, [], ◌∷◌, ◌++◌, Text,
  codes, length, drop, ltb, leb, ◌==◌, if◌then◌else◌,
}
use linux_scheduler_comparis.Base.Int.{minus_one, int_max}
use linux_scheduler_comparis.Base.Outcome.{Outcome, done, exits, undefined, spent, ◌>>=◌}

-- The connected socket: `write` of some bytes and `read` of at most a number of bytes. They return
-- how many bytes they moved, or -1, which is `none`.
pub record Socket : Type 1 where
  pub State : Type 0
  pub write : Text → State → Option ℕ × State
  pub read : ℕ → State → Option ℕ × State

unfoldable pub get_message : Text
get_message = codes "GET / HTTP/1.1\r\nHost: www.scheduler_test.com\r\n\r\n"

module _ (S : Socket) where
  -- `while (remaining > 0)`; `curr` is the text that is left, `remaining` its length.
  pub send_loop : ℕ → Text → S.State → Outcome S.State
  send_loop zero curr s = spent
  send_loop (suc fuel) curr s = elim (ltb 0 (length curr)) [
    | false ↦ done s
    | true ↦
        let (ret, s') = S.write curr s in
        elim ret [
          | none ↦ exits minus_one
          | some n ↦ elim (leb n (length curr)) [
            | true ↦ send_loop fuel (drop n curr) s'
            | false ↦ send_loop fuel curr s'
          ]
        ]
  ]

  unfoldable pub send_get : ℕ → S.State → Outcome S.State
  send_get fuel s = send_loop fuel get_message s

  -- `while (total_sends > 0) { send_get(); total_sends--; }`
  pub send_all : ℕ → ℕ → S.State → Outcome S.State
  send_all fuel zero s = done s
  send_all fuel (suc total_sends) s = do s' ← send_get fuel s; send_all fuel total_sends s'

  -- The loop of `recv_until_eof`, with `total_bytes` as an `int`.
  pub recv_loop : ℕ → ℕ → S.State → Outcome (ℕ × S.State)
  recv_loop zero total_bytes s = spent
  recv_loop (suc fuel) total_bytes s =
      let (ret, s') = S.read 256 s in
      elim ret [
        | none ↦ exits minus_one
        | some zero ↦ done (total_bytes, s')
        | some (suc n) ↦ elim (leb (total_bytes + suc n) int_max) [
          | true ↦ recv_loop fuel (total_bytes + suc n) s'
          | false ↦ undefined
        ]
      ]

  unfoldable pub recv_until_eof : ℕ → S.State → Outcome (ℕ × S.State)
  recv_until_eof fuel s = recv_loop fuel 0 s
