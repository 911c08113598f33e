-- ===== src/HttpClient/SetUp.antt =====
-- `main` of apache/http_client/http_client.cpp up to its `fork`. Behind it the two processes run as
-- in Session.
use linux_scheduler_comparis.Base.{ℕ, ◌*◌, ◌^◌, Bool, true, false, List, Text, if◌then◌else◌}
use linux_scheduler_comparis.Base.Int.{ℤ, pos, minus_one, eqb_ℤ}
use linux_scheduler_comparis.Base.Outcome.{Outcome, done, exits, ◌>>=◌}
use linux_scheduler_comparis.Getopt.{Call}
use linux_scheduler_comparis.HttpClient.Args.{parse_args}

-- The calls, with what they return.
pub record Network : Type 1 where
  pub State : Type 0
  pub pipe : State → ℤ × State
  pub socket : State → ℤ × State
  pub inet_pton : Text → State → ℤ × State
  pub connect : State → ℤ × State
  pub sleep_for : ℕ → State → State
  pub fork : State → ℤ × State

-- How the set-up ends: with both processes and the number of requests, or with no child, where
-- `main` has nothing left to do and returns 0.
pub data SetUp : Type 0 where
  forked : ℤ → ℤ → SetUp
  no_child : SetUp

abbrev is_negative : ℤ → Bool
is_negative (pos n) = false
is_negative (ℤ.negsuc n) = true

module _ (N : Network) where
  -- Both pipes.
  pub open_pipes : N.State → Outcome N.State
  open_pipes s =
      let (res1, s1) = N.pipe s in
      let (res2, s2) = N.pipe s1 in
      if eqb_ℤ res1 minus_one
      then exits minus_one
      else if eqb_ℤ res2 minus_one
      then exits minus_one
      else done s2

  pub open_connection : Text → N.State → Outcome N.State
  open_connection ivp4_addr s =
      let (sock, s1) = N.socket s in
      let (converted, s2) = N.inet_pton ivp4_addr s1 in
      let (connected, s3) = N.connect s2 in
      if is_negative sock
      then exits minus_one
      else if eqb_ℤ converted (pos 1)
      then (if eqb_ℤ connected (pos 0) then done s3 else exits minus_one)
      else exits minus_one

  unfoldable pub set_up : List Text → List Call → N.State → Outcome (SetUp × N.State)
  set_up argv calls s = do
    args ← parse_args argv calls
    s1 ← open_pipes s
    s2 ← open_connection args.ivp4_addr s1
    let (receiver, s3) = N.fork (N.sleep_for (5 * 10 ^ 9) s2)
    if eqb_ℤ receiver minus_one
        then done (no_child, s3)
        else done (forked receiver args.num_requests, s3)
