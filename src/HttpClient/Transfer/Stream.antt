-- ===== src/HttpClient/Transfer/Stream.antt =====
-- What apache/http_client/http_client.cpp puts on its connection and counts from it.
use native.Mathlib.Decide.{ℕ_discrete}
use linux_scheduler_comparis.Base.{
  ℕ, zero, suc, ◌+◌, ◌-◌, ◌≤◌, ◌<◌, ◌≡◌, refl, ◌∙◌, ap, sym, some, [], ◌∷◌, ◌++◌, append_assoc,
  append-nil, Text, length, length-drop, take, drop, arith,
}
use linux_scheduler_comparis.Base.Int.{int_max}
use linux_scheduler_comparis.Base.Outcome.{done}
use linux_scheduler_comparis.HttpClient.Transfer.{
  Socket, get_message, send_loop, send_get, send_all, recv_loop, recv_until_eof,
}

-- A connection that works: a write takes at least one byte from the front of its text, and a read
-- gives at least one byte until the peer has closed and all is read.
pub record Works (S : Socket) (sent : S.State → Text) (unread : S.State → ℕ) : Type 0 where
  pub write_some :
      (c : ℕ) (text : Text) (s : S.State)
      → (n : ℕ) × ((S.write (c ∷ text) s).0 ≡ some (suc n))
        × (suc n ≤ length (c ∷ text))
        × (sent (S.write (c ∷ text) s).1 ≡ sent s ++ take (suc n) (c ∷ text))
  pub read_some :
      (s : S.State)
      → (n : ℕ) × ((S.read 256 s).0 ≡ some n)
        × (unread s ≡ n + unread (S.read 256 s).1)
        × (n ≡ 0 → unread s ≡ 0)

take-append-drop : (n : ℕ) (xs : Text) → take n xs ++ drop n xs ≡ xs
take-append-drop zero xs = refl
take-append-drop (suc n) [] = refl
take-append-drop (suc n) (x ∷ xs) = ap (λ t. x ∷ t) (take-append-drop n xs)

-- A text some times over.
unfoldable pub repeated : ℕ → Text → Text
repeated zero t = []
repeated (suc n) t = t ++ repeated n t

module _ (S : Socket) (sent : S.State → Text) (unread : S.State → ℕ) (W : Works S sent unread) where
  send_loop_lem :
      (fuel : ℕ) (curr : Text) (s : S.State)
      → length curr < fuel
      → (t : S.State) × (send_loop S fuel curr s ≡ done t) × (sent t ≡ sent s ++ curr)
  send_loop_lem zero curr s f = absurd (omega arith)
  send_loop_lem (suc fuel) [] s f = (s, unfold send_loop in refl, sym (append-nil (sent s)))
  send_loop_lem (suc fuel) (c ∷ curr) s f =
      let (n, returned, fits, written) = W.write_some c curr s in
      let (t, ran, rest) =
        send_loop_lem fuel (drop (suc n) (c ∷ curr)) (S.write (c ∷ curr) s).1
          (omega (arith, length-drop n curr)) in
      (
        t,
        step n returned fits ∙ ran,
        rest
            ∙ (ap (λ u. u ++ drop (suc n) (c ∷ curr)) written
                ∙ (append_assoc (sent s) _ _
                    ∙ ap (λ u. sent s ++ u) (take-append-drop (suc n) (c ∷ curr)))),
      )
    where
      step :
          (n : ℕ)
          → (S.write (c ∷ curr) s).0 ≡ some (suc n)
          → suc n ≤ length (c ∷ curr)
          → send_loop S (suc fuel) (c ∷ curr) s
            ≡ send_loop S fuel (drop (suc n) (c ∷ curr)) (S.write (c ∷ curr) s).1
      step n returned fits = unfold send_loop in ground arith

  -- On a connection that takes at least one byte with each write, and with more fuel than the
  -- request has bytes, the sender ends, and the connection has got `total_sends` whole requests,
  -- in order, however the writes are cut up.
  pub send_all-sent :
      (fuel total_sends : ℕ) (s : S.State)
      → length get_message < fuel
      → (t : S.State) × (send_all S fuel total_sends s ≡ done t)
        × (sent t ≡ sent s ++ repeated total_sends get_message)
  unfolding send_all send_get repeated
  send_all-sent fuel zero s f = (s, refl, sym (append-nil (sent s)))
  send_all-sent fuel (suc total_sends) s f =
      let (s1, ran, first) = send_loop_lem fuel get_message s f in
      let (t, rest, others) = send_all-sent fuel total_sends s1 f in
      (
        t,
        rw ran rest,
        others
            ∙ (ap (λ u. u ++ repeated total_sends get_message) first
                ∙ append_assoc (sent s) get_message _),
      )

  recv_stop :
      (fuel total_bytes : ℕ) (s : S.State)
      → (S.read 256 s).0 ≡ some 0
      → recv_loop S (suc fuel) total_bytes s ≡ done (total_bytes, (S.read 256 s).1)
  unfolding recv_loop
  recv_stop fuel total_bytes s h = ground arith

  recv_more :
      (fuel total_bytes n : ℕ) (s : S.State)
      → (S.read 256 s).0 ≡ some (suc n)
      → total_bytes + suc n ≤ int_max
      → recv_loop S (suc fuel) total_bytes s
        ≡ recv_loop S fuel (total_bytes + suc n) (S.read 256 s).1
  unfolding recv_loop
  recv_more fuel total_bytes n s h fits = ground arith

  recv_loop_lem :
      (fuel total_bytes : ℕ) (s : S.State)
      → unread s < fuel
      → total_bytes + unread s ≤ int_max
      → (t : S.State) × (recv_loop S fuel total_bytes s ≡ done (total_bytes + unread s, t))
        × (unread t ≡ 0)
  recv_loop_lem zero total_bytes s f h = absurd (omega arith)
  recv_loop_lem (suc fuel) total_bytes s f h =
      let (n, returned, less, last) = W.read_some s in
      let s' = (S.read 256 s).1 in
      elim (ℕ_discrete n 0) [
        | yes eof ↦
            let none_left : total_bytes ≡ total_bytes + unread s = omega (arith, last eof) in
            (
              s',
              recv_stop fuel total_bytes s (returned ∙ ap some eof)
                  ∙ ap (λ k. done (k, s')) none_left,
              omega (arith, last eof),
            )
        | no more ↦
            let positive : n ≡ suc (n - 1) = omega arith in
            let (t, ran, rest) =
              recv_loop_lem fuel (total_bytes + suc (n - 1)) s' (omega arith) (omega arith) in
            let total : total_bytes + suc (n - 1) + unread s' ≡ total_bytes + unread s =
              omega arith in
            (
              t,
              recv_more fuel total_bytes (n - 1) s (returned ∙ ap some positive) (omega arith)
                  ∙ (ran ∙ ap (λ k. done (k, t)) total),
              rest,
            )
      ]

  -- On a connection that gives at least one byte with each read until all is read, with more fuel
  -- than there are unread bytes, and if their number is an `int`, `recv_until_eof` ends with that
  -- number and nothing unread.
  pub recv_until_eof-unread :
      (fuel : ℕ) (s : S.State)
      → unread s < fuel
      → unread s ≤ int_max
      → (t : S.State) × (recv_until_eof S fuel s ≡ done (unread s, t)) × (unread t ≡ 0)
  unfolding recv_until_eof
  recv_until_eof-unread fuel s f h =
      let (t, ran, rest) = recv_loop_lem fuel 0 s f (omega arith) in
      let total : 0 + unread s ≡ unread s = omega arith in
      (t, ran ∙ ap (λ k. done (k, t)) total, rest)
