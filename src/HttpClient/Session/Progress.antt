-- ===== src/HttpClient/Session/Progress.antt =====
-- The two processes of apache/http_client/http_client.cpp do not wait for one another for ever.
use linux_scheduler_comparis.Base.{
  ℕ, ◌<◌, ◌≡◌, ◌≢◌, ◌⊎◌, ltb, inl, inr, refl, true, false, List, [], ◌∷◌, arith, Bool-cases,
}
use linux_scheduler_comparis.HttpClient.Session.{
  Child, Parent, World, Server, open_, closed, reset, Packet, letter, end_time, exited, ChildStep,
  ParentStep, Reach, forked, parent_ended, child_ended,
}
use linux_scheduler_comparis.HttpClient.Session.Inv.{Inv, Reach-Inv}

-- Where a `write` of a request waits: there is no room, and the server has not reset.
abbrev pub Blocked : World → Type 0
Blocked w =
    (s : ℕ) × (w.parent ≡ Parent.sending s) × (0 < w.remaining) × (w.room ≡ 0) × (w.server ≢ reset)

-- Nothing is left but the server: the child reads from an open connection or has ended, and the
-- parent has sent and shut down, waits in a `write` of a request, or has ended.
pub data Quiet (w : World) : Type 0 where
  both_ended : parent_ended w.parent ≡ true → child_ended w.child ≡ true → Quiet w
  awaits_server :
      (s : ℕ)
      → w.child ≡ Child.receiving
      → w.server ≡ open_
      → w.parent ≡ Parent.reading_time s
      → Quiet w
  awaits_room : w.child ≡ Child.receiving → w.server ≡ open_ → Blocked w → Quiet w
  sends_alone : child_ended w.child ≡ true → Blocked w → Quiet w
  left_alone : w.child ≡ Child.receiving → w.server ≡ open_ → parent_ended w.parent ≡ true → Quiet w

-- Where the parent cannot move by itself.
data ParentWaits (w : World) : Type 0 where
  for_ready :
      w.parent ≡ Parent.reading_ready
      → w.child_to_parent ≡ []
      → child_ended w.child ≡ false
      → ParentWaits w
  for_time :
      (s : ℕ) → w.parent ≡ Parent.reading_time s → child_ended w.child ≡ false → ParentWaits w
  for_room : Blocked w → ParentWaits w
  at_end : parent_ended w.parent ≡ true → ParentWaits w

data ChildWaits (w : World) : Type 0 where
  for_start :
      w.child ≡ Child.reading_start
      → w.parent_to_child ≡ []
      → parent_ended w.parent ≡ false
      → ChildWaits w
  for_server : w.child ≡ Child.receiving → w.server ≡ open_ → ChildWaits w
  at_end : child_ended w.child ≡ true → ChildWaits w

module _ (w : World) where
  reads_ready :
      (packets : List Packet)
      → w.child_to_parent ≡ packets
      → w.parent ≡ Parent.reading_ready
      → Inv w
      → ((v : World) × ParentStep w v) ⊎ ParentWaits w
  reads_ready [] e h inv = elim (Bool-cases (child_ended w.child)) [
    | inl over ↦ inl (_, ParentStep.read_ready_eof h e over refl)
    | inr alive ↦ inr (for_ready h e alive)
  ]
  reads_ready (letter c ∷ rest) e h inv = inl (_, ParentStep.read_ready c rest h e refl)
  reads_ready (end_time t ∷ rest) e h inv = absurd (ground (arith, inv.packets))

  reads_time :
      (s : ℕ) (packets : List Packet)
      → w.child_to_parent ≡ packets
      → w.parent ≡ Parent.reading_time s
      → Inv w
      → ((v : World) × ParentStep w v) ⊎ ParentWaits w
  reads_time s [] e h inv = elim (Bool-cases (child_ended w.child)) [
    | inl over ↦ inl (_, ParentStep.read_time_eof s h e over refl)
    | inr alive ↦ inr (for_time s h alive)
  ]
  reads_time s (letter c ∷ rest) e h inv = absurd (ground (arith, inv.packets))
  reads_time s (end_time t ∷ rest) e h inv = inl (_, ParentStep.read_time s t rest h e refl)

  room_or_wait :
      (s : ℕ)
      → w.parent ≡ Parent.sending s
      → 0 < w.remaining
      → w.server ≢ reset
      → ((v : World) × ParentStep w v) ⊎ ParentWaits w
  room_or_wait s h more alive = elim (Bool-cases (ltb 0 w.room)) [
    | inl room ↦
        inl (_, ParentStep.write_some s 1 h alive (omega arith) (omega arith) (ground arith) refl)
    | inr full ↦ inr (for_room (s, h, more, ground arith, alive))
  ]

  -- In a request with bytes that are left.
  writes :
      (s : ℕ) (server : Server)
      → w.server ≡ server
      → w.parent ≡ Parent.sending s
      → 0 < w.remaining
      → ((v : World) × ParentStep w v) ⊎ ParentWaits w
  writes s reset e h more = inl (_, ParentStep.write_fails s exited h e more refl)
  writes s open_ e h more = room_or_wait s h more (ground arith)
  writes s closed e h more = room_or_wait s h more (ground arith)

  sends : (s : ℕ) → w.parent ≡ Parent.sending s → ((v : World) × ParentStep w v) ⊎ ParentWaits w
  sends s h = elim (Bool-cases (ltb 0 w.remaining)) [
    | inl more ↦ writes s w.server refl h (ground arith)
    | inr over ↦ elim (Bool-cases (ltb 0 w.total_sends)) [
      | inl more ↦ inl (_, ParentStep.begin_send s h (ground arith) (ground arith) refl)
      | inr last ↦ inl (_, ParentStep.end_sends s h (ground arith) (ground arith) refl)
    ]
  ]

  writes_start : w.parent ≡ Parent.writing_start → (v : World) × ParentStep w v
  writes_start h = elim (Bool-cases (child_ended w.child)) [
    | inl over ↦ (_, ParentStep.write_start_broken h over refl)
    | inr alive ↦ (_, ParentStep.write_start h alive refl)
  ]

  parent_move : (p : Parent) → w.parent ≡ p → Inv w → ((v : World) × ParentStep w v) ⊎ ParentWaits w
  parent_move Parent.pinning h inv = inl (_, ParentStep.pin h refl)
  parent_move Parent.scheduling h inv = inl (_, ParentStep.schedule h refl)
  parent_move Parent.closing h inv = inl (_, ParentStep.close_ends h refl)
  parent_move Parent.writing_start h inv = inl (writes_start h)
  parent_move Parent.reading_ready h inv = reads_ready w.child_to_parent refl h inv
  parent_move (Parent.checking c) h inv = inl (_, ParentStep.check (ground arith) refl)
  parent_move Parent.reading_clock h inv = inl (_, ParentStep.read_clock h refl)
  parent_move (Parent.sending s) h inv = sends s h
  parent_move (Parent.shutting s) h inv = inl (_, ParentStep.shutdown s h refl)
  parent_move (Parent.reading_time s) h inv = reads_time s w.child_to_parent refl h inv
  parent_move (Parent.waiting s t) h inv =
      inl (_, ParentStep.wait_receiver s t h (ground arith) refl)
  parent_move (Parent.reported s t) h inv = inr (ParentWaits.at_end (ground arith))
  parent_move (Parent.failed e) h inv = inr (ParentWaits.at_end (ground arith))

  reads_start :
      (bytes : List ℕ)
      → w.parent_to_child ≡ bytes
      → w.child ≡ Child.reading_start
      → ((v : World) × ChildStep w v) ⊎ ChildWaits w
  reads_start [] e h = elim (Bool-cases (parent_ended w.parent)) [
    | inl over ↦ inl (_, ChildStep.read_start_eof h e over refl)
    | inr alive ↦ inr (for_start h e alive)
  ]
  reads_start (c ∷ rest) e h = inl (_, ChildStep.read_start c rest h e refl)

  receives :
      (server : Server)
      → w.server ≡ server
      → w.child ≡ Child.receiving
      → ((v : World) × ChildStep w v) ⊎ ChildWaits w
  receives open_ e h = inr (for_server h e)
  receives closed e h = inl (_, ChildStep.receive_eof h e refl)
  receives reset e h = inl (_, ChildStep.receive_fails h e refl)

  writes_ready : w.child ≡ Child.writing_ready → (v : World) × ChildStep w v
  writes_ready h = elim (Bool-cases (parent_ended w.parent)) [
    | inl over ↦ (_, ChildStep.write_ready_broken h over refl)
    | inr alive ↦ (_, ChildStep.write_ready h alive refl)
  ]

  writes_time : (t : ℕ) → w.child ≡ Child.writing_time t → (v : World) × ChildStep w v
  writes_time t h = elim (Bool-cases (parent_ended w.parent)) [
    | inl over ↦ (_, ChildStep.write_time_broken t h over refl)
    | inr alive ↦ (_, ChildStep.write_time t h alive refl)
  ]

  child_move : (c : Child) → w.child ≡ c → ((v : World) × ChildStep w v) ⊎ ChildWaits w
  child_move Child.pinning h = inl (_, ChildStep.pin h refl)
  child_move Child.scheduling h = inl (_, ChildStep.schedule h refl)
  child_move Child.closing h = inl (_, ChildStep.close_ends h refl)
  child_move Child.reading_start h = reads_start w.parent_to_child refl h
  child_move Child.writing_ready h = inl (writes_ready h)
  child_move Child.receiving h = receives w.server refl h
  child_move (Child.writing_time t) h = inl (writes_time t h)
  child_move (Child.finished t) h = inr (ChildWaits.at_end (ground arith))
  child_move (Child.failed_early e) h = inr (ChildWaits.at_end (ground arith))
  child_move (Child.failed_late e) h = inr (ChildWaits.at_end (ground arith))

both_wait : {w : World} → Inv w → ParentWaits w → ChildWaits w → Quiet w
both_wait {w} inv (for_ready p q a) (for_start c b d) = absurd (ground arith)
both_wait {w} inv (for_ready p q a) (for_server c b) = absurd (ground (arith, inv.packets))
both_wait {w} inv (for_ready p q a) (ChildWaits.at_end c) = cc
both_wait {w} inv (for_time s p a) (for_start c b d) = absurd (ground arith)
both_wait {w} inv (for_time s p a) (for_server c b) = awaits_server s c b p
both_wait {w} inv (for_time s p a) (ChildWaits.at_end c) = cc
both_wait {w} inv (for_room (s, p, more, full, alive)) (for_start c b d) = absurd (ground arith)
both_wait {w} inv (for_room stuck) (for_server c b) = awaits_room c b stuck
both_wait {w} inv (for_room stuck) (ChildWaits.at_end c) = sends_alone c stuck
both_wait {w} inv (ParentWaits.at_end p) (for_start c b d) = cc
both_wait {w} inv (ParentWaits.at_end p) (for_server c b) = left_alone c b p
both_wait {w} inv (ParentWaits.at_end p) (ChildWaits.at_end c) = both_ended p c

-- In every state that the two processes of the client reach, one of them can take a step, or both
-- have ended, or only the server is missing: the child reads from an open connection, and the
-- parent has sent all and shut down, waits for room in a `write` of a request, or has ended; or
-- the child has ended, and the parent waits for such room on a connection that is not reset.
pub Reach-Quiet :
    {time num_requests room : ℕ} {w : World}
    → Reach (forked time num_requests room) w
    → Quiet w ⊎ ((v : World) × (ChildStep w v ⊎ ParentStep w v))
Reach-Quiet {w} r = elim (child_move w w.child refl) [
  | inl (v, s) ↦ inr (v, inl s)
  | inr child_waits ↦ elim (parent_move w w.parent refl (Reach-Inv r)) [
    | inl (v, s) ↦ inr (v, inr s)
    | inr parent_waits ↦ inl (both_wait (Reach-Inv r) parent_waits child_waits)
  ]
]
