-- ===== src/HttpClient/Session/Refines.antt =====
-- The two processes of apache/http_client/http_client.cpp refine the specification.
use linux_scheduler_comparis.Base.{ℕ, ◌≡◌, ◌⊎◌, inl, inr, arith}
use linux_scheduler_comparis.HttpClient.Session.{
  World, ChildStep, ParentStep, Step, by_child, by_parent, by_server, make_room, tick, Reach,
  forked,
}
use linux_scheduler_comparis.HttpClient.Session.Spec.{
  Next, listen, break_early, stop, break_late, lose, begin, report, give_up_idle, give_up, view,
}
use linux_scheduler_comparis.HttpClient.Session.Inv.{Inv, Reach-Inv}

receiver_step : {w v : World} → ChildStep w v → (view w ≡ view v) ⊎ Next (view w) (view v)
unfolding view
receiver_step {w} (ChildStep.pin_fails h e) = inr (break_early (ground arith) (ground arith))
receiver_step {w} (ChildStep.schedule_fails h e) = inr (break_early (ground arith) (ground arith))
receiver_step {w} (ChildStep.read_start_eof h p q e) =
    inr (break_early (ground arith) (ground arith))
receiver_step {w} (ChildStep.write_ready_broken h p e) =
    inr (break_early (ground arith) (ground arith))
receiver_step {w} (ChildStep.write_ready h p e) = inr (listen (ground arith) (ground arith))
receiver_step {w} (ChildStep.receive_eof h p e) = inr (stop w.clock (ground arith) (ground arith))
receiver_step {w} (ChildStep.receive_fails h p e) = inr (break_late (ground arith) (ground arith))
receiver_step {w} (ChildStep.write_time_broken t h p e) = inr (lose t (ground arith) (ground arith))
receiver_step {w} (ChildStep.pin h e) = inl (ground arith)
receiver_step {w} (ChildStep.schedule h e) = inl (ground arith)
receiver_step {w} (ChildStep.close_ends h e) = inl (ground arith)
receiver_step {w} (ChildStep.read_start c rest h p e) = inl (ground arith)
receiver_step {w} (ChildStep.write_time t h p e) = inl (ground arith)

sender_step : {w v : World} → ParentStep w v → Inv w → (view w ≡ view v) ⊎ Next (view w) (view v)
unfolding view
sender_step {w} (ParentStep.pin_fails h e) inv = inr (give_up_idle (ground arith) (ground arith))
sender_step {w} (ParentStep.schedule_fails h e) inv =
    inr (give_up_idle (ground arith) (ground arith))
sender_step {w} (ParentStep.write_start_broken h p e) inv =
    inr (give_up_idle (ground arith) (ground arith))
sender_step {w} (ParentStep.read_ready_eof h p q e) inv =
    inr (give_up_idle (ground arith) (ground arith))
sender_step {w} (ParentStep.check_wrong c h p e) inv =
    inr (give_up_idle (ground arith) (ground arith))
sender_step {w} (ParentStep.read_clock h e) inv =
    inr (begin w.clock (ground arith) (ground arith) (ground arith))
sender_step {w} (ParentStep.write_fails s f h p q e) inv =
    inr (give_up s (ground arith) (ground arith))
sender_step {w} (ParentStep.shutdown_fails s h e) inv =
    inr (give_up s (ground arith) (ground arith))
sender_step {w} (ParentStep.read_time_eof s h p q e) inv =
    inr (give_up s (ground arith) (ground arith))
sender_step {w} (ParentStep.wait_receiver s t h p e) inv =
    inr (report s t (ground arith) (ground arith) (ground arith))
sender_step {w} (ParentStep.pin h e) inv = inl (ground arith)
sender_step {w} (ParentStep.schedule h e) inv = inl (ground arith)
sender_step {w} (ParentStep.close_ends h e) inv = inl (ground arith)
sender_step {w} (ParentStep.write_start h p e) inv = inl (ground arith)
sender_step {w} (ParentStep.read_ready c rest h p e) inv = inl (ground arith)
sender_step {w} (ParentStep.check h e) inv = inl (ground arith)
sender_step {w} (ParentStep.begin_send s h p q e) inv = inl (ground arith)
sender_step {w} (ParentStep.write_some s n h o p q r e) inv = inl (ground arith)
sender_step {w} (ParentStep.end_sends s h p q e) inv = inl (ground arith)
sender_step {w} (ParentStep.shutdown s h e) inv = inl (ground arith)
sender_step {w} (ParentStep.read_time s t rest h p e) inv = inl (ground arith)

-- From every state that the two processes of the client reach behind the fork, a step of either
-- process, the server or the clock is one step of the specification or changes nothing that it
-- sees. In the specification a measurement begins only when the receiver has been ready, and
-- reports only a time at which the receiver has stopped.
pub Step-refines :
    {time num_requests room : ℕ} {w v : World}
    → Reach (forked time num_requests room) w
    → Step w v
    → (view w ≡ view v) ⊎ Next (view w) (view v)
Step-refines r (by_child s) = receiver_step s
Step-refines r (by_parent s) = sender_step s (Reach-Inv r)
Step-refines r (by_server o c e) = unfold view in inl (ground arith)
Step-refines r (make_room n o e) = unfold view in inl (ground arith)
Step-refines r (tick e) = unfold view in inl (ground arith)
