-- ===== src/HttpClient/Session/Inv.antt =====
-- What is under way in the pipes of apache/http_client/http_client.cpp, in every reachable state.
use linux_scheduler_comparis.Base.{
  ℕ, ◌≡◌, ◌≢◌, Bool, true, false, Option, none, some, List, [], ◌∷◌, ◌++◌, arith, if◌then◌else◌,
}
use linux_scheduler_comparis.HttpClient.Session.{
  Child, Parent, World, Packet, letter, end_time, ready_msg, start_msg, ChildStep, ParentStep, Step,
  by_child, by_parent, by_server, make_room, tick, Reach, here, next, forked,
}
use linux_scheduler_comparis.HttpClient.Session.Spec.{was_ready, receiver_of}

-- What the parent has heard of the child: whether it is ready, and its time.
abbrev pub heard_ready : Parent → Bool
heard_ready (Parent.checking c) = true
heard_ready Parent.reading_clock = true
heard_ready (Parent.sending s) = true
heard_ready (Parent.shutting s) = true
heard_ready (Parent.reading_time s) = true
heard_ready (Parent.waiting s t) = true
heard_ready (Parent.reported s t) = true
heard_ready _ = false

abbrev pub heard_time : Parent → Option ℕ
heard_time (Parent.waiting s t) = some t
heard_time (Parent.reported s t) = some t
heard_time _ = none

abbrev pub time_of : Child → Option ℕ
time_of (Child.finished t) = some t
time_of _ = none

abbrev pub has_failed : Parent → Bool
has_failed (Parent.failed e) = true
has_failed _ = false

-- The packets that are under way, if the parent has not failed.
abbrev time_packet : Option ℕ → Option ℕ → List Packet
time_packet (some t) none = end_time t ∷ []
time_packet _ _ = []

abbrev pub under_way : Child → Parent → List Packet
under_way c p =
    (if was_ready (receiver_of c)
      then (if heard_ready p then [] else letter ready_msg ∷ [])
      else [])
    ++ time_packet (time_of c) (heard_time p)

abbrev pub asked : Parent → Bool
asked Parent.pinning = false
asked Parent.scheduling = false
asked Parent.closing = false
asked Parent.writing_start = false
asked _ = true

-- The letter under test is the right one.
abbrev pub checked : Parent → ℕ
checked (Parent.checking c) = c
checked _ = ready_msg

abbrev pub Agree : Option ℕ → Option ℕ → Type 0
Agree none o = Unit
Agree (some t) o = o ≡ some t

abbrev pub unread : Child → Bool
unread Child.pinning = true
unread Child.scheduling = true
unread Child.closing = true
unread Child.reading_start = true
unread _ = false

pub record Inv (w : World) : Type 0 where
  pub ready_before : heard_ready w.parent ≡ true → was_ready (receiver_of w.child) ≡ true
  pub same_time : Agree (heard_time w.parent) (time_of w.child)
  pub packets : has_failed w.parent ≡ false → w.child_to_parent ≡ under_way w.child w.parent
  pub right_letter : checked w.parent ≡ ready_msg
  pub start_sent :
      unread w.child ≡ true
      → has_failed w.parent ≡ false
      → asked w.parent ≡ true
      → w.parent_to_child ≢ []

ChildStep-Inv : {w v : World} → ChildStep w v → Inv w → Inv v
ChildStep-Inv (ChildStep.pin_fails h e) inv = ground arith
ChildStep-Inv s inv = ground arith

snoc-ne-nil : (xs : List ℕ) (c : ℕ) → xs ++ (c ∷ []) ≢ []
snoc-ne-nil [] c h = cc
snoc-ne-nil (x ∷ xs) c h = cc

ParentStep-Inv : {w v : World} → ParentStep w v → Inv w → Inv v
ParentStep-Inv {w} (ParentStep.write_start h p e) inv =
    ground (arith, snoc-ne-nil w.parent_to_child start_msg)
ParentStep-Inv {w} (ParentStep.pin h e) inv = ground arith
ParentStep-Inv {w} (ParentStep.pin_fails h e) inv = ground arith
ParentStep-Inv {w} (ParentStep.schedule h e) inv = ground arith
ParentStep-Inv {w} (ParentStep.schedule_fails h e) inv = ground arith
ParentStep-Inv {w} (ParentStep.close_ends h e) inv = ground arith
ParentStep-Inv {w} (ParentStep.write_start_broken h p e) inv = ground arith
ParentStep-Inv {w} (ParentStep.read_ready c rest h p e) inv = ground arith
ParentStep-Inv {w} (ParentStep.read_ready_eof h p q e) inv = ground arith
ParentStep-Inv {w} (ParentStep.check h e) inv = ground arith
ParentStep-Inv {w} (ParentStep.check_wrong c h p e) inv = ground arith
ParentStep-Inv {w} (ParentStep.read_clock h e) inv = ground arith
ParentStep-Inv {w} (ParentStep.begin_send s h p q e) inv = ground arith
ParentStep-Inv {w} (ParentStep.write_some s n h o p q r e) inv = ground arith
ParentStep-Inv {w} (ParentStep.write_fails s f h p q e) inv = ground arith
ParentStep-Inv {w} (ParentStep.end_sends s h p q e) inv = ground arith
ParentStep-Inv {w} (ParentStep.shutdown s h e) inv = ground arith
ParentStep-Inv {w} (ParentStep.shutdown_fails s h e) inv = ground arith
ParentStep-Inv {w} (ParentStep.read_time s t rest h p e) inv = ground arith
ParentStep-Inv {w} (ParentStep.read_time_eof s h p q e) inv = ground arith
ParentStep-Inv {w} (ParentStep.wait_receiver s t h p e) inv = ground arith

Step-Inv : {w v : World} → Step w v → Inv w → Inv v
Step-Inv (by_child s) inv = ChildStep-Inv s inv
Step-Inv (by_parent s) inv = ParentStep-Inv s inv
Step-Inv (by_server o c e) inv = ground arith
Step-Inv (make_room n o e) inv = ground arith
Step-Inv (tick e) inv = ground arith

pub Reach-Inv :
    {time num_requests room : ℕ} {w : World} → Reach (forked time num_requests room) w → Inv w
Reach-Inv here = ground arith
Reach-Inv (next r s) = Step-Inv s (Reach-Inv r)
