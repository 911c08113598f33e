-- ===== src/HttpClient/Session/Spec.antt =====
-- What a measurement of apache/http_client/http_client.cpp promises, without pipes: a receiver and a
-- sender that see one another's state. The two processes refine it.
use linux_scheduler_comparis.Base.{ℕ, ◌≡◌, Bool, true, false}
use linux_scheduler_comparis.HttpClient.Session.{Child, Parent, World}

-- The receiver: not ready yet, ended before it was, listening, stopped at a time, or ended with no
-- time to give.
pub data Receiver : Type 0 where
  preparing never_ready listening lost : Receiver
  stopped : ℕ → Receiver

-- The sender: not begun, measuring since a time, with a start and an end to report, or given up.
pub data Sender : Type 0 where
  idle given_up : Sender
  measuring : ℕ → Sender
  reported : ℕ → ℕ → Sender

abbrev pub was_ready : Receiver → Bool
was_ready preparing = false
was_ready never_ready = false
was_ready listening = true
was_ready lost = true
was_ready (stopped t) = true

pub record Spec : Type 0 where
  pub receiver : Receiver
  pub sender : Sender

-- A measurement begins only when the receiver has been ready, and reports only a time at which the
-- receiver has stopped.
pub data Next (a b : Spec) : Type 0 where
  listen : a.receiver ≡ preparing → b ≡ record a { receiver = listening } → Next a b
  break_early : a.receiver ≡ preparing → b ≡ record a { receiver = never_ready } → Next a b
  stop : (t : ℕ) → a.receiver ≡ listening → b ≡ record a { receiver = stopped t } → Next a b
  break_late : a.receiver ≡ listening → b ≡ record a { receiver = lost } → Next a b
  lose : (t : ℕ) → a.receiver ≡ stopped t → b ≡ record a { receiver = lost } → Next a b
  begin :
      (s : ℕ)
      → a.sender ≡ idle
      → was_ready a.receiver ≡ true
      → b ≡ record a { sender = measuring s }
      → Next a b
  report :
      (s t : ℕ)
      → a.sender ≡ measuring s
      → a.receiver ≡ stopped t
      → b ≡ record a { sender = reported s t }
      → Next a b
  give_up_idle : a.sender ≡ idle → b ≡ record a { sender = given_up } → Next a b
  give_up : (s : ℕ) → a.sender ≡ measuring s → b ≡ record a { sender = given_up } → Next a b

-- The processes as the specification sees them.
abbrev pub receiver_of : Child → Receiver
receiver_of Child.pinning = preparing
receiver_of Child.scheduling = preparing
receiver_of Child.closing = preparing
receiver_of Child.reading_start = preparing
receiver_of Child.writing_ready = preparing
receiver_of Child.receiving = listening
receiver_of (Child.writing_time t) = stopped t
receiver_of (Child.finished t) = stopped t
receiver_of (Child.failed_early e) = never_ready
receiver_of (Child.failed_late e) = lost

abbrev pub sender_of : Parent → Sender
sender_of Parent.pinning = idle
sender_of Parent.scheduling = idle
sender_of Parent.closing = idle
sender_of Parent.writing_start = idle
sender_of Parent.reading_ready = idle
sender_of (Parent.checking c) = idle
sender_of Parent.reading_clock = idle
sender_of (Parent.sending s) = measuring s
sender_of (Parent.shutting s) = measuring s
sender_of (Parent.reading_time s) = measuring s
sender_of (Parent.waiting s t) = measuring s
sender_of (Parent.reported s t) = reported s t
sender_of (Parent.failed e) = given_up

unfoldable pub view : World → Spec
view w = record { receiver = receiver_of w.child; sender = sender_of w.parent }
