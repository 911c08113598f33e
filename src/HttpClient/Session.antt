-- ===== src/HttpClient/Session.antt =====
-- The two processes of apache/http_client/http_client.cpp behind the `fork` of `main`: the child
-- runs `child_task`, the parent the rest of `main`. Each step is one system call, and either
-- process, the server or the clock may take the next step. A call fails where the system lets it:
-- pinning and scheduling at will, the socket when the server has reset the connection, a pipe when
-- the other process has ended. What one `write` puts into a pipe, at most eight bytes, arrives as a
-- whole. Each `write` of a request takes what the socket has room for, and waits where there is none:
-- the server and the network make room when they like. What the child reads before the end of the
-- connection is left out. Times are in nanoseconds.
pub mod Spec
pub mod Inv
pub mod Refines
pub mod Progress
use linux_scheduler_comparis.Base.{
  ℕ, ◌+◌, ◌-◌, ◌<◌, ◌≤◌, ◌≡◌, ◌≢◌, length, Bool, true, false, Option, none, some, List, [], ◌∷◌,
  ◌++◌,
}
use linux_scheduler_comparis.HttpClient.Transfer.{get_message}

-- How a process has failed: `std::exit(-1)`, or SIGPIPE.
pub data Failure : Type 0 where
  exited signalled : Failure

-- Where the child is: at its calls in order, at its end with the time that it wrote, or failed,
-- before or after it said that it is ready.
pub data Child : Type 0 where
  pinning scheduling closing reading_start writing_ready receiving : Child
  writing_time : ℕ → Child
  finished : ℕ → Child
  failed_early failed_late : Failure → Child

-- Where the parent is, with the start of its measurement and the end that it read.
pub data Parent : Type 0 where
  pinning scheduling closing writing_start reading_ready : Parent
  checking : ℕ → Parent
  reading_clock : Parent
  sending shutting reading_time : ℕ → Parent
  waiting reported : ℕ → ℕ → Parent
  failed : Failure → Parent

pub data Server : Type 0 where
  open_ closed reset : Server

pub data Packet : Type 0 where
  letter : ℕ → Packet
  end_time : ℕ → Packet

pub record World : Type 0 where
  pub parent : Parent
  pub child : Child
  pub parent_to_child : List ℕ
  pub child_to_parent : List Packet
  pub server : Server
  -- bytes that the socket takes without the server
  pub room : ℕ
  -- requests that are not begun, and `remaining` of the one that is being sent
  pub total_sends : ℕ
  pub remaining : ℕ
  pub clock : ℕ

abbrev pub parent_ended : Parent → Bool
parent_ended (reported s t) = true
parent_ended (failed e) = true
parent_ended _ = false

abbrev pub child_ended : Child → Bool
child_ended (finished t) = true
child_ended (failed_early e) = true
child_ended (failed_late e) = true
child_ended _ = false

abbrev pub start_msg : ℕ
start_msg = b's'

abbrev pub ready_msg : ℕ
ready_msg = b'r'

-- A wrong start message is reported, and the child goes on.
pub data ChildStep (w v : World) : Type 0 where
  pin : w.child ≡ Child.pinning → v ≡ record w { child = Child.scheduling } → ChildStep w v
  pin_fails : w.child ≡ Child.pinning → v ≡ record w { child = failed_early exited } → ChildStep w v
  schedule : w.child ≡ Child.scheduling → v ≡ record w { child = Child.closing } → ChildStep w v
  schedule_fails :
      w.child ≡ Child.scheduling → v ≡ record w { child = failed_early exited } → ChildStep w v
  close_ends : w.child ≡ Child.closing → v ≡ record w { child = reading_start } → ChildStep w v
  read_start :
      (c : ℕ) (rest : List ℕ)
      → w.child ≡ reading_start
      → w.parent_to_child ≡ c ∷ rest
      → v ≡ record w { child = writing_ready; parent_to_child = rest }
      → ChildStep w v
  read_start_eof :
      w.child ≡ reading_start
      → w.parent_to_child ≡ []
      → parent_ended w.parent ≡ true
      → v ≡ record w { child = failed_early exited }
      → ChildStep w v
  write_ready :
      w.child ≡ writing_ready
      → parent_ended w.parent ≡ false
      → v ≡ record w {
        child = receiving;
        child_to_parent = w.child_to_parent ++ (letter ready_msg ∷ []);
      }
      → ChildStep w v
  write_ready_broken :
      w.child ≡ writing_ready
      → parent_ended w.parent ≡ true
      → v ≡ record w { child = failed_early signalled }
      → ChildStep w v
  receive_eof :
      w.child ≡ receiving
      → w.server ≡ closed
      → v ≡ record w { child = writing_time w.clock }
      → ChildStep w v
  receive_fails :
      w.child ≡ receiving
      → w.server ≡ reset
      → v ≡ record w { child = failed_late exited }
      → ChildStep w v
  write_time :
      (t : ℕ)
      → w.child ≡ writing_time t
      → parent_ended w.parent ≡ false
      → v
        ≡ record w { child = finished t; child_to_parent = w.child_to_parent ++ (end_time t ∷ []) }
      → ChildStep w v
  write_time_broken :
      (t : ℕ)
      → w.child ≡ writing_time t
      → parent_ended w.parent ≡ true
      → v ≡ record w { child = failed_late signalled }
      → ChildStep w v

-- `sending` is in the loop over the requests, and `reported` the end with status 0.
pub data ParentStep (w v : World) : Type 0 where
  pin : w.parent ≡ Parent.pinning → v ≡ record w { parent = Parent.scheduling } → ParentStep w v
  pin_fails : w.parent ≡ Parent.pinning → v ≡ record w { parent = failed exited } → ParentStep w v
  schedule :
      w.parent ≡ Parent.scheduling → v ≡ record w { parent = Parent.closing } → ParentStep w v
  schedule_fails :
      w.parent ≡ Parent.scheduling → v ≡ record w { parent = failed exited } → ParentStep w v
  close_ends : w.parent ≡ Parent.closing → v ≡ record w { parent = writing_start } → ParentStep w v
  write_start :
      w.parent ≡ writing_start
      → child_ended w.child ≡ false
      → v ≡ record w {
        parent = reading_ready;
        parent_to_child = w.parent_to_child ++ (start_msg ∷ []);
      }
      → ParentStep w v
  write_start_broken :
      w.parent ≡ writing_start
      → child_ended w.child ≡ true
      → v ≡ record w { parent = failed signalled }
      → ParentStep w v
  read_ready :
      (c : ℕ) (rest : List Packet)
      → w.parent ≡ reading_ready
      → w.child_to_parent ≡ letter c ∷ rest
      → v ≡ record w { parent = checking c; child_to_parent = rest }
      → ParentStep w v
  read_ready_eof :
      w.parent ≡ reading_ready
      → w.child_to_parent ≡ []
      → child_ended w.child ≡ true
      → v ≡ record w { parent = failed exited }
      → ParentStep w v
  check : w.parent ≡ checking ready_msg → v ≡ record w { parent = reading_clock } → ParentStep w v
  check_wrong :
      (c : ℕ)
      → w.parent ≡ checking c
      → c ≢ ready_msg
      → v ≡ record w { parent = failed exited }
      → ParentStep w v
  read_clock : w.parent ≡ reading_clock → v ≡ record w { parent = sending w.clock } → ParentStep w v
  begin_send :
      (s : ℕ)
      → w.parent ≡ sending s
      → w.remaining ≡ 0
      → 0 < w.total_sends
      → v ≡ record w { total_sends = w.total_sends - 1; remaining = length get_message }
      → ParentStep w v
  write_some :
      (s n : ℕ)
      → w.parent ≡ sending s
      → w.server ≢ reset
      → 0 < n
      → n ≤ w.remaining
      → n ≤ w.room
      → v ≡ record w { remaining = w.remaining - n; room = w.room - n }
      → ParentStep w v
  write_fails :
      (s : ℕ) (e : Failure)
      → w.parent ≡ sending s
      → w.server ≡ reset
      → 0 < w.remaining
      → v ≡ record w { parent = failed e }
      → ParentStep w v
  end_sends :
      (s : ℕ)
      → w.parent ≡ sending s
      → w.remaining ≡ 0
      → w.total_sends ≡ 0
      → v ≡ record w { parent = shutting s }
      → ParentStep w v
  shutdown :
      (s : ℕ) → w.parent ≡ shutting s → v ≡ record w { parent = reading_time s } → ParentStep w v
  shutdown_fails :
      (s : ℕ) → w.parent ≡ shutting s → v ≡ record w { parent = failed exited } → ParentStep w v
  read_time :
      (s t : ℕ) (rest : List Packet)
      → w.parent ≡ reading_time s
      → w.child_to_parent ≡ end_time t ∷ rest
      → v ≡ record w { parent = waiting s t; child_to_parent = rest }
      → ParentStep w v
  read_time_eof :
      (s : ℕ)
      → w.parent ≡ reading_time s
      → w.child_to_parent ≡ []
      → child_ended w.child ≡ true
      → v ≡ record w { parent = failed exited }
      → ParentStep w v
  wait_receiver :
      (s t : ℕ)
      → w.parent ≡ waiting s t
      → child_ended w.child ≡ true
      → v ≡ record w { parent = reported s t }
      → ParentStep w v

pub data Step (w v : World) : Type 0 where
  by_child : ChildStep w v → Step w v
  by_parent : ParentStep w v → Step w v
  by_server : w.server ≢ reset → v.server ≢ open_ → v ≡ record w { server = v.server } → Step w v
  make_room : (n : ℕ) → w.server ≢ reset → v ≡ record w { room = w.room + n } → Step w v
  tick : v ≡ record w { clock = w.clock + 1 } → Step w v

-- Behind the `fork`, at some time, with a number of requests and with some room in the socket.
abbrev pub forked : ℕ → ℕ → ℕ → World
forked time num_requests room = record {
  parent = Parent.pinning;
  child = Child.pinning;
  parent_to_child = [];
  child_to_parent = [];
  server = open_;
  room = room;
  total_sends = num_requests;
  remaining = 0;
  clock = time;
}

pub data Reach (w : World) : World → Type 0 where
  here : Reach w w
  next : {u v : World} → Reach w u → Step u v → Reach w v
