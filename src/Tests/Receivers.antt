-- ===== src/Tests/Receivers.antt =====
-- Receivers that are started, robbed of their path and stopped.
use trace2receiver.Common.{
  ◌≡◌, ◌≢◌, ◌≤◌, ◌<◌, ◌+◌, ◌*◌, ◌-◌, ◌^◌, get_elem?, ◌⊎◌, refl, arith, true, false, [], ◌∷◌, none,
  some, ok, error_text,
}
use trace2receiver.Socket
use trace2receiver.Socket.Steps
use trace2receiver.Socket.Safety.{IsSound, Reach-IsSound}
use trace2receiver.Socket.Ending.{
  loops, IsWinding, Reach-IsWinding, Reach-LoopStep, on_disk-shutdown, shutdown-shutdown,
}
use trace2receiver.Pipe
use trace2receiver.Pipe.Pool
use trace2receiver.Pipe.Safety.{ListensOrFails, IsStarted, start-IsStarted, worker_ids-distinct}

abbrev before : Socket.Rcvr
before = record {
  socket_path = "/tmp/trace2";
  listener = Socket.nil;
  inode = 0;
  is_shutdown = false;
  cancelled = false;
  on_disk = none;
  accepting = false;
  watching = false;
  done_listening = false;
  fatal = [];
  worker_id = 0;
}

abbrev up : Socket.Rcvr
up = record before {
  listener = Socket.opened;
  inode = 7;
  on_disk = some 7;
  accepting = true;
  watching = true;
}

up_run : Socket.start (ok 7) (ok 7) before ≡ (up, none)
unfolding Socket.start
up_run = refl

up_reached : Steps.Reach up
up_reached = Steps.started before up (ok 7) (ok 7) refl refl refl up_run

Reach-IsSound_example : IsSound up
Reach-IsSound_example = Reach-IsSound up up_reached

abbrev down : Socket.Rcvr
down = record up {
  is_shutdown = true;
  on_disk = none;
  inode = 0;
  listener = Socket.closed;
  cancelled = true;
}

down_reached : Steps.Reach down
unfolding Socket.shutdown
down_reached = Steps.next up_reached (Steps.stop up)

watched : Steps.LoopStep down (record down { watching = false })
unfolding Socket.on_ctx_done
watched = Steps.ctx_done down refl refl

Reach-IsWinding_example : IsWinding down (record down { watching = false })
Reach-IsWinding_example =
    Reach-IsWinding down (record down { watching = false }) down_reached refl watched

Reach-LoopStep_example : (loops down ≡ 0) ⊎ ((s' : Socket.Rcvr) × Steps.LoopStep down s')
Reach-LoopStep_example = Reach-LoopStep down down_reached refl

-- Another process puts its own socket at the path.
abbrev robbed : Socket.Rcvr
robbed = record up { on_disk = some 8 }

robbed_reached : Steps.Reach robbed
robbed_reached = Steps.next up_reached (Steps.replace up (some 8))

-- Before the next tick, a shutdown removes it.
robbed-shutdown : (Socket.shutdown robbed).on_disk ≡ none
unfolding Socket.shutdown
robbed-shutdown = refl

abbrev told : Socket.Rcvr
told = record robbed {
  inode = 0;
  watching = false;
  fatal = Socket.stolen_at robbed (Socket.socket_inode_changed 7 8) ∷ [];
}

told_reached : Steps.Reach told
unfolding Socket.on_tick
told_reached = Steps.next robbed_reached (Steps.loop (Steps.tick robbed (ok 8) refl))

told_something : told.fatal ≢ []
told_something = cc

on_disk-shutdown_example : (Socket.shutdown told).on_disk ≡ some 8
on_disk-shutdown_example = on_disk-shutdown told told_reached told_something

shutdown-shutdown_example :
    Socket.shutdown (record (Socket.shutdown up) { on_disk = some 9 })
    ≡ record (Socket.shutdown up) { on_disk = some 9 }
shutdown-shutdown_example = shutdown-shutdown up (some 9)

stolen_message :
    Socket.stolen_text
      (record { pathname = "/tmp/trace2"; sub_err = some (Socket.socket_inode_changed 7 18) })
    ≡ "Socket pathname stolen: '/tmp/trace2' error: 'Inode changed: expected 7 observed 18'"
unfolding Socket.stolen_text Socket.sub_err_text
stolen_message = refl

-- A pool of two workers, one of which has ended.
abbrev pool : Pool.Pool
pool = record {
  running = 1;
  in_channel = 1;
  nr_finished = 0;
  waiting = true;
  listener_closed = true;
  cancelled = true;
}

shut_pool : Pool.Pool
shut_pool = Pool.on_shutdown (Pool.new_pool 2)

pool_reached : Pool.Reach 2 pool
unfolding Pool.new_pool Pool.on_shutdown Pool.on_err_closed
pool_reached =
    Pool.next (Pool.next Pool.begin (Pool.shut (Pool.new_pool 2)))
      (Pool.err_closed (Pool.on_shutdown (Pool.new_pool 2)) (omega arith) refl)

some_workers : 0 < 2
some_workers = omega arith

Reach-pool_example :
    (1 + 1 ≤ 2)
    × (((pool.waiting ≡ true) × (0 < 2))
        ⊎ ((pool.waiting ≡ false) × (pool.running ≡ 0) × (pool.in_channel ≡ 0)))
Reach-pool_example = Pool.Reach-pool 2 pool some_workers pool_reached

Reach-Step_example :
    (p' : Pool.Pool) × Pool.Step 2 pool p' × (2 * p'.running + p'.in_channel < 2 * 1 + 1)
Reach-Step_example = Pool.Reach-Step 2 pool some_workers pool_reached refl refl

-- A Windows on which no pipe can be made.
abbrev windows : Pipe.Windows
windows = record {
  Sid = Unit;
  Acl = Unit;
  SecurityDescriptor = Unit;
  create_well_known_sid = λ kind. ok tt;
  new_security_descriptor = ok tt;
  acl_from_entries = λ entries. ok tt;
  set_dacl = λ sd acl. ok tt;
  sd_string = λ sd. "D:";
  listen_pipe = λ path cfg. (none, some (error_text "access denied"));
}

abbrev pipe_rcvr : Pipe.Rcvr
pipe_rcvr = record {
  named_pipe_path = "\\\\.\\pipe\\trace2";
  listener = none;
  cancelled = false;
  fatal = [];
  listening = false;
}

windows_fails : ListensOrFails windows
windows_fails path cfg = ((λ h. cc), λ h. refl)

start-IsStarted_example : IsStarted (Pipe.start windows pipe_rcvr)
start-IsStarted_example = start-IsStarted windows pipe_rcvr windows_fails refl refl

-- The counter wraps between the first worker and the second.
worker_ids-distinct_example :
    get_elem? (Pipe.worker_ids 3 (2 ^ 64 - 1)) 0 ≢ get_elem? (Pipe.worker_ids 3 (2 ^ 64 - 1)) 1
worker_ids-distinct_example =
    worker_ids-distinct 3 (2 ^ 64 - 1) 0 1 (omega arith) (omega arith) (omega arith) (omega arith)
      (omega arith)
