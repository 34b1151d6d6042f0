-- ===== src/Socket.antt =====
-- rcvr_unixsocket.go: the receiver on a Unix domain socket, without the work on a connection. Each
-- function is one critical section of the code: the mutex makes it a single step.
pub mod Steps
pub mod Safety
pub mod Ending
use trace2receiver.Common.{
  ℕ, pos, ◌+◌, ◌%◌, ◌^◌, eqb, String, ◌<>◌, Bool, true, false, not, ◌||◌, List, [], ◌∷◌, ◌++◌,
  Option, none, some, Result, ok, err, GoError, error_text, reject_client_error, if◌then◌else◌,
}
use trace2receiver.Common.Decimal.{decimal}

-- Why the pathname counts as stolen: lstat failed, or found another inode than expected.
pub data SubErr : Type 0 where
  lstat_failed : GoError → SubErr
  socket_inode_changed : ℕ → ℕ → SubErr

pub record SocketPathnameStolenError : Type 0 where
  pub pathname : String
  pub sub_err : Option SubErr

-- What is reported to the collector as a fatal error.
pub data FatalError : Type 0 where
  not_opened : GoError → FatalError
  stolen : SocketPathnameStolenError → FatalError

-- The listener: nil, or a socket that is open or closed.
pub data Listener : Type 0 where
  nil opened closed : Listener

-- The receiver, and what is around it: whether the context is cancelled, the inode at the path of
-- the socket, the two loops of `listenLoop`, the channel `doneListening` between them, the errors
-- reported, and the number of the last worker.
pub record Rcvr : Type 0 where
  pub socket_path : String
  pub listener : Listener
  pub inode : ℕ
  pub is_shutdown : Bool
  pub cancelled : Bool
  pub on_disk : Option ℕ
  pub accepting : Bool
  pub watching : Bool
  pub done_listening : Bool
  pub fatal : List FatalError
  pub worker_id : ℕ

abbrev message : GoError → String
message (error_text e) = e
message (reject_client_error e f) = e

unfoldable pub sub_err_text : SubErr → String
unfolding decimal
sub_err_text (lstat_failed e) = message e
sub_err_text (socket_inode_changed expected observed) =
    "Inode changed: expected " <> decimal (pos expected) <> " observed " <> decimal (pos observed)

unfoldable pub stolen_text : SocketPathnameStolenError → String
unfolding sub_err_text
stolen_text e = elim (e.sub_err) [
  | some sub ↦ "Socket pathname stolen: '" <> e.pathname <> "' error: '" <> sub_err_text sub <> "'"
  | none ↦ "Socket pathname stolen: '" <> e.pathname <> "'"
]

-- UnixListener.Close, whose error is dropped: a nil listener stays nil.
abbrev pub close : Listener → Listener
close nil = nil
close opened = closed
close closed = closed

-- os.Remove of the socket's path, whose error is dropped.
abbrev remove : Rcvr → Rcvr
remove s = record s { on_disk = none }

unfoldable pub shutdown : Rcvr → Rcvr
shutdown s =
    let owned = not (eqb s.inode 0) in
    record s {
      is_shutdown = true;
      on_disk = if owned then none else s.on_disk;
      inode = 0;
      listener = close s.listener;
      cancelled = true;
    }

-- openSocketForListening: what ListenUnix and lstat give. A listener comes with its socket on disk.
unfoldable pub open_socket_for_listening : Result ℕ → Result ℕ → Rcvr → Rcvr × Option GoError
open_socket_for_listening (err e) lstat s = (record (remove s) { listener = nil }, some e)
open_socket_for_listening (ok made) (err e) s =
    (record s { listener = opened; on_disk = some made; inode = 0 }, some e)
open_socket_for_listening (ok made) (ok inode) s =
    (record s { listener = opened; on_disk = some made; inode = inode }, none)

-- Rcvr_Base.Start makes a context that is not cancelled, and has no error.
abbrev base_start : Rcvr → Rcvr
base_start s = record s { cancelled = false }

unfoldable pub start : Result ℕ → Result ℕ → Rcvr → Rcvr × Option GoError
unfolding open_socket_for_listening
start listen lstat s =
    let (opened_s, e) = open_socket_for_listening listen lstat (base_start s) in
    elim e [
      | some bad ↦ (record opened_s { fatal = opened_s.fatal ++ not_opened bad ∷ [] }, some bad)
      | none ↦ (record opened_s { accepting = true; watching = true }, none)
    ]

-- The end of the watching loop, where its `select` finds the context cancelled.
unfoldable pub on_ctx_done : Rcvr → Rcvr
on_ctx_done s = record s { listener = close s.listener; watching = false }

-- The same, where the accepting loop has ended.
unfoldable pub on_done_listening : Rcvr → Rcvr
on_done_listening s = record s { watching = false }

-- NewSocketPathnameStolenError of the receiver's path.
abbrev pub stolen_at : Rcvr → SubErr → FatalError
stolen_at s sub = stolen (record { pathname = s.socket_path; sub_err = some sub })

abbrev report_stolen : SubErr → Rcvr → Rcvr
report_stolen sub s = record s {
  inode = 0;
  fatal = s.fatal ++ stolen_at s sub ∷ [];
  watching = false;
}

-- The watching loop at a tick of its clock, with what lstat finds at the path.
unfoldable pub on_tick : Result ℕ → Rcvr → Rcvr
on_tick lstat s =
    if s.is_shutdown || eqb s.inode 0 then record s { watching = false } else elim lstat [
      | err e ↦ report_stolen (lstat_failed e) s
      | ok inode ↦
          if eqb inode s.inode then s else report_stolen (socket_inode_changed s.inode inode) s
    ]

-- The accepting loop, where AcceptUnix returns a connection.
unfoldable pub on_accept : Rcvr → Rcvr
on_accept s = record s { worker_id = (s.worker_id + 1) % 2 ^ 64 }

-- The accepting loop, where AcceptUnix fails, and whether it fails with net.ErrClosed. At its end
-- the loop tells the watching one.
unfoldable pub on_accept_error : Bool → Rcvr → Rcvr
on_accept_error is_err_closed s =
    if s.is_shutdown || eqb s.inode 0 || is_err_closed
    then record s { accepting = false; done_listening = true }
    else s
