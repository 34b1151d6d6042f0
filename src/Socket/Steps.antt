-- ===== src/Socket/Steps.antt =====
-- The steps of a receiver that has been started, in any order.
use trace2receiver.Common.{ℕ, ◌≡◌, true, false, Option, none, Result, []}
use trace2receiver.Socket.{
  Rcvr, opened, closed, start, shutdown, on_ctx_done, on_done_listening, on_tick, on_accept,
  on_accept_error,
}

-- A step of one of the two loops. Accepting fails with net.ErrClosed on a closed socket, and with
-- other errors on an open one.
pub data LoopStep : Rcvr → Rcvr → Type 0 where
  ctx_done : (s : Rcvr) → s.watching ≡ true → s.cancelled ≡ true → LoopStep s (on_ctx_done s)
  listening_done :
      (s : Rcvr) → s.watching ≡ true → s.done_listening ≡ true → LoopStep s (on_done_listening s)
  tick : (s : Rcvr) (lstat : Result ℕ) → s.watching ≡ true → LoopStep s (on_tick lstat s)
  accept : (s : Rcvr) → s.accepting ≡ true → s.listener ≡ opened → LoopStep s (on_accept s)
  accept_failed :
      (s : Rcvr) → s.accepting ≡ true → s.listener ≡ opened → LoopStep s (on_accept_error false s)
  accept_closed :
      (s : Rcvr) → s.accepting ≡ true → s.listener ≡ closed → LoopStep s (on_accept_error true s)

-- Or the collector stops the receiver, or another process changes what is at the path.
pub data Step : Rcvr → Rcvr → Type 0 where
  loop : {s s' : Rcvr} → LoopStep s s' → Step s s'
  stop : (s : Rcvr) → Step s (shutdown s)
  replace : (s : Rcvr) (disk : Option ℕ) → Step s (record s { on_disk = disk })

-- The states of a receiver that has been started without error, from a state without reports.
pub data Reach : Rcvr → Type 0 where
  started :
      (s s' : Rcvr) (listen lstat : Result ℕ)
      → s.fatal ≡ []
      → s.is_shutdown ≡ false
      → s.done_listening ≡ false
      → start listen lstat s ≡ (s', none)
      → Reach s'
  next : {s s' : Rcvr} → Reach s → Step s s' → Reach s'
