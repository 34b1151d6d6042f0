-- ===== src/Socket/Ending.antt =====
-- How a receiver ends, and what it leaves on disk.
use trace2receiver.Common.{
  ℕ, suc, ◌+◌, ◌≡◌, ◌≢◌, refl, sym, ◌∙◌, arith, Bool, true, ◌⊎◌, inl, inr, Option, [],
  if◌then◌else◌, Bool-cases,
}
use trace2receiver.Socket.{
  Rcvr, Listener, nil, opened, closed, shutdown, on_ctx_done, on_done_listening, on_tick, on_accept,
  on_accept_error,
}
use trace2receiver.Socket.Steps.{
  LoopStep, ctx_done, listening_done, tick, accept, accept_failed, accept_closed, Reach,
}
use trace2receiver.Socket.Safety.{IsSound, Reach-IsSound}

abbrev one_if : Bool → ℕ
one_if b = if b then 1 else 0

-- How many of the two loops run.
abbrev pub loops : Rcvr → ℕ
loops s = one_if s.accepting + one_if s.watching

-- One loop ends, and nothing is reported.
abbrev pub IsWinding : Rcvr → Rcvr → Type 0
IsWinding s s' = (loops s ≡ suc (loops s')) × (s'.is_shutdown ≡ true) × (s'.fatal ≡ s.fatal)

LoopStep-IsWinding :
    (s s' : Rcvr) → IsSound s → s.is_shutdown ≡ true → LoopStep s s' → IsWinding s s'
unfolding on_ctx_done on_done_listening on_tick on_accept on_accept_error
LoopStep-IsWinding s s' h down (ctx_done _ watching cancelled) = ground (arith, down, watching)
LoopStep-IsWinding s s' h down (listening_done _ watching finished) = ground (arith, down, watching)
LoopStep-IsWinding s s' h down (tick _ lstat watching) =
    rw (down, on_tick) (ground (arith, watching))
LoopStep-IsWinding s s' h down (accept _ accepting listens) = absurd (h.shut down listens)
LoopStep-IsWinding s s' h down (accept_failed _ accepting listens) = absurd (h.shut down listens)
LoopStep-IsWinding s s' h down (accept_closed _ accepting is_closed) =
    rw (down, on_accept_error) (ground (arith, accepting))

Listener-cases : (l : Listener) → l ≢ nil → l ≢ opened → l ≡ closed
Listener-cases nil h k = absurd (h refl)
Listener-cases opened h k = absurd (k refl)
Listener-cases closed h k = refl

LoopStep-exists :
    (s : Rcvr) → IsSound s → s.is_shutdown ≡ true → (loops s ≡ 0) ⊎ ((s' : Rcvr) × LoopStep s s')
LoopStep-exists s h down = elim (Bool-cases s.watching) [
  | inl watching ↦ inr (_, ctx_done s watching (sym h.cancels ∙ down))
  | inr idle ↦ elim (Bool-cases s.accepting) [
    | inl accepting ↦
        inr (_, accept_closed s accepting (Listener-cases s.listener h.listens (h.shut down)))
    | inr ended ↦ inl (rw (idle, ended) refl)
  ]
]

-- After a shutdown, in whatever state the receiver was, every step of the accepting and the watching
-- loop is the last of its loop, and reports nothing; so both have ended after two steps at most.
pub Reach-IsWinding :
    (s s' : Rcvr) → Reach s → s.is_shutdown ≡ true → LoopStep s s' → IsWinding s s'
Reach-IsWinding s s' reached down step = LoopStep-IsWinding s s' (Reach-IsSound s reached) down step

-- After a shutdown, in whatever state the receiver was, both loops have ended or one of them has a
-- step that it can take.
pub Reach-LoopStep :
    (s : Rcvr) → Reach s → s.is_shutdown ≡ true → (loops s ≡ 0) ⊎ ((s' : Rcvr) × LoopStep s s')
Reach-LoopStep s reached down = LoopStep-exists s (Reach-IsSound s reached) down

-- Once a receiver has reported that its path was stolen, its shutdown leaves alone what is at the
-- path.
pub on_disk-shutdown : (s : Rcvr) → Reach s → s.fatal ≢ [] → (shutdown s).on_disk ≡ s.on_disk
unfolding shutdown
on_disk-shutdown s reached told = elim ((Reach-IsSound s reached).once) [
  | inl quiet ↦ absurd (told quiet)
  | inr (one, unowned, idle) ↦ rw (unowned, shutdown) refl
]

-- A second shutdown changes nothing, whatever has come to the path meanwhile.
pub shutdown-shutdown :
    (s : Rcvr) (disk : Option ℕ)
    → let down = record (shutdown s) { on_disk = disk } in shutdown down ≡ down
unfolding shutdown
shutdown-shutdown s disk = ground arith
