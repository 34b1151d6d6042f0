-- ===== src/Socket/Safety.antt =====
-- The invariant of a receiver.
use trace2receiver.Common.{
  ℕ, ◌≡◌, ◌≢◌, refl, sym, ap, arith, true, false, ◌⊎◌, inl, inr, none, Result, [], ◌∷◌, ◌++◌,
  length, eqb, Bool-cases, ◌||◌, ◌∙◌,
}
use trace2receiver.Common.Fallible.{Result-cases}
use trace2receiver.Socket.{
  Rcvr, nil, opened, FatalError, stolen_at, lstat_failed, socket_inode_changed,
  open_socket_for_listening, start, shutdown, on_ctx_done, on_done_listening, on_tick, on_accept,
  on_accept_error,
}
use trace2receiver.Socket.Steps.{
  LoopStep, ctx_done, listening_done, tick, accept, accept_failed, accept_closed, Step, loop, stop,
  replace, Reach, started, next,
}

-- After a shutdown the receiver owns no path, its socket is closed and the context cancelled; there
-- is a socket; only a shutdown cancels the context; and a report means that the receiver owns no path and watches it
-- no longer.
pub record IsSound (s : Rcvr) : Type 0 where
  pub unowned : s.is_shutdown ≡ true → s.inode ≡ 0
  pub shut : s.is_shutdown ≡ true → s.listener ≢ opened
  pub listens : s.listener ≢ nil
  pub cancels : s.is_shutdown ≡ s.cancelled
  pub once : (s.fatal ≡ []) ⊎ ((length s.fatal ≡ 1) × (s.inode ≡ 0) × (s.watching ≡ false))

start-IsSound :
    (listen lstat : Result ℕ) (s s' : Rcvr)
    → s.fatal ≡ []
    → s.is_shutdown ≡ false
    → start listen lstat s ≡ (s', none)
    → IsSound s'
unfolding start open_socket_for_listening
start-IsSound listen lstat s s' quiet up run = record {
  unowned = ground (arith, run, up);
  shut = ground (arith, run, up);
  listens = ground (arith, run);
  cancels = ground (arith, run, up);
  once = inl (ground (arith, run, quiet));
}

-- A tick reports nothing, or one error, and then the receiver gives its path up.
on_tick-cases :
    (lstat : Result ℕ) (s : Rcvr)
    → ((on_tick lstat s).fatal ≡ s.fatal)
      ⊎ ((e : FatalError) × ((on_tick lstat s).fatal ≡ s.fatal ++ e ∷ [])
          × ((on_tick lstat s).inode ≡ 0)
          × ((on_tick lstat s).watching ≡ false))
unfolding on_tick
on_tick-cases lstat s = elim (Bool-cases (s.is_shutdown || eqb s.inode 0)) [
  | inl gone ↦ inl (rw gone refl)
  | inr there ↦ elim (Result-cases lstat) [
    | inl (e, failed) ↦ inr (
      stolen_at s (lstat_failed e),
      rw (there, failed) refl,
      rw (there, failed) refl,
      rw (there, failed) refl,
    )
    | inr (inode, found) ↦ elim (Bool-cases (eqb inode s.inode)) [
      | inl same ↦ inl (rw (there, found, same) refl)
      | inr other ↦ inr (
        stolen_at s (socket_inode_changed s.inode inode),
        rw (there, found, other) refl,
        rw (there, found, other) refl,
        rw (there, found, other) refl,
      )
    ]
  ]
]

on_tick-IsSound :
    (lstat : Result ℕ) (s : Rcvr) → s.watching ≡ true → IsSound s → IsSound (on_tick lstat s)
unfolding on_tick
on_tick-IsSound lstat s watching h = record {
  unowned = ground (arith, h.unowned);
  shut = ground (arith, h.shut);
  listens = ground (arith, h.listens);
  cancels = ground (arith, h.cancels);
  once = elim (h.once) [
    | inr told ↦ cc (sym watching ∙ told.2)
    | inl quiet ↦ elim (on_tick-cases lstat s) [
      | inl still ↦ inl (still ∙ quiet)
      | inr (e, told, unowned, ended) ↦
          inr (ap length (told ∙ ap (λ l. l ++ e ∷ []) quiet), unowned, ended)
    ]
  ];
}

LoopStep-IsSound : (s s' : Rcvr) → LoopStep s s' → IsSound s → IsSound s'
unfolding on_ctx_done on_done_listening on_accept on_accept_error
LoopStep-IsSound s s' (ctx_done _ watching cancelled) h = record {
  unowned = ground (arith, h.unowned);
  shut = ground (arith, h.shut);
  listens = ground (arith, h.listens);
  cancels = h.cancels;
  once = ground (arith, h.once);
}
LoopStep-IsSound s s' (listening_done _ watching finished) h = record {
  unowned = h.unowned;
  shut = h.shut;
  listens = h.listens;
  cancels = h.cancels;
  once = ground (arith, h.once);
}
LoopStep-IsSound s s' (tick _ lstat watching) h = on_tick-IsSound lstat s watching h
LoopStep-IsSound s s' (accept _ accepting listens) h = record {
  unowned = h.unowned;
  shut = h.shut;
  listens = h.listens;
  cancels = h.cancels;
  once = h.once;
}
LoopStep-IsSound s s' (accept_failed _ accepting listens) h = record {
  unowned = ground (arith, h.unowned);
  shut = ground (arith, h.shut);
  listens = ground (arith, h.listens);
  cancels = ground (arith, h.cancels);
  once = ground (arith, h.once);
}
LoopStep-IsSound s s' (accept_closed _ accepting closed) h = record {
  unowned = ground (arith, h.unowned);
  shut = ground (arith, h.shut);
  listens = ground (arith, h.listens);
  cancels = ground (arith, h.cancels);
  once = ground (arith, h.once);
}

Step-IsSound : (s s' : Rcvr) → Step s s' → IsSound s → IsSound s'
unfolding shutdown
Step-IsSound s s' (loop one) h = LoopStep-IsSound s s' one h
Step-IsSound s s' (stop _) h = record {
  unowned = λ down. refl;
  shut = ground (arith, h.shut);
  listens = ground (arith, h.listens);
  cancels = refl;
  once = ground (arith, h.once);
}
Step-IsSound s s' (replace _ disk) h = record {
  unowned = h.unowned;
  shut = h.shut;
  listens = h.listens;
  cancels = h.cancels;
  once = h.once;
}

-- In every state that a receiver can come to, a shutdown receiver owns no path and its socket is
-- not open, only a shutdown has cancelled the context, and at most one fatal error has been
-- reported, after which the receiver owns no path and does not watch it any longer.
pub Reach-IsSound : (s : Rcvr) → Reach s → IsSound s
Reach-IsSound s (started before _ listen lstat quiet up idle run) =
    start-IsSound listen lstat before s quiet up run
Reach-IsSound s (next {s = before} reached step) =
    Step-IsSound before s step (Reach-IsSound before reached)
