-- ===== src/Pipe/Safety.antt =====
-- Starting and stopping a receiver on a named pipe, and the ids of its workers.
use mathlib.Core.Path.{subst}
use mathlib.Core.Option.{some-injective}
use trace2receiver.Common.{
  sym, ℕ, zero, suc, ◌+◌, ◌%◌, ◌^◌, ◌<◌, ◌≤◌, ◌≡◌, ◌≢◌, refl, ap, ◌∙◌, arith, true, false, Option,
  none, some, Option-cases, ◌⊎◌, inl, inr, String, get_elem?, GoError, panic, nil_deref,
}
use trace2receiver.Common.Panics.{Returns}
use trace2receiver.Common.Fallible.{Result-cases}
use trace2receiver.Pipe.{
  Windows, Rcvr, report, as_listener, PipeConfig, pipe_config, make_sddl, open_named_pipe_server,
  start, shutdown, make_worker_id, worker_ids,
}

-- What ListenPipe gives: a listener, or an error.
abbrev pub ListensOrFails : Windows → Type 0
ListensOrFails w =
    (path : String) (cfg : PipeConfig)
    → ((w.listen_pipe path cfg).1 ≡ none → (w.listen_pipe path cfg).0 ≢ none)
      × ((w.listen_pipe path cfg).1 ≢ none → (w.listen_pipe path cfg).0 ≡ none)

as_listener-none : (l : Option (Unit {0})) → as_listener l ≡ none → l ≡ none
as_listener-none none h = refl
as_listener-none (some u) h = cc

-- Where a start comes to: a receiver that listens and can be shut down, or one that does not listen
-- and panics when it is shut down.
abbrev pub IsStarted : Rcvr × Option GoError → Type 0
IsStarted out =
    ((out.1 ≡ none) × (out.0.listening ≡ true) × Returns (shutdown out.0))
    ⊎ ((out.1 ≢ none) × (out.0.listening ≡ false) × (shutdown out.0 ≡ panic nil_deref))

report-IsStarted :
    (s : Rcvr) (e : Option GoError)
    → s.listening ≡ false
    → (e ≡ none → s.listener ≢ none)
    → (e ≢ none → s.listener ≡ none)
    → IsStarted (report (s, e))
unfolding shutdown
report-IsStarted s none idle listens fails = elim (Option-cases s.listener) [
  | inl missing ↦ absurd (listens refl missing)
  | inr (l, there) ↦ inl (refl, refl, rw there (_, refl))
]
report-IsStarted s (some bad) idle listens fails = inr ((λ h. cc), idle, rw (fails (λ k. cc)) refl)

-- A receiver without a listener is started. If that gives no error, the receiver listens, and
-- shutting it down returns; if it gives an error, the receiver does not listen, and shutting it down
-- follows a nil pointer. ListenPipe is taken to give a listener exactly where it gives no error.
pub start-IsStarted :
    (w : Windows) (s : Rcvr)
    → ListensOrFails w
    → s.listener ≡ none
    → s.listening ≡ false
    → IsStarted (start w s)
unfolding start open_named_pipe_server
start-IsStarted w s contract nothing idle = elim (Result-cases (make_sddl w)) [
  | inl (e, failed) ↦
      let base = record s { cancelled = false } in
      let opened : open_named_pipe_server w base ≡ (base, some e) =
        rw (failed, open_named_pipe_server) refl in
      subst IsStarted (sym (ap report opened))
        (report-IsStarted base (some e) idle (λ k. cc) λ k. nothing)
  | inr (sddl, made) ↦
      let base = record s { cancelled = false } in
      let out = w.listen_pipe s.named_pipe_path (pipe_config w sddl) in
      let (listens, fails) = contract s.named_pipe_path (pipe_config w sddl) in
      let opened : open_named_pipe_server w base
          ≡ (record base { listener = as_listener out.0 }, out.1) =
        rw (made, open_named_pipe_server) refl in
      subst IsStarted (sym (ap report opened)) (
        report-IsStarted (record base { listener = as_listener out.0 }) out.1 idle
          (λ fine missing. listens fine (as_listener-none out.0 missing))
          λ bad. ap as_listener (fails bad))
]

-- The id of the worker that is made as the i-th.
get_elem?-worker_ids :
    (n start i : ℕ)
    → i < n
    → start < 2 ^ 64
    → get_elem? (worker_ids n start) i ≡ some ((start + i) % 2 ^ 64)
unfolding worker_ids make_worker_id
get_elem?-worker_ids zero start i h k = absurd (omega (arith, h))
get_elem?-worker_ids (suc n) start zero h k = ap some (omega (arith, k))
get_elem?-worker_ids (suc n) start (suc i) h k =
    get_elem?-worker_ids n ((start + 1) % 2 ^ 64) i (omega (arith, h)) (omega arith)
    ∙ ap some (omega arith)

-- Among any 2 ^ 64 workers in a row, no two have the same id, although the counter wraps.
pub worker_ids-distinct :
    (n start i j : ℕ)
    → n ≤ 2 ^ 64
    → start < 2 ^ 64
    → i < n
    → j < n
    → i ≢ j
    → get_elem? (worker_ids n start) i ≢ get_elem? (worker_ids n start) j
worker_ids-distinct n start i j few within h k differ same =
    let ids : (start + i) % 2 ^ 64 ≡ (start + j) % 2 ^ 64 = some-injective _ _ (
      sym (get_elem?-worker_ids n start i h within)
      ∙ same
      ∙ get_elem?-worker_ids n start j k within) in
    differ (omega (arith, ids, few, within, h, k))
