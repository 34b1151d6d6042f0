-- ===== src/Errors.antt =====
-- Which errors `evt_apply` returns, and when.
pub mod Quiet
use mathlib.Core.Option.{some-ne-none, some-injective}
use trace2receiver.Common.{
  ◌≡◌, ◌⊎◌, refl, sym, ap, arith, String, true, Option, none, some, inl, inr, lookup, string_eq,
  All, lookup-All, Option-cases, Bool-cases, ◌==◌, GoError, reject_client_error, ret, eq_iff, ◌∙◌,
}
use trace2receiver.Common.Panics.{deref, >>=-eq-ret, ret-injective, deref-eq-ret}
use trace2receiver.Runtime.{Runtime}
use trace2receiver.Event.{TrEvent, TrEventCmdName}
use trace2receiver.Dataset.{Trace2Dataset}
use trace2receiver.Apply.Effect.{FnApply, Applied, Outcome, Outcome-ret}
use trace2receiver.Apply.Process.{apply_cmd_name, is_fsmonitor_daemon}
use trace2receiver.Apply.{applymap, evt_apply}
use Quiet.{
  IsQuiet, apply_alias-IsQuiet, apply_atexit-IsQuiet, apply_child_exit-IsQuiet,
  apply_child_ready-IsQuiet, apply_child_start-IsQuiet, apply_cmd_ancestry-IsQuiet,
  apply_cmd_mode-IsQuiet, apply_cmd_path-IsQuiet, apply_counter-IsQuiet, apply_data_generic-IsQuiet,
  apply_def_param-IsQuiet, apply_def_repo-IsQuiet, apply_error-IsQuiet, apply_exec-IsQuiet,
  apply_exec_result-IsQuiet, apply_region_enter-IsQuiet, apply_region_leave-IsQuiet,
  apply_signal-IsQuiet, apply_start-IsQuiet, apply_th_counter-IsQuiet, apply_th_timer-IsQuiet,
  apply_thread_exit-IsQuiet, apply_thread_start-IsQuiet, apply_timer-IsQuiet, apply_version-IsQuiet,
}

-- The event that ends a client's stream.
abbrev pub NamesDaemon : TrEvent → Type 0
NamesDaemon evt =
    (c : TrEventCmdName) × (evt.pm_cmd_name ≡ some c) × (c.mf_name ≡ "fsmonitor--daemon")

is_fsmonitor_daemon_lem :
    (verb : String) {e : GoError}
    → is_fsmonitor_daemon verb ≡ some e
    → (e ≡ reject_client_error "rejecting telemetry from fsmonitor--daemon" true)
      × (verb ≡ "fsmonitor--daemon")
unfolding is_fsmonitor_daemon
is_fsmonitor_daemon_lem verb h = ground (arith, eq_iff verb "fsmonitor--daemon")

apply_cmd_name_lem :
    (tr2 tr2' : Trace2Dataset) (evt : TrEvent) (e : GoError)
    → apply_cmd_name tr2 evt ≡ ret (tr2', some e)
    → (tr2' ≡ tr2)
      × (e ≡ reject_client_error "rejecting telemetry from fsmonitor--daemon" true)
      × NamesDaemon evt
unfolding apply_cmd_name
apply_cmd_name_lem tr2 tr2' evt e h =
    let (c, read, rest) = >>=-eq-ret (deref evt.pm_cmd_name) _ h in
    elim (Option-cases (is_fsmonitor_daemon c.mf_name)) [
      | inl other ↦ cc (rw other at rest)
      | inr (err, daemon) ↦
          let returned = ret-injective (rw daemon at rest) in
          let (rejection, name) = is_fsmonitor_daemon_lem c.mf_name daemon in
          (
            sym (ap (λ p. p.0) returned),
            some-injective _ _ (sym (ap (λ p. p.1) returned)) ∙ rejection,
            (c, deref-eq-ret evt.pm_cmd_name read, name),
          )
    ]

-- The function of cmd_name, or one that returns no error.
abbrev IsEntry : String → FnApply → Type 0
IsEntry event afn =
    (event ≡ "cmd_name")
      × ((tr2 : Trace2Dataset) (evt : TrEvent) → afn tr2 evt ≡ apply_cmd_name tr2 evt)
    ⊎ IsQuiet afn

module _ (rt : Runtime) where
  applymap_errors : All (λ (x : String × FnApply). IsEntry x.0 x.1) (applymap rt)
  unfolding applymap
  applymap_errors = (
    inr (apply_version-IsQuiet rt),
    (
      inr apply_start-IsQuiet,
      (
        inr apply_atexit-IsQuiet,
        (
          inr apply_atexit-IsQuiet,
          (
            inr apply_signal-IsQuiet,
            (
              inr apply_error-IsQuiet,
              (
                inr apply_cmd_path-IsQuiet,
                (
                  inr apply_cmd_ancestry-IsQuiet,
                  (
                    inl (refl, λ tr2 evt. refl),
                    (
                      inr apply_cmd_mode-IsQuiet,
                      (
                        inr apply_alias-IsQuiet,
                        (
                          inr (apply_child_start-IsQuiet rt),
                          (
                            inr apply_child_exit-IsQuiet,
                            (
                              inr apply_child_ready-IsQuiet,
                              (
                                inr (apply_thread_start-IsQuiet rt),
                                (
                                  inr apply_thread_exit-IsQuiet,
                                  (
                                    inr (apply_exec-IsQuiet rt),
                                    (
                                      inr apply_exec_result-IsQuiet,
                                      (
                                        inr apply_def_param-IsQuiet,
                                        (
                                          inr apply_def_repo-IsQuiet,
                                          (
                                            inr (apply_region_enter-IsQuiet rt),
                                            (
                                              inr apply_region_leave-IsQuiet,
                                              (
                                                inr apply_data_generic-IsQuiet,
                                                (
                                                  inr apply_data_generic-IsQuiet,
                                                  (
                                                    inr apply_timer-IsQuiet,
                                                    (
                                                      inr apply_th_timer-IsQuiet,
                                                      (
                                                        inr apply_counter-IsQuiet,
                                                        (inr apply_th_counter-IsQuiet, tt),
                                                      ),
                                                    ),
                                                  ),
                                                ),
                                              ),
                                            ),
                                          ),
                                        ),
                                      ),
                                    ),
                                  ),
                                ),
                              ),
                            ),
                          ),
                        ),
                      ),
                    ),
                  ),
                ),
              ),
            ),
          ),
        ),
      ),
    ),
  )

  -- The only error of an event is the rejection of the client, and only a cmd_name event that names
  -- the fsmonitor daemon returns it; the dataset is as it was.
  pub evt_apply-error :
      (tr2 tr2' : Trace2Dataset) (evt : TrEvent) (e : GoError)
      → evt_apply rt tr2 evt ≡ ret (tr2', some e)
      → (tr2' ≡ tr2)
        × (e ≡ reject_client_error "rejecting telemetry from fsmonitor--daemon" true)
        × (evt.mf_event ≡ "cmd_name")
        × NamesDaemon evt
  unfolding evt_apply
  evt_apply-error tr2 tr2' evt e run = elim (Option-cases (lookup evt.mf_event (applymap rt))) [
    | inl missing ↦ cc (rw missing at run)
    | inr (afn, found) ↦
        let run' = rw found at run in
        elim (lookup-All IsEntry evt.mf_event (applymap rt) applymap_errors found) [
          | inl (name, same) ↦
              let (kept, rejection, daemon) =
                apply_cmd_name_lem tr2 tr2' evt e (sym (same tr2 evt) ∙ run') in
              (kept, rejection, name, daemon)
          | inr quiet ↦ absurd (
              some-ne-none _
                (Outcome-ret (λ d x. x ≡ none) (λ p. Unit) (afn tr2 evt) (quiet tr2 evt) run'))
        ]
  ]
