-- ===== src/Privacy/Events.antt =====
-- Every event, and every line, keeps the personal data; so what a worker exports has what the
-- settings ask for.
use trace2receiver.Common.{
  ◌≡◌, sym, ◌∙◌, ap, String, Bool, true, inl, inr, Option, Option-cases, All, lookup, lookup-All,
  string_eq, ret, GoError,
}
use trace2receiver.Common.Panics.{ret-injective}
use trace2receiver.Runtime.{Runtime}
use trace2receiver.Event.{TrEvent}
use trace2receiver.Dataset.{Trace2Dataset}
use trace2receiver.Apply.Effect.{FnApply, Outcome-ret}
use trace2receiver.Apply.{applymap, evt_apply, process_raw_line}
use trace2receiver.Lines.{process_raw_line-cases}
use trace2receiver.Privacy.{
  IsKept, apply_alias-IsKept, apply_atexit-IsKept, apply_child_exit-IsKept,
  apply_child_ready-IsKept, apply_child_start-IsKept, apply_cmd_ancestry-IsKept,
  apply_cmd_mode-IsKept, apply_cmd_name-IsKept, apply_cmd_path-IsKept, apply_counter-IsKept,
  apply_data_generic-IsKept, apply_def_param-IsKept, apply_def_repo-IsKept, apply_error-IsKept,
  apply_exec-IsKept, apply_exec_result-IsKept, apply_region_enter-IsKept, apply_region_leave-IsKept,
  apply_signal-IsKept, apply_start-IsKept, apply_th_counter-IsKept, apply_th_timer-IsKept,
  apply_thread_exit-IsKept, apply_thread_start-IsKept, apply_timer-IsKept, apply_version-IsKept,
}

module _ (rt : Runtime) where
  applymap-IsKept : All (λ (x : String × FnApply). IsKept x.1) (applymap rt)
  unfolding applymap
  applymap-IsKept = (
    apply_version-IsKept rt,
    (
      apply_start-IsKept,
      (
        apply_atexit-IsKept,
        (
          apply_atexit-IsKept,
          (
            apply_signal-IsKept,
            (
              apply_error-IsKept,
              (
                apply_cmd_path-IsKept,
                (
                  apply_cmd_ancestry-IsKept,
                  (
                    apply_cmd_name-IsKept,
                    (
                      apply_cmd_mode-IsKept,
                      (
                        apply_alias-IsKept,
                        (
                          apply_child_start-IsKept rt,
                          (
                            apply_child_exit-IsKept,
                            (
                              apply_child_ready-IsKept,
                              (
                                apply_thread_start-IsKept rt,
                                (
                                  apply_thread_exit-IsKept,
                                  (
                                    apply_exec-IsKept rt,
                                    (
                                      apply_exec_result-IsKept,
                                      (
                                        apply_def_param-IsKept,
                                        (
                                          apply_def_repo-IsKept,
                                          (
                                            apply_region_enter-IsKept rt,
                                            (
                                              apply_region_leave-IsKept,
                                              (
                                                apply_data_generic-IsKept,
                                                (
                                                  apply_data_generic-IsKept,
                                                  (
                                                    apply_timer-IsKept,
                                                    (
                                                      apply_th_timer-IsKept,
                                                      (
                                                        apply_counter-IsKept,
                                                        (apply_th_counter-IsKept, tt),
                                                      ),
                                                    ),
                                                  ),
                                                ),
                                              ),
                                            ),
                                          ),
                                        ),
                                      ),
                                    ),
                                  ),
                                ),
                              ),
                            ),
                          ),
                        ),
                      ),
                    ),
                  ),
                ),
              ),
            ),
          ),
        ),
      ),
    ),
  )

  -- An event that returns leaves the personal data as it was.
  pub pii-evt_apply :
      (tr2 tr2' : Trace2Dataset) (evt : TrEvent) (e : Option GoError)
      → evt_apply rt tr2 evt ≡ ret (tr2', e)
      → tr2'.pii ≡ tr2.pii
  unfolding evt_apply
  pii-evt_apply tr2 tr2' evt e run = elim (Option-cases (lookup evt.mf_event (applymap rt))) [
    | inl missing ↦ ap (λ p. p.0.pii) (sym (ret-injective (rw (missing, evt_apply) at run)))
    | inr (afn, found) ↦
        Outcome-ret (λ d x. d.pii ≡ tr2.pii) (λ p. Unit) (afn tr2 evt)
          (lookup-All (λ event f. IsKept f) evt.mf_event (applymap rt) applymap-IsKept found tr2
            evt)
          (rw (found, evt_apply) at run)
  ]

  pub pii-process_raw_line :
      (line : String) (tr2 tr2' : Trace2Dataset) (e : Option GoError) (allow : Bool)
      → process_raw_line rt line tr2 allow ≡ ret (tr2', e)
      → tr2'.pii ≡ tr2.pii
  pii-process_raw_line line tr2 tr2' e allow run = elim (process_raw_line-cases rt line tr2 allow) [
    | inl ignored ↦ ap (λ p. p.0.pii) (ret-injective (sym run ∙ ignored))
    | inr (inl (bad, failed, kept)) ↦ ap (λ p. p.0.pii) (ret-injective (sym run ∙ kept))
    | inr (inr (evt, read, applied)) ↦
        pii-evt_apply (record tr2 { saw_data = true }) tr2' evt e (sym applied ∙ run)
  ]
