-- ===== src/Nesting/Events.antt =====
-- Every event keeps every stack.
use trace2receiver.Common.{
  ◌≡◌, String, [], Option, Option-cases, inl, inr, All, lookup, lookup-All, string_eq, ret, GoError,
}
use trace2receiver.Runtime.{Runtime}
use trace2receiver.Event.{TrEvent}
use trace2receiver.Dataset.{Trace2Dataset}
use trace2receiver.Apply.Effect.{FnApply, Outcome-ret}
use trace2receiver.Apply.{applymap, evt_apply}
use trace2receiver.Nesting.{IsWellNested, Nested, Keeps}
use trace2receiver.Nesting.Process.{
  apply_version-Keeps, apply_start-Keeps, apply_atexit-Keeps, apply_signal-Keeps, apply_error-Keeps,
  apply_cmd_path-Keeps, apply_cmd_ancestry-Keeps, apply_cmd_name-Keeps, apply_cmd_mode-Keeps,
  apply_alias-Keeps, apply_def_param-Keeps, apply_def_repo-Keeps, apply_timer-Keeps,
  apply_th_timer-Keeps, apply_counter-Keeps, apply_th_counter-Keeps,
}
use trace2receiver.Nesting.Work.{
  apply_child_start-Keeps, apply_child_exit-Keeps, apply_child_ready-Keeps,
  apply_thread_start-Keeps, apply_thread_exit-Keeps, apply_exec-Keeps, apply_exec_result-Keeps,
}
use trace2receiver.Nesting.Regions.{
  apply_region_enter-Keeps, apply_region_leave-Keeps, apply_data_generic-Keeps,
}

module _ (rt : Runtime) where
  applymap-Keeps : All (λ (x : String × FnApply). Keeps x.0 x.1) (applymap rt)
  unfolding applymap
  applymap-Keeps = (
    apply_version-Keeps rt,
    (
      apply_start-Keeps,
      (
        apply_atexit-Keeps "exit",
        (
          apply_atexit-Keeps "atexit",
          (
            apply_signal-Keeps,
            (
              apply_error-Keeps,
              (
                apply_cmd_path-Keeps,
                (
                  apply_cmd_ancestry-Keeps,
                  (
                    apply_cmd_name-Keeps,
                    (
                      apply_cmd_mode-Keeps,
                      (
                        apply_alias-Keeps,
                        (
                          apply_child_start-Keeps rt,
                          (
                            apply_child_exit-Keeps,
                            (
                              apply_child_ready-Keeps,
                              (
                                apply_thread_start-Keeps rt,
                                (
                                  apply_thread_exit-Keeps,
                                  (
                                    apply_exec-Keeps rt,
                                    (
                                      apply_exec_result-Keeps,
                                      (
                                        apply_def_param-Keeps,
                                        (
                                          apply_def_repo-Keeps,
                                          (
                                            apply_region_enter-Keeps rt,
                                            (
                                              apply_region_leave-Keeps,
                                              (
                                                apply_data_generic-Keeps "data",
                                                (
                                                  apply_data_generic-Keeps "data_json",
                                                  (
                                                    apply_timer-Keeps,
                                                    (
                                                      apply_th_timer-Keeps,
                                                      (
                                                        apply_counter-Keeps,
                                                        (apply_th_counter-Keeps, tt),
                                                      ),
                                                    ),
                                                  ),
                                                ),
                                              ),
                                            ),
                                          ),
                                        ),
                                      ),
                                    ),
                                  ),
                                ),
                              ),
                            ),
                          ),
                        ),
                      ),
                    ),
                  ),
                ),
              ),
            ),
          ),
        ),
      ),
    ),
  )

  evt_apply-Keeps :
      (tr2 : Trace2Dataset) (evt : TrEvent)
      → (evt.mf_event ≡ "version" → tr2.process.main_thread.region_stack ≡ [])
      → IsWellNested tr2
      → Nested (evt_apply rt tr2 evt)
  unfolding evt_apply
  evt_apply-Keeps tr2 evt first h = elim (Option-cases (lookup evt.mf_event (applymap rt))) [
    | inl missing ↦ rw (missing, evt_apply) h
    | inr (afn, found) ↦
        rw (found, evt_apply)
          (lookup-All (λ k f. Keeps k f) evt.mf_event (applymap rt) applymap-Keeps found tr2 evt
            first h)
  ]

  -- If the open regions of every thread form a well-nested stack (each region is open, one level
  -- above its index, and a child of the region below it, the bottom one of the thread), they still
  -- do after any event that returns, where a version event comes while no region is open on the main
  -- thread.
  pub evt_apply-IsWellNested :
      (tr2 tr2' : Trace2Dataset) (evt : TrEvent) (e : Option GoError)
      → (evt.mf_event ≡ "version" → tr2.process.main_thread.region_stack ≡ [])
      → IsWellNested tr2
      → evt_apply rt tr2 evt ≡ ret (tr2', e)
      → IsWellNested tr2'
  evt_apply-IsWellNested tr2 tr2' evt e first h run =
      Outcome-ret (λ d x. IsWellNested d) (λ p. Unit) (evt_apply rt tr2 evt)
        (evt_apply-Keeps tr2 evt first h) run
