-- ===== src/Linked/Events.antt =====
-- Every event keeps the links.
use trace2receiver.Common.{
  ◌≡◌, String, Option, Option-cases, inl, inr, All, lookup, lookup-All, string_eq, ret, GoError,
}
use trace2receiver.Runtime.{Runtime}
use trace2receiver.Event.{TrEvent}
use trace2receiver.Dataset.{Trace2Dataset}
use trace2receiver.Apply.Effect.{FnApply, Outcome-ret}
use trace2receiver.Apply.{applymap, evt_apply}
use trace2receiver.Nesting.{IsWellNested}
use trace2receiver.Linked.{IsFresh, IsLinked, Linked, Keeps}
use trace2receiver.Linked.Process.{
  apply_version-Keeps, apply_start-Keeps, apply_atexit-Keeps, apply_signal-Keeps, apply_error-Keeps,
  apply_cmd_path-Keeps, apply_cmd_ancestry-Keeps, apply_cmd_name-Keeps, apply_cmd_mode-Keeps,
  apply_alias-Keeps, apply_def_param-Keeps, apply_def_repo-Keeps, apply_timer-Keeps,
  apply_th_timer-Keeps, apply_counter-Keeps, apply_th_counter-Keeps,
}
use trace2receiver.Linked.Work.{
  apply_child_start-Keeps, apply_child_exit-Keeps, apply_child_ready-Keeps,
  apply_thread_start-Keeps, apply_thread_exit-Keeps, apply_exec-Keeps, apply_exec_result-Keeps,
}
use trace2receiver.Linked.Regions.{
  apply_region_enter-Keeps, apply_region_leave-Keeps, apply_data_generic-Keeps,
}

module _ (rt : Runtime) where
  applymap-Keeps : All (λ (x : String × FnApply). Keeps x.0 x.1) (applymap rt)
  unfolding applymap
  applymap-Keeps = (
    apply_version-Keeps rt,
    (
      apply_start-Keeps,
      (
        apply_atexit-Keeps "exit",
        (
          apply_atexit-Keeps "atexit",
          (
            apply_signal-Keeps,
            (
              apply_error-Keeps,
              (
                apply_cmd_path-Keeps,
                (
                  apply_cmd_ancestry-Keeps,
                  (
                    apply_cmd_name-Keeps,
                    (
                      apply_cmd_mode-Keeps,
                      (
                        apply_alias-Keeps,
                        (
                          apply_child_start-Keeps rt,
                          (
                            apply_child_exit-Keeps,
                            (
                              apply_child_ready-Keeps,
                              (
                                apply_thread_start-Keeps rt,
                                (
                                  apply_thread_exit-Keeps,
                                  (
                                    apply_exec-Keeps rt,
                                    (
                                      apply_exec_result-Keeps,
                                      (
                                        apply_def_param-Keeps,
                                        (
                                          apply_def_repo-Keeps,
                                          (
                                            apply_region_enter-Keeps rt,
                                            (
                                              apply_region_leave-Keeps,
                                              (
                                                apply_data_generic-Keeps "data",
                                                (
                                                  apply_data_generic-Keeps "data_json",
                                                  (
                                                    apply_timer-Keeps,
                                                    (
                                                      apply_th_timer-Keeps,
                                                      (
                                                        apply_counter-Keeps,
                                                        (apply_th_counter-Keeps, tt),
                                                      ),
                                                    ),
                                                  ),
                                                ),
                                              ),
                                            ),
                                          ),
                                        ),
                                      ),
                                    ),
                                  ),
                                ),
                              ),
                            ),
                          ),
                        ),
                      ),
                    ),
                  ),
                ),
              ),
            ),
          ),
        ),
      ),
    ),
  )

  evt_apply-Keeps :
      (tr2 : Trace2Dataset) (evt : TrEvent)
      → (evt.mf_event ≡ "version" → IsFresh tr2)
      → IsWellNested tr2
      → IsLinked tr2
      → Linked (evt_apply rt tr2 evt)
  unfolding evt_apply
  evt_apply-Keeps tr2 evt first h k = elim (Option-cases (lookup evt.mf_event (applymap rt))) [
    | inl missing ↦ rw (missing, evt_apply) k
    | inr (afn, found) ↦
        rw (found, evt_apply)
          (lookup-All (λ event f. Keeps event f) evt.mf_event (applymap rt) applymap-Keeps found tr2
            evt first h k)
  ]

  -- If the regions of every thread are well nested and the dataset is linked (the parent of every
  -- completed region is the span id of a thread or of a region that the dataset has, open or
  -- completed, and the parent of every thread, child and exec is the main thread), it is still
  -- linked after any event that returns, where a version event finds a fresh dataset.
  pub evt_apply-IsLinked :
      (tr2 tr2' : Trace2Dataset) (evt : TrEvent) (e : Option GoError)
      → (evt.mf_event ≡ "version" → IsFresh tr2)
      → IsWellNested tr2
      → IsLinked tr2
      → evt_apply rt tr2 evt ≡ ret (tr2', e)
      → IsLinked tr2'
  evt_apply-IsLinked tr2 tr2' evt e first h k run =
      Outcome-ret (λ d x. IsLinked d) (λ p. Unit) (evt_apply rt tr2 evt)
        (evt_apply-Keeps tr2 evt first h k) run
