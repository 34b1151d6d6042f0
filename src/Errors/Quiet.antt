-- ===== src/Errors/Quiet.antt =====
-- Every function of evt_apply.go but that of the event "cmd_name" returns without an error, where it
-- returns.
use trace2receiver.Common.{◌≡◌, refl, arith, none, lookup, string_eq, Option-cases, inl, inr}
use trace2receiver.Runtime.{Runtime}
use trace2receiver.Event.{TrEvent}
use trace2receiver.Dataset.{Trace2Dataset}
use trace2receiver.Dataset.Stack.Pop.{pop_all_region_stack_lem}
use trace2receiver.Apply.Effect.{FnApply, Outcome}
use trace2receiver.Apply.Process.{
  apply_version, apply_start, apply_atexit, apply_signal, apply_error, apply_cmd_path,
  apply_cmd_ancestry, apply_cmd_mode, apply_alias, apply_def_param, apply_def_repo,
}
use trace2receiver.Apply.Work.{
  apply_child_start, apply_child_exit, apply_child_ready, apply_thread_start, apply_thread_exit,
  apply_exec, apply_exec_result,
}
use trace2receiver.Apply.Regions.{apply_region_enter, apply_region_leave, apply_data_generic}
use trace2receiver.Apply.Totals.{apply_timer, apply_th_timer, apply_counter, apply_th_counter}

abbrev pub IsQuiet : FnApply → Type 0
IsQuiet afn =
    (tr2 : Trace2Dataset) (evt : TrEvent) → Outcome (λ d e. e ≡ none) (λ p. Unit) (afn tr2 evt)

pub apply_version-IsQuiet : (rt : Runtime) → IsQuiet (apply_version rt)
unfolding apply_version
apply_version-IsQuiet rt tr2 evt = ground arith

pub apply_start-IsQuiet : IsQuiet apply_start
unfolding apply_start
apply_start-IsQuiet tr2 evt = ground arith

pub apply_atexit-IsQuiet : IsQuiet apply_atexit
unfolding apply_atexit
apply_atexit-IsQuiet tr2 evt = ground arith

pub apply_signal-IsQuiet : IsQuiet apply_signal
unfolding apply_signal
apply_signal-IsQuiet tr2 evt = ground arith

pub apply_error-IsQuiet : IsQuiet apply_error
unfolding apply_error
apply_error-IsQuiet tr2 evt = ground arith

pub apply_cmd_path-IsQuiet : IsQuiet apply_cmd_path
unfolding apply_cmd_path
apply_cmd_path-IsQuiet tr2 evt = ground arith

pub apply_cmd_ancestry-IsQuiet : IsQuiet apply_cmd_ancestry
unfolding apply_cmd_ancestry
apply_cmd_ancestry-IsQuiet tr2 evt = ground arith

pub apply_cmd_mode-IsQuiet : IsQuiet apply_cmd_mode
unfolding apply_cmd_mode
apply_cmd_mode-IsQuiet tr2 evt = ground arith

pub apply_alias-IsQuiet : IsQuiet apply_alias
unfolding apply_alias
apply_alias-IsQuiet tr2 evt = ground arith

pub apply_def_param-IsQuiet : IsQuiet apply_def_param
unfolding apply_def_param
apply_def_param-IsQuiet tr2 evt = ground arith

pub apply_def_repo-IsQuiet : IsQuiet apply_def_repo
unfolding apply_def_repo
apply_def_repo-IsQuiet tr2 evt = ground arith

pub apply_child_start-IsQuiet : (rt : Runtime) → IsQuiet (apply_child_start rt)
unfolding apply_child_start
apply_child_start-IsQuiet rt tr2 evt = ground arith

pub apply_child_exit-IsQuiet : IsQuiet apply_child_exit
unfolding apply_child_exit
apply_child_exit-IsQuiet tr2 evt = ground arith

pub apply_child_ready-IsQuiet : IsQuiet apply_child_ready
unfolding apply_child_ready
apply_child_ready-IsQuiet tr2 evt = ground arith

pub apply_thread_start-IsQuiet : (rt : Runtime) → IsQuiet (apply_thread_start rt)
unfolding apply_thread_start
apply_thread_start-IsQuiet rt tr2 evt = ground arith

pub apply_thread_exit-IsQuiet : IsQuiet apply_thread_exit
unfolding apply_thread_exit
apply_thread_exit-IsQuiet tr2 evt = elim (Option-cases (lookup evt.mf_thread tr2.threads)) [
  | inl missing ↦ rw (missing, apply_thread_exit) refl
  | inr (th, found) ↦
      rw (found, apply_thread_exit, pop_all_region_stack_lem th tr2.completed_regions evt.mf_time)
        refl
]

pub apply_exec-IsQuiet : (rt : Runtime) → IsQuiet (apply_exec rt)
unfolding apply_exec
apply_exec-IsQuiet rt tr2 evt = ground arith

pub apply_exec_result-IsQuiet : IsQuiet apply_exec_result
unfolding apply_exec_result
apply_exec_result-IsQuiet tr2 evt = ground arith

pub apply_region_enter-IsQuiet : (rt : Runtime) → IsQuiet (apply_region_enter rt)
unfolding apply_region_enter
apply_region_enter-IsQuiet rt tr2 evt = ground arith

pub apply_region_leave-IsQuiet : IsQuiet apply_region_leave
unfolding apply_region_leave
apply_region_leave-IsQuiet tr2 evt = ground arith

pub apply_data_generic-IsQuiet : IsQuiet apply_data_generic
unfolding apply_data_generic
apply_data_generic-IsQuiet tr2 evt = ground arith

pub apply_timer-IsQuiet : IsQuiet apply_timer
unfolding apply_timer
apply_timer-IsQuiet tr2 evt = ground arith

pub apply_th_timer-IsQuiet : IsQuiet apply_th_timer
unfolding apply_th_timer
apply_th_timer-IsQuiet tr2 evt = ground arith

pub apply_counter-IsQuiet : IsQuiet apply_counter
unfolding apply_counter
apply_counter-IsQuiet tr2 evt = ground arith

pub apply_th_counter-IsQuiet : IsQuiet apply_th_counter
unfolding apply_th_counter
apply_th_counter-IsQuiet tr2 evt = ground arith
