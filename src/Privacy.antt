-- ===== src/Privacy.antt =====
-- The personal data of a dataset, over every event.
pub mod Events
use trace2receiver.Common.{◌≡◌, refl, arith}
use trace2receiver.Runtime.{Runtime}
use trace2receiver.Event.{TrEvent}
use trace2receiver.Dataset.{Trace2Dataset}
use trace2receiver.Dataset.Stack.{
  store_thread, new_span_id, lookup_top_parent_span_id, pop_all_region_stack,
}
use trace2receiver.Apply.Effect.{FnApply, Outcome}
use trace2receiver.Apply.Process.{
  apply_version, apply_start, apply_atexit, apply_signal, apply_error, apply_cmd_path,
  apply_cmd_ancestry, apply_cmd_name, apply_cmd_mode, apply_alias, apply_def_param, apply_def_repo,
}
use trace2receiver.Apply.Work.{
  apply_child_start, apply_child_exit, apply_child_ready, apply_thread_start, apply_thread_exit,
  apply_exec, apply_exec_result,
}
use trace2receiver.Apply.Regions.{
  apply_region_enter, apply_region_leave, apply_data_generic, push_region, leave_region,
  region_data,
}
use trace2receiver.Apply.Totals.{apply_timer, apply_th_timer, apply_counter, apply_th_counter}

-- What each function of the table keeps.
abbrev pub IsKept : FnApply → Type 0
IsKept afn =
    (tr2 : Trace2Dataset) (evt : TrEvent)
    → Outcome (λ tr2' e. tr2'.pii ≡ tr2.pii) (λ p. Unit) (afn tr2 evt)

pub apply_start-IsKept : IsKept apply_start
unfolding apply_start store_thread
apply_start-IsKept tr2 evt = ground arith

pub apply_atexit-IsKept : IsKept apply_atexit
unfolding apply_atexit store_thread
apply_atexit-IsKept tr2 evt = ground arith

pub apply_signal-IsKept : IsKept apply_signal
unfolding apply_signal store_thread
apply_signal-IsKept tr2 evt = ground arith

pub apply_error-IsKept : IsKept apply_error
unfolding apply_error store_thread
apply_error-IsKept tr2 evt = ground arith

pub apply_cmd_path-IsKept : IsKept apply_cmd_path
unfolding apply_cmd_path store_thread
apply_cmd_path-IsKept tr2 evt = ground arith

pub apply_cmd_ancestry-IsKept : IsKept apply_cmd_ancestry
unfolding apply_cmd_ancestry store_thread
apply_cmd_ancestry-IsKept tr2 evt = ground arith

pub apply_cmd_name-IsKept : IsKept apply_cmd_name
unfolding apply_cmd_name store_thread
apply_cmd_name-IsKept tr2 evt = ground arith

pub apply_cmd_mode-IsKept : IsKept apply_cmd_mode
unfolding apply_cmd_mode store_thread
apply_cmd_mode-IsKept tr2 evt = ground arith

pub apply_alias-IsKept : IsKept apply_alias
unfolding apply_alias store_thread
apply_alias-IsKept tr2 evt = ground arith

pub apply_def_param-IsKept : IsKept apply_def_param
unfolding apply_def_param store_thread
apply_def_param-IsKept tr2 evt = ground arith

pub apply_def_repo-IsKept : IsKept apply_def_repo
unfolding apply_def_repo store_thread
apply_def_repo-IsKept tr2 evt = ground arith

pub apply_child_exit-IsKept : IsKept apply_child_exit
unfolding apply_child_exit store_thread
apply_child_exit-IsKept tr2 evt = ground arith

pub apply_child_ready-IsKept : IsKept apply_child_ready
unfolding apply_child_ready store_thread
apply_child_ready-IsKept tr2 evt = ground arith

pub apply_thread_exit-IsKept : IsKept apply_thread_exit
unfolding apply_thread_exit store_thread
apply_thread_exit-IsKept tr2 evt = ground arith

pub apply_exec_result-IsKept : IsKept apply_exec_result
unfolding apply_exec_result store_thread
apply_exec_result-IsKept tr2 evt = ground arith

pub apply_timer-IsKept : IsKept apply_timer
unfolding apply_timer store_thread
apply_timer-IsKept tr2 evt = ground arith

pub apply_th_timer-IsKept : IsKept apply_th_timer
unfolding apply_th_timer store_thread
apply_th_timer-IsKept tr2 evt = ground arith

pub apply_counter-IsKept : IsKept apply_counter
unfolding apply_counter store_thread
apply_counter-IsKept tr2 evt = ground arith

pub apply_th_counter-IsKept : IsKept apply_th_counter
unfolding apply_th_counter store_thread
apply_th_counter-IsKept tr2 evt = ground arith

pub apply_region_leave-IsKept : IsKept apply_region_leave
unfolding apply_region_leave store_thread leave_region
apply_region_leave-IsKept tr2 evt = ground arith

pub apply_data_generic-IsKept : IsKept apply_data_generic
unfolding apply_data_generic store_thread region_data
apply_data_generic-IsKept tr2 evt = ground arith

module _ (rt : Runtime) where
  pub apply_version-IsKept : IsKept (apply_version rt)
  unfolding apply_version store_thread
  apply_version-IsKept tr2 evt = ground arith

  pub apply_child_start-IsKept : IsKept (apply_child_start rt)
  unfolding apply_child_start store_thread new_span_id
  apply_child_start-IsKept tr2 evt = ground arith

  pub apply_thread_start-IsKept : IsKept (apply_thread_start rt)
  unfolding apply_thread_start store_thread new_span_id
  apply_thread_start-IsKept tr2 evt = ground arith

  pub apply_exec-IsKept : IsKept (apply_exec rt)
  unfolding apply_exec store_thread new_span_id
  apply_exec-IsKept tr2 evt = ground arith

  pub apply_region_enter-IsKept : IsKept (apply_region_enter rt)
  unfolding apply_region_enter store_thread push_region new_span_id
  apply_region_enter-IsKept tr2 evt = ground arith
