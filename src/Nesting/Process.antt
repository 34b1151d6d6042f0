-- ===== src/Nesting/Process.antt =====
-- The events about the process as a whole, and the timers and counters, keep every stack.
use trace2receiver.Common.{refl, arith, String}
use trace2receiver.Runtime.{Runtime}
use trace2receiver.Apply.Process.{
  apply_version, apply_start, apply_atexit, apply_signal, apply_error, apply_cmd_path,
  apply_cmd_ancestry, apply_cmd_name, apply_cmd_mode, apply_alias, apply_def_param, apply_def_repo,
}
use trace2receiver.Apply.Totals.{apply_timer, apply_th_timer, apply_counter, apply_th_counter}
use trace2receiver.Nesting.{Keeps, store_thread-IsWellNested, if_found-Nested, deref-Nested}

pub apply_start-Keeps : Keeps "start" apply_start
unfolding apply_start
apply_start-Keeps tr2 evt first h = ground arith

pub apply_error-Keeps : Keeps "error" apply_error
unfolding apply_error
apply_error-Keeps tr2 evt first h = ground arith

pub apply_cmd_path-Keeps : Keeps "cmd_path" apply_cmd_path
unfolding apply_cmd_path
apply_cmd_path-Keeps tr2 evt first h = ground arith

pub apply_cmd_ancestry-Keeps : Keeps "cmd_ancestry" apply_cmd_ancestry
unfolding apply_cmd_ancestry
apply_cmd_ancestry-Keeps tr2 evt first h = ground arith

pub apply_cmd_name-Keeps : Keeps "cmd_name" apply_cmd_name
unfolding apply_cmd_name
apply_cmd_name-Keeps tr2 evt first h = ground arith

pub apply_cmd_mode-Keeps : Keeps "cmd_mode" apply_cmd_mode
unfolding apply_cmd_mode
apply_cmd_mode-Keeps tr2 evt first h = ground arith

pub apply_alias-Keeps : Keeps "alias" apply_alias
unfolding apply_alias
apply_alias-Keeps tr2 evt first h = ground arith

pub apply_def_param-Keeps : Keeps "def_param" apply_def_param
unfolding apply_def_param
apply_def_param-Keeps tr2 evt first h = ground arith

pub apply_def_repo-Keeps : Keeps "def_repo" apply_def_repo
unfolding apply_def_repo
apply_def_repo-Keeps tr2 evt first h = ground arith

pub apply_atexit-Keeps : (event : String) → Keeps event apply_atexit
unfolding apply_atexit
apply_atexit-Keeps event tr2 evt first h = ground arith

pub apply_signal-Keeps : Keeps "signal" apply_signal
unfolding apply_signal
apply_signal-Keeps tr2 evt first h = ground arith

module _ (rt : Runtime) where
  pub apply_version-Keeps : Keeps "version" (apply_version rt)
  unfolding apply_version
  apply_version-Keeps tr2 evt first h = ground (arith, first refl)

pub apply_timer-Keeps : Keeps "timer" apply_timer
unfolding apply_timer
apply_timer-Keeps tr2 evt first h = ground arith

pub apply_th_timer-Keeps : Keeps "th_timer" apply_th_timer
unfolding apply_th_timer
apply_th_timer-Keeps tr2 evt first h =
    if_found-Nested tr2 evt.mf_thread _ h
      λ th k. deref-Nested evt.pm_timer _ λ t e. store_thread-IsWellNested tr2 evt.mf_thread _ h k

pub apply_counter-Keeps : Keeps "counter" apply_counter
unfolding apply_counter
apply_counter-Keeps tr2 evt first h = ground arith

pub apply_th_counter-Keeps : Keeps "th_counter" apply_th_counter
unfolding apply_th_counter
apply_th_counter-Keeps tr2 evt first h =
    if_found-Nested tr2 evt.mf_thread _ h
      λ th k. deref-Nested evt.pm_counter _ λ t e. store_thread-IsWellNested tr2 evt.mf_thread _ h k
