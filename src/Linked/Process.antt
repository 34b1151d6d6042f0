-- ===== src/Linked/Process.antt =====
-- The events about the process as a whole, and the timers and counters, keep the links.
use trace2receiver.Common.{refl, arith, String, inl, inr, lookup, string_eq, Bool-cases}
use trace2receiver.Runtime.{Runtime}
use trace2receiver.Apply.Process.{
  keeps_value, get_scope_priority, apply_version, apply_start, apply_atexit, apply_signal,
  apply_error, apply_cmd_path, apply_cmd_ancestry, apply_cmd_name, apply_cmd_mode, apply_alias,
  apply_def_param, apply_def_repo,
}
use trace2receiver.Apply.Totals.{apply_timer, apply_th_timer, apply_counter, apply_th_counter}
use trace2receiver.Linked.{Keeps, if_found-Linked, deref-Linked}
use trace2receiver.Linked.Stores.{AreCompleted-same, store_thread-IsLinked}

pub apply_start-Keeps : Keeps "start" apply_start
unfolding apply_start
apply_start-Keeps tr2 evt first h k = ground arith

pub apply_error-Keeps : Keeps "error" apply_error
unfolding apply_error
apply_error-Keeps tr2 evt first h k = ground arith

pub apply_cmd_path-Keeps : Keeps "cmd_path" apply_cmd_path
unfolding apply_cmd_path
apply_cmd_path-Keeps tr2 evt first h k = ground arith

pub apply_cmd_ancestry-Keeps : Keeps "cmd_ancestry" apply_cmd_ancestry
unfolding apply_cmd_ancestry
apply_cmd_ancestry-Keeps tr2 evt first h k = ground arith

pub apply_cmd_name-Keeps : Keeps "cmd_name" apply_cmd_name
unfolding apply_cmd_name
apply_cmd_name-Keeps tr2 evt first h k = ground arith

pub apply_cmd_mode-Keeps : Keeps "cmd_mode" apply_cmd_mode
unfolding apply_cmd_mode
apply_cmd_mode-Keeps tr2 evt first h k = ground arith

pub apply_alias-Keeps : Keeps "alias" apply_alias
unfolding apply_alias
apply_alias-Keeps tr2 evt first h k = ground arith

pub apply_def_param-Keeps : Keeps "def_param" apply_def_param
unfolding apply_def_param
apply_def_param-Keeps tr2 evt first h k = deref-Linked evt.pm_def_param _ λ p e.
    let kept =
      keeps_value (lookup p.mf_param tr2.process.param_set_values)
        (lookup p.mf_param tr2.process.param_set_priorities) (get_scope_priority p.pmf_scope) in
    elim (Bool-cases kept) [ inl old ↦ rw old k | inr new ↦ rw new k ]

pub apply_def_repo-Keeps : Keeps "def_repo" apply_def_repo
unfolding apply_def_repo
apply_def_repo-Keeps tr2 evt first h k = ground arith

pub apply_atexit-Keeps : (event : String) → Keeps event apply_atexit
unfolding apply_atexit
apply_atexit-Keeps event tr2 evt first h k = ground arith

pub apply_signal-Keeps : Keeps "signal" apply_signal
unfolding apply_signal
apply_signal-Keeps tr2 evt first h k = ground arith

module _ (rt : Runtime) where
  pub apply_version-Keeps : Keeps "version" (apply_version rt)
  unfolding apply_version
  apply_version-Keeps tr2 evt first h k = ground (arith, first refl)

pub apply_timer-Keeps : Keeps "timer" apply_timer
unfolding apply_timer
apply_timer-Keeps tr2 evt first h k = ground arith

pub apply_th_timer-Keeps : Keeps "th_timer" apply_th_timer
unfolding apply_th_timer
apply_th_timer-Keeps tr2 evt first h k = if_found-Linked tr2 evt.mf_thread _ k λ th found.
    deref-Linked evt.pm_timer _ λ t e.
      store_thread-IsLinked tr2 tr2.completed_regions (AreCompleted-same tr2 k) evt.mf_thread th _
        found (refl, refl, λ s on. inl on) k

pub apply_counter-Keeps : Keeps "counter" apply_counter
unfolding apply_counter
apply_counter-Keeps tr2 evt first h k = ground arith

pub apply_th_counter-Keeps : Keeps "th_counter" apply_th_counter
unfolding apply_th_counter
apply_th_counter-Keeps tr2 evt first h k = if_found-Linked tr2 evt.mf_thread _ k λ th found.
    deref-Linked evt.pm_counter _ λ t e.
      store_thread-IsLinked tr2 tr2.completed_regions (AreCompleted-same tr2 k) evt.mf_thread th _
        found (refl, refl, λ s on. inl on) k
