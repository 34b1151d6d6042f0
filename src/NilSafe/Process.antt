-- ===== src/NilSafe/Process.antt =====
-- The functions for the process as a whole, the timers and the counters.
use trace2receiver.Common.{◌≢◌, arith, none}
use trace2receiver.Event.{TrEvent}
use trace2receiver.Dataset.{Trace2Dataset}
use trace2receiver.Runtime.{Runtime}
use trace2receiver.Apply.Process.{
  apply_version, apply_start, apply_atexit, apply_signal, apply_error, apply_cmd_ancestry,
  apply_cmd_name, apply_cmd_mode, apply_alias, apply_def_param, apply_def_repo,
}
use trace2receiver.Apply.Totals.{apply_timer, apply_th_timer, apply_counter, apply_th_counter}
use trace2receiver.NilSafe.{NilSafe}

module _ (tr2 : Trace2Dataset) (evt : TrEvent) where
  pub version_safe : (rt : Runtime) → evt.pm_version ≢ none → NilSafe (apply_version rt tr2 evt)
  unfolding apply_version
  version_safe rt h = ground arith

  pub def_repo_safe :
      evt.pmf_repo ≢ none → evt.pm_def_repo ≢ none → NilSafe (apply_def_repo tr2 evt)
  unfolding apply_def_repo
  def_repo_safe h k = ground arith

  pub start_safe : evt.pm_start ≢ none → NilSafe (apply_start tr2 evt)
  unfolding apply_start
  start_safe h = ground arith

  pub atexit_safe : evt.pm_atexit ≢ none → NilSafe (apply_atexit tr2 evt)
  unfolding apply_atexit
  atexit_safe h = ground arith

  pub signal_safe : evt.pm_signal ≢ none → NilSafe (apply_signal tr2 evt)
  unfolding apply_signal
  signal_safe h = ground arith

  pub error_safe : evt.pm_error ≢ none → NilSafe (apply_error tr2 evt)
  unfolding apply_error
  error_safe h = ground arith

  pub cmd_ancestry_safe : evt.pm_cmd_ancestry ≢ none → NilSafe (apply_cmd_ancestry tr2 evt)
  unfolding apply_cmd_ancestry
  cmd_ancestry_safe h = ground arith

  pub cmd_name_safe : evt.pm_cmd_name ≢ none → NilSafe (apply_cmd_name tr2 evt)
  unfolding apply_cmd_name
  cmd_name_safe h = ground arith

  pub cmd_mode_safe : evt.pm_cmd_mode ≢ none → NilSafe (apply_cmd_mode tr2 evt)
  unfolding apply_cmd_mode
  cmd_mode_safe h = ground arith

  pub alias_safe : evt.pm_alias ≢ none → NilSafe (apply_alias tr2 evt)
  unfolding apply_alias
  alias_safe h = ground arith

  pub def_param_safe : evt.pm_def_param ≢ none → NilSafe (apply_def_param tr2 evt)
  unfolding apply_def_param
  def_param_safe h = ground arith

  pub timer_safe : evt.pm_timer ≢ none → NilSafe (apply_timer tr2 evt)
  unfolding apply_timer
  timer_safe h = ground arith

  pub th_timer_safe : evt.pm_timer ≢ none → NilSafe (apply_th_timer tr2 evt)
  unfolding apply_th_timer
  th_timer_safe h = ground arith

  pub counter_safe : evt.pm_counter ≢ none → NilSafe (apply_counter tr2 evt)
  unfolding apply_counter
  counter_safe h = ground arith

  pub th_counter_safe : evt.pm_counter ≢ none → NilSafe (apply_th_counter tr2 evt)
  unfolding apply_th_counter
  th_counter_safe h = ground arith
