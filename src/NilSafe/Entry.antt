-- ===== src/NilSafe/Entry.antt =====
-- What an extractor leaves for the function of the same event.
pub mod Process
pub mod Work
use mathlib.Core.Option.{some-ne-none}
use trace2receiver.Common.{◌≡◌, ◌≢◌, arith, String, Option, none, some, All, lookup, string_eq, ok}
use trace2receiver.Json.{Jmap}
use trace2receiver.Runtime.{Runtime}
use trace2receiver.Event.{TrEvent}
use trace2receiver.Dataset.{Trace2Dataset}
use trace2receiver.Extract.Process.{
  extract_keys_version, extract_keys_start, extract_keys_atexit, extract_keys_signal,
  extract_keys_error, extract_keys_cmd_path, extract_keys_cmd_ancestry, extract_keys_cmd_name,
  extract_keys_cmd_mode, extract_keys_alias, extract_keys_def_param, extract_keys_def_repo,
}
use trace2receiver.Extract.Work.{
  extract_keys_child_start, extract_keys_child_exit, extract_keys_child_ready,
  extract_keys_thread_start, extract_keys_thread_exit, extract_keys_exec, extract_keys_exec_result,
  extract_keys_region_enter, extract_keys_region_leave, extract_keys_data, extract_keys_data_json,
  extract_keys_timer, extract_keys_counter,
}
use trace2receiver.Parse.{FnExtractKeys, ekm, run_extractor}
use trace2receiver.Apply.Effect.{FnApply}
use trace2receiver.Apply.Process.{apply_cmd_path}
use trace2receiver.Apply.{applymap, run_apply}
use trace2receiver.NilSafe.{NilSafe}
use trace2receiver.NilSafe.Present.{
  alias_present, atexit_present, child_exit_present, child_ready_present, child_start_present,
  cmd_ancestry_present, cmd_mode_present, cmd_name_present, cmd_path_present, counter_present,
  data_json_present, data_present, def_param_present, def_repo_present, error_present, exec_present,
  exec_result_present, region_enter_present, region_leave_present, signal_present, start_present,
  thread_exit_present, thread_start_present, timer_present, version_present,
}
use trace2receiver.NilSafe.Process.{
  version_safe, def_repo_safe, start_safe, atexit_safe, signal_safe, error_safe, cmd_ancestry_safe,
  cmd_name_safe, cmd_mode_safe, alias_safe, def_param_safe, timer_safe, th_timer_safe, counter_safe,
  th_counter_safe,
}
use trace2receiver.NilSafe.Work.{
  child_exit_safe, child_ready_safe, exec_result_safe, region_leave_safe, data_generic_safe,
  thread_exit_safe, child_start_safe, thread_start_safe, exec_safe, region_enter_safe,
}

module _ (rt : Runtime) where
  -- What is known of an event after its extractor, by the name under which both tables know it.
  abbrev pub Entry : String → Option FnExtractKeys → Type 0
  Entry k ekfn =
      (evt : TrEvent) (jm : Jmap) (evt' : TrEvent)
      → run_extractor rt (some ekfn) evt jm ≡ ok evt'
      → (evt'.mf_event ≡ evt.mf_event)
        × ((tr2 : Trace2Dataset) → NilSafe (run_apply rt (lookup k (applymap rt)) tr2 evt'))
