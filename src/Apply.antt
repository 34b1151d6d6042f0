-- ===== src/Apply.antt =====
-- `evt_apply` of evt_apply.go with its table of functions, and `processRawLine` of evt_parse.go,
-- which feeds one line of a client's stream to the dataset. Logging is left out.
pub mod Effect
pub mod Names
pub mod Process
pub mod Work
pub mod Regions
pub mod Totals
pub mod Nested
pub mod Sids
use trace2receiver.Common.{
  String, Bool, true, Option, none, some, [], ◌∷◌, Dict, lookup, string_eq, Result, ok, err,
  GoError, ret,
}
use trace2receiver.Event.{TrEvent}
use trace2receiver.Parse.Line.{evt_parse}
use trace2receiver.Common.Panics.{◌>>=◌}
use trace2receiver.Dataset.{Trace2Dataset}
use trace2receiver.Runtime.{Runtime}
use Effect.{FnApply, Applied, done}
use Process.{
  apply_version, apply_start, apply_atexit, apply_signal, apply_error, apply_cmd_path,
  apply_cmd_ancestry, apply_cmd_name, apply_cmd_mode, apply_alias, apply_def_param, apply_def_repo,
}
use Work.{
  apply_child_start, apply_child_exit, apply_child_ready, apply_thread_start, apply_thread_exit,
  apply_exec, apply_exec_result,
}
use Regions.{apply_region_enter, apply_region_leave, apply_data_generic}
use Totals.{apply_timer, apply_th_timer, apply_counter, apply_th_counter}

module _ (rt : Runtime) where
  unfoldable pub applymap : Dict String FnApply
  applymap =
      ("version", apply_version rt)
      ∷ ("start", apply_start)
      ∷ ("exit", apply_atexit)
      ∷ ("atexit", apply_atexit)
      ∷ ("signal", apply_signal)
      ∷ ("error", apply_error)
      ∷ ("cmd_path", apply_cmd_path)
      ∷ ("cmd_ancestry", apply_cmd_ancestry)
      ∷ ("cmd_name", apply_cmd_name)
      ∷ ("cmd_mode", apply_cmd_mode)
      ∷ ("alias", apply_alias)
      ∷ ("child_start", apply_child_start rt)
      ∷ ("child_exit", apply_child_exit)
      ∷ ("child_ready", apply_child_ready)
      ∷ ("thread_start", apply_thread_start rt)
      ∷ ("thread_exit", apply_thread_exit)
      ∷ ("exec", apply_exec rt)
      ∷ ("exec_result", apply_exec_result)
      ∷ ("def_param", apply_def_param)
      ∷ ("def_repo", apply_def_repo)
      ∷ ("region_enter", apply_region_enter rt)
      ∷ ("region_leave", apply_region_leave)
      ∷ ("data", apply_data_generic)
      ∷ ("data_json", apply_data_generic)
      ∷ ("timer", apply_timer)
      ∷ ("th_timer", apply_th_timer)
      ∷ ("counter", apply_counter)
      ∷ ("th_counter", apply_th_counter)
      ∷ []

  abbrev pub run_apply : Option FnApply → Trace2Dataset → TrEvent → Applied
  run_apply none tr2 evt = done tr2
  run_apply (some afn) tr2 evt = afn tr2 evt

  -- An event that is not in the table is ignored.
  unfoldable pub evt_apply : FnApply
  evt_apply tr2 evt = run_apply (lookup evt.mf_event applymap) tr2 evt

  -- A line that fails to parse leaves the dataset alone; the rejection of a client and any other
  -- error are returned alike, and differ in what is logged.
  unfoldable pub process_raw_line : String → Trace2Dataset → Bool → Applied
  process_raw_line raw_line tr2 allow_commands = do
    parsed ← evt_parse rt raw_line allow_commands
    elim parsed [
      | err e ↦ ret (tr2, some e)
      | ok none ↦ done tr2
      | ok (some evt) ↦ evt_apply (record tr2 { saw_data = true }) evt
    ]
