-- ===== src/Parse.antt =====
-- The parser of evt_parse.go: the table of extractors and `parse_json`. Lines are texts of code
-- points; logging is left out.
pub mod Line
use trace2receiver.Common.{
  String, Bool, Option, none, some, [], ◌∷◌, Dict, lookup, string_eq, ◌==◌, if◌then◌else◌, Result,
  ok,
}
use trace2receiver.Common.Fallible.{◌>>=◌}
use trace2receiver.Common.Text.{trim_space, cut_prefix}
use trace2receiver.Json.{Jmap}
use trace2receiver.Event.{TrEvent, new_event}
use trace2receiver.Extract.{extract_keys_common}
use trace2receiver.Extract.Process.{
  extract_keys_version, extract_keys_start, extract_keys_atexit, extract_keys_signal,
  extract_keys_error, extract_keys_cmd_path, extract_keys_cmd_ancestry, extract_keys_cmd_name,
  extract_keys_cmd_mode, extract_keys_alias, extract_keys_def_param, extract_keys_def_repo,
}
use trace2receiver.Extract.Work.{
  extract_keys_child_start, extract_keys_child_exit, extract_keys_child_ready,
  extract_keys_thread_start, extract_keys_thread_exit, extract_keys_exec, extract_keys_exec_result,
  extract_keys_region_enter, extract_keys_region_leave, extract_keys_data, extract_keys_data_json,
  extract_keys_timer, extract_keys_counter,
}
use trace2receiver.Runtime.{Runtime}

abbrev pub FnExtractKeys : Type 0
FnExtractKeys = TrEvent → Jmap → Result TrEvent

module _ (rt : Runtime) where
  -- `none` is the nil function of an event that is recognised and has no fields to extract.
  unfoldable pub ekm : Dict String (Option FnExtractKeys)
  ekm =
      ("version", some (extract_keys_version rt))
      ∷ ("start", some (extract_keys_start rt))
      ∷ ("exit", some (extract_keys_atexit rt))
      ∷ ("atexit", some (extract_keys_atexit rt))
      ∷ ("signal", some (extract_keys_signal rt))
      ∷ ("error", some (extract_keys_error rt))
      ∷ ("cmd_path", some (extract_keys_cmd_path rt))
      ∷ ("cmd_ancestry", some (extract_keys_cmd_ancestry rt))
      ∷ ("cmd_name", some (extract_keys_cmd_name rt))
      ∷ ("cmd_mode", some (extract_keys_cmd_mode rt))
      ∷ ("alias", some (extract_keys_alias rt))
      ∷ ("child_start", some (extract_keys_child_start rt))
      ∷ ("child_exit", some (extract_keys_child_exit rt))
      ∷ ("child_ready", some (extract_keys_child_ready rt))
      ∷ ("thread_start", some (extract_keys_thread_start rt))
      ∷ ("thread_exit", some (extract_keys_thread_exit rt))
      ∷ ("exec", some (extract_keys_exec rt))
      ∷ ("exec_result", some (extract_keys_exec_result rt))
      ∷ ("def_param", some (extract_keys_def_param rt))
      ∷ ("def_repo", some (extract_keys_def_repo rt))
      ∷ ("region_enter", some (extract_keys_region_enter rt))
      ∷ ("region_leave", some (extract_keys_region_leave rt))
      ∷ ("data", some (extract_keys_data rt))
      ∷ ("data_json", some (extract_keys_data_json rt))
      ∷ ("timer", some (extract_keys_timer rt))
      ∷ ("th_timer", some (extract_keys_timer rt))
      ∷ ("counter", some (extract_keys_counter rt))
      ∷ ("th_counter", some (extract_keys_counter rt))
      ∷ ("too_many_files", none)
      ∷ []

  -- An event that is not recognised, or has a nil extractor, keeps its common fields alone.
  unfoldable pub run_extractor : Option (Option FnExtractKeys) → TrEvent → Jmap → Result TrEvent
  run_extractor none evt jm = ok evt
  run_extractor (some none) evt jm = ok evt
  run_extractor (some (some ekfn)) evt jm = ekfn evt jm

  -- The part of parse_json behind json.Unmarshal.
  unfoldable pub parse_jmap : Jmap → Result TrEvent
  unfolding run_extractor
  parse_jmap jm = do
    evt ← extract_keys_common rt new_event jm
    run_extractor (lookup evt.mf_event ekm) evt jm

  unfoldable pub parse_json : String → Result TrEvent
  unfolding parse_jmap
  parse_json line = do jm ← rt.unmarshal line; parse_jmap jm
