-- ===== src/NilSafe/Present.antt =====
-- Each extractor that succeeds sets the pointer that the function of the same event reads.
use trace2receiver.Common.{◌≡◌, ◌≢◌, arith, String, Option, none, some, eq_iff, ok}
use trace2receiver.Json.{Jmap}
use trace2receiver.Event.{TrEvent, TrEventChildStart}
use trace2receiver.Runtime.{Runtime}
use trace2receiver.Extract.Process.{
  extract_keys_version, extract_keys_start, extract_keys_cmd_path, extract_keys_atexit,
  extract_keys_signal, extract_keys_error, extract_keys_cmd_ancestry, extract_keys_cmd_name,
  extract_keys_cmd_mode, extract_keys_alias, extract_keys_def_param, extract_keys_def_repo,
}
use trace2receiver.Extract.Work.{
  extract_keys_thread_start, extract_keys_thread_exit, extract_keys_thread_start,
  extract_keys_thread_exit, hook_name_of, extract_keys_child_start, extract_keys_child_exit,
  extract_keys_child_ready, extract_keys_exec, extract_keys_exec_result, extract_keys_region_enter,
  extract_keys_region_leave, extract_keys_data, extract_keys_data_json, extract_keys_timer,
  extract_keys_counter,
}

hook_name_present :
    (rt : Runtime) (jm : Jmap) (class : String) {name : Option String}
    → hook_name_of rt class jm ≡ ok name
    → class ≡ "hook"
    → name ≢ none
unfolding hook_name_of
hook_name_present rt jm class h e = ground (arith, eq_iff class "hook")

module _ (rt : Runtime) (evt : TrEvent) (jm : Jmap) {evt' : TrEvent} where
  pub version_present :
      extract_keys_version rt evt jm ≡ ok evt'
      → (evt'.mf_event ≡ evt.mf_event) × (evt'.pm_version ≢ none)
  unfolding extract_keys_version
  version_present h = ground arith

  pub start_present :
      extract_keys_start rt evt jm ≡ ok evt'
      → (evt'.mf_event ≡ evt.mf_event) × (evt'.pm_start ≢ none)
  unfolding extract_keys_start
  start_present h = ground arith

  pub atexit_present :
      extract_keys_atexit rt evt jm ≡ ok evt'
      → (evt'.mf_event ≡ evt.mf_event) × (evt'.pm_atexit ≢ none)
  unfolding extract_keys_atexit
  atexit_present h = ground arith

  pub signal_present :
      extract_keys_signal rt evt jm ≡ ok evt'
      → (evt'.mf_event ≡ evt.mf_event) × (evt'.pm_signal ≢ none)
  unfolding extract_keys_signal
  signal_present h = ground arith

  pub error_present :
      extract_keys_error rt evt jm ≡ ok evt'
      → (evt'.mf_event ≡ evt.mf_event) × (evt'.pm_error ≢ none)
  unfolding extract_keys_error
  error_present h = ground arith

  pub cmd_ancestry_present :
      extract_keys_cmd_ancestry rt evt jm ≡ ok evt'
      → (evt'.mf_event ≡ evt.mf_event) × (evt'.pm_cmd_ancestry ≢ none)
  unfolding extract_keys_cmd_ancestry
  cmd_ancestry_present h = ground arith

  pub cmd_name_present :
      extract_keys_cmd_name rt evt jm ≡ ok evt'
      → (evt'.mf_event ≡ evt.mf_event) × (evt'.pm_cmd_name ≢ none)
  unfolding extract_keys_cmd_name
  cmd_name_present h = ground arith

  pub cmd_mode_present :
      extract_keys_cmd_mode rt evt jm ≡ ok evt'
      → (evt'.mf_event ≡ evt.mf_event) × (evt'.pm_cmd_mode ≢ none)
  unfolding extract_keys_cmd_mode
  cmd_mode_present h = ground arith

  pub alias_present :
      extract_keys_alias rt evt jm ≡ ok evt'
      → (evt'.mf_event ≡ evt.mf_event) × (evt'.pm_alias ≢ none)
  unfolding extract_keys_alias
  alias_present h = ground arith

  pub def_param_present :
      extract_keys_def_param rt evt jm ≡ ok evt'
      → (evt'.mf_event ≡ evt.mf_event) × (evt'.pm_def_param ≢ none)
  unfolding extract_keys_def_param
  def_param_present h = ground arith

  pub def_repo_present :
      extract_keys_def_repo rt evt jm ≡ ok evt'
      → (evt'.mf_event ≡ evt.mf_event) × (evt'.pmf_repo ≢ none) × (evt'.pm_def_repo ≢ none)
  unfolding extract_keys_def_repo
  def_repo_present h = ground arith

  pub child_start_present :
      extract_keys_child_start rt evt jm ≡ ok evt'
      → (evt'.mf_event ≡ evt.mf_event)
        × (evt'.pm_child_start ≢ none)
        × ((cs : TrEventChildStart)
            → evt'.pm_child_start ≡ some cs
            → cs.mf_child_class ≡ "hook"
            → cs.pmf_hook_name ≢ none)
  unfolding extract_keys_child_start
  child_start_present h =
      (ground arith, ground arith, λ cs e f. grind (arith, hook_name_present rt jm))

  pub child_exit_present :
      extract_keys_child_exit rt evt jm ≡ ok evt'
      → (evt'.mf_event ≡ evt.mf_event) × (evt'.pm_child_exit ≢ none)
  unfolding extract_keys_child_exit
  child_exit_present h = ground arith

  pub child_ready_present :
      extract_keys_child_ready rt evt jm ≡ ok evt'
      → (evt'.mf_event ≡ evt.mf_event) × (evt'.pm_child_ready ≢ none)
  unfolding extract_keys_child_ready
  child_ready_present h = ground arith

  pub exec_present :
      extract_keys_exec rt evt jm ≡ ok evt' → (evt'.mf_event ≡ evt.mf_event) × (evt'.pm_exec ≢ none)
  unfolding extract_keys_exec
  exec_present h = ground arith

  pub exec_result_present :
      extract_keys_exec_result rt evt jm ≡ ok evt'
      → (evt'.mf_event ≡ evt.mf_event) × (evt'.pm_exec_result ≢ none)
  unfolding extract_keys_exec_result
  exec_result_present h = ground arith

  pub region_enter_present :
      extract_keys_region_enter rt evt jm ≡ ok evt'
      → (evt'.mf_event ≡ evt.mf_event) × (evt'.pm_region_enter ≢ none)
  unfolding extract_keys_region_enter
  region_enter_present h = ground arith

  pub region_leave_present :
      extract_keys_region_leave rt evt jm ≡ ok evt'
      → (evt'.mf_event ≡ evt.mf_event) × (evt'.pm_region_leave ≢ none)
  unfolding extract_keys_region_leave
  region_leave_present h = ground arith

  pub data_present :
      extract_keys_data rt evt jm ≡ ok evt'
      → (evt'.mf_event ≡ evt.mf_event) × (evt'.pm_generic_data ≢ none)
  unfolding extract_keys_data
  data_present h = ground arith

  pub data_json_present :
      extract_keys_data_json rt evt jm ≡ ok evt'
      → (evt'.mf_event ≡ evt.mf_event) × (evt'.pm_generic_data ≢ none)
  unfolding extract_keys_data_json
  data_json_present h = ground arith

  pub timer_present :
      extract_keys_timer rt evt jm ≡ ok evt'
      → (evt'.mf_event ≡ evt.mf_event) × (evt'.pm_timer ≢ none)
  unfolding extract_keys_timer
  timer_present h = ground arith

  pub counter_present :
      extract_keys_counter rt evt jm ≡ ok evt'
      → (evt'.mf_event ≡ evt.mf_event) × (evt'.pm_counter ≢ none)
  unfolding extract_keys_counter
  counter_present h = ground arith

  pub thread_start_present :
      extract_keys_thread_start rt evt jm ≡ ok evt' → evt'.mf_event ≡ evt.mf_event
  unfolding extract_keys_thread_start
  thread_start_present h = ground arith

  pub thread_exit_present :
      extract_keys_thread_exit rt evt jm ≡ ok evt' → evt'.mf_event ≡ evt.mf_event
  unfolding extract_keys_thread_exit
  thread_exit_present h = ground arith

  pub cmd_path_present : extract_keys_cmd_path rt evt jm ≡ ok evt' → evt'.mf_event ≡ evt.mf_event
  unfolding extract_keys_cmd_path
  cmd_path_present h = ground arith
