-- ===== src/Extract/Work.antt =====
-- The extractors of evt_parse.go for the events about children, threads, regions and their data.
use trace2receiver.Common.{String, Option, none, some, string_eq, ◌==◌, if◌then◌else◌, Result, ok}
use trace2receiver.Common.Fallible.{◌>>=◌}
use trace2receiver.Json.{Jmap}
use trace2receiver.Jmap.{
  get_required, get_required_string, get_required_array, get_required_int64, get_required_bool,
  get_optional_string, get_required_string_or_int64, get_required_float64,
}
use trace2receiver.Event.{TrEvent, thread_started, thread_exited}
use trace2receiver.Runtime.{Runtime}

module _ (rt : Runtime) where
  -- "hook_name" is required of the children of class "hook" and read of no other.
  unfoldable pub hook_name_of : String → Jmap → Result (Option String)
  hook_name_of class jm =
      if class == "hook"
      then (do name ← get_required_string jm "hook_name"; ok (some name))
      else ok none

  unfoldable pub extract_keys_child_start : TrEvent → Jmap → Result TrEvent
  unfolding hook_name_of
  extract_keys_child_start evt jm = do
    child_id ← get_required_int64 rt jm "child_id"
    class ← get_required_string jm "child_class"
    use_shell ← get_required_bool jm "use_shell"
    argv ← get_required_array jm "argv"
    hook_name ← hook_name_of class jm
    cd ← get_optional_string jm "cd"
    ok (record evt {
      pm_child_start = some (record {
        mf_child_id = child_id;
        mf_child_class = class;
        mf_use_shell = use_shell;
        mf_argv = argv;
        pmf_hook_name = hook_name;
        pmf_cd = cd;
      });
    })

  unfoldable pub extract_keys_child_exit : TrEvent → Jmap → Result TrEvent
  extract_keys_child_exit evt jm = do
    child_id ← get_required_int64 rt jm "child_id"
    pid ← get_required_int64 rt jm "pid"
    code ← get_required_int64 rt jm "code"
    ok (record evt {
      pm_child_exit = some (record { mf_child_id = child_id; mf_pid = pid; mf_code = code });
    })

  unfoldable pub extract_keys_child_ready : TrEvent → Jmap → Result TrEvent
  extract_keys_child_ready evt jm = do
    child_id ← get_required_int64 rt jm "child_id"
    pid ← get_required_int64 rt jm "pid"
    ready ← get_required_string jm "ready"
    ok (record evt {
      pm_child_ready = some (record { mf_child_id = child_id; mf_pid = pid; mf_ready = ready });
    })

  unfoldable pub extract_keys_thread_start : TrEvent → Jmap → Result TrEvent
  extract_keys_thread_start evt jm = ok (record evt { pm_thread_start = some thread_started })

  unfoldable pub extract_keys_thread_exit : TrEvent → Jmap → Result TrEvent
  extract_keys_thread_exit evt jm = ok (record evt { pm_thread_exit = some thread_exited })

  unfoldable pub extract_keys_exec : TrEvent → Jmap → Result TrEvent
  extract_keys_exec evt jm = do
    exec_id ← get_required_int64 rt jm "exec_id"
    argv ← get_required_array jm "argv"
    exe ← get_optional_string jm "exe"
    ok (record evt {
      pm_exec = some (record { mf_exec_id = exec_id; mf_argv = argv; pmf_exe = exe });
    })

  unfoldable pub extract_keys_exec_result : TrEvent → Jmap → Result TrEvent
  extract_keys_exec_result evt jm = do
    exec_id ← get_required_int64 rt jm "exec_id"
    code ← get_required_int64 rt jm "code"
    ok (record evt { pm_exec_result = some (record { mf_exec_id = exec_id; mf_code = code }) })

  unfoldable pub extract_keys_region_enter : TrEvent → Jmap → Result TrEvent
  extract_keys_region_enter evt jm = do
    nesting ← get_required_int64 rt jm "nesting"
    category ← get_optional_string jm "category"
    label ← get_optional_string jm "label"
    msg ← get_optional_string jm "msg"
    ok (record evt {
      pm_region_enter = some (record {
        mf_nesting = nesting;
        pmf_category = category;
        pmf_label = label;
        pmf_msg = msg;
      });
    })

  unfoldable pub extract_keys_region_leave : TrEvent → Jmap → Result TrEvent
  extract_keys_region_leave evt jm = do
    nesting ← get_required_int64 rt jm "nesting"
    category ← get_optional_string jm "category"
    label ← get_optional_string jm "label"
    msg ← get_optional_string jm "msg"
    ok (record evt {
      pm_region_leave = some (record {
        mf_nesting = nesting;
        pmf_category = category;
        pmf_label = label;
        pmf_msg = msg;
      });
    })

  unfoldable pub extract_keys_data : TrEvent → Jmap → Result TrEvent
  extract_keys_data evt jm = do
    nesting ← get_required_int64 rt jm "nesting"
    category ← get_required_string jm "category"
    key ← get_required_string jm "key"
    value ← get_required_string_or_int64 rt jm "value"
    ok (record evt {
      pm_generic_data = some (record {
        mf_nesting = nesting;
        mf_category = category;
        mf_key = key;
        mf_generic_value = value;
      });
    })

  unfoldable pub extract_keys_data_json : TrEvent → Jmap → Result TrEvent
  extract_keys_data_json evt jm = do
    nesting ← get_required_int64 rt jm "nesting"
    category ← get_required_string jm "category"
    key ← get_required_string jm "key"
    value ← get_required jm "value"
    ok (record evt {
      pm_generic_data = some (record {
        mf_nesting = nesting;
        mf_category = category;
        mf_key = key;
        mf_generic_value = value;
      });
    })

  unfoldable pub extract_keys_timer : TrEvent → Jmap → Result TrEvent
  extract_keys_timer evt jm = do
    category ← get_required_string jm "category"
    name ← get_required_string jm "name"
    intervals ← get_required_int64 rt jm "intervals"
    t_total ← get_required_float64 rt jm "t_total"
    t_min ← get_required_float64 rt jm "t_min"
    t_max ← get_required_float64 rt jm "t_max"
    ok (record evt {
      pm_timer = some (record {
        mf_category = category;
        mf_name = name;
        mf_intervals = intervals;
        mf_t_total = t_total;
        mf_t_min = t_min;
        mf_t_max = t_max;
      });
    })

  unfoldable pub extract_keys_counter : TrEvent → Jmap → Result TrEvent
  extract_keys_counter evt jm = do
    category ← get_required_string jm "category"
    name ← get_required_string jm "name"
    count ← get_required_int64 rt jm "count"
    ok (record evt {
      pm_counter = some (record { mf_category = category; mf_name = name; mf_count = count });
    })
