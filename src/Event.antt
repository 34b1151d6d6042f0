-- ===== src/Event.antt =====
-- The event records of evt_parse.go. A pointer field is an `Option`; `[]interface{}` is a list of
-- JSON values.
use trace2receiver.Common.{String, Bool, ℤ, List, Option, none}
use trace2receiver.Common.{pos}
use trace2receiver.Json.{Float64, Value}
use trace2receiver.Runtime.{Time}

pub record TrEventVersion : Type 0 where
  pub mf_evt : String
  pub mf_exe : String

pub record TrEventStart : Type 0 where
  pub mf_argv : List Value

pub record TrEventAtExit : Type 0 where
  pub mf_code : ℤ

pub record TrEventSignal : Type 0 where
  pub mf_signo : ℤ

pub record TrEventError : Type 0 where
  pub mf_msg : String
  pub mf_fmt : String

pub record TrEventCmdPath : Type 0 where
  pub mf_path : String

pub record TrEventCmdAncestry : Type 0 where
  pub mf_ancestry : List Value

pub record TrEventCmdName : Type 0 where
  pub mf_name : String
  pub mf_hierarchy : String

pub record TrEventCmdMode : Type 0 where
  pub mf_name : String

pub record TrEventAlias : Type 0 where
  pub mf_alias : String
  pub mf_argv : List Value

pub record TrEventChildStart : Type 0 where
  pub mf_child_id : ℤ
  pub mf_child_class : String
  pub mf_use_shell : Bool
  pub mf_argv : List Value
  pub pmf_hook_name : Option String
  pub pmf_cd : Option String

pub record TrEventChildExit : Type 0 where
  pub mf_child_id : ℤ
  pub mf_pid : ℤ
  pub mf_code : ℤ

pub record TrEventChildReady : Type 0 where
  pub mf_child_id : ℤ
  pub mf_pid : ℤ
  pub mf_ready : String

-- TrEventThreadStart and TrEventThreadExit have no fields.
pub data TrEventThreadStart : Type 0 where
  thread_started : TrEventThreadStart

pub data TrEventThreadExit : Type 0 where
  thread_exited : TrEventThreadExit

pub record TrEventExec : Type 0 where
  pub mf_exec_id : ℤ
  pub mf_argv : List Value
  pub pmf_exe : Option String

pub record TrEventExecResult : Type 0 where
  pub mf_exec_id : ℤ
  pub mf_code : ℤ

pub record TrEventDefParam : Type 0 where
  pub mf_param : String
  pub mf_value : String
  pub pmf_scope : Option String

pub record TrEventDefRepo : Type 0 where
  pub mf_worktree : String

pub record TrEventRegionEnter : Type 0 where
  pub mf_nesting : ℤ
  pub pmf_category : Option String
  pub pmf_label : Option String
  pub pmf_msg : Option String

pub record TrEventRegionLeave : Type 0 where
  pub mf_nesting : ℤ
  pub pmf_category : Option String
  pub pmf_label : Option String
  pub pmf_msg : Option String

pub record TrEventGenericData : Type 0 where
  pub mf_nesting : ℤ
  pub mf_category : String
  pub mf_key : String
  pub mf_generic_value : Value

pub record TrEventTimer : Type 0 where
  pub mf_category : String
  pub mf_name : String
  pub mf_intervals : ℤ
  pub mf_t_total : Float64
  pub mf_t_min : Float64
  pub mf_t_max : Float64

pub record TrEventCounter : Type 0 where
  pub mf_category : String
  pub mf_name : String
  pub mf_count : ℤ

pub record TrEvent : Type 0 where
  pub mf_event : String
  pub mf_sid : String
  pub mf_thread : String
  pub mf_time : Time
  pub pmf_repo : Option ℤ
  pub pm_version : Option TrEventVersion
  pub pm_start : Option TrEventStart
  pub pm_atexit : Option TrEventAtExit
  pub pm_signal : Option TrEventSignal
  pub pm_error : Option TrEventError
  pub pm_cmd_path : Option TrEventCmdPath
  pub pm_cmd_ancestry : Option TrEventCmdAncestry
  pub pm_cmd_name : Option TrEventCmdName
  pub pm_cmd_mode : Option TrEventCmdMode
  pub pm_alias : Option TrEventAlias
  pub pm_child_start : Option TrEventChildStart
  pub pm_child_exit : Option TrEventChildExit
  pub pm_child_ready : Option TrEventChildReady
  pub pm_thread_start : Option TrEventThreadStart
  pub pm_thread_exit : Option TrEventThreadExit
  pub pm_exec : Option TrEventExec
  pub pm_exec_result : Option TrEventExecResult
  pub pm_def_param : Option TrEventDefParam
  pub pm_def_repo : Option TrEventDefRepo
  pub pm_region_enter : Option TrEventRegionEnter
  pub pm_region_leave : Option TrEventRegionLeave
  pub pm_generic_data : Option TrEventGenericData
  pub pm_timer : Option TrEventTimer
  pub pm_counter : Option TrEventCounter

-- &TrEvent{}
abbrev pub new_event : TrEvent
new_event = record {
  mf_event = "";
  mf_sid = "";
  mf_thread = "";
  mf_time = pos 0;
  pmf_repo = none;
  pm_version = none;
  pm_start = none;
  pm_atexit = none;
  pm_signal = none;
  pm_error = none;
  pm_cmd_path = none;
  pm_cmd_ancestry = none;
  pm_cmd_name = none;
  pm_cmd_mode = none;
  pm_alias = none;
  pm_child_start = none;
  pm_child_exit = none;
  pm_child_ready = none;
  pm_thread_start = none;
  pm_thread_exit = none;
  pm_exec = none;
  pm_exec_result = none;
  pm_def_param = none;
  pm_def_repo = none;
  pm_region_enter = none;
  pm_region_leave = none;
  pm_generic_data = none;
  pm_timer = none;
  pm_counter = none;
}
