-- ===== src/Dataset.antt =====
-- The dataset of trace2dataset.go: everything that the events of one client process build up.
-- A Go map whose nil value is observable is an `Option` of a dictionary. The stack of regions is
-- the slice of the source, its top at the end.
pub mod Stack
use trace2receiver.Common.{ℕ, ℤ, pos, String, Bool, false, List, [], ◌∷◌, ◌++◌, Option, none, Dict}
use trace2receiver.Json.{Float64, Value}
use trace2receiver.Runtime.{Time, SpanId}

pub record TrSpanEssentials : Type 0 where
  pub self_span_id : SpanId
  pub parent_span_id : SpanId
  pub start_time : Time
  pub end_time : Time
  pub display_name : String

pub record TrStopwatchTimer : Type 0 where
  pub intervals : ℤ
  pub total_sec : Float64
  pub min_sec : Float64
  pub max_sec : Float64

-- data[<category>][<key>]
abbrev pub DataValues : Type 0
DataValues = Dict String (Dict String Value)

abbrev pub Timers : Type 0
Timers = Dict String (Dict String TrStopwatchTimer)

abbrev pub Counters : Type 0
Counters = Dict String (Dict String ℤ)

pub record TrRegion : Type 0 where
  pub lifetime : TrSpanEssentials
  pub repo_id : ℤ
  pub nesting_level : ℤ
  pub message : String
  pub data_values : Option DataValues

pub record TrThread : Type 0 where
  pub lifetime : TrSpanEssentials
  pub region_stack : List TrRegion
  pub timers : Option Timers
  pub counters : Option Counters

pub record TrChild : Type 0 where
  pub lifetime : TrSpanEssentials
  pub argv : List Value
  pub pid : ℤ
  pub exitcode : ℤ
  pub readystate : String
  pub class : String
  pub hookname : String

pub record TrExec : Type 0 where
  pub lifetime : TrSpanEssentials
  pub argv : List Value
  pub exe : String
  pub exitcode : ℤ

pub record QualifiedNames : Type 0 where
  pub exe : String
  pub exe_verb : String
  pub exe_verb_mode : String

pub record TrProcess : Type 0 where
  pub main_thread : TrThread
  pub exe_version : String
  pub evt_version : String
  pub cmd_argv : List Value
  pub cmd_verb : String
  pub cmd_hierarchy : String
  pub cmd_mode : String
  pub cmd_alias_key : String
  pub cmd_alias_value : List Value
  pub cmd_ancestry : List Value
  pub exe_exit_code : ℤ
  pub exe_error_msg : String
  pub exe_error_fmt : String
  pub repo_set : Dict ℤ String
  pub param_set_values : Dict String String
  pub param_set_priorities : Dict String ℕ
  pub data_values : Option DataValues
  pub timers : Option Timers
  pub counters : Option Counters
  pub qualified_names : QualifiedNames

-- The receiver that the dataset points to is passed to the functions that read its settings.
pub record Trace2Dataset : Type 0 where
  pub dataset_id : ℕ
  pub saw_data : Bool
  pub rand_source : ℕ
  pub otel_trace_id : List ℕ
  pub trace2_sid : String
  pub process : TrProcess
  pub threads : Dict String TrThread
  pub children : Dict ℤ TrChild
  pub exec : Dict ℤ TrExec
  pub completed_regions : List TrRegion
  pub pii : Dict String String

-- The zero values of Go. A fresh id is all zero bytes, read by nothing before it is set.
abbrev pub zero_span_id : SpanId
zero_span_id = 0 ∷ 0 ∷ 0 ∷ 0 ∷ 0 ∷ 0 ∷ 0 ∷ 0 ∷ []

abbrev pub zero_trace_id : List ℕ
zero_trace_id = zero_span_id ++ zero_span_id

abbrev pub new_lifetime : TrSpanEssentials
new_lifetime = record {
  self_span_id = zero_span_id;
  parent_span_id = zero_span_id;
  start_time = pos 0;
  end_time = pos 0;
  display_name = "";
}

-- new(TrThread)
abbrev pub new_thread : TrThread
new_thread = record { lifetime = new_lifetime; region_stack = []; timers = none; counters = none }

abbrev pub new_process : TrProcess
new_process = record {
  main_thread = new_thread;
  exe_version = "";
  evt_version = "";
  cmd_argv = [];
  cmd_verb = "";
  cmd_hierarchy = "";
  cmd_mode = "";
  cmd_alias_key = "";
  cmd_alias_value = [];
  cmd_ancestry = [];
  exe_exit_code = pos 0;
  exe_error_msg = "";
  exe_error_fmt = "";
  repo_set = [];
  param_set_values = [];
  param_set_priorities = [];
  data_values = none;
  timers = none;
  counters = none;
  qualified_names = record { exe = ""; exe_verb = ""; exe_verb_mode = "" };
}

-- NewTrace2Dataset, with the id from makeDatasetId and the seed of the generator.
unfoldable pub new_trace2_dataset : ℕ → ℕ → Trace2Dataset
new_trace2_dataset id seed = record {
  dataset_id = id;
  saw_data = false;
  rand_source = seed;
  otel_trace_id = zero_trace_id;
  trace2_sid = "";
  process = new_process;
  threads = [];
  children = [];
  exec = [];
  completed_regions = [];
  pii = [];
}
