-- ===== src/Tests.antt =====
-- Concrete commands, settings and events, and what the theorems say of them.
pub mod Parsing
pub mod Children
pub mod Levels
pub mod Streams
pub mod Workers
pub mod Receivers
pub mod Configs
pub mod Events
use Prim.Native.Char.{Char}
use trace2receiver.Common.{
  ℕ, pos, negsuc, ℤ, String, ◌<>◌, Bool, true, false, List, [], ◌∷◌, ◌++◌, Option, none, some,
  Result, ok, err, error_text, ◌≡◌, ◌≢◌, refl, ret, panic, nil_deref, index_out_of_range, lookup,
  insert, arith, take, ◌<◌, length, ◌↔◌, if◌then◌else◌, ◌==◌, ◌&&◌, string_eq, map,
}
use trace2receiver.Common.Fallible.{◌>>=◌}
use trace2receiver.Common.Text.{trim_space, cut_prefix}
use trace2receiver.Json.{Float64, Value, str, Jmap}
use trace2receiver.Runtime.{Runtime, Time, SpanId}
use trace2receiver.Event.{
  TrEvent, TrEventRegionEnter, TrEventRegionLeave, TrEventGenericData, TrEventVersion, new_event,
}
use trace2receiver.Parse.{parse_json}
use trace2receiver.Dataset.{
  Trace2Dataset, TrThread, TrRegion, TrProcess, QualifiedNames, new_trace2_dataset, new_process,
  new_thread, new_lifetime, zero_span_id,
}

abbrev pub hello : Jmap
hello = ("event", str "start") ∷ ("sid", str "s1") ∷ ("thread", str "main") ∷ ("time", str "t") ∷ []

abbrev pub test_rt : Runtime
test_rt = record {
  unmarshal = λ line. ok hello;
  time_parse = λ layout value. ok (pos 7);
  float64_to_int64 = λ f. pos f.bits;
  int64_to_float64 = λ n. record { bits = 0 };
  sha256 = λ s. 1 ∷ 2 ∷ 3 ∷ [];
  rand_read = λ n. (n ∷ [], n);
  lower = λ c. c;
}

abbrev pub fresh : Trace2Dataset
fresh = record {
  dataset_id = 0;
  saw_data = true;
  rand_source = 5;
  otel_trace_id = [];
  trace2_sid = "s1";
  process = record new_process { cmd_argv = str "git" ∷ str "status" ∷ []; cmd_verb = "status" };
  threads = [];
  children = [];
  exec = [];
  completed_regions = [];
  pii = [];
}

abbrev pub enter_data : TrEventRegionEnter
enter_data = record {
  mf_nesting = pos 1;
  pmf_category = some "index";
  pmf_label = none;
  pmf_msg = none;
}

abbrev pub leave_data : TrEventRegionLeave
leave_data = record {
  mf_nesting = pos 1;
  pmf_category = some "index";
  pmf_label = none;
  pmf_msg = none;
}

abbrev pub enter_event : TrEvent
enter_event = record new_event {
  mf_event = "region_enter";
  mf_thread = "main";
  mf_time = pos 10;
  pm_region_enter = some enter_data;
}

abbrev pub leave_event : TrEvent
leave_event = record new_event {
  mf_event = "region_leave";
  mf_thread = "main";
  mf_time = pos 20;
  pm_region_leave = some leave_data;
}

abbrev pub index_region : TrRegion
index_region = record {
  lifetime = record {
    self_span_id = 5 ∷ [];
    parent_span_id = zero_span_id;
    start_time = pos 10;
    end_time = pos 0;
    display_name = "region(index,L)";
  };
  repo_id = pos 1;
  nesting_level = pos 1;
  message = "";
  data_values = none;
}

-- The dataset behind the enter event.
abbrev pub inside : Trace2Dataset
inside = record fresh {
  process = record fresh.process {
    main_thread = record new_thread { region_stack = index_region ∷ [] };
  };
}

abbrev pub too_deep : TrEventGenericData
too_deep = record {
  mf_nesting = pos 3;
  mf_category = "c";
  mf_key = "k";
  mf_generic_value = str "v";
}

abbrev pub too_deep_event : TrEvent
too_deep_event = record new_event {
  mf_event = "data";
  mf_thread = "main";
  mf_time = pos 15;
  pm_generic_data = some too_deep;
}

-- The dataset of a command that died in a region.
abbrev pub prepared : Trace2Dataset
prepared = record fresh {
  process = record fresh.process {
    main_thread = record new_thread {
      lifetime = record new_lifetime { end_time = pos 90; display_name = "git:status" };
    };
    exe_exit_code = negsuc 0;
    qualified_names = record { exe = "git"; exe_verb = "git:status"; exe_verb_mode = "git:status" };
  };
  completed_regions =
      record index_region { lifetime = record index_region.lifetime { end_time = pos 90 } } ∷ [];
}

abbrev pub daemon_event : TrEvent
daemon_event = record new_event {
  mf_event = "cmd_name";
  mf_thread = "main";
  mf_time = pos 3;
  pm_cmd_name = some (record { mf_name = "fsmonitor--daemon"; mf_hierarchy = "" });
}
