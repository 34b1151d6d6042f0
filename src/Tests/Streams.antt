-- ===== src/Tests/Streams.antt =====
-- A connection with a short stream, up to its trace.
use mathlib.Core.Path.{subst}
use trace2receiver.Common.{
  ℕ, negsuc, sub64, Dict, pos, ◌≡◌, ◌≢◌, refl, sym, ap, ◌∙◌, String, Bool, true, false, [], ◌∷◌,
  ◌++◌, Option, none, some, Result, ok, err, error_text, Go, ret, All, lookup, string_eq,
}
use trace2receiver.Common.Panics.{ret-injective}
use trace2receiver.Common.Text.{
  split_slash, trim_space, cut_prefix, base, ext, map_text, replace_char,
}
use trace2receiver.Json.{nil, cons, str, arr, int64, elements, Jmap}
use trace2receiver.Runtime.{Runtime, SpanId}
use trace2receiver.Event.{TrEvent}
use trace2receiver.Parse.{parse_json, parse_jmap, ekm}
use trace2receiver.Parse.Line.{evt_parse, parse_trimmed, is_ignored, first_byte}
use trace2receiver.Extract.{extract_keys_common}
use trace2receiver.Extract.Process.{extract_keys_version, extract_keys_start}
use trace2receiver.Extract.Work.{extract_keys_region_enter}
use trace2receiver.Jmap.{
  get_required_string, get_required_time, get_optional_int64, get_required_array,
  get_required_int64, get_optional_string,
}
use trace2receiver.Apply.Process.{apply_version, apply_start}
use trace2receiver.Apply.Regions.{apply_region_enter}
use trace2receiver.Apply.Names.{
  make_region_display_name, normalize_for_region_display_name, string_arg,
}
use trace2receiver.Dataset.Stack.{
  lookup_thread, store_thread, new_span_id, lookup_top_parent_span_id, pop_all_region_stack,
}
use trace2receiver.Pii.{pii_gather}
use trace2receiver.Dataset.{
  Trace2Dataset, TrRegion, new_trace2_dataset, new_process, new_thread, zero_span_id,
}
use trace2receiver.Apply.{evt_apply, applymap, process_raw_line}
use trace2receiver.Filter.Settings.{FilterSettings}
use trace2receiver.Filter.Level.{verbose, get_detail_level}
use trace2receiver.Linked.Prepare.{AreIdle}
use trace2receiver.Filter.Rules.{compute_detail_level, lookup_ruleset_name, named_level}
use trace2receiver.Prepare.{
  export_traces, prepare_dataset, close_threads, close_main, close_children, name_process,
}
use trace2receiver.Prepare.Names.{qualified_names}
use trace2receiver.Emit.{to_traces}
use trace2receiver.Emit.Spans.{Emitter}
use trace2receiver.Config.{Config}
use trace2receiver.Worker.{
  Connection, Surroundings, eof, read_loop, gathered, export_dataset, worker,
}
use trace2receiver.Worker.Tree.{IsNoVersion}
use trace2receiver.Tests.{test_rt}

abbrev pub test_em : Emitter
test_em = record {
  timestamp = λ t. 0;
  marshal_values = λ v. "";
  marshal_repo_set = λ v. "";
  marshal_param_set = λ v. "";
  marshal_data = λ v. "";
  marshal_timers = λ v. "";
  marshal_counters = λ v. "";
  go_arch = "arm64";
  go_os = "linux";
  service_namespace_key = "service.namespace";
  service_name_key = "service.name";
  service_version_key = "service.version";
  service_instance_id_key = "service.instance.id";
  telemetry_sdk_name_key = "telemetry.sdk.name";
  telemetry_sdk_language_key = "telemetry.sdk.language";
  telemetry_sdk_version_key = "telemetry.sdk.version";
  otel_version = "1.30";
  build_info = none;
}

-- A version event, a start event and a region on the main thread that the stream does not leave.
abbrev common : String → Jmap
common event =
    ("event", str event) ∷ ("sid", str "s1") ∷ ("thread", str "main") ∷ ("time", str "t") ∷ []

abbrev objects : Dict String Jmap
objects =
    ("{v}", common "version" ++ ("evt", str "3") ∷ ("exe", str "2.40") ∷ [])
    ∷ ("{s}", common "start" ++ ("argv", arr (cons (str "git") (cons (str "gc") nil))) ∷ [])
    ∷ ("{r}", common "region_enter" ++ ("nesting", int64 (pos 1)) ∷ [])
    ∷ []

abbrev found : Option Jmap → Result Jmap
found none = err (error_text "no object")
found (some jm) = ok jm

abbrev eight : ℕ → SpanId
eight n = n ∷ n ∷ n ∷ n ∷ n ∷ n ∷ n ∷ n ∷ []

abbrev pub stream_rt : Runtime
stream_rt = record test_rt {
  unmarshal = λ line. found (lookup line objects);
  sha256 = λ s. eight 1 ++ eight 2 ++ eight 3 ++ eight 4;
  rand_read = λ n. (eight n, n);
}

abbrev pub conn : Connection
conn = record { lines = "{v}\n" ∷ "{s}\n" ∷ " {r}\n" ∷ []; ending = eof "{\"event\":" }

abbrev pub verbose_settings : FilterSettings
verbose_settings = record {
  nickname_key = "";
  ruleset_key = "";
  nicknames = [];
  rulesets = [];
  ruleset_name = "dl:verbose";
  ruleset_defs = [];
}

abbrev pub cfg : Config
cfg = record {
  named_pipe_path = "";
  unix_socket_path = "/tmp/trace2";
  allow_command_control_verbs = false;
  pii_settings_path = "";
  pii_settings = none;
  filter_settings_path = "";
  filter_settings = some verbose_settings;
}

abbrev pub around : Surroundings
around = record { host = ok "h"; user = ok "u"; dataset_id = 1; seed = 5; now = pos 90 }

-- What the stream leaves.
abbrev region : TrRegion
region = record {
  lifetime = record {
    self_span_id = eight 5;
    parent_span_id = eight 3;
    start_time = pos 7;
    end_time = pos 0;
    display_name = "region(C,L)";
  };
  repo_id = pos 1;
  nesting_level = pos 1;
  message = "";
  data_values = none;
}

abbrev pub left : Trace2Dataset
left = record {
  dataset_id = 1;
  saw_data = true;
  rand_source = 5;
  otel_trace_id = eight 1 ++ eight 2;
  trace2_sid = "s1";
  process = record new_process {
    main_thread = record new_thread {
      lifetime = record {
        self_span_id = eight 3;
        parent_span_id = zero_span_id;
        start_time = pos 7;
        end_time = pos 0;
        display_name = "main";
      };
      region_stack = region ∷ [];
    };
    exe_version = "2.40";
    evt_version = "3";
    cmd_argv = str "git" ∷ str "gc" ∷ [];
  };
  threads = [];
  children = [];
  exec = [];
  completed_regions = [];
  pii = [];
}

abbrev pub read_run : Go (Trace2Dataset × Bool)
read_run = read_loop stream_rt conn.lines conn.ending (gathered cfg around) false

pub read_whole : read_run ≡ ret (left, false)
unfolding read_loop gathered pii_gather new_trace2_dataset process_raw_line evt_parse parse_trimmed
    is_ignored first_byte parse_json trim_space cut_prefix lookup extract_keys_common
    get_required_string get_required_time get_optional_int64 get_required_array get_required_int64
    get_optional_string elements ekm extract_keys_version extract_keys_start
    extract_keys_region_enter evt_apply applymap apply_version split_slash apply_start
    apply_region_enter lookup_thread store_thread new_span_id make_region_display_name
    normalize_for_region_display_name lookup_top_parent_span_id sub64 map_text replace_char
    parse_jmap
read_whole = refl

-- The dataset as it is exported.
abbrev pub sent : Trace2Dataset
sent = record left {
  process = record left.process {
    main_thread = record new_thread {
      lifetime = record left.process.main_thread.lifetime {
        end_time = pos 90;
        display_name = "git";
      };
    };
    exe_exit_code = negsuc 0;
    qualified_names = record { exe = "git"; exe_verb = "git"; exe_verb_mode = "git" };
  };
  completed_regions =
      record region { lifetime = record region.lifetime { end_time = pos 90 } } ∷ [];
}

pub sent_run : prepare_dataset stream_rt (pos 90) left ≡ ret (true, sent)
unfolding prepare_dataset close_threads close_main pop_all_region_stack name_process qualified_names
    string_arg ext base close_children
sent_run = refl

sent_level :
    (compute_detail_level (some verbose_settings) [] sent.process.qualified_names).0 ≡ verbose
unfolding compute_detail_level lookup_ruleset_name named_level get_detail_level
sent_level = refl

pub worker_run :
    worker stream_rt test_em cfg around conn ≡ ret (some (to_traces test_em sent verbose))
unfolding worker export_dataset export_traces
worker_run = rw (read_whole, worker, export_dataset, export_traces, sent_run, sent_level) refl

-- Neither of the later lines is a version event.
abbrev event_of : Result TrEvent → String
event_of (ok evt) = evt.mf_event
event_of (err e) = ""

no_version :
    (line : String)
    → event_of (parse_json stream_rt (trim_space line)) ≢ "version"
    → IsNoVersion stream_rt line
no_version line h evt read version = h (ap event_of read ∙ version)

start_event : event_of (parse_json stream_rt (trim_space "{s}\n")) ≡ "start"
unfolding parse_json parse_jmap trim_space lookup extract_keys_common get_required_string
    get_required_time get_optional_int64 get_required_array elements ekm extract_keys_start
start_event = refl

enter_event_name : event_of (parse_json stream_rt (trim_space " {r}\n")) ≡ "region_enter"
unfolding parse_json parse_jmap trim_space lookup extract_keys_common get_required_string
    get_required_time get_optional_int64 get_required_int64 get_optional_string ekm
    extract_keys_region_enter
enter_event_name = refl

pub later : All (IsNoVersion stream_rt) ("{s}\n" ∷ " {r}\n" ∷ [])
later = (
  no_version "{s}\n" (λ h. cc (sym start_event ∙ h)),
  (no_version " {r}\n" (λ h. cc (sym enter_event_name ∙ h)), tt),
)

pub idle : (tr2 : Trace2Dataset) → read_run ≡ ret (tr2, false) → AreIdle tr2
idle tr2 run =
    subst (λ (o : Trace2Dataset × Bool). AreIdle o.0) (ret-injective (sym read_whole ∙ run)) tt
