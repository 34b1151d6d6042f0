-- ===== src/Emit/Spans.antt =====
-- What `emit*` of trace2emitotlp.go sets on a span. The attributes of a span and of a resource are
-- the calls of `PutStr` in their order; what a second call with one key does is up to `pdata`.
use trace2receiver.Common.{
  ℕ, ℤ, String, Bool, List, [], ◌∷◌, ◌++◌, Option, none, some, Dict, string_eq, ◌==◌, if◌then◌else◌,
}
use trace2receiver.Common.Decimal.{decimal}
use trace2receiver.Json.{Value}
use trace2receiver.Runtime.{Time, SpanId}
use trace2receiver.Dataset.{
  TrSpanEssentials, TrThread, TrProcess, TrRegion, TrChild, TrExec, Trace2Dataset, DataValues,
  Timers, Counters,
}
use trace2receiver.Filter.Level.{
  FilterDetailLevel, want_process_ancestry, want_process_aliases,
  want_process_timers_counters_and_data, want_main_thread_timers_and_counters,
}
use trace2receiver.Emit.Keys

abbrev pub Attributes : Type 0
Attributes = List (String × String)

-- What the emission takes from outside the sources. A `marshal_` function is the text of
-- json.Marshal, which is empty where it fails, since the error is dropped.
pub record Emitter : Type 0 where
  -- pcommon.NewTimestampFromTime
  pub timestamp : Time → ℕ
  pub marshal_values : List Value → String
  pub marshal_repo_set : Dict ℤ String → String
  pub marshal_param_set : Dict String String → String
  pub marshal_data : DataValues → String
  pub marshal_timers : Timers → String
  pub marshal_counters : Counters → String
  -- runtime.GOARCH and runtime.GOOS
  pub go_arch : String
  pub go_os : String
  -- Keys of the package semconv, and otel.Version()
  pub service_namespace_key : String
  pub service_name_key : String
  pub service_version_key : String
  pub service_instance_id_key : String
  pub telemetry_sdk_name_key : String
  pub telemetry_sdk_language_key : String
  pub telemetry_sdk_version_key : String
  pub otel_version : String
  -- debug.ReadBuildInfo(): the modules of the executable
  pub build_info : Option (List (String × String))

pub data SpanKind : Type 0 where
  internal server : SpanKind

pub record Span : Type 0 where
  pub name : String
  pub start_timestamp : ℕ
  pub end_timestamp : ℕ
  pub kind : SpanKind
  pub span_id : SpanId
  pub parent_span_id : SpanId
  pub trace_id : List ℕ
  pub attributes : Attributes

abbrev put : String → String → Attributes
put key value = (key, value) ∷ []

-- `if len(s) > 0`, for a text, a slice and a map.
abbrev put_text : String → String → Attributes
put_text key text = if text == "" then [] else put key text

abbrev put_all {ℓ} : {A : Type ℓ} → String → List A → (List A → String) → Attributes
put_all key [] show = []
put_all key (x ∷ xs) show = put key (show (x ∷ xs))

-- `if m != nil`
abbrev put_some {ℓ} : {A : Type ℓ} → String → Option A → (A → String) → Attributes
put_some key none show = []
put_some key (some m) show = put key (show m)

-- `if m != nil && len(m) > 0`
abbrev put_data {ℓ} : {A : Type ℓ} → String → Option (List A) → (List A → String) → Attributes
put_data key none show = []
put_data key (some m) show = put_all key m show

abbrev when : Bool → Attributes → Attributes
when b attributes = if b then attributes else []

module _ (em : Emitter) where
  unfoldable pub emit_span_essentials : TrSpanEssentials → Trace2Dataset → Attributes → Span
  emit_span_essentials r tr2 attributes = record {
    name = r.display_name;
    start_timestamp = em.timestamp r.start_time;
    end_timestamp = em.timestamp r.end_time;
    kind = internal;
    span_id = r.self_span_id;
    parent_span_id = r.parent_span_id;
    trace_id = tr2.otel_trace_id;
    attributes = attributes;
  }

  unfoldable pub process_alias : TrProcess → Attributes
  process_alias p =
      if p.cmd_alias_key == ""
      then []
      else put Keys.trace2_cmd_alias_key p.cmd_alias_key
        ++ put_all Keys.trace2_cmd_alias_value p.cmd_alias_value em.marshal_values

  unfoldable pub thread_totals : TrThread → Attributes
  thread_totals th =
      put_some Keys.trace2_thread_timers th.timers em.marshal_timers
      ++ put_some Keys.trace2_thread_counters th.counters em.marshal_counters

  unfoldable pub process_totals : TrProcess → Attributes
  process_totals p =
      put_data Keys.trace2_process_data p.data_values em.marshal_data
      ++ put_some Keys.trace2_process_timers p.timers em.marshal_timers
      ++ put_some Keys.trace2_process_counters p.counters em.marshal_counters

  -- The attributes that every level has.
  unfoldable pub process_names : TrProcess → Attributes
  unfolding decimal
  process_names p =
      put Keys.trace2_cmd_name p.qualified_names.exe
      ++ put Keys.trace2_cmd_name_verb p.qualified_names.exe_verb
      ++ put Keys.trace2_cmd_name_verb_mode p.qualified_names.exe_verb_mode
      ++ put Keys.trace2_cmd_hierarchy p.cmd_hierarchy
      ++ put Keys.trace2_cmd_exit_code (decimal p.exe_exit_code)
      ++ put_all Keys.trace2_cmd_argv p.cmd_argv em.marshal_values

  unfoldable pub process_settings : TrProcess → Attributes
  process_settings p =
      put_text Keys.trace2_cmd_err_fmt p.exe_error_fmt
      ++ put_text Keys.trace2_cmd_err_msg p.exe_error_msg
      ++ put_all Keys.trace2_repo_set p.repo_set em.marshal_repo_set
      ++ put_all Keys.trace2_param_set p.param_set_values em.marshal_param_set

  unfoldable pub process_attributes : Trace2Dataset → FilterDetailLevel → Attributes
  unfolding process_names process_settings process_alias thread_totals process_totals
  process_attributes tr2 dl =
      put Keys.trace2_span_type "process"
      ++ put Keys.trace2_go_arch em.go_arch
      ++ put Keys.trace2_go_os em.go_os
      ++ tr2.pii
      ++ process_names tr2.process
      ++ when (want_process_ancestry dl)
          (put_all Keys.trace2_cmd_ancestry tr2.process.cmd_ancestry em.marshal_values)
      ++ when (want_process_aliases dl) (process_alias tr2.process)
      ++ process_settings tr2.process
      ++ when (want_main_thread_timers_and_counters dl) (thread_totals tr2.process.main_thread)
      ++ when (want_process_timers_counters_and_data dl) (process_totals tr2.process)

  unfoldable pub emit_process_span : Trace2Dataset → FilterDetailLevel → Span
  unfolding emit_span_essentials process_attributes
  emit_process_span tr2 dl =
      record (emit_span_essentials tr2.process.main_thread.lifetime tr2
        (process_attributes tr2 dl)) { kind = server }

  unfoldable pub emit_non_main_thread_span : Trace2Dataset → TrThread → Span
  unfolding emit_span_essentials thread_totals
  emit_non_main_thread_span tr2 th =
      emit_span_essentials th.lifetime tr2 (put Keys.trace2_span_type "thread" ++ thread_totals th)

  unfoldable pub emit_region_span : Trace2Dataset → TrRegion → Span
  unfolding emit_span_essentials decimal
  emit_region_span tr2 r = emit_span_essentials r.lifetime tr2 (
      put Keys.trace2_span_type "region"
      ++ put Keys.trace2_region_repo_id (decimal r.repo_id)
      ++ put Keys.trace2_region_nesting (decimal r.nesting_level)
      ++ put_text Keys.trace2_region_message r.message
      ++ put_data Keys.trace2_region_data r.data_values em.marshal_data)

  unfoldable pub emit_child_span : Trace2Dataset → TrChild → Span
  unfolding emit_span_essentials decimal
  emit_child_span tr2 child = emit_span_essentials child.lifetime tr2 (
      put Keys.trace2_span_type "child"
      ++ put_all Keys.trace2_child_argv child.argv em.marshal_values
      ++ put Keys.trace2_child_pid (decimal child.pid)
      ++ put Keys.trace2_child_exit_code (decimal child.exitcode)
      ++ put_text Keys.trace2_child_ready_state child.readystate
      ++ put Keys.trace2_child_class child.class
      ++ when (child.class == "hook") (put Keys.trace2_child_hook_name child.hookname))

  unfoldable pub emit_exec_span : Trace2Dataset → TrExec → Span
  unfolding emit_span_essentials decimal
  emit_exec_span tr2 e = emit_span_essentials e.lifetime tr2 (
      put Keys.trace2_span_type "exec"
      ++ put_all Keys.trace2_exec_argv e.argv em.marshal_values
      ++ put Keys.trace2_exec_exe e.exe
      ++ put Keys.trace2_exec_exit_code (decimal e.exitcode))
