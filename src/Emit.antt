-- ===== src/Emit.antt =====
-- `ToTraces` of trace2emitotlp.go: the resource, the scope and the spans of a prepared dataset.
-- Where the code ranges over a map, the spans take the model's order.
pub mod Keys
pub mod Spans
pub mod Parents
pub mod Levels
use trace2receiver.Common.{String, List, [], ◌∷◌, ◌++◌, Dict, map, if◌then◌else◌}
use trace2receiver.Dataset.{TrThread, TrChild, TrExec, Trace2Dataset}
use trace2receiver.Filter.Level.{FilterDetailLevel, want_region_and_thread_spans, want_child_spans}
use trace2receiver.Version.{trace2_receiver_version}
use Keys
use Spans.{
  Attributes, Emitter, Span, emit_process_span, emit_non_main_thread_span, emit_region_span,
  emit_child_span, emit_exec_span,
}

pub record InstrumentationScope : Type 0 where
  pub name : String
  pub version : String

pub record Traces : Type 0 where
  pub resource : Attributes
  pub scope : InstrumentationScope
  pub spans : List Span

abbrev pub values {ℓ κ} : {K : Type ℓ} {V : Type κ} → Dict K V → List V
values [] = []
values ((k, v) ∷ m) = v ∷ values m

module _ (em : Emitter) where
  unfoldable pub insert_resource_service_fields : Trace2Dataset → Attributes
  insert_resource_service_fields tr2 =
      (em.service_namespace_key, Keys.trace2_service_namespace)
      ∷ (em.service_name_key, tr2.process.qualified_names.exe_verb_mode)
      ∷ (em.service_version_key, tr2.process.exe_version)
      ∷ (em.service_instance_id_key, tr2.trace2_sid)
      ∷ []

  unfoldable pub insert_resource_telemetry_sdk_fields : Attributes
  insert_resource_telemetry_sdk_fields =
      (em.telemetry_sdk_name_key, "opentelemetry")
      ∷ (em.telemetry_sdk_language_key, "go")
      ∷ (em.telemetry_sdk_version_key, em.otel_version)
      ∷ []

  unfoldable pub insert_resource_instrumentation_scope : InstrumentationScope
  unfolding trace2_receiver_version
  insert_resource_instrumentation_scope = record {
    name = Keys.trace2_instrumentation_name;
    version = trace2_receiver_version em.build_info;
  }

  unfoldable pub region_and_thread_spans : Trace2Dataset → List Span
  unfolding emit_non_main_thread_span emit_region_span
  region_and_thread_spans tr2 =
      map (emit_non_main_thread_span em tr2) (values tr2.threads)
      ++ map (emit_region_span em tr2) tr2.completed_regions

  unfoldable pub child_spans : Trace2Dataset → List Span
  unfolding emit_child_span emit_exec_span
  child_spans tr2 =
      map (emit_child_span em tr2) (values tr2.children)
      ++ map (emit_exec_span em tr2) (values tr2.exec)

  unfoldable pub to_traces : Trace2Dataset → FilterDetailLevel → Traces
  unfolding insert_resource_service_fields insert_resource_telemetry_sdk_fields
      insert_resource_instrumentation_scope region_and_thread_spans child_spans emit_process_span
  to_traces tr2 dl = record {
    resource =
        insert_resource_service_fields tr2
        ++ insert_resource_telemetry_sdk_fields
        ++ (Keys.trace2_cmd_version, tr2.process.exe_version)
          ∷ (Keys.trace2_cmd_sid, tr2.trace2_sid)
          ∷ [];
    scope = insert_resource_instrumentation_scope;
    spans =
        emit_process_span em tr2 dl
          ∷ (if want_region_and_thread_spans dl then region_and_thread_spans tr2 else [])
        ++ (if want_child_spans dl then child_spans tr2 else []);
  }
