-- ===== src/Emit/Levels.antt =====
-- What each detail level lets out.
use trace2receiver.Common.{
  ℕ, ◌+◌, ◌≡◌, refl, arith, List, [], ◌∷◌, map, none, Dict, length, length-append,
}
use trace2receiver.Dataset.{Trace2Dataset}
use trace2receiver.Filter.Level.{
  FilterDetailLevel, unset, drop as drop_level, summary, process, verbose,
  want_region_and_thread_spans, want_child_spans, want_process_ancestry, want_process_aliases,
  want_process_timers_counters_and_data, want_main_thread_timers_and_counters,
}
use trace2receiver.Emit.{
  values, region_and_thread_spans, child_spans, to_traces, insert_resource_service_fields,
}
use trace2receiver.Emit.Spans.{
  Emitter, emit_span_essentials, emit_process_span, emit_non_main_thread_span, emit_region_span,
  emit_child_span, emit_exec_span, process_attributes, process_names, process_settings,
  process_alias, thread_totals, process_totals,
}

-- The dataset without its threads and regions, and without the totals of the main thread.
abbrev pub without_threads : Trace2Dataset → Trace2Dataset
without_threads tr2 = record tr2 {
  threads = [];
  completed_regions = [];
  process = record tr2.process {
    main_thread = record tr2.process.main_thread {
      region_stack = [];
      timers = none;
      counters = none;
    };
  };
}

-- Without its children and exec's either, the ancestors, the alias and the totals of the process.
abbrev pub without_details : Trace2Dataset → Trace2Dataset
without_details tr2 =
    let less = without_threads tr2 in
    record less {
      children = [];
      exec = [];
      process = record less.process {
        cmd_ancestry = [];
        cmd_alias_key = "";
        cmd_alias_value = [];
        data_values = none;
        timers = none;
        counters = none;
      };
    }

-- What a level lets out.
abbrev pub visible : FilterDetailLevel → Trace2Dataset → Trace2Dataset
visible verbose tr2 = tr2
visible process tr2 = without_threads tr2
visible _ tr2 = without_details tr2

module _ (em : Emitter) (tr2 : Trace2Dataset) where
  -- The trace at the process level does not depend on threads, regions and the totals of the main
  -- thread; at the levels below it neither on children, exec's, ancestors, the alias and the totals
  -- and data of the process: datasets that agree but for these have the same trace.
  pub to_traces-visible :
      (dl : FilterDetailLevel) → to_traces em tr2 dl ≡ to_traces em (visible dl tr2) dl
  unfolding to_traces insert_resource_service_fields emit_process_span emit_span_essentials
      process_attributes process_names process_settings process_alias thread_totals process_totals
      want_region_and_thread_spans want_child_spans want_process_ancestry want_process_aliases
      want_process_timers_counters_and_data want_main_thread_timers_and_counters child_spans
      emit_child_span emit_exec_span
  to_traces-visible verbose = refl
  to_traces-visible process = refl
  to_traces-visible summary = refl
  to_traces-visible unset = refl
  to_traces-visible drop_level = refl

  -- How many spans a level makes.
  abbrev pub span_count : FilterDetailLevel → ℕ
  span_count verbose =
      1
      + (length tr2.threads + length tr2.completed_regions)
      + (length tr2.children + length tr2.exec)
  span_count process = 1 + (length tr2.children + length tr2.exec)
  span_count _ = 1

  length-map {ℓ κ} :
      {A : Type ℓ} {B : Type κ} (f : A → B) (xs : List A) → length (map f xs) ≡ length xs
  length-map f [] = refl
  length-map f (x ∷ xs) = omega (arith, length-map f xs)

  length-values {ℓ κ} : {K : Type ℓ} {V : Type κ} (m : Dict K V) → length (values m) ≡ length m
  length-values [] = refl
  length-values ((k, v) ∷ m) = omega (arith, length-values m)

  length-region_and_thread_spans :
      length (region_and_thread_spans em tr2) ≡ length tr2.threads + length tr2.completed_regions
  unfolding region_and_thread_spans
  length-region_and_thread_spans = omega (
    arith,
    length-append (map (emit_non_main_thread_span em tr2) (values tr2.threads))
        (map (emit_region_span em tr2) tr2.completed_regions),
    length-map (emit_non_main_thread_span em tr2) (values tr2.threads),
    length-map (emit_region_span em tr2) tr2.completed_regions,
    length-values tr2.threads,
  )

  length-child_spans : length (child_spans em tr2) ≡ length tr2.children + length tr2.exec
  unfolding child_spans
  length-child_spans = omega (
    arith,
    length-append (map (emit_child_span em tr2) (values tr2.children))
        (map (emit_exec_span em tr2) (values tr2.exec)),
    length-map (emit_child_span em tr2) (values tr2.children),
    length-map (emit_exec_span em tr2) (values tr2.exec),
    length-values tr2.children,
    length-values tr2.exec,
  )

  -- A trace has the span of the process, at the levels from process on one for each child and exec,
  -- and at the verbose level one for each thread and each completed region.
  pub length-to_traces :
      (dl : FilterDetailLevel) → length (to_traces em tr2 dl).spans ≡ span_count dl
  unfolding to_traces want_region_and_thread_spans want_child_spans
  length-to_traces verbose = omega (
    arith,
    length-append (region_and_thread_spans em tr2) (child_spans em tr2),
    length-region_and_thread_spans,
    length-child_spans,
  )
  length-to_traces process = omega (arith, length-child_spans)
  length-to_traces summary = refl
  length-to_traces unset = refl
  length-to_traces drop_level = refl
