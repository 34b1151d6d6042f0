-- ===== src/Emit/Parents.antt =====
-- The parents of the spans of a trace.
use mathlib.Core.Path.{subst}
use trace2receiver.Common.{
  ◌≡◌, sym, true, inl, inr, List, [], ◌∷◌, String, map, All, Any, All-mono, All-append, All-map,
  Any-map, Any-append_left, Any-append_right, Dict, drop, ret,
}
use trace2receiver.Runtime.{Runtime, Time, SpanId}
use trace2receiver.Dataset.{TrThread, Trace2Dataset}
use trace2receiver.Filter.Level.{
  FilterDetailLevel, unset, drop as drop_level, summary, process, verbose,
  want_region_and_thread_spans, want_child_spans,
}
use trace2receiver.Nesting.{IsWellNested}
use trace2receiver.Linked.{OfRegion, OnThread, IsSpan, IsLinked}
use trace2receiver.Linked.Prepare.{IsClosed, AreIdle, prepare_dataset-IsLinked}
use trace2receiver.Prepare.{prepare_dataset}
use trace2receiver.Emit.{values, region_and_thread_spans, child_spans, to_traces}
use trace2receiver.Emit.Spans.{
  Emitter, Span, emit_process_span, emit_non_main_thread_span, emit_region_span, emit_child_span,
  emit_exec_span, emit_span_essentials,
}

module _ {ℓ κ} {K : Type ℓ} {V : Type κ} where
  pub values-All {μ} :
      (P : V → Type μ) (m : Dict K V) → All (λ (x : K × V). P x.1) m → All P (values m)
  values-All P [] h = tt
  values-All P ((k, v) ∷ m) h = (h.0, values-All P m h.1)

-- The span has a parent among the given ones.
abbrev pub HasParent : List Span → Span → Type 0
HasParent spans sp = Any (λ (p : Span). p.span_id ≡ sp.parent_span_id) spans

module _ (em : Emitter) (tr2 : Trace2Dataset) where
  abbrev IsEmitted : List Span → SpanId → Type 0
  IsEmitted spans s = Any (λ (p : Span). p.span_id ≡ s) spans

  thread-IsEmitted :
      (s : SpanId) (threads : Dict String TrThread)
      → All (λ (x : String × TrThread). x.1.region_stack ≡ []) threads
      → Any (λ (x : String × TrThread). OnThread s x.1) threads
      → IsEmitted (map (emit_non_main_thread_span em tr2) (values threads)) s
  unfolding emit_non_main_thread_span emit_span_essentials
  thread-IsEmitted s [] idle h = absurd h
  thread-IsEmitted s ((name, th) ∷ more) idle (inl (inl self)) = inl self
  thread-IsEmitted s ((name, th) ∷ more) idle (inl (inr region)) =
      absurd (subst (Any (OfRegion s)) idle.0 region)
  thread-IsEmitted s ((name, th) ∷ more) idle (inr h) = inr (thread-IsEmitted s more idle.1 h)

  -- At the level of all spans, every span of the dataset is emitted.
  verbose-IsEmitted :
      (s : SpanId) → IsClosed tr2 → IsSpan tr2 s → IsEmitted (to_traces em tr2 verbose).spans s
  unfolding to_traces emit_region_span emit_span_essentials want_region_and_thread_spans
  verbose-IsEmitted s closed (inl (inl self)) = inl self
  verbose-IsEmitted s closed (inl (inr region)) = absurd (subst (Any (OfRegion s)) closed.0 region)
  verbose-IsEmitted s closed (inr (inl on_thread)) = inr (
      Any-append_left _ (region_and_thread_spans em tr2) _ (
        Any-append_left _ (map (emit_non_main_thread_span em tr2) (values tr2.threads)) _
          (thread-IsEmitted s tr2.threads closed.1 on_thread)))
  verbose-IsEmitted s closed (inr (inr region)) = inr (
      Any-append_left _ (region_and_thread_spans em tr2) _ (
        Any-append_right _ (map (emit_non_main_thread_span em tr2) (values tr2.threads)) _ (
          Any-map (emit_region_span em tr2) (λ (p : Span). p.span_id ≡ s) tr2.completed_regions
            region)))

  -- The spans of children and exec's are below the process, whatever the spans are.
  child_spans-HasParent :
      (more : List Span) (dl : FilterDetailLevel)
      → IsLinked tr2
      → All (HasParent (emit_process_span em tr2 dl ∷ more)) (child_spans em tr2)
  unfolding child_spans emit_child_span emit_exec_span emit_span_essentials emit_process_span
  child_spans-HasParent more dl h =
      All-append _ (map (emit_child_span em tr2) (values tr2.children)) _
        (All-map _ _ _ (
          values-All _ tr2.children (All-mono _ _ tr2.children (λ x below. inl (sym below)) h.0.1)))
        (All-map _ _ _
          (values-All _ tr2.exec (All-mono _ _ tr2.exec (λ x below. inl (sym below)) h.0.2)))

  verbose-HasParent :
      IsLinked tr2
      → IsClosed tr2
      → All (HasParent (to_traces em tr2 verbose).spans) (region_and_thread_spans em tr2)
  unfolding to_traces emit_process_span emit_region_span emit_span_essentials
      emit_non_main_thread_span
  verbose-HasParent h closed =
      All-append _ (map (emit_non_main_thread_span em tr2) (values tr2.threads)) _
        (All-map _ _ _
          (values-All _ tr2.threads (All-mono _ _ tr2.threads (λ x below. inl (sym below)) h.0.0)))
        (All-map (emit_region_span em tr2) _ tr2.completed_regions (
          All-mono _ _ tr2.completed_regions
            (λ r below. verbose-IsEmitted r.lifetime.parent_span_id closed below) h.1))

  pub to_traces-HasParent :
      (dl : FilterDetailLevel)
      → IsLinked tr2
      → IsClosed tr2
      → All (HasParent (to_traces em tr2 dl).spans) (drop 1 (to_traces em tr2 dl).spans)
  unfolding to_traces want_region_and_thread_spans want_child_spans
  to_traces-HasParent unset h closed = tt
  to_traces-HasParent drop_level h closed = tt
  to_traces-HasParent summary h closed = tt
  to_traces-HasParent process h closed = child_spans-HasParent _ process h
  to_traces-HasParent verbose h closed =
      All-append _ (region_and_thread_spans em tr2) _ (verbose-HasParent h closed)
        (child_spans-HasParent _ verbose h)

-- If the dataset is linked, its regions are well nested and no thread that has ended has an open
-- region, then in the trace of the prepared dataset, at every detail level, the parent of every span
-- but the first, which is that of the process, is a span of the same trace.
pub prepare_dataset-to_traces-HasParent :
    (rt : Runtime) (em : Emitter) (now : Time) (tr2 tr2' : Trace2Dataset) (dl : FilterDetailLevel)
    → IsWellNested tr2
    → IsLinked tr2
    → AreIdle tr2
    → prepare_dataset rt now tr2 ≡ ret (true, tr2')
    → All (HasParent (to_traces em tr2' dl).spans) (drop 1 (to_traces em tr2' dl).spans)
prepare_dataset-to_traces-HasParent rt em now tr2 tr2' dl nested linked idle run =
    let (links, closed) = prepare_dataset-IsLinked rt now tr2 tr2' nested linked idle run in
    to_traces-HasParent em tr2' dl links closed
