-- ===== src/Linked/Stores.antt =====
-- Writing a thread back, with regions that it completed, and opening a thread keep the links.
use mathlib.Core.Path.{subst}
use mathlib.Core.Option.{some-injective}
use trace2receiver.Common.{
  ◌≡◌, sym, String, List, some, none, Bool-cases, ◌==◌, ◌⊎◌, inl, inr, All, Any, lookup, insert,
  insert-All, insert-All_same, insert-Any, insert-Any_fresh, string_eq, All-mono,
}
use trace2receiver.Runtime.{SpanId}
use trace2receiver.Dataset.{TrRegion, TrThread, Trace2Dataset}
use trace2receiver.Dataset.Stack.{lookup_thread, store_thread}
use trace2receiver.Linked.{OfRegion, OnThread, IsBelowSpan, AreBelow, IsLinked}

-- The thread keeps its place, and its spans are still there: on it or among the completed regions.
abbrev pub IsKept : List TrRegion → TrThread → TrThread → Type 0
IsKept completed old new =
    (new.lifetime.self_span_id ≡ old.lifetime.self_span_id)
    × (new.lifetime.parent_span_id ≡ old.lifetime.parent_span_id)
    × ((s : SpanId) → OnThread s old → OnThread s new ⊎ Any (OfRegion s) completed)

-- The completed regions are all kept, and the new ones have parents that are spans.
abbrev pub AreCompleted : Trace2Dataset → List TrRegion → Type 0
AreCompleted tr2 completed =
    ((s : SpanId) → Any (OfRegion s) tr2.completed_regions → Any (OfRegion s) completed)
    × All (IsBelowSpan tr2) completed

module _ (tr2 : Trace2Dataset) (completed : List TrRegion) (c : AreCompleted tr2 completed) where
  pub insert_thread-IsLinked :
      (name : String) (old new : TrThread)
      → lookup name tr2.threads ≡ some old
      → IsKept completed old new
      → IsLinked tr2
      → IsLinked
          (record tr2 { threads = insert name new tr2.threads; completed_regions = completed })
  insert_thread-IsLinked name old new found kept h = (
    (
      insert-All_same (λ th. th.lifetime.parent_span_id) _ name old new tr2.threads found kept.1
          h.0.0,
      h.0.1,
      h.0.2,
    ),
    All-mono _ _ completed
        (λ r k. elim k [
          | inl on_main ↦ inl on_main
          | inr (inl on_thread) ↦
              elim (insert-Any (OnThread r.lifetime.parent_span_id)
                (Any (OfRegion r.lifetime.parent_span_id) completed) name old new tr2.threads found
                (kept.2 r.lifetime.parent_span_id) on_thread) [
                  | inl still ↦ inr (inl still)
                  | inr closed ↦ inr (inr closed)
                ]
          | inr (inr closed) ↦ inr (inr (c.0 r.lifetime.parent_span_id closed))
        ])
        c.1,
  )

  pub set_main-IsLinked :
      (new : TrThread)
      → IsKept completed tr2.process.main_thread new
      → IsLinked tr2
      → IsLinked (record tr2 {
        process = record tr2.process { main_thread = new };
        completed_regions = completed;
      })
  set_main-IsLinked new kept h = (
    subst (λ i. AreBelow i tr2) (sym kept.0) h.0,
    All-mono _ _ completed
        (λ r k. elim k [
          | inl on_main ↦ elim (kept.2 r.lifetime.parent_span_id on_main) [
            | inl still ↦ inl still
            | inr closed ↦ inr (inr closed)
          ]
          | inr (inl on_thread) ↦ inr (inl on_thread)
          | inr (inr closed) ↦ inr (inr (c.0 r.lifetime.parent_span_id closed))
        ])
        c.1,
  )

  pub store_thread-IsLinked :
      (name : String) (old new : TrThread)
      → lookup_thread tr2 name ≡ some old
      → IsKept completed old new
      → IsLinked tr2
      → IsLinked (store_thread (record tr2 { completed_regions = completed }) name new)
  unfolding store_thread lookup_thread
  store_thread-IsLinked name old new found kept h = elim (Bool-cases (name == "main")) [
    | inl same ↦
        let is_main : old ≡ tr2.process.main_thread = sym (some-injective _ _ (rw same at found)) in
        rw same (set_main-IsLinked new (subst (λ t. IsKept completed t new) is_main kept) h)
    | inr other ↦ rw other (insert_thread-IsLinked name old new (rw other at found) kept h)
  ]

-- Nothing is completed.
pub AreCompleted-same :
    (tr2 : Trace2Dataset) → IsLinked tr2 → AreCompleted tr2 tr2.completed_regions
AreCompleted-same tr2 h = ((λ s c. c), h.1)

pub open_thread-IsLinked :
    (tr2 : Trace2Dataset) (name : String) (th : TrThread)
    → lookup name tr2.threads ≡ none
    → th.lifetime.parent_span_id ≡ tr2.process.main_thread.lifetime.self_span_id
    → IsLinked tr2
    → IsLinked (record tr2 { threads = insert name th tr2.threads })
open_thread-IsLinked tr2 name th missing below h = (
  (
    insert-All (λ k (t : TrThread). t.lifetime.parent_span_id ≡ _) name th tr2.threads h.0.0 below,
    h.0.1,
    h.0.2,
  ),
  All-mono _ _ tr2.completed_regions
      (λ r k. elim k [
        | inl on_main ↦ inl on_main
        | inr (inl on_thread) ↦ inr (
            inl (
              insert-Any_fresh (OnThread r.lifetime.parent_span_id) name th tr2.threads missing
                (inr on_thread)))
        | inr (inr closed) ↦ inr (inr closed)
      ])
      h.1,
)
