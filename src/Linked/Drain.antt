-- ===== src/Linked/Drain.antt =====
-- Closing all open regions of a thread keeps the links.
use mathlib.Core.List.{reverse}
use trace2receiver.Common.{
  refl, inl, inr, List, [], ◌++◌, map, All-mono, Any-append_left, Any-append_right, All-append,
  All-reverse, Any-reverse, All-map, Any-map,
}
use trace2receiver.Runtime.{Time, SpanId}
use trace2receiver.Dataset.{TrThread, TrRegion, Trace2Dataset}
use trace2receiver.Dataset.Stack.{close_region}
use trace2receiver.Dataset.Stack.Nesting.{IsStacked}
use trace2receiver.Linked.{OfRegion, OnThread, IsSpan, IsBelowSpan, IsLinked, IsStacked-parents}
use trace2receiver.Linked.Stores.{IsKept, AreCompleted}

-- The completed regions, with those that were open on the thread.
abbrev pub with_drained : List TrRegion → TrThread → Time → List TrRegion
with_drained completed th t = completed ++ map (close_region t) (reverse th.region_stack)

pub drained-AreCompleted :
    (tr2 : Trace2Dataset) (th : TrThread) (t : Time)
    → IsStacked th
    → ((s : SpanId) → OnThread s th → IsSpan tr2 s)
    → IsLinked tr2
    → AreCompleted tr2 (with_drained tr2.completed_regions th t)
drained-AreCompleted tr2 th t stacked spans h = (
  (λ s c. Any-append_left (OfRegion s) tr2.completed_regions _ c),
  All-append (IsBelowSpan tr2) tr2.completed_regions _ h.1 (
      All-map (close_region t) (IsBelowSpan tr2) (reverse th.region_stack) (
        All-reverse (IsBelowSpan tr2) th.region_stack (
          All-mono _ _ th.region_stack (λ r on. spans r.lifetime.parent_span_id on)
            (IsStacked-parents th stacked)))),
)

-- Whatever the end of the thread is then.
pub drained-IsKept :
    (completed : List TrRegion) (th : TrThread) (t end_time : Time)
    → IsKept
        (with_drained completed th t)
        th
        (record th { region_stack = []; lifetime = record th.lifetime { end_time = end_time } })
drained-IsKept completed th t end_time = (
  refl,
  refl,
  λ s on. elim on [
    | inl self ↦ inl (inl self)
    | inr region ↦ inr (
        Any-append_right (OfRegion s) completed _ (
          Any-map (close_region t) (OfRegion s) (reverse th.region_stack)
            (Any-reverse (OfRegion s) th.region_stack region)))
  ],
)
