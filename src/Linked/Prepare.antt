-- ===== src/Linked/Prepare.antt =====
-- `prepareDataset`, the parents of spans and the open regions.
use mathlib.Core.List.{reverse}
use mathlib.Core.Path.{subst}
use trace2receiver.Common.{
  ◌≡◌, refl, sym, ◌∙◌, true, false, String, ◌⊎◌, inl, inr, List, [], ◌∷◌, ◌++◌, map, All, All-mono,
  Any, Any-append_left, Any-append_right, All-append, All-reverse, Any-reverse, All-map, Any-map, ℤ,
  Dict, Bool-cases, ret,
}
use trace2receiver.Runtime.{Runtime, Time, SpanId}
use trace2receiver.Dataset.{TrThread, TrChild, TrRegion, TrProcess, Trace2Dataset}
use trace2receiver.Dataset.Stack.{close_region, is_incomplete}
use trace2receiver.Dataset.Stack.Nesting.{IsStacked}
use trace2receiver.Nesting.{AreStacked, IsWellNested}
use trace2receiver.Prepare.{close_children, prepare_dataset}
use trace2receiver.Prepare.Completion.{closed_thread, drained, closed_threads, all_drained}
use trace2receiver.Prepare.Shape.{shaped, IsEmptied, prepare_dataset-shaped}
use trace2receiver.Linked.{
  OfRegion, OnThread, IsSpan, IsBelowSpan, AreBelow, IsLinked, IsStacked-parents,
}

-- The regions of a stack, closed, are where they were.
map-close_region-Any :
    (now : Time) (s : SpanId) (rs : List TrRegion)
    → Any (OfRegion s) rs
    → Any (OfRegion s) (map (close_region now) (reverse rs))
map-close_region-Any now s rs h =
    Any-map (close_region now) (OfRegion s) (reverse rs) (Any-reverse (OfRegion s) rs h)

map-close_region-All :
    (now : Time) (P : SpanId → Type 0) (rs : List TrRegion)
    → All (λ r. P r.lifetime.parent_span_id) rs
    → All (λ r. P r.lifetime.parent_span_id) (map (close_region now) (reverse rs))
map-close_region-All now P rs h =
    All-map (close_region now) (λ r. P r.lifetime.parent_span_id) (reverse rs)
      (All-reverse (λ r. P r.lifetime.parent_span_id) rs h)

closed_thread-OnThread :
    (now : Time) (th : TrThread) (s : SpanId)
    → OnThread s th
    → OnThread s (closed_thread now th) ⊎ Any (OfRegion s) (drained now th)
closed_thread-OnThread now th s h = elim (Bool-cases (is_incomplete th.lifetime)) [
  | inl running ↦ rw running (elim h [
    | inl self ↦ inl (inl self)
    | inr region ↦ inr (map-close_region-Any now s th.region_stack region)
  ])
  | inr ended ↦ rw ended (inl h)
]

closed_threads-Any :
    (now : Time) (threads : Dict String TrThread) (s : SpanId)
    → Any (λ (x : String × TrThread). OnThread s x.1) threads
    → Any (λ (x : String × TrThread). OnThread s x.1) (closed_threads now threads)
      ⊎ Any (OfRegion s) (all_drained now threads)
closed_threads-Any now [] s h = absurd h
closed_threads-Any now ((name, th) ∷ more) s (inl h) = elim (closed_thread-OnThread now th s h) [
  | inl kept ↦ inl (inl kept)
  | inr closed ↦ inr (Any-append_left (OfRegion s) (drained now th) _ closed)
]
closed_threads-Any now ((name, th) ∷ more) s (inr h) = elim (closed_threads-Any now more s h) [
  | inl kept ↦ inl (inr kept)
  | inr closed ↦ inr (Any-append_right (OfRegion s) (drained now th) _ closed)
]

drained-parents :
    (now : Time) (th : TrThread)
    → IsStacked th
    → All (λ r. OnThread r.lifetime.parent_span_id th) (drained now th)
drained-parents now th h = elim (Bool-cases (is_incomplete th.lifetime)) [
  | inl running ↦
      rw running
        (map-close_region-All now (λ s. OnThread s th) th.region_stack (IsStacked-parents th h))
  | inr ended ↦ rw ended tt
]

all_drained-parents :
    (now : Time) (threads : Dict String TrThread)
    → AreStacked threads
    → All
        (λ r. Any (λ (x : String × TrThread). OnThread r.lifetime.parent_span_id x.1) threads)
        (all_drained now threads)
all_drained-parents now [] h = tt
all_drained-parents now ((name, th) ∷ more) h =
    All-append _ (drained now th) (all_drained now more)
      (All-mono _ _ (drained now th) (λ r k. inl k) (drained-parents now th h.0))
      (All-mono _ _ (all_drained now more) (λ r k. inr k) (all_drained-parents now more h.1))

closed_threads-parents :
    (now : Time) (main : SpanId) (threads : Dict String TrThread)
    → All (λ (x : String × TrThread). x.1.lifetime.parent_span_id ≡ main) threads
    → All
        (λ (x : String × TrThread). x.1.lifetime.parent_span_id ≡ main)
        (closed_threads now threads)
closed_threads-parents now main [] h = tt
closed_threads-parents now main ((name, th) ∷ more) h =
    elim (Bool-cases (is_incomplete th.lifetime)) [
      | inl running ↦ rw running (h.0, closed_threads-parents now main more h.1)
      | inr ended ↦ rw ended (h.0, closed_threads-parents now main more h.1)
    ]

close_children-parents :
    (now : Time) (main : SpanId) (children : Dict ℤ TrChild)
    → All (λ (x : ℤ × TrChild). x.1.lifetime.parent_span_id ≡ main) children
    → All (λ (x : ℤ × TrChild). x.1.lifetime.parent_span_id ≡ main) (close_children now children)
unfolding close_children
close_children-parents now main [] h = tt
close_children-parents now main ((id, child) ∷ more) h =
    elim (Bool-cases (is_incomplete child.lifetime)) [
      | inl running ↦ rw running (h.0, close_children-parents now main more h.1)
      | inr ended ↦ rw ended (h.0, close_children-parents now main more h.1)
    ]

module _ (now : Time) (tr2 : Trace2Dataset) (process : TrProcess)
    (emptied : IsEmptied tr2.process.main_thread process.main_thread) where
  shaped-IsSpan : (s : SpanId) → IsSpan tr2 s → IsSpan (shaped now tr2 process) s
  shaped-IsSpan s (inl (inl self)) = inl (inl (emptied.0 ∙ self))
  shaped-IsSpan s (inl (inr region)) = inr (
      inr (
        Any-append_right (OfRegion s) (tr2.completed_regions ++ all_drained now tr2.threads) _
          (map-close_region-Any now s tr2.process.main_thread.region_stack region)))
  shaped-IsSpan s (inr (inl on_thread)) = elim (closed_threads-Any now tr2.threads s on_thread) [
    | inl kept ↦ inr (inl kept)
    | inr closed ↦ inr (
        inr (
          Any-append_left (OfRegion s) _ _
            (Any-append_right (OfRegion s) tr2.completed_regions _ closed)))
  ]
  shaped-IsSpan s (inr (inr closed)) = inr (
      inr (
        Any-append_left (OfRegion s) _ _
          (Any-append_left (OfRegion s) tr2.completed_regions _ closed)))

  shaped-IsLinked : IsWellNested tr2 → IsLinked tr2 → IsLinked (shaped now tr2 process)
  shaped-IsLinked nested h = (
    subst (λ i. AreBelow i (shaped now tr2 process)) (sym emptied.0)
        (
          closed_threads-parents now _ tr2.threads h.0.0,
          close_children-parents now _ tr2.children h.0.1,
          h.0.2,
        ),
    All-mono (IsBelowSpan tr2) (IsBelowSpan (shaped now tr2 process)) _
        (λ r k. shaped-IsSpan r.lifetime.parent_span_id k)
        (All-append (IsBelowSpan tr2) _ _
          (All-append (IsBelowSpan tr2) tr2.completed_regions _ h.1 (
            All-mono _ _ (all_drained now tr2.threads) (λ r k. inr (inl k))
              (all_drained-parents now tr2.threads nested.1)))
          (map-close_region-All now (IsSpan tr2) tr2.process.main_thread.region_stack (
            All-mono _ _ tr2.process.main_thread.region_stack (λ r k. inl k)
              (IsStacked-parents tr2.process.main_thread nested.0)))),
  )

-- A thread that has ended has no open region.
abbrev pub IsIdle : TrThread → Type 0
IsIdle th = is_incomplete th.lifetime ≡ false → th.region_stack ≡ []

abbrev pub AreIdle : Trace2Dataset → Type 0
AreIdle tr2 = All (λ (x : String × TrThread). IsIdle x.1) tr2.threads

-- No region is open.
abbrev pub IsClosed : Trace2Dataset → Type 0
IsClosed tr2 =
    (tr2.process.main_thread.region_stack ≡ [])
    × All (λ (x : String × TrThread). x.1.region_stack ≡ []) tr2.threads

closed_threads-closed :
    (now : Time) (threads : Dict String TrThread)
    → All (λ (x : String × TrThread). IsIdle x.1) threads
    → All (λ (x : String × TrThread). x.1.region_stack ≡ []) (closed_threads now threads)
closed_threads-closed now [] h = tt
closed_threads-closed now ((name, th) ∷ more) h = elim (Bool-cases (is_incomplete th.lifetime)) [
  | inl running ↦ rw running (refl, closed_threads-closed now more h.1)
  | inr ended ↦ rw ended (h.0 ended, closed_threads-closed now more h.1)
]

pub prepare_dataset-IsLinked :
    (rt : Runtime) (now : Time) (tr2 tr2' : Trace2Dataset)
    → IsWellNested tr2
    → IsLinked tr2
    → AreIdle tr2
    → prepare_dataset rt now tr2 ≡ ret (true, tr2')
    → IsLinked tr2' × IsClosed tr2'
prepare_dataset-IsLinked rt now tr2 tr2' nested linked idle run =
    let (process, shape, emptied) = prepare_dataset-shaped rt now tr2 tr2' run in
    subst (λ d. IsLinked d × IsClosed d) shape
      (
        shaped-IsLinked now tr2 process emptied nested linked,
        (emptied.1, closed_threads-closed now tr2.threads idle),
      )
