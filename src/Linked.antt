-- ===== src/Linked.antt =====
-- The invariant of a dataset about the parents of its spans: the parent of every completed region is a
-- span that the dataset still has, and threads, children and exec's lie below the main thread.
pub mod Stores
pub mod Drain
pub mod Process
pub mod Work
pub mod Regions
pub mod Events
pub mod Prepare
use mathlib.Core.Path.{subst}
use mathlib.Core.Option.{some-injective}
use trace2receiver.Common.{
  Go, ret, panic, ◌≡◌, refl, sym, String, [], ◌∷◌, List, Option, none, some, Option-cases,
  Bool-cases, ◌==◌, ◌⊎◌, inl, inr, All, Any, lookup-Any, string_eq, ℤ, suc, ℕ, All-mono,
}
use trace2receiver.Common.Panics.{◌>>=◌, deref, at_index}
use trace2receiver.Runtime.{SpanId}
use trace2receiver.Dataset.{TrRegion, TrThread, TrChild, TrExec, Trace2Dataset}
use trace2receiver.Dataset.Stack.{lookup_thread}
use trace2receiver.Dataset.Stack.Nesting.{StackFrom, IsStacked}
use trace2receiver.Event.{TrEvent}
use trace2receiver.Apply.Effect.{FnApply, Applied, Outcome, if_found}
use trace2receiver.Nesting.{IsWellNested}

abbrev pub OfRegion : SpanId → TrRegion → Type 0
OfRegion s r = r.lifetime.self_span_id ≡ s

-- The id is that of the thread, or of a region that is open on it.
abbrev pub OnThread : SpanId → TrThread → Type 0
OnThread s th = (th.lifetime.self_span_id ≡ s) ⊎ Any (OfRegion s) th.region_stack

-- The id is that of a thread or of a region of the dataset.
abbrev pub IsSpan : Trace2Dataset → SpanId → Type 0
IsSpan tr2 s =
    OnThread s tr2.process.main_thread
    ⊎ Any (λ (x : String × TrThread). OnThread s x.1) tr2.threads
    ⊎ Any (OfRegion s) tr2.completed_regions

-- What lies below the main thread.
abbrev pub AreBelow : SpanId → Trace2Dataset → Type 0
AreBelow main tr2 =
    All (λ (x : String × TrThread). x.1.lifetime.parent_span_id ≡ main) tr2.threads
    × All (λ (x : ℤ × TrChild). x.1.lifetime.parent_span_id ≡ main) tr2.children
    × All (λ (x : ℤ × TrExec). x.1.lifetime.parent_span_id ≡ main) tr2.exec

abbrev pub IsBelowSpan : Trace2Dataset → TrRegion → Type 0
IsBelowSpan tr2 r = IsSpan tr2 r.lifetime.parent_span_id

abbrev pub IsLinked : Trace2Dataset → Type 0
IsLinked tr2 =
    AreBelow tr2.process.main_thread.lifetime.self_span_id tr2
    × All (IsBelowSpan tr2) tr2.completed_regions

-- Nothing that has a span but the process.
abbrev pub IsFresh : Trace2Dataset → Type 0
IsFresh tr2 =
    (tr2.process.main_thread.region_stack ≡ [])
    × (tr2.threads ≡ [])
    × (tr2.children ≡ [])
    × (tr2.exec ≡ [])
    × (tr2.completed_regions ≡ [])

-- What each function of the table keeps: the version event, which gives the process its span id,
-- must find a fresh dataset.
abbrev pub Linked : Applied → Type 0
Linked = Outcome (λ tr2 e. IsLinked tr2) (λ p. Unit)

abbrev pub Keeps : String → FnApply → Type 0
Keeps event afn =
    (tr2 : Trace2Dataset) (evt : TrEvent)
    → (event ≡ "version" → IsFresh tr2)
    → IsWellNested tr2
    → IsLinked tr2
    → Linked (afn tr2 evt)

-- An event that looks its thread up first.
pub if_found-Linked :
    (tr2 : Trace2Dataset) (name : String) (k : TrThread → Applied)
    → IsLinked tr2
    → ((th : TrThread) → lookup_thread tr2 name ≡ some th → Linked (k th))
    → Linked (if_found (lookup_thread tr2 name) tr2 k)
if_found-Linked tr2 name k h all = elim (Option-cases (lookup_thread tr2 name)) [
  | inl missing ↦ rw missing h
  | inr (th, found) ↦ rw found (all th found)
]

-- An event that takes a step whose result does not matter.
pub step-Linked {ℓ} :
    {A : Type ℓ} (m : Go A) (k : A → Applied) → ((a : A) → Linked (k a)) → Linked (m >>= k)
step-Linked (panic p) k all = tt
step-Linked (ret a) k all = all a

-- An event that reads one of its pointers.
pub deref-Linked {ℓ} :
    {A : Type ℓ} (o : Option A) (k : A → Applied)
    → ((a : A) → o ≡ some a → Linked (k a))
    → Linked (deref o >>= k)
deref-Linked none k all = tt
deref-Linked (some a) k all = all a refl

-- An event that indexes a slice.
pub at_index-Linked {ℓ} :
    {A : Type ℓ} (o : Option A) (k : A → Applied)
    → ((a : A) → o ≡ some a → Linked (k a))
    → Linked (at_index o >>= k)
at_index-Linked none k all = tt
at_index-Linked (some a) k all = all a refl

-- The spans of a thread that is found are spans of the dataset.
pub OnThread-IsSpan :
    (tr2 : Trace2Dataset) (name : String) {th : TrThread} (s : SpanId)
    → lookup_thread tr2 name ≡ some th
    → OnThread s th
    → IsSpan tr2 s
unfolding lookup_thread
OnThread-IsSpan tr2 name {th} s found h = elim (Bool-cases (name == "main")) [
  | inl same ↦
      let is_main : th ≡ tr2.process.main_thread = sym (some-injective _ _ (rw same at found)) in
      inl (subst (OnThread s) is_main h)
  | inr other ↦ inr (inl (lookup-Any (OnThread s) name tr2.threads (rw other at found) h))
]

-- The parents of open regions are on the same stack, or are the thread itself.
StackFrom-parents :
    (i : ℕ) (parent : SpanId) (s : List TrRegion)
    → StackFrom i parent s
    → All (λ r. (parent ≡ r.lifetime.parent_span_id) ⊎ Any (OfRegion r.lifetime.parent_span_id) s) s
StackFrom-parents i parent [] h = tt
StackFrom-parents i parent (x ∷ s) h = (
  inl (sym h.1),
  All-mono _ _ s (λ r k. inr k) (StackFrom-parents (suc i) x.lifetime.self_span_id s h.3),
)

pub IsStacked-parents :
    (th : TrThread)
    → IsStacked th
    → All (λ r. OnThread r.lifetime.parent_span_id th) th.region_stack
IsStacked-parents th h = StackFrom-parents 0 th.lifetime.self_span_id th.region_stack h
