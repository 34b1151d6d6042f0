-- ===== src/Nesting.antt =====
-- The invariant of a dataset about its region stacks: on every thread the open regions form a
-- well-nested stack.
pub mod Process
pub mod Work
pub mod Regions
pub mod Events
use mathlib.Core.Path.{subst}
use mathlib.Core.Option.{some-injective}
use trace2receiver.Common.{
  suc, ◌≡◌, refl, arith, String, pos, Bool, List, [], ◌∷◌, Option, none, some, Option-cases,
  Bool-cases, ◌==◌, inl, inr, All, Dict, lookup, insert, lookup-All, insert-All, string_eq, ret,
  GoError,
}
use trace2receiver.Common.Panics.{◌>>=◌, deref, at_index}
use trace2receiver.Dataset.{TrThread, Trace2Dataset}
use trace2receiver.Dataset.Stack.{lookup_thread, store_thread}
use trace2receiver.Event.{TrEvent}
use trace2receiver.Apply.Effect.{FnApply, Applied, Outcome, if_found}
use trace2receiver.Dataset.Stack.Nesting.{IsStacked}

abbrev pub AreStacked : Dict String TrThread → Type 0
AreStacked threads = All (λ (x : String × TrThread). IsStacked x.1) threads

abbrev pub IsWellNested : Trace2Dataset → Type 0
IsWellNested tr2 = IsStacked tr2.process.main_thread × AreStacked tr2.threads

pub lookup_thread-IsStacked :
    (tr2 : Trace2Dataset) (name : String) {th : TrThread}
    → IsWellNested tr2
    → lookup_thread tr2 name ≡ some th
    → IsStacked th
unfolding lookup_thread
lookup_thread-IsStacked tr2 name {th} h e = elim (Bool-cases (name == "main")) [
  | inl same ↦
      let found : tr2.process.main_thread ≡ th = some-injective _ _ (rw same at e) in
      subst IsStacked found h.0
  | inr other ↦ lookup-All (λ k t. IsStacked t) name tr2.threads h.1 (rw other at e)
]

pub store_thread-IsWellNested :
    (tr2 : Trace2Dataset) (name : String) (th : TrThread)
    → IsWellNested tr2
    → IsStacked th
    → IsWellNested (store_thread tr2 name th)
unfolding store_thread
store_thread-IsWellNested tr2 name th h k = elim (Bool-cases (name == "main")) [
  | inl same ↦ rw same (k, h.1)
  | inr other ↦ rw other (h.0, insert-All (λ j t. IsStacked t) name th tr2.threads h.1 k)
]

-- What each function of the table keeps: the version event must find no open region on the main
-- thread, whose own span it renames.
abbrev pub Nested : Applied → Type 0
Nested = Outcome (λ tr2 e. IsWellNested tr2) (λ p. Unit)

abbrev pub Keeps : String → FnApply → Type 0
Keeps event afn =
    (tr2 : Trace2Dataset) (evt : TrEvent)
    → (event ≡ "version" → tr2.process.main_thread.region_stack ≡ [])
    → IsWellNested tr2
    → Nested (afn tr2 evt)

-- An event that looks its thread up first.
pub if_found-Nested :
    (tr2 : Trace2Dataset) (name : String) (k : TrThread → Applied)
    → IsWellNested tr2
    → ((th : TrThread) → IsStacked th → Nested (k th))
    → Nested (if_found (lookup_thread tr2 name) tr2 k)
if_found-Nested tr2 name k h all = elim (Option-cases (lookup_thread tr2 name)) [
  | inl missing ↦ rw missing h
  | inr (th, found) ↦ rw found (all th (lookup_thread-IsStacked tr2 name h found))
]

-- An event that reads one of its pointers.
pub deref-Nested {ℓ} :
    {A : Type ℓ} (o : Option A) (k : A → Applied)
    → ((a : A) → o ≡ some a → Nested (k a))
    → Nested (deref o >>= k)
deref-Nested none k all = tt
deref-Nested (some a) k all = all a refl

-- An event that indexes a slice.
pub at_index-Nested {ℓ} :
    {A : Type ℓ} (o : Option A) (k : A → Applied)
    → ((a : A) → o ≡ some a → Nested (k a))
    → Nested (at_index o >>= k)
at_index-Nested none k all = tt
at_index-Nested (some a) k all = all a refl
