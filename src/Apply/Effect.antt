-- ===== src/Apply/Effect.antt =====
-- The shape of the functions `apply__*` of evt_apply.go: the dataset behind the pointer and the
-- error that the function returns, unless it panics.
use trace2receiver.Common.{
  ◌≡◌, String, Option, none, Dict, lookup, insert, string_eq, some, [], GoError, Go, ret, panic,
  Panic, type_assertion,
}
use trace2receiver.Json.{Value, str}
use trace2receiver.Event.{TrEvent}
use trace2receiver.Dataset.{Trace2Dataset}

abbrev pub Applied : Type 0
Applied = Go (Trace2Dataset × Option GoError)

abbrev pub FnApply : Type 0
FnApply = Trace2Dataset → TrEvent → Applied

-- `return nil`
abbrev pub done : Trace2Dataset → Applied
done tr2 = ret (tr2, none)

-- `a, ok := …; if !ok { return nil }`: the event is ignored where nothing is found.
abbrev pub if_found {ℓ} : {A : Type ℓ} → Option A → Trace2Dataset → (A → Applied) → Applied
if_found none tr2 k = done tr2
if_found (some a) tr2 k = k a

-- `v.(string)`
abbrev pub as_string : Value → Go String
as_string (str s) = ret s
as_string _ = panic type_assertion

abbrev pub or_empty {ℓ} : {V : Type ℓ} → Option (Dict String V) → Dict String V
or_empty none = []
or_empty (some m) = m

-- m[category][key] = value, making a map that is nil or missing on the way.
unfoldable pub set_nested {ℓ} :
    {V : Type ℓ}
    → Option (Dict String (Dict String V))
    → String
    → String
    → V
    → Option (Dict String (Dict String V))
set_nested m category key value =
    some (insert category (insert key value (or_empty (lookup category (or_empty m)))) (or_empty m))

-- What holds of the dataset and the error of a normal return, and of the kind of a panic.
abbrev pub Outcome : (Trace2Dataset → Option GoError → Type 0) → (Panic → Type 0) → Applied → Type 0
Outcome P Q (ret x) = P x.0 x.1
Outcome P Q (panic p) = Q p

-- The property at what an action returns, and at its panic.
module _ (P : Trace2Dataset → Option GoError → Type 0) (Q : Panic → Type 0) (m : Applied) where
  pub Outcome-ret :
      {tr2 : Trace2Dataset} {e : Option GoError} → Outcome P Q m → m ≡ ret (tr2, e) → P tr2 e
  Outcome-ret h k = rw k at h

  pub Outcome-panic : {p : Panic} → Outcome P Q m → m ≡ panic p → Q p
  Outcome-panic h k = rw k at h
