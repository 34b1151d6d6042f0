-- ===== src/Common/Panics.antt =====
-- Go functions that may panic: `ret` is a normal return, `panic` a run-time panic, which nothing
-- in the program recovers from.
use mathlib.Core.Path.{◌≡◌, refl, ap}
use mathlib.Core.Bool.{Bool, true, false}
use trace2receiver.Common.Tests.{if◌then◌else◌}
use mathlib.Core.Option.{Option, none, some}

pub data Panic : Type 0 where
  nil_deref index_out_of_range type_assertion : Panic

pub data Go {ℓ} (A : Type ℓ) : Type ℓ where
  ret : A → Go A
  panic : Panic → Go A

infixl 5 ◌>>=◌
abbrev pub ◌>>=◌ {κ ℓ} : {X : Type κ} {Y : Type ℓ} → Go X → (X → Go Y) → Go Y
panic p >>= next = panic p
ret value >>= next = next value

-- `*p`: the value behind a pointer that may be nil.
abbrev pub deref {ℓ} : {A : Type ℓ} → Option A → Go A
deref none = panic nil_deref
deref (some a) = ret a

-- `s[i]`: the element of a slice, from the model's lookup.
abbrev pub at_index {ℓ} : {A : Type ℓ} → Option A → Go A
at_index none = panic index_out_of_range
at_index (some a) = ret a

-- What a chain that returns has gone through.
pub >>=-eq-ret {κ ℓ} :
    {X : Type κ} {Y : Type ℓ} (first : Go X) (next : X → Go Y) {last : Y}
    → (first >>= next) ≡ ret last
    → (value : X) × (first ≡ ret value) × (next value ≡ ret last)
>>=-eq-ret (panic p) next h = cc
>>=-eq-ret (ret value) next h = (value, refl, h)

pub ret-injective {ℓ} : {A : Type ℓ} {a b : A} → ret a ≡ ret b → a ≡ b
ret-injective h = cc

pub deref-eq-ret {ℓ} : {A : Type ℓ} (o : Option A) {a : A} → deref o ≡ ret a → o ≡ some a
deref-eq-ret none h = cc
deref-eq-ret (some b) h = ap some (ret-injective h)

panic-ne-ret {ℓ} : {A : Type ℓ} {p : Panic} {a : A} → panic p ≡ ret a → ⊥
panic-ne-ret h = cc

-- The action returns, whatever it returns.
abbrev pub Returns {ℓ} : {A : Type ℓ} → Go A → Type ℓ
Returns {A} m = (a : A) × (m ≡ ret a)

pub >>=-Returns {ℓ κ} :
    {A : Type ℓ} {B : Type κ} (m : Go A) (f : A → Go B)
    → Returns m
    → ((a : A) → m ≡ ret a → Returns (f a))
    → Returns (m >>= f)
>>=-Returns (panic p) f h k = absurd (panic-ne-ret h.1)
>>=-Returns (ret a) f h k = k a refl

pub if-Returns {ℓ} :
    {A : Type ℓ} (b : Bool) (x y : Go A)
    → (b ≡ true → Returns x)
    → (b ≡ false → Returns y)
    → Returns (if b then x else y)
if-Returns true x y h k = h refl
if-Returns false x y h k = k refl
