-- ===== src/Common/Fallible.antt =====
-- Go functions that return a value and an error: `ok` stands for a nil error.
use Prim.Native.String.{String}
use mathlib.Core.Path.{◌≡◌, refl}
use mathlib.Core.Logic.{◌⊎◌, inl, inr}
use mathlib.Core.Bool.{Bool}

-- `reject_client_error` is `*RejectClientError`, with its message and its `FSMonitor` flag; every
-- other error is known by its text alone.
pub data GoError : Type 0 where
  error_text : String → GoError
  reject_client_error : String → Bool → GoError

pub data Result {ℓ} (A : Type ℓ) : Type ℓ where
  err : GoError → Result A
  ok : A → Result A

infixl 5 ◌>>=◌
abbrev pub ◌>>=◌ {κ ℓ} : {X : Type κ} {Y : Type ℓ} → Result X → (X → Result Y) → Result Y
err e >>= next = err e
ok value >>= next = next value

-- What a chain that succeeds has gone through.
pub >>=-eq-ok {κ ℓ} :
    {X : Type κ} {Y : Type ℓ} (first : Result X) (next : X → Result Y) {last : Y}
    → (first >>= next) ≡ ok last
    → (value : X) × (first ≡ ok value) × (next value ≡ ok last)
>>=-eq-ok (err e) next h = cc
>>=-eq-ok (ok value) next h = (value, refl, h)

pub ok-injective {ℓ} : {A : Type ℓ} {a b : A} → ok a ≡ ok b → a ≡ b
ok-injective h = cc

pub Result-cases {ℓ} :
    {A : Type ℓ} (r : Result A) → ((e : GoError) × (r ≡ err e)) ⊎ ((a : A) × (r ≡ ok a))
Result-cases (ok a) = inr (a, refl)
Result-cases (err e) = inl (e, refl)
