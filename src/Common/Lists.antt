-- ===== src/Common/Lists.antt =====
-- Lists measured and indexed by native numbers, under the library's names.
use Prim.Native.Nat.{ℕ, zero, suc, ◌+◌, ◌<◌}
use mathlib.Core.Path.{◌≡◌, sym, subst}
use mathlib.Core.List.{List, [], ◌∷◌, ◌++◌, map, reverse, reverse-cons}
use mathlib.Core.Logic.{◌⊎◌, inl, inr}
use mathlib.Core.Option.{Option, none, some, some-injective}
use native.Mathlib.Omega.{arith}

module _ {ℓ} {A : Type ℓ} where
  abbrev pub length : List A → ℕ
  length [] = 0
  length (x ∷ xs) = suc (length xs)

  -- `none` where the source indexes out of range.
  abbrev pub get_elem? : List A → ℕ → Option A
  get_elem? [] i = none
  get_elem? (x ∷ xs) zero = some x
  get_elem? (x ∷ xs) (suc i) = get_elem? xs i

  -- A write out of bounds changes nothing.
  abbrev pub set : List A → ℕ → A → List A
  set [] i v = []
  set (x ∷ xs) zero v = v ∷ xs
  set (x ∷ xs) (suc i) v = x ∷ set xs i v

  abbrev pub take : ℕ → List A → List A
  take zero xs = []
  take (suc n) [] = []
  take (suc n) (x ∷ xs) = x ∷ take n xs

  abbrev pub drop : ℕ → List A → List A
  drop zero xs = xs
  drop (suc n) [] = []
  drop (suc n) (x ∷ xs) = drop n xs

  abbrev pub All {κ} : (A → Type κ) → List A → Type κ
  All P [] = Unit
  All P (x ∷ xs) = P x × All P xs

  pub length-append : (xs ys : List A) → length (xs ++ ys) ≡ length xs + length ys
  length-append [] ys = omega arith
  length-append (x ∷ xs) ys = omega (arith, length-append xs ys)

  pub get_elem?-some_lt : (xs : List A) (i : ℕ) {x : A} → get_elem? xs i ≡ some x → i < length xs
  get_elem?-some_lt [] i h = ground arith
  get_elem?-some_lt (y ∷ xs) zero h = omega arith
  get_elem?-some_lt (y ∷ xs) (suc i) h = omega (arith, get_elem?-some_lt xs i h)

  -- Some element has the property.
  abbrev pub Any : (A → Type 0) → List A → Type 0
  Any P [] = ⊥
  Any P (x ∷ xs) = P x ⊎ Any P xs

  pub Any-append_left : (P : A → Type 0) (xs ys : List A) → Any P xs → Any P (xs ++ ys)
  Any-append_left P [] ys h = absurd h
  Any-append_left P (x ∷ xs) ys (inl h) = inl h
  Any-append_left P (x ∷ xs) ys (inr h) = inr (Any-append_left P xs ys h)

  pub Any-append_right : (P : A → Type 0) (xs ys : List A) → Any P ys → Any P (xs ++ ys)
  Any-append_right P [] ys h = h
  Any-append_right P (x ∷ xs) ys h = inr (Any-append_right P xs ys h)

  pub All-append {κ} : (P : A → Type κ) (xs ys : List A) → All P xs → All P ys → All P (xs ++ ys)
  All-append P [] ys h k = k
  All-append P (x ∷ xs) ys h k = (h.0, All-append P xs ys h.1 k)

  pub All-mono {κ μ} :
      (P : A → Type κ) (Q : A → Type μ) (xs : List A) → ((x : A) → P x → Q x) → All P xs → All Q xs
  All-mono P Q [] f h = tt
  All-mono P Q (x ∷ xs) f h = (f x h.0, All-mono P Q xs f h.1)

  pub All-reverse {κ} : (P : A → Type κ) (xs : List A) → All P xs → All P (reverse xs)
  All-reverse P [] h = h
  All-reverse P (x ∷ xs) h =
      subst (All P) (sym (reverse-cons x xs))
        (All-append P (reverse xs) (x ∷ []) (All-reverse P xs h.1) (h.0, tt))

  pub Any-reverse : (P : A → Type 0) (xs : List A) → Any P xs → Any P (reverse xs)
  Any-reverse P [] h = h
  Any-reverse P (x ∷ xs) h = subst (Any P) (sym (reverse-cons x xs)) (elim h [
    | inl here ↦ Any-append_right P (reverse xs) (x ∷ []) (inl here)
    | inr there ↦ Any-append_left P (reverse xs) (x ∷ []) (Any-reverse P xs there)
  ])

  pub get_elem?-All {κ} :
      (P : A → Type κ) (xs : List A) (i : ℕ) {x : A} → All P xs → get_elem? xs i ≡ some x → P x
  get_elem?-All P [] i h found = cc
  get_elem?-All P (y ∷ xs) zero h found = subst P (some-injective _ _ found) h.0
  get_elem?-All P (y ∷ xs) (suc i) h found = get_elem?-All P xs i h.1 found

  -- Without its last element, a list has what it had, or the last element had it.
  pub take-Any :
      (P : A → Type 0) (xs : List A) (n : ℕ) {x : A}
      → length xs ≡ suc n
      → get_elem? xs n ≡ some x
      → Any P xs
      → Any P (take n xs) ⊎ P x
  take-Any P [] n count found h = absurd h
  take-Any P (y ∷ xs) zero count found (inl h) = inr (subst P (some-injective _ _ found) h)
  take-Any P (y ∷ []) zero count found (inr h) = absurd h
  take-Any P (y ∷ z ∷ xs) zero count found (inr h) = absurd (omega (arith, count))
  take-Any P (y ∷ xs) (suc n) count found (inl h) = inl (inl h)
  take-Any P (y ∷ xs) (suc n) count found (inr h) =
      elim (take-Any P xs n (omega (arith, count)) found h) [
        | inl kept ↦ inl (inr kept)
        | inr last ↦ inr last
      ]

  pub set-Any :
      (P : A → Type 0) (xs : List A) (n : ℕ) (old new : A)
      → get_elem? xs n ≡ some old
      → (P old → P new)
      → Any P xs
      → Any P (set xs n new)
  set-Any P [] n old new found f h = absurd h
  set-Any P (y ∷ xs) zero old new found f (inl h) = inl (f (subst P (some-injective _ _ found) h))
  set-Any P (y ∷ xs) zero old new found f (inr h) = inr h
  set-Any P (y ∷ xs) (suc n) old new found f (inl h) = inl h
  set-Any P (y ∷ xs) (suc n) old new found f (inr h) = inr (set-Any P xs n old new found f h)

module _ {ℓ κ} {A : Type ℓ} {B : Type κ} (f : A → B) where
  pub All-map {μ} : (P : B → Type μ) (xs : List A) → All (λ x. P (f x)) xs → All P (map f xs)
  All-map P [] h = tt
  All-map P (x ∷ xs) h = (h.0, All-map P xs h.1)

  pub Any-map : (P : B → Type 0) (xs : List A) → Any (λ x. P (f x)) xs → Any P (map f xs)
  Any-map P [] h = absurd h
  Any-map P (x ∷ xs) (inl h) = inl h
  Any-map P (x ∷ xs) (inr h) = inr (Any-map P xs h)
