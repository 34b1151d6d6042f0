-- ===== src/Common/Maps.antt =====
-- Go maps, as association lists in the order in which the keys were first inserted. Go leaves the
-- order of a `range` over a map open; the models that iterate take the list's order.
use mathlib.Core.Path.{◌≡◌, refl, sym, subst, ◌∙◌}
use mathlib.Core.Logic.{◌⊎◌, inl, inr}
use mathlib.Core.Bool.{true}
use mathlib.Core.Option.{Option, none, some, some-injective}
use mathlib.Core.List.{List, [], ◌∷◌}
use native.Mathlib.Omega.{arith}
use trace2receiver.Common.Tests.{if◌then◌else◌, Bool-cases}
use trace2receiver.Common.Lists.{All, Any}
use trace2receiver.Common.Equality.{Comparable, ◌==◌}

abbrev pub Dict {ℓ κ} : Type ℓ → Type κ → Type (ℓ ⊔ κ)
Dict K V = List (K × V)

module _ {ℓ κ} {K : Type ℓ} {V : Type κ} ⦃e : Comparable K⦄ where
  -- `v, ok := m[k]`
  unfoldable pub lookup : K → Dict K V → Option V
  lookup key [] = none
  lookup key ((first, value) ∷ rest) = if first == key then some value else lookup key rest

  -- `m[k] = v`
  unfoldable pub insert : K → V → Dict K V → Dict K V
  insert key new [] = (key, new) ∷ []
  insert key new ((first, value) ∷ rest) =
      if first == key then (first, new) ∷ rest else (first, value) ∷ insert key new rest

  pub lookup-insert :
      (key other : K) (new : V) (dict : Dict K V)
      → lookup other (insert key new dict) ≡ (if key == other then some new else lookup other dict)
  unfolding lookup insert
  lookup-insert key other new [] = refl
  lookup-insert key other new ((first, value) ∷ rest) = ground (
    arith,
    e.agrees key other,
    e.agrees first key,
    e.agrees first other,
    lookup-insert key other new rest,
  )

  pub lookup-insert_self :
      (key : K) (new : V) (dict : Dict K V) → lookup key (insert key new dict) ≡ some new
  lookup-insert_self key new dict = ground (arith, lookup-insert key key new dict, e.agrees key key)

  -- What holds of every entry holds of the one found.
  pub lookup-All {μ} :
      (P : K → V → Type μ) (k : K) (m : Dict K V) {v : V}
      → All (λ (x : K × V). P x.0 x.1) m
      → lookup k m ≡ some v
      → P k v
  unfolding lookup
  lookup-All P k [] h f = cc
  lookup-All P k ((j, w) ∷ m) {v} h f = elim (Bool-cases (j == k)) [
    | inl same ↦
        let same_key : j ≡ k = (e.agrees j k).0 same in
        let same_value : w ≡ v = ground (arith, same) in
        subst (λ i. P i v) same_key (subst (P j) same_value h.0)
    | inr other ↦ lookup-All P k m h.1 (rw other at f)
  ]

  pub insert-All {μ} :
      (P : K → V → Type μ) (k : K) (v : V) (m : Dict K V)
      → All (λ (x : K × V). P x.0 x.1) m
      → P k v
      → All (λ (x : K × V). P x.0 x.1) (insert k v m)
  unfolding insert
  insert-All P k v [] h p = (p, tt)
  insert-All P k v ((j, w) ∷ m) h p = elim (Bool-cases (j == k)) [
    | inl same ↦ rw same (subst (λ i. P i v) (sym ((e.agrees j k).0 same)) p, h.1)
    | inr other ↦ rw other (h.0, insert-All P k v m h.1 p)
  ]

module _ {ℓ κ} {K : Type ℓ} {V : Type κ} ⦃e : Comparable K⦄ where
  -- Writing an entry back with the same image.
  pub insert-All_same {μ} :
      {X : Type μ} (f : V → X) (x : X) (key : K) (old new : V) (dict : Dict K V)
      → lookup key dict ≡ some old
      → f new ≡ f old
      → All (λ (y : K × V). f y.1 ≡ x) dict
      → All (λ (y : K × V). f y.1 ≡ x) (insert key new dict)
  insert-All_same f x key old new dict found same h =
      insert-All (λ k v. f v ≡ x) key new dict h
        (same ∙ lookup-All (λ k v. f v ≡ x) key dict h found)

  pub lookup-Any :
      (P : V → Type 0) (key : K) (dict : Dict K V) {value : V}
      → lookup key dict ≡ some value
      → P value
      → Any (λ (x : K × V). P x.1) dict
  unfolding lookup
  lookup-Any P key [] found h = cc
  lookup-Any P key ((first, value) ∷ rest) found h = elim (Bool-cases (first == key)) [
    | inl same ↦ inl (subst P (sym (some-injective _ _ (rw same at found))) h)
    | inr other ↦ inr (lookup-Any P key rest (rw other at found) h)
  ]

  -- Writing back the entry of a key: what some entry had, some entry has, or else `Q` holds.
  pub insert-Any :
      (P : V → Type 0) (Q : Type 0) (key : K) (old new : V) (dict : Dict K V)
      → lookup key dict ≡ some old
      → (P old → P new ⊎ Q)
      → Any (λ (x : K × V). P x.1) dict
      → Any (λ (x : K × V). P x.1) (insert key new dict) ⊎ Q
  unfolding lookup insert
  insert-Any P Q key old new [] found f h = absurd h
  insert-Any P Q key old new ((first, value) ∷ rest) found f h = elim (Bool-cases (first == key)) [
    | inl same ↦
        let is_old : value ≡ old = some-injective _ _ (rw same at found) in
        rw same (elim h [
          | inl here ↦ elim (f (subst P is_old here)) [ inl kept ↦ inl (inl kept) | inr q ↦ inr q ]
          | inr there ↦ inl (inr there)
        ])
    | inr other ↦ rw other (elim h [
      | inl here ↦ inl (inl here)
      | inr there ↦ elim (insert-Any P Q key old new rest (rw other at found) f there) [
        | inl kept ↦ inl (inr kept)
        | inr q ↦ inr q
      ]
    ])
  ]

  -- Adding an entry for a key that has none.
  pub insert-Any_fresh :
      (P : V → Type 0) (key : K) (new : V) (dict : Dict K V)
      → lookup key dict ≡ none
      → P new ⊎ Any (λ (x : K × V). P x.1) dict
      → Any (λ (x : K × V). P x.1) (insert key new dict)
  unfolding lookup insert
  insert-Any_fresh P key new [] fresh h = h
  insert-Any_fresh P key new ((first, value) ∷ rest) fresh h = elim (Bool-cases (first == key)) [
    | inl same ↦ cc (rw same at fresh)
    | inr other ↦ rw other (elim h [
      | inl is_new ↦ inr (insert-Any_fresh P key new rest (rw other at fresh) (inl is_new))
      | inr (inl here) ↦ inl here
      | inr (inr there) ↦ inr (insert-Any_fresh P key new rest (rw other at fresh) (inr there))
    ])
  ]

module _ {ℓ} {K : Type ℓ} ⦃e : Comparable K⦄ where
  pub beq_refl : (k : K) → (k == k) ≡ true
  beq_refl k = (e.agrees k k).1 refl

  pub beq_sym : (a b : K) → (a == b) ≡ (b == a)
  beq_sym a b = ground (arith, e.agrees a b, e.agrees b a)
