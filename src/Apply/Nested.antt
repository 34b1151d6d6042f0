-- ===== src/Apply/Nested.antt =====
-- The maps of maps of the dataset: data values, timers and counters.
use trace2receiver.Common.{
  ◌≡◌, refl, sym, eq_iff, String, Option, some, Dict, lookup, insert, lookup-insert, string_eq,
  ◌==◌, ◌&&◌, if◌then◌else◌, Bool-cases, inl, inr,
}
use trace2receiver.Apply.Effect.{set_nested, or_empty}

module _ {ℓ} {V : Type ℓ} where
  -- The value under a category and a key, where there is one.
  abbrev pub value_at : Option (Dict String (Dict String V)) → String → String → Option V
  value_at m category key = lookup key (or_empty (lookup category (or_empty m)))

  -- Setting a value under a category and a key makes it the one found there, and leaves every other
  -- pair with the value it had, also where the outer or the inner map is missing before.
  pub value_at-set_nested :
      (m : Option (Dict String (Dict String V))) (category key c k : String) (value : V)
      → value_at (set_nested m category key value) c k
        ≡ (if category == c && key == k then some value else value_at m c k)
  unfolding set_nested
  value_at-set_nested m category key c k value =
      let inner = or_empty (lookup category (or_empty m)) in
      let outer = lookup-insert category c (insert key value inner) (or_empty m) in
      elim (Bool-cases (category == c)) [
        | inl same ↦
            rw (outer, same)
              (rw (sym ((eq_iff category c).0 same)) (lookup-insert key k value inner))
        | inr other ↦ rw (outer, other) refl
      ]
