-- ===== src/Common/Equality.antt =====
-- Go's `==` on strings and integers, as an interface with an instance for each type of key.
use Prim.Native.String.{String}
use mathlib.Core.Path.{◌≡◌}
use mathlib.Core.Logic.{◌↔◌}
use mathlib.Core.Bool.{Bool, true}
use text.Mathlib.Text.{◌==◌ as str_eq}
use text.Mathlib.TextEquality.{eq_iff}
use trace2receiver.Common.Int.{ℤ, eqb_ℤ, eqb_ℤ_iff}

-- A test, and that it tells equal values.
pub record Comparable {ℓ} (K : Type ℓ) : Type ℓ where
  pub same : K → K → Bool
  pub agrees : (x y : K) → (same x y ≡ true) ↔ (x ≡ y)

instance abbrev pub int_eq : Comparable ℤ
int_eq = record { same = eqb_ℤ; agrees = eqb_ℤ_iff }

instance abbrev pub string_eq : Comparable String
string_eq = record { agrees = eq_iff; same = str_eq }

infix 50 ◌==◌
abbrev pub ◌==◌ {ℓ} : {K : Type ℓ} ⦃e : Comparable K⦄ → K → K → Bool
◌==◌ ⦃e⦄ = e.same
