-- ===== src/Apply/Regions/Data.antt =====
-- Where the data of a region goes, and when looking for its region fails.
use trace2receiver.Common.{
  ℕ, zero, suc, ◌^◌, ◌+◌, ◌≡◌, refl, arith, pos, leb_ℤ, sub64, false, List, [], ◌∷◌, none, some,
  length, get_elem?, panic, index_out_of_range, ◌↔◌, ◌≤◌, ◌<◌, string_eq,
}
use trace2receiver.Event.{TrEvent, TrEventGenericData}
use trace2receiver.Dataset.{TrThread, Trace2Dataset}
use trace2receiver.Dataset.Stack.{lookup_thread}
use trace2receiver.Apply.Effect.{done}
use trace2receiver.Apply.Regions.{region_data, apply_data_generic}

module _ {ℓ} {A : Type ℓ} where
  get_elem?-none : (s : List A) (i : ℕ) → get_elem? s i ≡ none → length s ≤ i
  get_elem?-none [] i h = omega arith
  get_elem?-none (x ∷ s) zero h = cc
  get_elem?-none (x ∷ s) (suc i) h = omega (arith, get_elem?-none s i h)

  get_elem?-ge : (s : List A) (i : ℕ) → length s ≤ i → get_elem? s i ≡ none
  get_elem?-ge [] i h = refl
  get_elem?-ge (x ∷ s) zero h = absurd (omega (arith, h))
  get_elem?-ge (x ∷ s) (suc i) h = get_elem?-ge s i (omega (arith, h))

-- The arithmetic of levels that are not the process's, in int64.
levels_lem :
    (m : ℕ)
    → m + 2 < 2 ^ 63
    → (leb_ℤ (pos (m + 2)) (pos 1) ≡ false)
      × (sub64 (pos (m + 2)) (pos 2) ≡ pos m)
      × (sub64 (pos (m + 2)) (pos 1) ≡ pos (m + 1))
unfolding sub64
levels_lem m h = ground arith

-- An event with data for a region, at level m + 2 (an int64) of a thread that exists, panics with
-- an index out of range exactly if m regions are open on the thread: one less than the event says.
-- With fewer open regions it is ignored.
pub apply_data_generic-panic_iff :
    (tr2 : Trace2Dataset) (evt : TrEvent) (gd : TrEventGenericData) (th : TrThread) (m : ℕ)
    → evt.pm_generic_data ≡ some gd
    → lookup_thread tr2 evt.mf_thread ≡ some th
    → gd.mf_nesting ≡ pos (m + 2)
    → m + 2 < 2 ^ 63
    → ((apply_data_generic tr2 evt ≡ panic index_out_of_range) ↔ (m ≡ length th.region_stack))
      × (length th.region_stack < m → apply_data_generic tr2 evt ≡ done tr2)
unfolding apply_data_generic region_data
apply_data_generic-panic_iff tr2 evt gd th m present found level small =
    let (part, want, below) = levels_lem m small in
    rw (present, found, level, part, want, below, region_data)
      (ground (arith, get_elem?-none th.region_stack m, get_elem?-ge th.region_stack m))
