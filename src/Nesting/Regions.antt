-- ===== src/Nesting/Regions.antt =====
-- The events that open and close regions, or attach data to them, keep every stack.
use trace2receiver.Common.{
  ◌-◌, refl, sym, ap, ◌∙◌, leb_ℤ, arith, Bool-cases, pos, pos_part, sub64, eqb_ℤ, eqb_ℤ_iff, ltb_ℤ,
  eqb, String, inl, inr, length, get_elem?,
}
use trace2receiver.Runtime.{Runtime}
use trace2receiver.Event.{TrEvent, TrEventRegionEnter, TrEventGenericData}
use trace2receiver.Dataset.{TrThread, Trace2Dataset}
use trace2receiver.Dataset.Stack.Nesting.{
  IsStacked, StackFrom-push, StackFrom-take, StackFrom-set, lookup_top_parent_span_id_lem,
}
use trace2receiver.Apply.Regions.{
  push_region, leave_region, region_data, apply_region_enter, apply_region_leave,
  apply_data_generic,
}
use trace2receiver.Nesting.{
  IsWellNested, Nested, Keeps, store_thread-IsWellNested, if_found-Nested, deref-Nested,
  at_index-Nested,
}

module _ (rt : Runtime) where
  push_region-Nested :
      (tr2 : Trace2Dataset) (evt : TrEvent) (re : TrEventRegionEnter) (th : TrThread)
      → IsWellNested tr2
      → IsStacked th
      → Nested (push_region rt tr2 evt re th)
  unfolding push_region
  push_region-Nested tr2 evt re th h k =
      elim (Bool-cases (eqb_ℤ (pos (length th.region_stack)) (sub64 re.mf_nesting (pos 1)))) [
        | inl fits ↦
            rw (fits, lookup_top_parent_span_id_lem th)
              (store_thread-IsWellNested _ evt.mf_thread _ h (
                StackFrom-push 0 th.lifetime.self_span_id th.region_stack _ k
                  (sym ((eqb_ℤ_iff _ _).0 fits) ∙ ap pos (omega arith)) refl refl))
        | inr other ↦ rw other h
      ]

  pub apply_region_enter-Keeps : Keeps "region_enter" (apply_region_enter rt)
  unfolding apply_region_enter
  apply_region_enter-Keeps tr2 evt first h =
      if_found-Nested tr2 evt.mf_thread _ h
        λ th k. deref-Nested evt.pm_region_enter _ λ re e. push_region-Nested tr2 evt re th h k

leave_region-Nested :
    (tr2 : Trace2Dataset) (evt : TrEvent) (th : TrThread)
    → IsWellNested tr2
    → IsStacked th
    → Nested (leave_region tr2 evt th)
unfolding leave_region
leave_region-Nested tr2 evt th h k = elim (Bool-cases (eqb (length th.region_stack) 0)) [
  | inl empty ↦ rw (empty, leave_region) h
  | inr more ↦
      rw (more, leave_region)
        (at_index-Nested (get_elem? th.region_stack (length th.region_stack - 1)) _ λ r found.
          deref-Nested evt.pm_region_leave _ λ rl e.
            elim (Bool-cases (eqb_ℤ r.nesting_level rl.mf_nesting)) [
              | inl same ↦ rw same (
                  store_thread-IsWellNested _ evt.mf_thread _ h (
                    StackFrom-take (length th.region_stack - 1) 0 th.lifetime.self_span_id
                      th.region_stack k))
              | inr other ↦ rw other h
            ])
]

pub apply_region_leave-Keeps : Keeps "region_leave" apply_region_leave
unfolding apply_region_leave
apply_region_leave-Keeps tr2 evt first h =
    if_found-Nested tr2 evt.mf_thread _ h λ th k. leave_region-Nested tr2 evt th h k

region_data-Nested :
    (tr2 : Trace2Dataset) (evt : TrEvent) (gd : TrEventGenericData) (th : TrThread)
    → IsWellNested tr2
    → IsStacked th
    → Nested (region_data tr2 evt gd th)
unfolding region_data
region_data-Nested tr2 evt gd th h k =
    let want = sub64 gd.mf_nesting (pos 2) in
    elim (Bool-cases (ltb_ℤ (pos (length th.region_stack)) want)) [
      | inl short ↦ rw (short, region_data) h
      | inr long ↦
          rw (long, region_data)
            (at_index-Nested (get_elem? th.region_stack (pos_part want)) _ λ r found.
              elim (Bool-cases (eqb_ℤ r.nesting_level (sub64 gd.mf_nesting (pos 1)))) [
                | inl same ↦ rw same (
                    store_thread-IsWellNested _ evt.mf_thread _ h (
                      StackFrom-set (pos_part want) 0 th.lifetime.self_span_id th.region_stack r _
                        found refl refl k))
                | inr other ↦ rw other h
              ])
    ]

pub apply_data_generic-Keeps : (event : String) → Keeps event apply_data_generic
unfolding apply_data_generic
apply_data_generic-Keeps event tr2 evt first h = deref-Nested evt.pm_generic_data _ λ gd e.
    elim (Bool-cases (leb_ℤ gd.mf_nesting (pos 1))) [
      | inl whole ↦ rw whole h
      | inr part ↦
          rw part
            (if_found-Nested tr2 evt.mf_thread _ h λ th k. region_data-Nested tr2 evt gd th h k)
    ]
