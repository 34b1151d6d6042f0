-- ===== src/Linked/Regions.antt =====
-- The events that open and close regions, or attach data to them, keep the links.
use trace2receiver.Common.{
  ◌≡◌, ◌-◌, refl, leb_ℤ, arith, Bool-cases, pos, pos_part, sub64, eqb_ℤ, ltb_ℤ, eqb, suc, String,
  some, inl, inr, length, get_elem?, string_eq, Any-append_left, Any-append_right, All-append,
  get_elem?-All, take-Any, set-Any,
}
use trace2receiver.Runtime.{Runtime}
use trace2receiver.Event.{TrEvent, TrEventRegionEnter, TrEventGenericData}
use trace2receiver.Dataset.{TrThread, Trace2Dataset}
use trace2receiver.Dataset.Stack.{lookup_thread, new_span_id}
use trace2receiver.Dataset.Stack.Nesting.{IsStacked, lookup_top_parent_span_id_lem}
use trace2receiver.Apply.Regions.{
  push_region, leave_region, region_data, apply_region_enter, apply_region_leave,
  apply_data_generic,
}
use trace2receiver.Nesting.{lookup_thread-IsStacked}
use trace2receiver.Linked.{
  OfRegion, OnThread, IsBelowSpan, IsLinked, Linked, Keeps, if_found-Linked, deref-Linked,
  at_index-Linked, OnThread-IsSpan, IsStacked-parents,
}
use trace2receiver.Linked.Stores.{AreCompleted-same, store_thread-IsLinked}

module _ (rt : Runtime) where
  push_region-Linked :
      (tr2 : Trace2Dataset) (evt : TrEvent) (re : TrEventRegionEnter) (th : TrThread)
      → IsLinked tr2
      → lookup_thread tr2 evt.mf_thread ≡ some th
      → Linked (push_region rt tr2 evt re th)
  unfolding push_region lookup_thread
  push_region-Linked tr2 evt re th h found =
      elim (Bool-cases (eqb_ℤ (pos (length th.region_stack)) (sub64 re.mf_nesting (pos 1)))) [
        | inl fits ↦
            let tr2' = (new_span_id rt tr2).1 in
            rw (fits, lookup_top_parent_span_id_lem th)
              (store_thread-IsLinked tr2' tr2.completed_regions (AreCompleted-same tr2' h)
                evt.mf_thread th _ found
                (
                  refl,
                  refl,
                  λ s on. elim on [
                    | inl self ↦ inl (inl self)
                    | inr region ↦ inl (inr (Any-append_left (OfRegion s) th.region_stack _ region))
                  ],
                )
                h)
        | inr other ↦ rw other h
      ]

  pub apply_region_enter-Keeps : Keeps "region_enter" (apply_region_enter rt)
  unfolding apply_region_enter
  apply_region_enter-Keeps tr2 evt first h k = if_found-Linked tr2 evt.mf_thread _ k λ th found.
      deref-Linked evt.pm_region_enter _ λ re e. push_region-Linked tr2 evt re th k found

leave_region-Linked :
    (tr2 : Trace2Dataset) (evt : TrEvent) (th : TrThread)
    → IsStacked th
    → IsLinked tr2
    → lookup_thread tr2 evt.mf_thread ≡ some th
    → Linked (leave_region tr2 evt th)
unfolding leave_region
leave_region-Linked tr2 evt th stacked h at_thread =
    elim (Bool-cases (eqb (length th.region_stack) 0)) [
      | inl empty ↦ rw (empty, leave_region) h
      | inr more ↦
          let last = length th.region_stack - 1 in
          let count : length th.region_stack ≡ suc last = ground (arith, more) in
          rw (more, leave_region)
            (at_index-Linked (get_elem? th.region_stack last) _ λ r found.
              deref-Linked evt.pm_region_leave _ λ rl e.
                elim (Bool-cases (eqb_ℤ r.nesting_level rl.mf_nesting)) [
                  | inl same ↦ rw same (
                      store_thread-IsLinked tr2 _
                        (
                          (λ s c. Any-append_left (OfRegion s) tr2.completed_regions _ c),
                          All-append (IsBelowSpan tr2) tr2.completed_regions _ h.1 (
                            OnThread-IsSpan tr2 evt.mf_thread r.lifetime.parent_span_id at_thread (
                                get_elem?-All (λ x. OnThread x.lifetime.parent_span_id th)
                                  th.region_stack last (IsStacked-parents th stacked) found),
                            tt,
                          ),
                        )
                        evt.mf_thread th _ at_thread
                        (
                          refl,
                          refl,
                          λ s on. elim on [
                            | inl self ↦ inl (inl self)
                            | inr region ↦
                                elim (take-Any (OfRegion s) th.region_stack last count found
                                  region) [
                                    | inl kept ↦ inl (inr kept)
                                    | inr top ↦ inr (
                                        Any-append_right (OfRegion s) tr2.completed_regions _
                                          (inl top))
                                  ]
                          ],
                        )
                        h)
                  | inr other ↦ rw other h
                ])
    ]

pub apply_region_leave-Keeps : Keeps "region_leave" apply_region_leave
unfolding apply_region_leave
apply_region_leave-Keeps tr2 evt first h k = if_found-Linked tr2 evt.mf_thread _ k λ th found.
    leave_region-Linked tr2 evt th (lookup_thread-IsStacked tr2 evt.mf_thread h found) k found

region_data-Linked :
    (tr2 : Trace2Dataset) (evt : TrEvent) (gd : TrEventGenericData) (th : TrThread)
    → IsLinked tr2
    → lookup_thread tr2 evt.mf_thread ≡ some th
    → Linked (region_data tr2 evt gd th)
unfolding region_data
region_data-Linked tr2 evt gd th h at_thread =
    let want = sub64 gd.mf_nesting (pos 2) in
    elim (Bool-cases (ltb_ℤ (pos (length th.region_stack)) want)) [
      | inl short ↦ rw (short, region_data) h
      | inr long ↦
          rw (long, region_data)
            (at_index-Linked (get_elem? th.region_stack (pos_part want)) _ λ r found.
              elim (Bool-cases (eqb_ℤ r.nesting_level (sub64 gd.mf_nesting (pos 1)))) [
                | inl same ↦ rw same (
                    store_thread-IsLinked tr2 tr2.completed_regions (AreCompleted-same tr2 h)
                      evt.mf_thread th _ at_thread
                      (
                        refl,
                        refl,
                        λ s on. elim on [
                          | inl self ↦ inl (inl self)
                          | inr region ↦ inl (
                              inr (
                                set-Any (OfRegion s) th.region_stack (pos_part want) r _ found
                                  (λ own. own) region))
                        ],
                      )
                      h)
                | inr other ↦ rw other h
              ])
    ]

pub apply_data_generic-Keeps : (event : String) → Keeps event apply_data_generic
unfolding apply_data_generic
apply_data_generic-Keeps event tr2 evt first h k = deref-Linked evt.pm_generic_data _ λ gd e.
    elim (Bool-cases (leb_ℤ gd.mf_nesting (pos 1))) [
      | inl whole ↦ rw whole k
      | inr part ↦ rw part (
          if_found-Linked tr2 evt.mf_thread _ k
            λ th found. region_data-Linked tr2 evt gd th k found)
    ]
