-- ===== src/Apply/Regions/Completion.antt =====
-- A region from its enter event to its leave event.
use trace2receiver.Common.{
  ◌-◌, ◌≡◌, refl, ◌∙◌, ap, arith, pos, eqb_ℤ_iff, eqb, sub64, false, List, [], ◌∷◌, ◌++◌, none,
  some, length, take, get_elem?, length-append,
}
use trace2receiver.Runtime.{Runtime}
use trace2receiver.Event.{TrEvent, TrEventRegionEnter, TrEventRegionLeave}
use trace2receiver.Dataset.{TrRegion, TrThread, Trace2Dataset}
use trace2receiver.Dataset.Stack.{lookup_thread, store_thread, close_region, new_span_id}
use trace2receiver.Dataset.Stack.Threads.{
  lookup_thread-store_thread, completed_regions-store_thread,
}
use trace2receiver.Dataset.Stack.Nesting.{top_span, lookup_top_parent_span_id_lem}
use trace2receiver.Apply.Effect.{done}
use trace2receiver.Apply.Regions.{
  value_or, push_region, leave_region, apply_region_enter, apply_region_leave,
}
use trace2receiver.Apply.Names.{make_region_display_name}

module _ {ℓ} {A : Type ℓ} where
  -- The last element of a slice that has just been extended, and the slice without it.
  last_of_append :
      (s : List A) (x : A)
      → (get_elem? (s ++ x ∷ []) (length s) ≡ some x) × (take (length s) (s ++ x ∷ []) ≡ s)
  last_of_append [] x = (refl, refl)
  last_of_append (y ∷ s) x = let (got, kept) = last_of_append s x in (got, ap (λ l. y ∷ l) kept)

module _ (rt : Runtime) where
  -- The region that an enter event opens on a thread.
  abbrev pub entered : Trace2Dataset → TrEvent → TrEventRegionEnter → TrThread → TrRegion
  entered tr2 evt re th = record {
    lifetime = record {
      self_span_id = (new_span_id rt tr2).0;
      parent_span_id = top_span th.lifetime.self_span_id th.region_stack;
      start_time = evt.mf_time;
      end_time = pos 0;
      display_name = make_region_display_name rt re;
    };
    repo_id = value_or evt.pmf_repo (pos 1);
    nesting_level = re.mf_nesting;
    message = value_or re.pmf_msg "";
    data_values = none;
  }

  enter_lem :
      (tr2 : Trace2Dataset) (evt : TrEvent) (re : TrEventRegionEnter) (th : TrThread)
      → lookup_thread tr2 evt.mf_thread ≡ some th
      → evt.pm_region_enter ≡ some re
      → pos (length th.region_stack) ≡ sub64 re.mf_nesting (pos 1)
      → apply_region_enter rt tr2 evt
        ≡ done (
            store_thread
              ((new_span_id rt tr2).1)
              evt.mf_thread
              (record th { region_stack = th.region_stack ++ entered tr2 evt re th ∷ [] }))
  unfolding apply_region_enter push_region
  enter_lem tr2 evt re th found present fits =
      rw (found, present, (eqb_ℤ_iff _ _).1 fits, lookup_top_parent_span_id_lem th) refl

leave_lem :
    (tr2 : Trace2Dataset) (evt : TrEvent) (rl : TrEventRegionLeave) (th : TrThread)
    (s : List TrRegion) (r : TrRegion)
    → lookup_thread tr2 evt.mf_thread ≡ some (record th { region_stack = s ++ r ∷ [] })
    → evt.pm_region_leave ≡ some rl
    → r.nesting_level ≡ rl.mf_nesting
    → apply_region_leave tr2 evt
      ≡ done (
          store_thread
            (record tr2 {
              completed_regions = tr2.completed_regions ++ close_region evt.mf_time r ∷ [];
            })
            evt.mf_thread
            (record th { region_stack = s }))
unfolding apply_region_leave leave_region
leave_lem tr2 evt rl th s r found present level =
    let (got, kept) = last_of_append s r in
    let count : length (s ++ r ∷ []) - 1 ≡ length s = omega (arith, length-append s (r ∷ [])) in
    let more : eqb (length (s ++ r ∷ [])) 0 ≡ false = ground (arith, length-append s (r ∷ [])) in
    rw (found, more, count, got, kept, present, (eqb_ℤ_iff _ _).1 level, leave_region) refl

-- A region that a thread enters at the level that its depth asks for, and leaves in the next event
-- of the thread at the same level, becomes one completed region: it starts and ends at the times of
-- the two events, its parent is the region that was on top (or the thread itself), and the thread
-- is as it was before.
pub apply_region_leave-apply_region_enter :
    (rt : Runtime) (tr2 : Trace2Dataset) (enter leave : TrEvent) (re : TrEventRegionEnter)
    (rl : TrEventRegionLeave) (th : TrThread)
    → lookup_thread tr2 enter.mf_thread ≡ some th
    → enter.pm_region_enter ≡ some re
    → leave.pm_region_leave ≡ some rl
    → leave.mf_thread ≡ enter.mf_thread
    → re.mf_nesting ≡ rl.mf_nesting
    → pos (length th.region_stack) ≡ sub64 re.mf_nesting (pos 1)
    → (tr2' : Trace2Dataset) × (tr2'' : Trace2Dataset) × (apply_region_enter rt tr2 enter
        ≡ done tr2')
      × (apply_region_leave tr2' leave ≡ done tr2'')
      × (lookup_thread tr2'' leave.mf_thread ≡ some th)
      × (tr2''.completed_regions
          ≡ tr2.completed_regions ++ close_region leave.mf_time (entered rt tr2 enter re th) ∷ [])
unfolding new_span_id
apply_region_leave-apply_region_enter rt tr2 enter leave re rl th found e l same level fits =
    let r = entered rt tr2 enter re th in
    let tr2' =
      store_thread ((new_span_id rt tr2).1) enter.mf_thread
        (record th { region_stack = th.region_stack ++ r ∷ [] }) in
    let inside : lookup_thread tr2' leave.mf_thread
        ≡ some (record th { region_stack = th.region_stack ++ r ∷ [] }) =
      rw same (lookup_thread-store_thread _ enter.mf_thread _) in
    (
      tr2',
      _,
      enter_lem rt tr2 enter re th found e fits,
      leave_lem tr2' leave rl th th.region_stack r inside l level,
      lookup_thread-store_thread _ leave.mf_thread th,
      completed_regions-store_thread _ leave.mf_thread th
          ∙ ap (λ c. c ++ close_region leave.mf_time r ∷ [])
              (completed_regions-store_thread _ enter.mf_thread _),
    )
