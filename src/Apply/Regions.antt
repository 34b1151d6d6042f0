-- ===== src/Apply/Regions.antt =====
-- `apply__region_enter`, `apply__region_leave` and `apply__data_generic` of evt_apply.go: the stack
-- of open regions of each thread, and the data that is attached to a region or to the process.
pub mod Completion
pub mod Data
use trace2receiver.Common.{
  ◌-◌, pos, pos_part, sub64, eqb_ℤ, ltb_ℤ, leb_ℤ, eqb, [], ◌∷◌, ◌++◌, Option, none, some, length,
  take, get_elem?, set, if◌then◌else◌,
}
use trace2receiver.Common.Panics.{◌>>=◌, deref, at_index}
use trace2receiver.Event.{TrEvent, TrEventRegionEnter, TrEventGenericData}
use trace2receiver.Dataset.{TrRegion, TrThread, Trace2Dataset}
use trace2receiver.Dataset.Stack.{
  new_span_id, close_region, lookup_thread, store_thread, lookup_top_parent_span_id,
}
use trace2receiver.Apply.Effect.{FnApply, Applied, done, if_found, set_nested}
use trace2receiver.Apply.Names.{make_region_display_name}
use trace2receiver.Runtime.{Runtime}

abbrev pub value_or {ℓ} : {A : Type ℓ} → Option A → A → A
value_or none a = a
value_or (some b) a = b

module _ (rt : Runtime) where
  -- The region is pushed if its level fits the depth of the stack. A region without a repository
  -- belongs to the first one.
  unfoldable pub push_region : Trace2Dataset → TrEvent → TrEventRegionEnter → TrThread → Applied
  unfolding new_span_id make_region_display_name
  push_region tr2 evt re th =
      if eqb_ℤ (pos (length th.region_stack)) (sub64 re.mf_nesting (pos 1))
      then (do
        let (self, tr2') = new_span_id rt tr2
        parent ← lookup_top_parent_span_id th
        let r : TrRegion = record {
          lifetime = record {
            self_span_id = self;
            parent_span_id = parent;
            start_time = evt.mf_time;
            end_time = pos 0;
            display_name = make_region_display_name rt re;
          };
          repo_id = value_or evt.pmf_repo (pos 1);
          nesting_level = re.mf_nesting;
          message = value_or re.pmf_msg "";
          data_values = none;
        }
        done (
            store_thread tr2' evt.mf_thread
              (record th { region_stack = th.region_stack ++ r ∷ [] })))
      else done tr2

  unfoldable pub apply_region_enter : FnApply
  unfolding push_region
  apply_region_enter tr2 evt =
      if_found (lookup_thread tr2 evt.mf_thread) tr2
        (λ th. (do re ← deref evt.pm_region_enter; push_region tr2 evt re th))

-- The top region is closed and moved to the completed ones if its level is that of the event.
unfoldable pub leave_region : Trace2Dataset → TrEvent → TrThread → Applied
leave_region tr2 evt th =
    let count = length th.region_stack in
    if eqb count 0 then done tr2 else (do
      r ← at_index (get_elem? th.region_stack (count - 1))
      rl ← deref evt.pm_region_leave
      if eqb_ℤ r.nesting_level rl.mf_nesting
          then done (
              store_thread
                (record tr2 {
                  completed_regions = tr2.completed_regions ++ close_region evt.mf_time r ∷ [];
                })
                evt.mf_thread (record th { region_stack = take (count - 1) th.region_stack }))
          else done tr2)

unfoldable pub apply_region_leave : FnApply
unfolding leave_region
apply_region_leave tr2 evt =
    if_found (lookup_thread tr2 evt.mf_thread) tr2 (λ th. leave_region tr2 evt th)

-- The value goes to the region one level below the event's, by its index in the stack.
unfoldable pub region_data : Trace2Dataset → TrEvent → TrEventGenericData → TrThread → Applied
unfolding set_nested
region_data tr2 evt gd th =
    let want = sub64 gd.mf_nesting (pos 2) in
    if ltb_ℤ (pos (length th.region_stack)) want then done tr2 else (do
      r ← at_index (get_elem? th.region_stack (pos_part want))
      if eqb_ℤ r.nesting_level (sub64 gd.mf_nesting (pos 1))
          then (let r' = record r {
            data_values = set_nested r.data_values gd.mf_category gd.mf_key gd.mf_generic_value;
          } in
              done (
                store_thread tr2 evt.mf_thread
                  (record th { region_stack = set th.region_stack (pos_part want) r' })))
          else done tr2)

-- Levels up to 1 are the process.
unfoldable pub apply_data_generic : FnApply
unfolding region_data
apply_data_generic tr2 evt = do
  gd ← deref evt.pm_generic_data
  if leb_ℤ gd.mf_nesting (pos 1)
      then done (record tr2 {
        process = record tr2.process {
          data_values =
              set_nested tr2.process.data_values gd.mf_category gd.mf_key gd.mf_generic_value;
        };
      })
      else if_found (lookup_thread tr2 evt.mf_thread) tr2 (λ th. region_data tr2 evt gd th)
