-- ===== src/Tests/Events.antt =====
-- Events, and the dataset that they leave.
use trace2receiver.Common.{
  List, Option, reject_client_error, ℕ, lookup, sub64, ◌≢◌, ◌≡◌, ◌↔◌, ◌<◌, panic,
  index_out_of_range, some, none, ret, refl, ◌∷◌, [], pos, length, arith, ◌++◌, true, map, String,
  ◌==◌, string_eq, ◌&&◌, if◌then◌else◌,
}
use mathlib.Core.List.{reverse}
use trace2receiver.Dataset.{Trace2Dataset, new_thread}
use trace2receiver.Dataset.Stack.{
  lookup_thread, store_thread, close_region, pop_all_region_stack, new_span_id,
  lookup_top_parent_span_id,
}
use trace2receiver.Dataset.Stack.Pop.{pop_all_region_stack_lem}
use trace2receiver.Apply.{evt_apply, applymap}
use trace2receiver.Apply.Effect.{done, set_nested}
use trace2receiver.Apply.Names.{
  string_arg, make_region_display_name, normalize_for_region_display_name,
}
use trace2receiver.Apply.Nested.{value_at, value_at-set_nested}
use trace2receiver.Apply.Regions.{apply_region_enter, apply_region_leave, apply_data_generic}
use trace2receiver.Apply.Regions.Completion.{entered, apply_region_leave-apply_region_enter}
use trace2receiver.Apply.Regions.Data.{apply_data_generic-panic_iff}
use trace2receiver.Nesting.{IsWellNested}
use trace2receiver.Nesting.Events.{evt_apply-IsWellNested}
use trace2receiver.Common.Panics.{Returns}
use trace2receiver.Event.{TrEventDefParam}
use trace2receiver.Apply.Process.{apply_cmd_name, is_fsmonitor_daemon}
use trace2receiver.Apply.Process.Params.{report, winner, report-winner}
use trace2receiver.Errors.{NamesDaemon, evt_apply-error}
use trace2receiver.Filter.Level.{summary, get_detail_level}
use trace2receiver.Filter.Rules.{compute_detail_level, use_builtin_default_detail_level}
use trace2receiver.Prepare.Returns.{prepare_dataset-Returns}
use trace2receiver.Prepare.{
  export_traces, prepare_dataset, close_threads, close_main, name_process, close_children,
}
use trace2receiver.Prepare.Names.{qualified_names}
use trace2receiver.Common.Text.{map_text, replace_char, ext, base}
use trace2receiver.Prepare.Completion.{IsPrepared, prepare_dataset-IsPrepared}
use trace2receiver.Tests.{
  test_rt, daemon_event, fresh, enter_data, leave_data, enter_event, leave_event, inside,
  index_region, too_deep, too_deep_event, prepared,
}

pub enter_run : evt_apply test_rt fresh enter_event ≡ ret (inside, none)
unfolding evt_apply applymap apply_region_enter lookup_thread store_thread new_span_id
    make_region_display_name normalize_for_region_display_name lookup_top_parent_span_id lookup
    sub64 map_text replace_char
enter_run = refl

pub not_version : enter_event.mf_event ≢ "version"
not_version = cc

evt_apply-IsWellNested_example : IsWellNested inside
evt_apply-IsWellNested_example =
    evt_apply-IsWellNested test_rt fresh inside enter_event none
      (λ version. absurd (not_version version)) (tt, tt) enter_run

main_found : lookup_thread fresh "main" ≡ some new_thread
unfolding lookup_thread
main_found = refl

level_fits : pos (length new_thread.region_stack) ≡ sub64 enter_data.mf_nesting (pos 1)
unfolding sub64
level_fits = refl

apply_region_leave-apply_region_enter_example :
    (tr2' : Trace2Dataset) × (tr2'' : Trace2Dataset) × (apply_region_enter test_rt fresh enter_event
      ≡ done tr2')
    × (apply_region_leave tr2' leave_event ≡ done tr2'')
    × (lookup_thread tr2'' "main" ≡ some new_thread)
    × (tr2''.completed_regions
        ≡ []
          ++ close_region (pos 20) (entered test_rt fresh enter_event enter_data new_thread) ∷ [])
apply_region_leave-apply_region_enter_example =
    apply_region_leave-apply_region_enter test_rt fresh enter_event leave_event enter_data
      leave_data new_thread main_found refl refl refl refl level_fits

inside_found :
    lookup_thread inside "main" ≡ some (record new_thread { region_stack = index_region ∷ [] })
unfolding lookup_thread
inside_found = refl

apply_data_generic-panic_iff_example :
    ((apply_data_generic inside too_deep_event ≡ panic index_out_of_range) ↔ (◌≡◌ {A = ℕ} 1 1))
    × (1 < 1 → apply_data_generic inside too_deep_event ≡ done inside)
apply_data_generic-panic_iff_example =
    apply_data_generic-panic_iff inside too_deep_event too_deep
      (record new_thread { region_stack = index_region ∷ [] }) 1 refl inside_found refl
      (omega arith)

pub prepare_run : prepare_dataset test_rt (pos 90) inside ≡ ret (true, prepared)
unfolding prepare_dataset close_threads close_main pop_all_region_stack name_process qualified_names
    string_arg ext base close_children
prepare_run = refl

clock : pos 90 ≢ pos 0
clock = cc

prepare_dataset-IsPrepared_example : IsPrepared (pos 90) inside prepared
prepare_dataset-IsPrepared_example =
    prepare_dataset-IsPrepared test_rt (pos 90) inside prepared clock prepare_run

export_run : export_traces test_rt none (pos 90) inside ≡ ret (some (summary, prepared))
unfolding export_traces prepare_dataset close_threads close_main pop_all_region_stack name_process
    qualified_names string_arg ext base close_children compute_detail_level
    use_builtin_default_detail_level get_detail_level
export_run = refl

prepare_dataset-Returns_example : Returns (prepare_dataset test_rt (pos 90) inside)
prepare_dataset-Returns_example =
    prepare_dataset-Returns test_rt (pos 90) inside (("git", refl), (("status", refl), tt))

abbrev color : Option String → String → TrEventDefParam
color scope value = record { mf_param = "color.ui"; mf_value = value; pmf_scope = scope }

abbrev colors : List TrEventDefParam
colors =
    color (some "global") "auto" ∷ color (some "local") "never" ∷ color (some "local") "always" ∷ []

abbrev color_ui : String
color_ui = "color.ui"

report-winner_example :
    (tr2' : Trace2Dataset) × (report colors fresh ≡ ret tr2')
    × (lookup color_ui tr2'.process.param_set_values
        ≡ elim (winner color_ui colors) [ none ↦ none | some p ↦ some p.mf_value ])
unfolding lookup
report-winner_example = report-winner color_ui colors fresh refl

daemon_run :
    evt_apply test_rt fresh daemon_event
    ≡ ret (fresh, some (reject_client_error "rejecting telemetry from fsmonitor--daemon" true))
unfolding evt_apply applymap lookup apply_cmd_name is_fsmonitor_daemon
daemon_run = refl

evt_apply-error_example :
    (fresh ≡ fresh)
    × (reject_client_error "rejecting telemetry from fsmonitor--daemon" true
        ≡ reject_client_error "rejecting telemetry from fsmonitor--daemon" true)
    × (daemon_event.mf_event ≡ "cmd_name")
    × NamesDaemon daemon_event
evt_apply-error_example = evt_apply-error test_rt fresh fresh daemon_event _ daemon_run

pop_all_region_stack_lem_example :
    pop_all_region_stack inside.process.main_thread [] (pos 30)
    ≡ ret (new_thread, [] ++ map (close_region (pos 30)) (reverse (index_region ∷ [])))
pop_all_region_stack_lem_example = pop_all_region_stack_lem inside.process.main_thread [] (pos 30)

abbrev c_key : String
c_key = "c"

abbrev k_key : String
k_key = "k"

abbrev j_key : String
j_key = "j"

value_at-set_nested_example :
    value_at (set_nested none c_key k_key (pos 3)) c_key j_key
    ≡ (if c_key == c_key && k_key == j_key then some (pos 3) else value_at none c_key j_key)
value_at-set_nested_example = value_at-set_nested none c_key k_key c_key j_key (pos 3)
