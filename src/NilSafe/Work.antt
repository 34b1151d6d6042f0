-- ===== src/NilSafe/Work.antt =====
-- The functions for children, threads, exec and regions.
use trace2receiver.Common.{
  ℕ, List, ◌≡◌, ◌≢◌, arith, Option-cases, inl, inr, lookup, string_eq, none, some, eq_iff, panic,
  nil_deref,
}
use trace2receiver.Json.{Value}
use trace2receiver.Event.{TrEvent, TrEventChildStart, TrEventExec}
use trace2receiver.Dataset.{Trace2Dataset}
use trace2receiver.Runtime.{Runtime}
use trace2receiver.Dataset.Stack.{lookup_thread}
use trace2receiver.Dataset.Stack.Nesting.{lookup_top_parent_span_id_lem}
use trace2receiver.Dataset.Stack.Pop.{pop_all_region_stack_lem}
use trace2receiver.Apply.Names.{
  string_arg, cred_display_name, make_child_display_name, make_exec_display_name,
}
use trace2receiver.Apply.Work.{
  apply_child_start, apply_child_exit, apply_child_ready, apply_thread_start, apply_thread_exit,
  apply_exec, apply_exec_result,
}
use trace2receiver.Apply.Regions.{apply_region_enter, apply_region_leave, apply_data_generic}
use trace2receiver.NilSafe.{NilSafe}

string_arg_safe : (argv : List Value) (i : ℕ) → string_arg argv i ≢ panic nil_deref
unfolding string_arg
string_arg_safe argv i = ground arith

cred_display_name_safe : (argv : List Value) → cred_display_name argv ≢ panic nil_deref
unfolding cred_display_name
cred_display_name_safe argv = ground (arith, string_arg_safe argv 0, string_arg_safe argv 1)

make_child_display_name_safe :
    (cs : TrEventChildStart)
    → (cs.mf_child_class ≡ "hook" → cs.pmf_hook_name ≢ none)
    → make_child_display_name cs ≢ panic nil_deref
unfolding make_child_display_name
make_child_display_name_safe cs h = ground (
  arith,
  eq_iff cs.mf_child_class "hook",
  cred_display_name_safe cs.mf_argv,
  string_arg_safe cs.mf_argv 0,
)

make_exec_display_name_safe : (ex : TrEventExec) → make_exec_display_name ex ≢ panic nil_deref
unfolding make_exec_display_name
make_exec_display_name_safe ex = ground (arith, string_arg_safe ex.mf_argv 0)

module _ (tr2 : Trace2Dataset) (evt : TrEvent) where
  pub child_exit_safe : evt.pm_child_exit ≢ none → NilSafe (apply_child_exit tr2 evt)
  unfolding apply_child_exit
  child_exit_safe h = ground arith

  pub child_ready_safe : evt.pm_child_ready ≢ none → NilSafe (apply_child_ready tr2 evt)
  unfolding apply_child_ready
  child_ready_safe h = ground arith

  pub exec_result_safe : evt.pm_exec_result ≢ none → NilSafe (apply_exec_result tr2 evt)
  unfolding apply_exec_result
  exec_result_safe h = ground arith

  pub region_leave_safe : evt.pm_region_leave ≢ none → NilSafe (apply_region_leave tr2 evt)
  unfolding apply_region_leave
  region_leave_safe h = ground arith

  pub data_generic_safe : evt.pm_generic_data ≢ none → NilSafe (apply_data_generic tr2 evt)
  unfolding apply_data_generic
  data_generic_safe h = ground arith

  pub thread_exit_safe : NilSafe (apply_thread_exit tr2 evt)
  unfolding apply_thread_exit
  thread_exit_safe = elim (Option-cases (lookup evt.mf_thread tr2.threads)) [
    | inl missing ↦ rw (missing, apply_thread_exit) tt
    | inr (th, found) ↦
        rw (found, apply_thread_exit, pop_all_region_stack_lem th tr2.completed_regions evt.mf_time)
          tt
  ]

module _ (rt : Runtime) (tr2 : Trace2Dataset) (evt : TrEvent) where
  pub child_start_safe :
      evt.pm_child_start ≢ none
      → ((cs : TrEventChildStart)
          → evt.pm_child_start ≡ some cs
          → cs.mf_child_class ≡ "hook"
          → cs.pmf_hook_name ≢ none)
      → NilSafe (apply_child_start rt tr2 evt)
  unfolding apply_child_start
  child_start_safe h k = elim (Option-cases evt.pm_child_start) [
    | inl missing ↦ absurd (h missing)
    | inr (cs, found) ↦
        rw (found, apply_child_start) (ground (arith, make_child_display_name_safe cs (k cs found)))
  ]

  pub thread_start_safe : NilSafe (apply_thread_start rt tr2 evt)
  unfolding apply_thread_start
  thread_start_safe = ground arith

  pub exec_safe : evt.pm_exec ≢ none → NilSafe (apply_exec rt tr2 evt)
  unfolding apply_exec
  exec_safe h = elim (Option-cases evt.pm_exec) [
    | inl missing ↦ absurd (h missing)
    | inr (ex, found) ↦ rw (found, apply_exec) (ground (arith, make_exec_display_name_safe ex))
  ]

  pub region_enter_safe : evt.pm_region_enter ≢ none → NilSafe (apply_region_enter rt tr2 evt)
  unfolding apply_region_enter
  region_enter_safe h = elim (Option-cases (lookup_thread tr2 evt.mf_thread)) [
    | inl missing ↦ rw (missing, apply_region_enter) tt
    | inr (th, found) ↦
        rw (found, apply_region_enter) (ground (arith, lookup_top_parent_span_id_lem th))
  ]
