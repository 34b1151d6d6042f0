-- ===== src/Tests/Children.antt =====
-- A child process.
use trace2receiver.Common.{◌≡◌, refl, ret, some, none, pos, false, [], ◌∷◌, lookup, int_eq}
use trace2receiver.Json.{str}
use trace2receiver.Event.{TrEvent, TrEventChildStart, TrEventChildExit, new_event}
use trace2receiver.Dataset.{Trace2Dataset}
use trace2receiver.Apply.Effect.{done}
use trace2receiver.Apply.Names.{make_child_display_name, string_arg}
use trace2receiver.Apply.Work.{apply_child_start, apply_child_exit}
use trace2receiver.Apply.Work.Lifecycle.{exited, apply_child_exit-apply_child_start}
use trace2receiver.Tests.{test_rt, fresh}

abbrev dashed : TrEventChildStart
dashed = record {
  mf_child_id = pos 4;
  mf_child_class = "dashed";
  mf_use_shell = false;
  mf_argv = str "remote-https" ∷ [];
  pmf_hook_name = none;
  pmf_cd = none;
}

abbrev dashed_exit : TrEventChildExit
dashed_exit = record { mf_child_id = pos 4; mf_pid = pos 1234; mf_code = pos 1 }

abbrev dashed_event : TrEvent
dashed_event = record new_event {
  mf_event = "child_start";
  mf_time = pos 3;
  pm_child_start = some dashed;
}

abbrev dashed_exit_event : TrEvent
dashed_exit_event = record new_event {
  mf_event = "child_exit";
  mf_time = pos 8;
  pm_child_exit = some dashed_exit;
}

-- Another child under the same id.
abbrev reused_event : TrEvent
reused_event = record new_event {
  mf_event = "child_start";
  mf_time = pos 5;
  pm_child_start = some (record dashed { mf_child_class = "hook"; mf_argv = [] });
}

dashed_name : make_child_display_name dashed ≡ ret "child(dashed:remote-https)"
unfolding make_child_display_name string_arg
dashed_name = refl

dashed_fresh : lookup (pos 4) fresh.children ≡ none
unfolding lookup
dashed_fresh = refl

apply_child_exit-apply_child_start_example :
    (tr2' : Trace2Dataset) × (tr2'' : Trace2Dataset) × (apply_child_start test_rt fresh dashed_event
      ≡ done tr2')
    × (apply_child_exit tr2' dashed_exit_event ≡ done tr2'')
    × (lookup (pos 4) tr2''.children
        ≡ some (
            exited test_rt fresh dashed_event dashed dashed_exit_event dashed_exit
              "child(dashed:remote-https)"))
    × (apply_child_start test_rt tr2' reused_event ≡ done tr2')
    × (apply_child_start test_rt tr2'' reused_event ≡ done tr2'')
apply_child_exit-apply_child_start_example =
    apply_child_exit-apply_child_start test_rt fresh dashed_event dashed_exit_event reused_event
      dashed (record dashed { mf_child_class = "hook"; mf_argv = [] }) dashed_exit
      "child(dashed:remote-https)" refl refl refl refl refl dashed_fresh dashed_name
