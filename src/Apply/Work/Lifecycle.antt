-- ===== src/Apply/Work/Lifecycle.antt =====
-- A child process from its start event to its exit event.
use trace2receiver.Common.{
  ◌≡◌, arith, String, negsuc, insert, none, some, lookup, lookup-insert_self, int_eq, ret,
}
use trace2receiver.Runtime.{Runtime}
use trace2receiver.Event.{TrEvent, TrEventChildStart, TrEventChildExit}
use trace2receiver.Dataset.{TrChild, Trace2Dataset}
use trace2receiver.Dataset.Stack.{new_span_id}
use trace2receiver.Apply.Effect.{done}
use trace2receiver.Apply.Names.{make_child_display_name}
use trace2receiver.Apply.Work.{opened, hook_name, new_child, apply_child_start, apply_child_exit}

-- The child that the two events describe.
abbrev pub exited :
    Runtime
    → Trace2Dataset
    → TrEvent
    → TrEventChildStart
    → TrEvent
    → TrEventChildExit
    → String
    → TrChild
exited rt tr2 start cs exit ce name = record {
  lifetime = record (opened ((new_span_id rt tr2).0) tr2 start name) { end_time = exit.mf_time };
  argv = cs.mf_argv;
  pid = ce.mf_pid;
  exitcode = ce.mf_code;
  readystate = "";
  class = cs.mf_child_class;
  hookname = hook_name cs;
}

-- The child as its start event leaves it.
abbrev started : Runtime → Trace2Dataset → TrEvent → TrEventChildStart → String → TrChild
started rt tr2 start cs name = record {
  lifetime = opened ((new_span_id rt tr2).0) tr2 start name;
  argv = cs.mf_argv;
  pid = negsuc 0;
  exitcode = negsuc 0;
  readystate = "";
  class = cs.mf_child_class;
  hookname = hook_name cs;
}

start_new :
    (rt : Runtime) (tr2 : Trace2Dataset) (start : TrEvent) (cs : TrEventChildStart) (name : String)
    → start.pm_child_start ≡ some cs
    → lookup cs.mf_child_id tr2.children ≡ none
    → make_child_display_name cs ≡ ret name
    → apply_child_start rt tr2 start
      ≡ done (record (new_span_id rt tr2).1 {
        children = insert cs.mf_child_id (started rt tr2 start cs name) tr2.children;
      })
unfolding apply_child_start new_child new_span_id
start_new rt tr2 start cs name s fresh named = ground (arith, s, fresh, named)

start_known :
    (rt : Runtime) (tr2 : Trace2Dataset) (start : TrEvent) (cs : TrEventChildStart) {c : TrChild}
    → start.pm_child_start ≡ some cs
    → lookup cs.mf_child_id tr2.children ≡ some c
    → apply_child_start rt tr2 start ≡ done tr2
unfolding apply_child_start
start_known rt tr2 start cs s known = ground (arith, s, known)

exit_known :
    (tr2 : Trace2Dataset) (exit : TrEvent) (ce : TrEventChildExit) (child : TrChild)
    → exit.pm_child_exit ≡ some ce
    → lookup ce.mf_child_id tr2.children ≡ some child
    → apply_child_exit tr2 exit
      ≡ done (record tr2 {
        children =
            insert ce.mf_child_id
              (record child {
                lifetime = record child.lifetime { end_time = exit.mf_time };
                pid = ce.mf_pid;
                exitcode = ce.mf_code;
              })
              tr2.children;
      })
unfolding apply_child_exit
exit_known tr2 exit ce child e known = ground (arith, e, known)

-- A child with an id that is not known yet, whose display name can be made, is recorded by its start
-- event and completed by its exit event: it has a span of its own below the span of the process,
-- from the time of the first event to that of the second, with what the two events say of it.
-- Any other start event with its id, whatever else it says, changes nothing, before its exit and
-- after.
pub apply_child_exit-apply_child_start :
    (rt : Runtime) (tr2 : Trace2Dataset) (start exit again : TrEvent) (cs cs' : TrEventChildStart)
    (ce : TrEventChildExit) (name : String)
    → start.pm_child_start ≡ some cs
    → exit.pm_child_exit ≡ some ce
    → ce.mf_child_id ≡ cs.mf_child_id
    → again.pm_child_start ≡ some cs'
    → cs'.mf_child_id ≡ cs.mf_child_id
    → lookup cs.mf_child_id tr2.children ≡ none
    → make_child_display_name cs ≡ ret name
    → (tr2' : Trace2Dataset) × (tr2'' : Trace2Dataset) × (apply_child_start rt tr2 start
        ≡ done tr2')
      × (apply_child_exit tr2' exit ≡ done tr2'')
      × (lookup cs.mf_child_id tr2''.children ≡ some (exited rt tr2 start cs exit ce name))
      × (apply_child_start rt tr2' again ≡ done tr2')
      × (apply_child_start rt tr2'' again ≡ done tr2'')
apply_child_exit-apply_child_start rt tr2 start exit again cs cs' ce name s e same a reused fresh
      named =
    let id = cs.mf_child_id in
    let child = started rt tr2 start cs name in
    let tr2' : Trace2Dataset = record (new_span_id rt tr2).1 {
      children = insert id child tr2.children;
    } in
    let known : lookup id tr2'.children ≡ some child = lookup-insert_self id child tr2.children in
    let final = exited rt tr2 start cs exit ce name in
    let tr2'' : Trace2Dataset = record tr2' {
      children = insert ce.mf_child_id final tr2'.children;
    } in
    let last : lookup id tr2''.children ≡ some final =
      rw same (lookup-insert_self id final tr2'.children) in
    (
      tr2',
      tr2'',
      start_new rt tr2 start cs name s fresh named,
      exit_known tr2' exit ce child e (rw same known),
      last,
      start_known rt tr2' again cs' {c = child} a (rw reused known),
      start_known rt tr2'' again cs' {c = final} a (rw reused last),
    )
