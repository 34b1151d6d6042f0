-- ===== src/Apply/Work.antt =====
-- The functions `apply__*` of evt_apply.go for children, threads and exec. An event about a child,
-- thread or exec that is not open, or a second start of one that is, is ignored.
pub mod Lifecycle
use trace2receiver.Common.{
  pos, negsuc, String, none, some, lookup, insert, string_eq, int_eq, ◌==◌, if◌then◌else◌,
}
use trace2receiver.Common.Panics.{◌>>=◌, deref}
use trace2receiver.Event.{TrEvent, TrEventChildStart}
use trace2receiver.Dataset.{TrSpanEssentials, TrChild, TrExec, Trace2Dataset, new_thread}
use trace2receiver.Dataset.Stack.{new_span_id, pop_all_region_stack}
use trace2receiver.Apply.Effect.{FnApply, Applied, done}
use trace2receiver.Apply.Names.{make_child_display_name, make_exec_display_name}
use trace2receiver.Runtime.{Runtime, SpanId}

-- A span that opens now, below the span of the process.
abbrev pub opened : SpanId → Trace2Dataset → TrEvent → String → TrSpanEssentials
opened self tr2 evt name = record {
  self_span_id = self;
  parent_span_id = tr2.process.main_thread.lifetime.self_span_id;
  start_time = evt.mf_time;
  end_time = pos 0;
  display_name = name;
}

-- The hook's name; "??" stands for a hook without one.
abbrev pub hook_name : TrEventChildStart → String
hook_name cs =
    if cs.mf_child_class == "hook"
    then elim cs.pmf_hook_name [ some name ↦ name | none ↦ "??" ]
    else ""

module _ (rt : Runtime) where
  new_child : Trace2Dataset → TrEvent → TrEventChildStart → Applied
  unfolding new_span_id
  new_child tr2 evt cs = do
    let (self, tr2') = new_span_id rt tr2
    name ← make_child_display_name cs
    let child : TrChild = record {
      lifetime = opened self tr2 evt name;
      argv = cs.mf_argv;
      pid = negsuc 0;
      exitcode = negsuc 0;
      readystate = "";
      class = cs.mf_child_class;
      hookname = hook_name cs;
    }
    done (record tr2' { children = insert cs.mf_child_id child tr2.children })

  unfoldable pub apply_child_start : FnApply
  unfolding new_child
  apply_child_start tr2 evt = do
    cs ← deref evt.pm_child_start
    elim (lookup cs.mf_child_id tr2.children) [ some _ ↦ done tr2 | none ↦ new_child tr2 evt cs ]

  unfoldable pub apply_thread_start : FnApply
  unfolding new_span_id
  apply_thread_start tr2 evt = elim (lookup evt.mf_thread tr2.threads) [
    | some _ ↦ done tr2
    | none ↦ (do
      let (self, tr2') = new_span_id rt tr2
      let th = record new_thread { lifetime = opened self tr2 evt evt.mf_thread }
      done (record tr2' { threads = insert evt.mf_thread th tr2.threads }))
  ]

  unfoldable pub apply_exec : FnApply
  unfolding new_span_id
  apply_exec tr2 evt = do
    ex ← deref evt.pm_exec
    elim (lookup ex.mf_exec_id tr2.exec) [
      | some _ ↦ done tr2
      | none ↦ (do
        let (self, tr2') = new_span_id rt tr2
        name ← make_exec_display_name ex
        let exe : String = elim ex.pmf_exe [ some exe ↦ exe | none ↦ "" ]
        let exec : TrExec = record {
          lifetime = opened self tr2 evt name;
          argv = ex.mf_argv;
          exe = exe;
          exitcode = negsuc 0;
        }
        done (record tr2' { exec = insert ex.mf_exec_id exec tr2.exec }))
    ]

unfoldable pub apply_child_exit : FnApply
apply_child_exit tr2 evt = do
  ce ← deref evt.pm_child_exit
  elim (lookup ce.mf_child_id tr2.children) [
    | none ↦ done tr2
    | some child ↦ done (record tr2 {
      children =
          insert ce.mf_child_id
            (record child {
              lifetime = record child.lifetime { end_time = evt.mf_time };
              pid = ce.mf_pid;
              exitcode = ce.mf_code;
            })
            tr2.children;
    })
  ]

-- The exit code of a child that runs on in the background is not known: -1 stands for it.
unfoldable pub apply_child_ready : FnApply
apply_child_ready tr2 evt = do
  cr ← deref evt.pm_child_ready
  elim (lookup cr.mf_child_id tr2.children) [
    | none ↦ done tr2
    | some child ↦ done (record tr2 {
      children =
          insert cr.mf_child_id
            (record child {
              lifetime = record child.lifetime { end_time = evt.mf_time };
              pid = cr.mf_pid;
              exitcode = negsuc 0;
              readystate = cr.mf_ready;
            })
            tr2.children;
    })
  ]

-- The thread's open regions are closed at the thread's end.
unfoldable pub apply_thread_exit : FnApply
apply_thread_exit tr2 evt = elim (lookup evt.mf_thread tr2.threads) [
  | none ↦ done tr2
  | some th ↦ (do
    (th', completed) ← pop_all_region_stack th tr2.completed_regions evt.mf_time
    let closed = record th' { lifetime = record th'.lifetime { end_time = evt.mf_time } }
    done (record tr2 {
      threads = insert evt.mf_thread closed tr2.threads;
      completed_regions = completed;
    }))
]

unfoldable pub apply_exec_result : FnApply
apply_exec_result tr2 evt = do
  er ← deref evt.pm_exec_result
  elim (lookup er.mf_exec_id tr2.exec) [
    | none ↦ done tr2
    | some exec ↦ done (record tr2 {
      exec =
          insert er.mf_exec_id
            (record exec {
              lifetime = record exec.lifetime { end_time = evt.mf_time };
              exitcode = er.mf_code;
            })
            tr2.exec;
    })
  ]
