-- ===== src/Linked/Work.antt =====
-- The events about children, threads and exec keep the links.
use trace2receiver.Common.{
  ◌≡◌, refl, Option-cases, inl, inr, lookup, string_eq, int_eq, insert-All, insert-All_same,
  lookup-All, lookup-Any,
}
use trace2receiver.Runtime.{Runtime}
use trace2receiver.Dataset.{TrChild, TrExec}
use trace2receiver.Dataset.Stack.Nesting.{IsStacked}
use trace2receiver.Dataset.Stack.Pop.{pop_all_region_stack_lem}
use trace2receiver.Apply.Names.{make_child_display_name, make_exec_display_name}
use trace2receiver.Apply.Work.{
  apply_child_start, apply_child_exit, apply_child_ready, apply_thread_start, apply_thread_exit,
  apply_exec, apply_exec_result,
}
use trace2receiver.Linked.{OnThread, Keeps, deref-Linked, step-Linked}
use trace2receiver.Linked.Drain.{drained-AreCompleted, drained-IsKept}
use trace2receiver.Linked.Stores.{insert_thread-IsLinked, open_thread-IsLinked}

pub apply_child_exit-Keeps : Keeps "child_exit" apply_child_exit
unfolding apply_child_exit
apply_child_exit-Keeps tr2 evt first h k = deref-Linked evt.pm_child_exit _ λ ce e.
    elim (Option-cases (lookup ce.mf_child_id tr2.children)) [
      | inl missing ↦ rw missing k
      | inr (child, found) ↦ rw found (
        (
          k.0.0,
          insert-All_same (λ (x : TrChild). x.lifetime.parent_span_id) _ ce.mf_child_id child _
              tr2.children found refl k.0.1,
          k.0.2,
        ),
        k.1,
      )
    ]

pub apply_child_ready-Keeps : Keeps "child_ready" apply_child_ready
unfolding apply_child_ready
apply_child_ready-Keeps tr2 evt first h k = deref-Linked evt.pm_child_ready _ λ cr e.
    elim (Option-cases (lookup cr.mf_child_id tr2.children)) [
      | inl missing ↦ rw missing k
      | inr (child, found) ↦ rw found (
        (
          k.0.0,
          insert-All_same (λ (x : TrChild). x.lifetime.parent_span_id) _ cr.mf_child_id child _
              tr2.children found refl k.0.1,
          k.0.2,
        ),
        k.1,
      )
    ]

pub apply_exec_result-Keeps : Keeps "exec_result" apply_exec_result
unfolding apply_exec_result
apply_exec_result-Keeps tr2 evt first h k = deref-Linked evt.pm_exec_result _ λ er e.
    elim (Option-cases (lookup er.mf_exec_id tr2.exec)) [
      | inl missing ↦ rw missing k
      | inr (exec, found) ↦ rw found (
        (
          k.0.0,
          k.0.1,
          insert-All_same (λ (x : TrExec). x.lifetime.parent_span_id) _ er.mf_exec_id exec _
              tr2.exec found refl k.0.2,
        ),
        k.1,
      )
    ]

-- The open regions of the thread are spans of the dataset, and so are their parents.
pub apply_thread_exit-Keeps : Keeps "thread_exit" apply_thread_exit
unfolding apply_thread_exit
apply_thread_exit-Keeps tr2 evt first h k = elim (Option-cases (lookup evt.mf_thread tr2.threads)) [
  | inl missing ↦ rw (missing, apply_thread_exit) k
  | inr (th, found) ↦
      let stacked = lookup-All (λ j t. IsStacked t) evt.mf_thread tr2.threads h.1 found in
      rw (found, apply_thread_exit, pop_all_region_stack_lem th tr2.completed_regions evt.mf_time)
        (insert_thread-IsLinked tr2 _
          (drained-AreCompleted tr2 th evt.mf_time stacked
            (λ s on. inr (inl (lookup-Any (OnThread s) evt.mf_thread tr2.threads found on))) k)
          evt.mf_thread th _ found (drained-IsKept tr2.completed_regions th evt.mf_time evt.mf_time)
          k)
]

module _ (rt : Runtime) where
  pub apply_child_start-Keeps : Keeps "child_start" (apply_child_start rt)
  unfolding apply_child_start
  apply_child_start-Keeps tr2 evt first h k = deref-Linked evt.pm_child_start _ λ cs e.
      elim (Option-cases (lookup cs.mf_child_id tr2.children)) [
        | inl missing ↦ rw missing (
            step-Linked (make_child_display_name cs) _ λ name. (
              (
                k.0.0,
                insert-All (λ i (x : TrChild). x.lifetime.parent_span_id ≡ _) cs.mf_child_id _
                    tr2.children k.0.1 refl,
                k.0.2,
              ),
              k.1,
            ))
        | inr (child, found) ↦ rw found k
      ]

  pub apply_exec-Keeps : Keeps "exec" (apply_exec rt)
  unfolding apply_exec
  apply_exec-Keeps tr2 evt first h k = deref-Linked evt.pm_exec _ λ ex e.
      elim (Option-cases (lookup ex.mf_exec_id tr2.exec)) [
        | inl missing ↦ rw missing (
            step-Linked (make_exec_display_name ex) _ λ name. (
              (
                k.0.0,
                k.0.1,
                insert-All (λ i (x : TrExec). x.lifetime.parent_span_id ≡ _) ex.mf_exec_id _
                    tr2.exec k.0.2 refl,
              ),
              k.1,
            ))
        | inr (exec, found) ↦ rw found k
      ]

  pub apply_thread_start-Keeps : Keeps "thread_start" (apply_thread_start rt)
  unfolding apply_thread_start
  apply_thread_start-Keeps tr2 evt first h k =
      elim (Option-cases (lookup evt.mf_thread tr2.threads)) [
        | inl missing ↦
            rw (missing, apply_thread_start)
              (open_thread-IsLinked tr2 evt.mf_thread _ missing refl k)
        | inr (th, found) ↦ rw (found, apply_thread_start) k
      ]
