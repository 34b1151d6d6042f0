-- ===== src/Nesting/Work.antt =====
-- The events about children, threads and exec keep every stack.
use trace2receiver.Common.{arith, Option-cases, inl, inr, lookup, string_eq, insert-All}
use trace2receiver.Runtime.{Runtime}
use trace2receiver.Dataset.Stack.Pop.{pop_all_region_stack_lem}
use trace2receiver.Dataset.Stack.Nesting.{IsStacked}
use trace2receiver.Apply.Work.{
  apply_child_start, apply_child_exit, apply_child_ready, apply_thread_start, apply_thread_exit,
  apply_exec, apply_exec_result,
}
use trace2receiver.Nesting.{Keeps, deref-Nested}

pub apply_child_exit-Keeps : Keeps "child_exit" apply_child_exit
unfolding apply_child_exit
apply_child_exit-Keeps tr2 evt first h = ground arith

pub apply_child_ready-Keeps : Keeps "child_ready" apply_child_ready
unfolding apply_child_ready
apply_child_ready-Keeps tr2 evt first h = ground arith

pub apply_exec_result-Keeps : Keeps "exec_result" apply_exec_result
unfolding apply_exec_result
apply_exec_result-Keeps tr2 evt first h = ground arith

pub apply_thread_exit-Keeps : Keeps "thread_exit" apply_thread_exit
unfolding apply_thread_exit
apply_thread_exit-Keeps tr2 evt first h = elim (Option-cases (lookup evt.mf_thread tr2.threads)) [
  | inl missing ↦ rw (missing, apply_thread_exit) h
  | inr (th, found) ↦
      rw (found, apply_thread_exit, pop_all_region_stack_lem th tr2.completed_regions evt.mf_time)
        (h.0, insert-All (λ j t. IsStacked t) evt.mf_thread _ tr2.threads h.1 tt)
]

module _ (rt : Runtime) where
  pub apply_child_start-Keeps : Keeps "child_start" (apply_child_start rt)
  unfolding apply_child_start
  apply_child_start-Keeps tr2 evt first h = deref-Nested evt.pm_child_start _ λ cs e. ground arith

  pub apply_exec-Keeps : Keeps "exec" (apply_exec rt)
  unfolding apply_exec
  apply_exec-Keeps tr2 evt first h = deref-Nested evt.pm_exec _ λ ex e. ground arith

  pub apply_thread_start-Keeps : Keeps "thread_start" (apply_thread_start rt)
  unfolding apply_thread_start
  apply_thread_start-Keeps tr2 evt first h =
      elim (Option-cases (lookup evt.mf_thread tr2.threads)) [
        | inl missing ↦
            rw (missing, apply_thread_start)
              (h.0, insert-All (λ j t. IsStacked t) evt.mf_thread _ tr2.threads h.1 tt)
        | inr (th, found) ↦ rw (found, apply_thread_start) h
      ]
