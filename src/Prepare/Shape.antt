-- ===== src/Prepare/Shape.antt =====
-- The dataset that `prepareDataset` leaves, part by part.
use mathlib.Core.List.{reverse}
use trace2receiver.Common.{
  ◌≡◌, sym, ◌∙◌, ap, arith, eqb, true, [], ◌++◌, length, map, ret, Bool-cases, inl, inr, List,
}
use trace2receiver.Common.Panics.{>>=-eq-ret, ret-injective}
use trace2receiver.Runtime.{Runtime, Time}
use trace2receiver.Dataset.{TrRegion, TrThread, TrProcess, Trace2Dataset}
use trace2receiver.Dataset.Stack.{close_region}
use trace2receiver.Dataset.Stack.Pop.{pop_all_region_stack_lem}
use trace2receiver.Prepare.{close_children, close_main, name_process, prepare_dataset}
use trace2receiver.Prepare.Completion.{closed_threads, all_drained, close_threads_lem}

-- The dataset, but for what becomes of its process.
abbrev pub shaped : Time → Trace2Dataset → TrProcess → Trace2Dataset
shaped now tr2 process = record tr2 {
  children = close_children now tr2.children;
  threads = closed_threads now tr2.threads;
  completed_regions =
      (tr2.completed_regions ++ all_drained now tr2.threads)
      ++ map (close_region now) (reverse tr2.process.main_thread.region_stack);
  process = process;
}

-- The main thread keeps its span, and has no open region.
abbrev pub IsEmptied : TrThread → TrThread → Type 0
IsEmptied th th' = (th'.lifetime.self_span_id ≡ th.lifetime.self_span_id) × (th'.region_stack ≡ [])

close_main-IsEmptied :
    (now : Time) (process : TrProcess) (completed : List TrRegion) {process' : TrProcess}
    {all : List TrRegion}
    → close_main now process completed ≡ ret (process', all)
    → (all ≡ completed ++ map (close_region now) (reverse process.main_thread.region_stack))
      × IsEmptied process.main_thread process'.main_thread
unfolding close_main
close_main-IsEmptied now process completed run =
    ground (arith, pop_all_region_stack_lem process.main_thread completed now)

name_process-IsEmptied :
    (rt : Runtime) (process : TrProcess) {process' : TrProcess}
    → name_process rt process ≡ ret process'
    → (process'.main_thread.region_stack ≡ process.main_thread.region_stack)
      × (process'.main_thread.lifetime.self_span_id ≡ process.main_thread.lifetime.self_span_id)
unfolding name_process
name_process-IsEmptied rt process run = ground (arith)

pub prepare_dataset-shaped :
    (rt : Runtime) (now : Time) (tr2 tr2' : Trace2Dataset)
    → prepare_dataset rt now tr2 ≡ ret (true, tr2')
    → (process : TrProcess) × (shaped now tr2 process ≡ tr2')
      × IsEmptied tr2.process.main_thread process.main_thread
unfolding prepare_dataset
prepare_dataset-shaped rt now tr2 tr2' run =
    elim (Bool-cases (eqb (length tr2.process.cmd_argv) 0)) [
      | inl empty ↦ cc (rw (empty, prepare_dataset) at run)
      | inr line ↦
          let before = tr2.completed_regions ++ all_drained now tr2.threads in
          let closed = close_threads_lem now tr2.threads tr2.completed_regions in
          let ((process, regions), main, rest) =
            >>=-eq-ret (close_main now tr2.process before) _
              (rw (line, prepare_dataset, closed) at run) in
          let (named, names, made) = >>=-eq-ret (name_process rt process) _ rest in
          let (all, kept) = close_main-IsEmptied now tr2.process before main in
          let (stack, id) = name_process-IsEmptied rt process names in
          (
            named,
            ap (λ r. record (shaped now tr2 named) { completed_regions = r }) (sym all)
                ∙ ap (λ p. p.1) (ret-injective made),
            (id ∙ kept.0, stack ∙ kept.1),
          )
    ]
