-- ===== src/Prepare/Completion.antt =====
-- What `prepareDataset` ends, and what it leaves as it was.
use mathlib.Core.List.{reverse, append_assoc, append-nil}
use mathlib.Core.Path.{subst}
use trace2receiver.Common.{
  ◌≡◌, ◌≢◌, refl, ◌∙◌, ap, arith, pos, negsuc, eqb, eqb_ℤ, eqb_ℤ_iff, String, true, false, List, [],
  ◌∷◌, ◌++◌, length, Dict, All, map, ret, Bool-cases, inl, inr, ℤ, if◌then◌else◌,
}
use trace2receiver.Common.Panics.{>>=-eq-ret, ret-injective}
use trace2receiver.Runtime.{Runtime, Time}
use trace2receiver.Dataset.{TrThread, TrChild, TrRegion, TrProcess, Trace2Dataset, TrSpanEssentials}
use trace2receiver.Dataset.Stack.{is_incomplete, close_region}
use trace2receiver.Dataset.Stack.Pop.{pop_all_region_stack_lem}
use trace2receiver.Prepare.{
  close_child, close_thread, close_threads, close_children, close_main, name_process,
  prepare_dataset,
}

-- A thread that has not ended is closed, and its open regions are completed, the top one first.
abbrev pub closed_thread : Time → TrThread → TrThread
closed_thread now th =
    if is_incomplete th.lifetime
    then record th { region_stack = []; lifetime = record th.lifetime { end_time = now } }
    else th

abbrev pub drained : Time → TrThread → List TrRegion
drained now th =
    if is_incomplete th.lifetime then map (close_region now) (reverse th.region_stack) else []

abbrev pub closed_threads : Time → Dict String TrThread → Dict String TrThread
closed_threads now [] = []
closed_threads now ((name, th) ∷ more) = (name, closed_thread now th) ∷ closed_threads now more

abbrev pub all_drained : Time → Dict String TrThread → List TrRegion
all_drained now [] = []
all_drained now ((name, th) ∷ more) = drained now th ++ all_drained now more

close_thread_lem :
    (now : Time) (th : TrThread) (completed : List TrRegion)
    → close_thread now th completed ≡ ret (closed_thread now th, completed ++ drained now th)
unfolding close_thread
close_thread_lem now th completed = elim (Bool-cases (is_incomplete th.lifetime)) [
  | inl running ↦ rw (running, pop_all_region_stack_lem th completed now) refl
  | inr ended ↦ rw (ended, append-nil) refl
]

pub close_threads_lem :
    (now : Time) (threads : Dict String TrThread) (completed : List TrRegion)
    → close_threads now threads completed
      ≡ ret (closed_threads now threads, completed ++ all_drained now threads)
unfolding close_threads
close_threads_lem now [] completed = rw append-nil refl
close_threads_lem now ((name, th) ∷ more) completed =
    rw
      (
        close_thread_lem now th completed,
        close_threads_lem now more (completed ++ drained now th),
        append_assoc,
      )
      refl

-- A span that has an end.
abbrev pub IsComplete : TrSpanEssentials → Type 0
IsComplete se = is_incomplete se ≡ false

closed_threads-IsComplete :
    (now : Time) (threads : Dict String TrThread)
    → now ≢ pos 0
    → All (λ (x : String × TrThread). IsComplete x.1.lifetime) (closed_threads now threads)
unfolding is_incomplete
closed_threads-IsComplete now [] h = tt
closed_threads-IsComplete now ((name, th) ∷ more) h =
    (ground (arith, h, eqb_ℤ_iff now (pos 0)), closed_threads-IsComplete now more h)

close_children-IsComplete :
    (now : Time) (children : Dict ℤ TrChild)
    → now ≢ pos 0
    → All (λ (x : ℤ × TrChild). IsComplete x.1.lifetime) (close_children now children)
unfolding close_children is_incomplete
close_children-IsComplete now [] h = tt
close_children-IsComplete now ((name, child) ∷ more) h =
    (ground (arith, h, eqb_ℤ_iff now (pos 0)), close_children-IsComplete now more h)

-- The end of a span: the time of the clock, unless it has one.
abbrev pub end_of : Time → TrSpanEssentials → Time
end_of now se = if is_incomplete se then now else se.end_time

-- What a process or a child that has not exited has in place of a number.
abbrev pub unless_running : TrSpanEssentials → ℤ → ℤ
unless_running se n = if is_incomplete se then negsuc 0 else n

abbrev pub ended_child : Time → TrChild → TrChild
ended_child now child = record {
  lifetime = record child.lifetime { end_time = end_of now child.lifetime };
  argv = child.argv;
  pid = unless_running child.lifetime child.pid;
  exitcode = unless_running child.lifetime child.exitcode;
  readystate = child.readystate;
  class = child.class;
  hookname = child.hookname;
}

abbrev pub ended_children : Time → Dict ℤ TrChild → Dict ℤ TrChild
ended_children now children = map (λ (x : ℤ × TrChild). (x.0, ended_child now x.1)) children

close_child_lem : (now : Time) (child : TrChild) → close_child now child ≡ ended_child now child
unfolding close_child
close_child_lem now child = elim (Bool-cases (is_incomplete child.lifetime)) [
  | inl running ↦ rw (running, close_child) refl
  | inr ended ↦ rw (ended, close_child) refl
]

close_children_lem :
    (now : Time) (children : Dict ℤ TrChild)
    → close_children now children ≡ ended_children now children
unfolding close_children
close_children_lem now [] = refl
close_children_lem now ((id, child) ∷ more) =
    rw (close_child_lem now child, close_children_lem now more) refl

close_main_lem :
    (now : Time) (process : TrProcess) (completed : List TrRegion) {process' : TrProcess}
    {all : List TrRegion}
    → now ≢ pos 0
    → close_main now process completed ≡ ret (process', all)
    → (all ≡ completed ++ map (close_region now) (reverse process.main_thread.region_stack))
      × (process'.main_thread.region_stack ≡ [])
      × IsComplete process'.main_thread.lifetime
      × (process'.main_thread.lifetime.end_time ≡ end_of now process.main_thread.lifetime)
      × (process'.exe_exit_code ≡ unless_running process.main_thread.lifetime process.exe_exit_code)
unfolding close_main is_incomplete
close_main_lem now process completed h run =
    ground
      (arith, h, eqb_ℤ_iff now (pos 0), pop_all_region_stack_lem process.main_thread completed now)

name_process_lem :
    (rt : Runtime) (process : TrProcess) {process' : TrProcess}
    → name_process rt process ≡ ret process'
    → (process'.main_thread.region_stack ≡ process.main_thread.region_stack)
      × (process'.main_thread.lifetime.end_time ≡ process.main_thread.lifetime.end_time)
      × (process'.exe_exit_code ≡ process.exe_exit_code)
unfolding name_process
name_process_lem rt process run = ground (arith)

-- What preparing a dataset makes of it. Every child and thread, and the main thread, has an end, and
-- the main thread has no open region. What had an end keeps it, with its numbers; the exec's are left
-- alone. The completed regions are those from before, those that were open on threads that had not
-- ended, and those of the main thread, each stack from its top.
pub record IsPrepared (now : Time) (tr2 tr2' : Trace2Dataset) : Type 0 where
  pub children : tr2'.children ≡ ended_children now tr2.children
  pub threads : tr2'.threads ≡ closed_threads now tr2.threads
  pub exec : tr2'.exec ≡ tr2.exec
  pub main :
      tr2'.process.main_thread.lifetime.end_time ≡ end_of now tr2.process.main_thread.lifetime
  pub exit_code :
      tr2'.process.exe_exit_code
      ≡ unless_running tr2.process.main_thread.lifetime tr2.process.exe_exit_code
  pub main_regions : tr2'.process.main_thread.region_stack ≡ []
  pub regions :
      tr2'.completed_regions
      ≡ (tr2.completed_regions ++ all_drained now tr2.threads)
        ++ map (close_region now) (reverse tr2.process.main_thread.region_stack)
  pub complete_children : All (λ (x : ℤ × TrChild). IsComplete x.1.lifetime) tr2'.children
  pub complete_threads : All (λ (x : String × TrThread). IsComplete x.1.lifetime) tr2'.threads
  pub complete_main : IsComplete tr2'.process.main_thread.lifetime

-- If the clock does not show the zero time, preparing a dataset for export gives every child, every
-- thread and the main thread an end: the time of the clock where there was none, with -1 for the
-- process id and the exit code of such a child and for the exit code of such a process, and the end,
-- the id and the code from before where there was one. The regions that are open on the main thread
-- and on threads that had not ended are completed at the time of the clock and none of them is
-- dropped; the main thread is left without an open region. The regions of threads that had ended and
-- the exec's are left as they were.
pub prepare_dataset-IsPrepared :
    (rt : Runtime) (now : Time) (tr2 tr2' : Trace2Dataset)
    → now ≢ pos 0
    → prepare_dataset rt now tr2 ≡ ret (true, tr2')
    → IsPrepared now tr2 tr2'
unfolding prepare_dataset is_incomplete
prepare_dataset-IsPrepared rt now tr2 tr2' h run =
    elim (Bool-cases (eqb (length tr2.process.cmd_argv) 0)) [
      | inl empty ↦ cc (rw (empty, prepare_dataset) at run)
      | inr line ↦
          let before = tr2.completed_regions ++ all_drained now tr2.threads in
          let closed = close_threads_lem now tr2.threads tr2.completed_regions in
          let ((process, regions), main, rest) =
            >>=-eq-ret (close_main now tr2.process before) _
              (rw (line, prepare_dataset, closed) at run) in
          let (named, names, made) = >>=-eq-ret (name_process rt process) _ rest in
          let (all, emptied, ended, end_time, code) =
            close_main_lem now tr2.process before h main in
          let (stack, same_end, same_code) = name_process_lem rt process names in
          subst (IsPrepared now tr2) (ap (λ p. p.1) (ret-injective made)) (record {
            children = close_children_lem now tr2.children;
            threads = refl;
            exec = refl;
            main = same_end ∙ end_time;
            exit_code = same_code ∙ code;
            main_regions = stack ∙ emptied;
            regions = all;
            complete_children = close_children-IsComplete now tr2.children h;
            complete_threads = closed_threads-IsComplete now tr2.threads h;
            complete_main = ap (λ t. eqb_ℤ t (pos 0)) same_end ∙ ended;
          })
    ]
