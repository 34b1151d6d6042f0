-- ===== src/Prepare.antt =====
-- `prepareDataset` and the qualified names of trace2dataset.go, and the decisions of
-- `exportTraces`. The wall clock is an argument; `range` over a map takes the model's order.
pub mod Names
pub mod Completion
pub mod Returns
pub mod Shape
use trace2receiver.Common.{
  ℤ, negsuc, eqb, String, ◌<>◌, Bool, true, false, not, List, [], ◌∷◌, Option, none, some, length,
  Dict, string_eq, ◌==◌, if◌then◌else◌, Go, ret,
}
use trace2receiver.Common.Panics.{◌>>=◌}
use trace2receiver.Runtime.{Runtime, Time}
use trace2receiver.Dataset.{TrThread, TrChild, TrRegion, TrProcess, QualifiedNames, Trace2Dataset}
use trace2receiver.Dataset.Stack.{is_incomplete, pop_all_region_stack}
use trace2receiver.Filter.Level.{FilterDetailLevel, is_drop}
use trace2receiver.Filter.Settings.{FilterSettings}
use trace2receiver.Filter.Rules.{compute_detail_level}
use Names.{qualified_names}

-- A child that has not exited.
unfoldable pub close_child : Time → TrChild → TrChild
unfolding is_incomplete
close_child now child =
    if is_incomplete child.lifetime
    then record child {
      lifetime = record child.lifetime { end_time = now };
      pid = negsuc 0;
      exitcode = negsuc 0;
    }
    else child

unfoldable pub close_children : Time → Dict ℤ TrChild → Dict ℤ TrChild
unfolding close_child
close_children now [] = []
close_children now ((id, child) ∷ more) = (id, close_child now child) ∷ close_children now more

unfoldable pub close_thread : Time → TrThread → List TrRegion → Go (TrThread × List TrRegion)
unfolding is_incomplete
close_thread now th completed =
    if is_incomplete th.lifetime
    then (do
      (th', completed') ← pop_all_region_stack th completed now
      ret (record th' { lifetime = record th'.lifetime { end_time = now } }, completed'))
    else ret (th, completed)

unfoldable pub close_threads :
    Time → Dict String TrThread → List TrRegion → Go (Dict String TrThread × List TrRegion)
unfolding close_thread
close_threads now [] completed = ret ([], completed)
close_threads now ((name, th) ∷ more) completed = do
  (th', completed') ← close_thread now th completed
  (more', all) ← close_threads now more completed'
  ret ((name, th') ∷ more', all)

-- The main thread's open regions are closed even where it has ended; its end and the exit code are
-- set where it has not.
unfoldable pub close_main : Time → TrProcess → List TrRegion → Go (TrProcess × List TrRegion)
unfolding is_incomplete
close_main now process completed = do
  (main, all) ← pop_all_region_stack process.main_thread completed now
  if is_incomplete main.lifetime
      then ret (
        record process {
          main_thread = record main { lifetime = record main.lifetime { end_time = now } };
          exe_exit_code = negsuc 0;
        },
        all,
      )
      else ret (record process { main_thread = main }, all)

-- The names and the display name of the process.
unfoldable pub name_process : Runtime → TrProcess → Go TrProcess
name_process rt process = do
  qn ← qualified_names rt process
  let main = process.main_thread
  ret (record process {
    qualified_names = qn;
    main_thread = record main {
      lifetime = record main.lifetime { display_name = qn.exe_verb_mode };
    };
  })

-- prepareDataset: its result, and the dataset behind the pointer. Without a command line the
-- dataset is left as it is.
unfoldable pub prepare_dataset : Runtime → Time → Trace2Dataset → Go (Bool × Trace2Dataset)
prepare_dataset rt now tr2 = if eqb (length tr2.process.cmd_argv) 0 then ret (false, tr2) else (do
  (threads, some_regions) ← close_threads now tr2.threads tr2.completed_regions
  (process, regions) ← close_main now tr2.process some_regions
  named ← name_process rt process
  ret (
    true,
    record tr2 {
      children = close_children now tr2.children;
      threads = threads;
      completed_regions = regions;
      process = named;
    },
  ))

-- exportTraces, up to the call of ToTraces: the level and the dataset that it is called with, or
-- `none` where nothing is exported.
unfoldable pub export_traces :
    Runtime
    → Option FilterSettings
    → Time
    → Trace2Dataset
    → Go (Option (FilterDetailLevel × Trace2Dataset))
export_traces rt settings now tr2 = if not tr2.saw_data then ret none else (do
  (ready, tr2') ← prepare_dataset rt now tr2
  let process = tr2'.process
  let dl = (compute_detail_level settings process.param_set_values process.qualified_names).0
  if not ready then ret none else if is_drop dl then ret none else ret (some (dl, tr2')))
