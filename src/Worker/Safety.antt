-- ===== src/Worker/Safety.antt =====
-- Nil pointers and the worker.
use trace2receiver.Json.{Value}
use trace2receiver.Apply.Names.{string_arg}
use trace2receiver.Common.{
  ap, ℕ, List, ltb, string_eq, ◌==◌, ◌≢◌, arith, Bool, true, false, Option, none, some, Go, ret,
  panic, nil_deref, Panic, if◌then◌else◌, eqb, length, not,
}
use trace2receiver.Common.Panics.{◌>>=◌, Returns}
use trace2receiver.Runtime.{Runtime, Time}
use trace2receiver.Dataset.{Trace2Dataset, TrProcess}
use trace2receiver.Filter.Settings.{FilterSettings}
use trace2receiver.Prepare.{close_threads, close_main, name_process, prepare_dataset, export_traces}
use trace2receiver.Prepare.Names.{
  qualified_names, qualified_exe, qualified_exe_verb, qualified_verb,
}
use trace2receiver.Prepare.Completion.{close_threads_lem}
use trace2receiver.Prepare.Returns.{close_main-Returns}
use trace2receiver.Filter.Level.{is_drop}
use trace2receiver.Filter.Rules.{compute_detail_level}
use trace2receiver.Emit.Spans.{Emitter}
use trace2receiver.Config.{Config}
use trace2receiver.Worker.{Connection, Surroundings, read_loop, gathered, export_dataset, worker}
use trace2receiver.Worker.Loop.{panic-injective, read_loop-ne-nil_deref}

-- The action does not follow a nil pointer.
abbrev IsSafe {ℓ} : {A : Type ℓ} → Go A → Type ℓ
IsSafe m = m ≢ panic nil_deref

panic-ne {ℓ} : {A : Type ℓ} {p : Panic} → p ≢ nil_deref → IsSafe {A = A} (panic p)
panic-ne h bad = h (panic-injective bad)

>>=-IsSafe {ℓ κ} :
    {A : Type ℓ} {B : Type κ} (m : Go A) (k : A → Go B)
    → IsSafe m
    → ((a : A) → IsSafe (k a))
    → IsSafe (m >>= k)
>>=-IsSafe (panic p) k h all = panic-ne λ same. h (ap panic same)
>>=-IsSafe (ret a) k h all = all a

Returns-IsSafe {ℓ} : {A : Type ℓ} (m : Go A) → Returns m → IsSafe m
Returns-IsSafe m r bad = cc

if-IsSafe {ℓ} :
    {A : Type ℓ} (b : Bool) (x y : Go A) → IsSafe x → IsSafe y → IsSafe (if b then x else y)
if-IsSafe true x y h k = h
if-IsSafe false x y h k = k

string_arg-IsSafe : (argv : List Value) (i : ℕ) → IsSafe (string_arg argv i)
unfolding string_arg
string_arg-IsSafe argv i = ground arith

ret-IsSafe {ℓ} : {A : Type ℓ} (a : A) → IsSafe (ret a)
ret-IsSafe a bad = cc

qualified_names-IsSafe : (rt : Runtime) (process : TrProcess) → IsSafe (qualified_names rt process)
unfolding qualified_names qualified_exe qualified_exe_verb qualified_verb
qualified_names-IsSafe rt process =
    >>=-IsSafe (qualified_exe rt process) _
      (>>=-IsSafe (string_arg process.cmd_argv 0) _ (string_arg-IsSafe process.cmd_argv 0)
        λ arg. if-IsSafe _ _ _ (ret-IsSafe _) (ret-IsSafe _))
      λ exe.
        >>=-IsSafe (qualified_exe_verb process exe) _
          (if-IsSafe (process.cmd_verb == "") _ _ (ret-IsSafe _) (
            >>=-IsSafe (qualified_verb process) _
              (if-IsSafe (process.cmd_verb == "_run_dashed_") _ _
                (if-IsSafe (ltb 1 (length process.cmd_argv)) _ _
                  (string_arg-IsSafe process.cmd_argv 1) (ret-IsSafe _))
                (ret-IsSafe _))
              λ verb. ret-IsSafe _))
          λ exe_verb. ret-IsSafe _

module _ (rt : Runtime) where
  prepare_dataset-IsSafe : (now : Time) (tr2 : Trace2Dataset) → IsSafe (prepare_dataset rt now tr2)
  unfolding prepare_dataset name_process
  prepare_dataset-IsSafe now tr2 =
      if-IsSafe (eqb (length tr2.process.cmd_argv) 0) _ _ (ret-IsSafe _) (
        >>=-IsSafe (close_threads now tr2.threads tr2.completed_regions) _
          (Returns-IsSafe _ (_, close_threads_lem now tr2.threads tr2.completed_regions))
          λ closed.
            >>=-IsSafe (close_main now tr2.process closed.1) _
              (Returns-IsSafe _ (close_main-Returns now tr2.process closed.1))
              λ main.
                >>=-IsSafe (name_process rt main.0) _
                  (>>=-IsSafe (qualified_names rt main.0) _ (qualified_names-IsSafe rt main.0)
                    λ qn. ret-IsSafe _)
                  λ named. ret-IsSafe _)

  export_dataset-IsSafe :
      (em : Emitter) (settings : Option FilterSettings) (now : Time) (tr2 : Trace2Dataset)
      → IsSafe (export_dataset rt em settings now tr2)
  unfolding export_dataset export_traces
  export_dataset-IsSafe em settings now tr2 =
      >>=-IsSafe (export_traces rt settings now tr2) _
        (if-IsSafe (not tr2.saw_data) _ _ (ret-IsSafe _) (
          >>=-IsSafe (prepare_dataset rt now tr2) _ (prepare_dataset-IsSafe now tr2) λ ready.
            let level =
              (compute_detail_level settings ready.1.process.param_set_values
                ready.1.process.qualified_names).0 in
            let out = some (level, ready.1) in
            if-IsSafe (not ready.0) (ret none) _ (ret-IsSafe _)
              (if-IsSafe (is_drop level) (ret none) (ret out) (ret-IsSafe _) (ret-IsSafe out))))
        λ out. ret-IsSafe _

  -- Whatever a client sends, and however its connection ends, handling the connection, from its
  -- first line to the export of the trace, follows no nil pointer.
  pub worker-ne-nil_deref :
      (em : Emitter) (cfg : Config) (around : Surroundings) (conn : Connection)
      → worker rt em cfg around conn ≢ panic nil_deref
  unfolding worker
  worker-ne-nil_deref em cfg around conn =
      >>=-IsSafe
        (read_loop rt conn.lines conn.ending (gathered cfg around) cfg.allow_command_control_verbs)
        _
        (read_loop-ne-nil_deref rt conn.lines conn.ending (gathered cfg around)
          cfg.allow_command_control_verbs)
        λ out.
          if-IsSafe out.1 _ _ (ret-IsSafe _)
            (export_dataset-IsSafe em cfg.filter_settings around.now out.0)
