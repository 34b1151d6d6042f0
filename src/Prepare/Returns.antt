-- ===== src/Prepare/Returns.antt =====
-- When preparing and exporting a dataset return.
use mathlib.Core.Path.{subst}
use trace2receiver.Common.{
  sym, ℕ, zero, suc, ◌≡◌, refl, arith, eqb, ltb, String, true, false, List, [], ◌∷◌, length, All,
  ret, string_eq, ◌==◌, ◌&&◌, not,
}
use trace2receiver.Common.Panics.{Returns, >>=-Returns, if-Returns}
use trace2receiver.Dataset.Stack.{is_incomplete, pop_all_region_stack}
use trace2receiver.Common.Text.{map_text, base, ext}
use trace2receiver.Json.{Value, str}
use trace2receiver.Runtime.{Runtime, Time}
use trace2receiver.Dataset.{TrRegion, TrProcess, Trace2Dataset}
use trace2receiver.Dataset.Stack.Pop.{pop_all_region_stack_lem}
use trace2receiver.Apply.Names.{string_arg}
use trace2receiver.Prepare.{close_threads, close_main, name_process, prepare_dataset}
use trace2receiver.Prepare.Names.{
  qualified_exe, qualified_verb, qualified_exe_verb, qualified_names,
}
use trace2receiver.Prepare.Completion.{close_threads_lem}

-- A command line as Git sends it.
abbrev pub AreStrings : List Value → Type 0
AreStrings argv = All (λ (v : Value). (s : String) × (v ≡ str s)) argv

string_arg-Returns :
    (argv : List Value) (i : ℕ)
    → AreStrings argv
    → ltb i (length argv) ≡ true
    → Returns (string_arg argv i)
unfolding string_arg
string_arg-Returns [] i h k = absurd (ground (arith, k))
string_arg-Returns (v ∷ argv) zero h k = let (s, same) = h.0 in (s, rw same refl)
string_arg-Returns (v ∷ argv) (suc i) h k = string_arg-Returns argv i h.1 (ground (arith, k))

module _ (rt : Runtime) (process : TrProcess) (strings : AreStrings process.cmd_argv) where
  qualified_verb-Returns : Returns (qualified_verb process)
  unfolding qualified_verb
  qualified_verb-Returns =
      if-Returns (process.cmd_verb == "_run_dashed_") _ _
        (λ dashed.
          if-Returns (ltb 1 (length process.cmd_argv)) _ _
            (λ more. string_arg-Returns process.cmd_argv 1 strings more)
            (λ short. ("_run_dashed_", refl)))
        (λ other. (process.cmd_verb, refl))

  name_process-Returns : ltb 0 (length process.cmd_argv) ≡ true → Returns (name_process rt process)
  unfolding name_process qualified_names qualified_exe qualified_exe_verb
  name_process-Returns more =
      >>=-Returns (qualified_names rt process) _
        (>>=-Returns (qualified_exe rt process) _
          (>>=-Returns (string_arg process.cmd_argv 0) _
            (string_arg-Returns process.cmd_argv 0 strings more)
            (λ arg e.
              if-Returns
                (not (ext (base arg) == "") && map_text rt.lower (ext (base arg)) == ".exe") _ _
                (λ exe. (_, refl)) (λ other. (_, refl))))
          (λ exe e.
            >>=-Returns (qualified_exe_verb process exe) _
              (if-Returns (process.cmd_verb == "") _ _ (λ absent. (exe, refl))
                (λ named.
                  >>=-Returns (qualified_verb process) _ qualified_verb-Returns
                    λ verb k. (_, refl)))
              (λ exe_verb k. (_, refl))))
        (λ qn e. (_, refl))

pub close_main-Returns :
    (now : Time) (process : TrProcess) (completed : List TrRegion)
    → Returns (close_main now process completed)
unfolding close_main
close_main-Returns now process completed =
    >>=-Returns (pop_all_region_stack process.main_thread completed now) _
      (_, pop_all_region_stack_lem process.main_thread completed now)
      λ popped e.
        if-Returns (is_incomplete popped.0.lifetime) _ _ (λ running. (_, refl)) λ ended. (_, refl)

cmd_argv-close_main :
    (now : Time) (process : TrProcess) (completed : List TrRegion) {r : TrProcess × List TrRegion}
    → close_main now process completed ≡ ret r
    → r.0.cmd_argv ≡ process.cmd_argv
unfolding close_main
cmd_argv-close_main now process completed h = ground arith

-- Preparing a dataset returns, where every argument of the command line is a string.
pub prepare_dataset-Returns :
    (rt : Runtime) (now : Time) (tr2 : Trace2Dataset)
    → AreStrings tr2.process.cmd_argv
    → Returns (prepare_dataset rt now tr2)
unfolding prepare_dataset
prepare_dataset-Returns rt now tr2 strings =
    let argv = tr2.process.cmd_argv in
    if-Returns (eqb (length argv) 0) _ _ (λ empty. ((false, tr2), refl))
      λ line.
        >>=-Returns (close_threads now tr2.threads tr2.completed_regions) _
          (_, close_threads_lem now tr2.threads tr2.completed_regions)
          λ closed e.
            >>=-Returns (close_main now tr2.process closed.1) _
              (close_main-Returns now tr2.process closed.1)
              λ main k.
                let same = sym (cmd_argv-close_main now tr2.process closed.1 k) in
                >>=-Returns (name_process rt main.0) _
                  (name_process-Returns rt main.0 (subst AreStrings same strings)
                    (subst (λ l. ltb 0 (length l) ≡ true) same (ground (arith, line))))
                  λ named j. (_, refl)
