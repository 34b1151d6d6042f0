-- ===== src/Worker/Export.antt =====
-- What a worker exports, and when.
use mathlib.Core.Path.{subst}
use mathlib.Core.Option.{some-injective}
use trace2receiver.Common.{
  ◌≡◌, refl, sym, ◌∙◌, ap, arith, Bool, true, false, not, Option, none, some, Option-cases, inl,
  inr, if-cases, ret, if◌then◌else◌, Bool-cases, ltb, length, eqb,
}
use trace2receiver.Common.Panics.{>>=-eq-ret, ret-injective}
use trace2receiver.Runtime.{Runtime, Time}
use trace2receiver.Dataset.{Trace2Dataset}
use trace2receiver.Filter.Level.{FilterDetailLevel, is_drop}
use trace2receiver.Filter.Settings.{FilterSettings}
use trace2receiver.Filter.Rules.{compute_detail_level}
use trace2receiver.Filter.Precedence.{level_spec, compute_detail_level_lem}
use trace2receiver.Prepare.{close_threads, close_main, name_process, prepare_dataset, export_traces}
use trace2receiver.Prepare.Returns.{AreStrings, prepare_dataset-Returns}
use trace2receiver.Emit.{Traces, to_traces}
use trace2receiver.Emit.Spans.{Emitter}
use trace2receiver.Config.{Config}
use trace2receiver.Worker.{Connection, Surroundings, read_loop, gathered, export_dataset, worker}

-- What an export goes through.
abbrev pub IsExported :
    Runtime
    → Option FilterSettings
    → Time
    → Trace2Dataset
    → Trace2Dataset
    → FilterDetailLevel
    → Type 0
IsExported rt settings now tr2 tr2' dl =
    (tr2.saw_data ≡ true)
    × (prepare_dataset rt now tr2 ≡ ret (true, tr2'))
    × (dl ≡ level_spec settings tr2'.process.param_set_values tr2'.process.qualified_names)
    × (is_drop dl ≡ false)

module _ (rt : Runtime) (settings : Option FilterSettings) (now : Time) (tr2 : Trace2Dataset) where
  export_traces-IsExported :
      {tr2' : Trace2Dataset} {dl : FilterDetailLevel}
      → export_traces rt settings now tr2 ≡ ret (some (dl, tr2'))
      → IsExported rt settings now tr2 tr2' dl
  unfolding export_traces
  export_traces-IsExported {tr2'} {dl} run = elim (if-cases (not tr2.saw_data) _ _ run) [
    | inl (unseen, stop) ↦ cc
    | inr (seen, go) ↦
        let ((ready, d), prepared, rest) = >>=-eq-ret (prepare_dataset rt now tr2) _ go in
        let level =
          compute_detail_level settings d.process.param_set_values d.process.qualified_names in
        elim (if-cases (not ready) _ _ rest) [
          | inl (unready, stop) ↦ cc
          | inr (is_ready, more) ↦ elim (if-cases (is_drop level.0) _ _ more) [
            | inl (dropped, stop) ↦ cc
            | inr (kept, last) ↦
                let same = some-injective _ _ (ret-injective last) in
                subst (λ p. IsExported rt settings now tr2 p.1 p.0) same
                  (
                    ground (arith, seen),
                    prepared ∙ ap (λ b. ret (b, d)) (ground (arith, is_ready)),
                    compute_detail_level_lem settings d.process.param_set_values
                        d.process.qualified_names,
                    kept,
                  )
          ]
        ]
  ]

  export_dataset-IsExported :
      (em : Emitter) {traces : Traces}
      → export_dataset rt em settings now tr2 ≡ ret (some traces)
      → (tr2' : Trace2Dataset) × (dl : FilterDetailLevel) × IsExported rt settings now tr2 tr2' dl
        × (to_traces em tr2' dl ≡ traces)
  unfolding export_dataset
  export_dataset-IsExported em run =
      let (out, exported, last) = >>=-eq-ret (export_traces rt settings now tr2) _ run in
      elim (Option-cases out) [
        | inl nothing ↦ cc (rw nothing at last)
        | inr ((dl, tr2'), something) ↦ (
          tr2',
          dl,
          export_traces-IsExported (exported ∙ ap ret something),
          some-injective _ _ (ret-injective (rw something at last)),
        )
      ]

ready-true :
    (rt : Runtime) (now : Time) (tr2 : Trace2Dataset) {ready : Bool} {tr2' : Trace2Dataset}
    → ltb 0 (length tr2.process.cmd_argv) ≡ true
    → prepare_dataset rt now tr2 ≡ ret (ready, tr2')
    → ready ≡ true
unfolding prepare_dataset
ready-true rt now tr2 line run = elim (if-cases (eqb (length tr2.process.cmd_argv) 0) _ _ run) [
  | inl (empty, stop) ↦ absurd (ground (arith, empty, line))
  | inr (some_line, go) ↦
      let (threads, closed, after) =
        >>=-eq-ret (close_threads now tr2.threads tr2.completed_regions) _ go in
      let (main, ended, rest) = >>=-eq-ret (close_main now tr2.process threads.1) _ after in
      let (named, names, made) = >>=-eq-ret (name_process rt main.0) _ rest in
      sym (ap (λ p. p.0) (ret-injective made))
]

pub ready_run :
    (rt : Runtime) (settings : Option FilterSettings) (now : Time) (tr2 tr2' : Trace2Dataset)
    → tr2.saw_data ≡ true
    → prepare_dataset rt now tr2 ≡ ret (true, tr2')
    → export_traces rt settings now tr2
      ≡ ret (
          let dl = level_spec settings tr2'.process.param_set_values tr2'.process.qualified_names in
          if is_drop dl then none else some (dl, tr2'))
unfolding export_traces
ready_run rt settings now tr2 tr2' seen done =
    let params = tr2'.process.param_set_values in
    let qn = tr2'.process.qualified_names in
    let level = compute_detail_level_lem settings params qn in
    elim (Bool-cases (is_drop (level_spec settings params qn))) [
      | inl dropped ↦ rw (done, export_traces, level, dropped, seen) refl
      | inr kept ↦ rw (done, export_traces, level, kept, seen) refl
    ]

-- A worker exports only what it has read without any error, up to the end of the stream or until
-- the connection was closed: the trace of the prepared dataset, which has seen data, at the level
-- that the settings give it, which is not the level that drops it.
pub worker-IsExported :
    (rt : Runtime) (em : Emitter) (cfg : Config) (around : Surroundings) (conn : Connection)
    (traces : Traces)
    → worker rt em cfg around conn ≡ ret (some traces)
    → (tr2 tr2' : Trace2Dataset) × (dl : FilterDetailLevel) × (read_loop rt conn.lines conn.ending
          (gathered cfg around)
          cfg.allow_command_control_verbs
        ≡ ret (tr2, false))
      × IsExported rt cfg.filter_settings around.now tr2 tr2' dl
      × (to_traces em tr2' dl ≡ traces)
unfolding worker
worker-IsExported rt em cfg around conn traces run =
    let ((tr2, have_error), read, rest) =
      >>=-eq-ret
        (read_loop rt conn.lines conn.ending (gathered cfg around) cfg.allow_command_control_verbs)
        _ run in
    elim (if-cases have_error _ _ rest) [
      | inl (bad, stop) ↦ cc
      | inr (good, go) ↦
          let (tr2', dl, exported, same) =
            export_dataset-IsExported rt cfg.filter_settings around.now tr2 em go in
          (tr2, tr2', dl, read ∙ ap (λ b. ret (tr2, b)) good, exported, same)
    ]

-- A stream that is read without error to a dataset that has seen data and a command line of strings
-- is exported: the worker returns, with the trace of the prepared dataset at the level that the
-- settings give it, and with nothing only where that level drops it.
pub worker-exports :
    (rt : Runtime) (em : Emitter) (cfg : Config) (around : Surroundings) (conn : Connection)
    (tr2 : Trace2Dataset)
    → read_loop rt conn.lines conn.ending (gathered cfg around) cfg.allow_command_control_verbs
      ≡ ret (tr2, false)
    → tr2.saw_data ≡ true
    → ltb 0 (length tr2.process.cmd_argv) ≡ true
    → AreStrings tr2.process.cmd_argv
    → (tr2' : Trace2Dataset) × (prepare_dataset rt around.now tr2 ≡ ret (true, tr2'))
      × (worker rt em cfg around conn
          ≡ ret (
              let dl =
                level_spec cfg.filter_settings tr2'.process.param_set_values
                  tr2'.process.qualified_names in
              if is_drop dl then none else some (to_traces em tr2' dl)))
unfolding worker export_dataset
worker-exports rt em cfg around conn tr2 read seen line strings =
    let ((ready, tr2'), prepared) = prepare_dataset-Returns rt around.now tr2 strings in
    let is_ready : ready ≡ true = ready-true rt around.now tr2 line prepared in
    let done = prepared ∙ ap (λ b. ret (b, tr2')) is_ready in
    let dl =
      level_spec cfg.filter_settings tr2'.process.param_set_values tr2'.process.qualified_names in
    let exported = ready_run rt cfg.filter_settings around.now tr2 tr2' seen done in
    (
      tr2',
      done,
      elim (Bool-cases (is_drop dl)) [
        | inl dropped ↦ rw (read, worker, exported, dropped) refl
        | inr kept ↦ rw (read, worker, exported, kept) refl
      ],
    )
