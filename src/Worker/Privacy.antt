-- ===== src/Worker/Privacy.antt =====
-- What personal data a worker exports.
use trace2receiver.Common.{◌≡◌, refl, sym, ◌∙◌, ap, String, true, List, some, ret, All, ◌∷◌, []}
use trace2receiver.Runtime.{Runtime, Time}
use trace2receiver.Dataset.{Trace2Dataset, new_trace2_dataset}
use trace2receiver.Privacy.Events.{pii-process_raw_line}
use trace2receiver.Prepare.{prepare_dataset}
use trace2receiver.Prepare.Shape.{prepare_dataset-shaped}
use trace2receiver.Pii.Gather.{asked_for, pii_gather-asked_for}
use trace2receiver.Emit.{Traces, to_traces}
use trace2receiver.Emit.Spans.{Emitter}
use trace2receiver.Filter.Level.{FilterDetailLevel}
use trace2receiver.Config.{Config}
use trace2receiver.Worker.{Connection, Surroundings, gathered, worker}
use trace2receiver.Worker.Loop.{read_loop_ind}
use trace2receiver.Worker.Export.{worker-IsExported}

everything : (lines : List String) → All (λ (line : String). Unit {0}) lines
everything [] = tt
everything (line ∷ lines) = (tt, everything lines)

pii-gathered :
    (cfg : Config) (around : Surroundings)
    → (gathered cfg around).pii ≡ asked_for cfg.pii_settings around.host around.user
unfolding gathered new_trace2_dataset
pii-gathered cfg around =
    ap (λ d. d.pii)
      (pii_gather-asked_for cfg.pii_settings around.host around.user
        (new_trace2_dataset around.dataset_id around.seed) refl)

pii-prepare_dataset :
    (rt : Runtime) (now : Time) (tr2 tr2' : Trace2Dataset)
    → prepare_dataset rt now tr2 ≡ ret (true, tr2')
    → tr2'.pii ≡ tr2.pii
pii-prepare_dataset rt now tr2 tr2' run =
    let (process, shape, emptied) = prepare_dataset-shaped rt now tr2 tr2' run in
    ap (λ d. d.pii) (sym shape)

-- Whatever a client sends, what a worker exports is the trace of a dataset whose personal data are
-- exactly those that the settings ask for and that could be found: no line adds to them.
pub worker-asked_for :
    (rt : Runtime) (em : Emitter) (cfg : Config) (around : Surroundings) (conn : Connection)
    (traces : Traces)
    → worker rt em cfg around conn ≡ ret (some traces)
    → (tr2 : Trace2Dataset) × (dl : FilterDetailLevel) × (tr2.pii
        ≡ asked_for cfg.pii_settings around.host around.user)
      × (to_traces em tr2 dl ≡ traces)
worker-asked_for rt em cfg around conn traces run =
    let (before, tr2, dl, read, exported, same) =
      worker-IsExported rt em cfg around conn traces run in
    let start = gathered cfg around in
    let kept =
      read_loop_ind rt (λ line. Unit) (λ d. d.pii ≡ start.pii) cfg.allow_command_control_verbs
        (λ line d d' e yes same_pii step.
          pii-process_raw_line rt line d d' e cfg.allow_command_control_verbs step ∙ same_pii)
        conn.lines conn.ending start (everything conn.lines) refl read in
    (
      tr2,
      dl,
      pii-prepare_dataset rt around.now before tr2 exported.1 ∙ kept ∙ pii-gathered cfg around,
      same,
    )
