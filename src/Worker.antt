-- ===== src/Worker.antt =====
-- `worker` of rcvr_unixsocket.go and rcvr_namedpipe.go, and `exportTraces` of trace2dataset.go: one
-- connection, from its lines to the traces that the consumer is given. Closing the connection,
-- the thread that waits for the collector to stop and the log are left out.
pub mod Loop
pub mod Export
pub mod Reads
pub mod Tree
pub mod Safety
pub mod Privacy
use trace2receiver.Common.{
  ℕ, String, Bool, true, false, List, [], ◌∷◌, Option, none, some, Result, GoError, Go, ret,
  if◌then◌else◌,
}
use trace2receiver.Common.Panics.{◌>>=◌}
use trace2receiver.Runtime.{Runtime, Time}
use trace2receiver.Dataset.{Trace2Dataset, new_trace2_dataset}
use trace2receiver.Apply.{process_raw_line}
use trace2receiver.Prepare.{export_traces}
use trace2receiver.Filter.Level.{FilterDetailLevel}
use trace2receiver.Filter.Settings.{FilterSettings}
use trace2receiver.Pii.{pii_gather}
use trace2receiver.Config.{Config}
use trace2receiver.Emit.{Traces, to_traces}
use trace2receiver.Emit.Spans.{Emitter}

-- How the stream ends, as ReadBytes reports it: at its end, with the text behind the last line
-- break, which is dropped; closed by this process; with another error.
pub data Ending : Type 0 where
  eof : String → Ending
  closed : Ending
  failed : GoError → Ending

-- The lines, each with its line break.
pub record Connection : Type 0 where
  pub lines : List String
  pub ending : Ending

-- What the worker finds around it: the names of the host and of the client's user, the number of
-- the dataset, the seed of its generator and the clock at the end of the stream.
pub record Surroundings : Type 0 where
  pub host : Result String
  pub user : Result String
  pub dataset_id : ℕ
  pub seed : ℕ
  pub now : Time

-- haveError, where the stream ends.
abbrev pub is_failure : Ending → Bool
is_failure (eof rest) = false
is_failure closed = false
is_failure (failed e) = true

abbrev pub emitted : Emitter → Option (FilterDetailLevel × Trace2Dataset) → Option Traces
emitted em none = none
emitted em (some (dl, tr2)) = some (to_traces em tr2 dl)

-- NewTrace2Dataset and pii_gather.
unfoldable pub gathered : Config → Surroundings → Trace2Dataset
gathered cfg around =
    pii_gather cfg.pii_settings around.host around.user
      (new_trace2_dataset around.dataset_id around.seed)

module _ (rt : Runtime) where
  -- The loop over the lines: the dataset, and whether there was an error.
  unfoldable pub read_loop : List String → Ending → Trace2Dataset → Bool → Go (Trace2Dataset × Bool)
  read_loop [] ending tr2 allow_commands = ret (tr2, is_failure ending)
  read_loop (line ∷ lines) ending tr2 allow_commands = do
    (tr2', e) ← process_raw_line rt line tr2 allow_commands
    elim e [ some _ ↦ ret (tr2', true) | none ↦ read_loop lines ending tr2' allow_commands ]

  -- exportTraces: what ConsumeTraces is called with.
  unfoldable pub export_dataset :
      Emitter → Option FilterSettings → Time → Trace2Dataset → Go (Option Traces)
  export_dataset em settings now tr2 = do
    out ← export_traces rt settings now tr2
    ret (emitted em out)

  unfoldable pub worker : Emitter → Config → Surroundings → Connection → Go (Option Traces)
  unfolding read_loop export_dataset gathered
  worker em cfg around conn = do
    (tr2, have_error) ←
        read_loop conn.lines conn.ending (gathered cfg around) cfg.allow_command_control_verbs
    if have_error then ret none else export_dataset em cfg.filter_settings around.now tr2
