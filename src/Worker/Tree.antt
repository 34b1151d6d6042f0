-- ===== src/Worker/Tree.antt =====
-- The parents of the spans of the trace that a worker exports.
use mathlib.Core.Path.{subst}
use trace2receiver.Common.{
  ◌≡◌, ◌≢◌, refl, sym, ◌∙◌, ap, String, Bool, false, [], ◌∷◌, Option, none, some, inl, inr, GoError,
  ok, ret, All, drop,
}
use trace2receiver.Common.Panics.{ret-injective}
use trace2receiver.Common.Text.{trim_space}
use trace2receiver.Runtime.{Runtime}
use trace2receiver.Event.{TrEvent}
use trace2receiver.Parse.{parse_json}
use trace2receiver.Dataset.{Trace2Dataset, new_trace2_dataset}
use trace2receiver.Apply.{process_raw_line}
use trace2receiver.Lines.{process_raw_line-cases}
use trace2receiver.Nesting.{IsWellNested}
use trace2receiver.Nesting.Events.{evt_apply-IsWellNested}
use trace2receiver.Linked.{IsFresh, IsLinked}
use trace2receiver.Linked.Events.{evt_apply-IsLinked}
use trace2receiver.Linked.Prepare.{AreIdle}
use trace2receiver.Emit.{Traces}
use trace2receiver.Emit.Spans.{Emitter}
use trace2receiver.Emit.Parents.{HasParent, prepare_dataset-to_traces-HasParent}
use trace2receiver.Pii.Gather.{pii_gather-asked_for}
use trace2receiver.Config.{Config}
use trace2receiver.Worker.{Connection, Surroundings, read_loop, gathered, worker}
use trace2receiver.Worker.Loop.{read_loop_ind, Go-cases}
use trace2receiver.Worker.Export.{worker-IsExported}

abbrev IsTree : Trace2Dataset → Type 0
IsTree tr2 = IsWellNested tr2 × IsLinked tr2

-- The line is not that of a version event.
abbrev pub IsNoVersion : Runtime → String → Type 0
IsNoVersion rt line =
    (evt : TrEvent) → parse_json rt (trim_space line) ≡ ok evt → evt.mf_event ≢ "version"

module _ (rt : Runtime) where
  process_raw_line-IsTree :
      (allow : Bool) (line : String) (tr2 tr2' : Trace2Dataset) (e : Option GoError)
      → ((evt : TrEvent)
          → parse_json rt (trim_space line) ≡ ok evt
          → evt.mf_event ≡ "version"
          → IsFresh tr2)
      → IsTree tr2
      → process_raw_line rt line tr2 allow ≡ ret (tr2', e)
      → IsTree tr2'
  process_raw_line-IsTree allow line tr2 tr2' e first h run =
      elim (process_raw_line-cases rt line tr2 allow) [
        | inl ignored ↦ subst IsTree (ap (λ p. p.0) (ret-injective (sym ignored ∙ run))) h
        | inr (inl (bad, failed, kept)) ↦
            subst IsTree (ap (λ p. p.0) (ret-injective (sym kept ∙ run))) h
        | inr (inr (evt, read, applied)) ↦
            let seen = record tr2 { saw_data = Bool.true } in
            let done = sym applied ∙ run in
            (
              evt_apply-IsWellNested rt seen tr2' evt e (λ version. (first evt read version).0) h.0
                  done,
              evt_apply-IsLinked rt seen tr2' evt e (first evt read) h.0 h.1 done,
            )
      ]

  -- A new dataset, and what the first line makes of it.
  read_loop-IsTree :
      (allow : Bool) (conn : Connection) (tr2 : Trace2Dataset) {out : Trace2Dataset × Bool}
      → All (IsNoVersion rt) (drop 1 conn.lines)
      → IsFresh tr2
      → IsTree tr2
      → read_loop rt conn.lines conn.ending tr2 allow ≡ ret out
      → IsTree out.0
  unfolding read_loop
  read_loop-IsTree allow conn tr2 {out} later fresh h run =
      elim (conn.lines)
          as (λ l.
            All (IsNoVersion rt) (drop 1 l)
            → read_loop rt l conn.ending tr2 allow ≡ ret out
            → IsTree out.0) [
              | [] ↦ λ later run.
                  subst (λ (o : Trace2Dataset × Bool). IsTree o.0) (ret-injective run) h
              | line ∷ lines ↦ λ later run. elim (Go-cases (process_raw_line rt line tr2 allow)) [
                | inl (p, stop) ↦ cc (rw (stop, read_loop) at run)
                | inr ((tr2', none), first) ↦
                    read_loop_ind rt (IsNoVersion rt) IsTree allow
                      (λ l d d' e no k step.
                        process_raw_line-IsTree allow l d d' e
                          (λ evt read version. absurd (no evt read version)) k step)
                      lines conn.ending tr2' later
                      (process_raw_line-IsTree allow line tr2 tr2' none (λ evt read version. fresh)
                        h first)
                      (rw (first, read_loop) at run)
                | inr ((tr2', some e), first) ↦
                    subst (λ (o : Trace2Dataset × Bool). IsTree o.0)
                      (ret-injective (rw (first, read_loop) at run))
                      (process_raw_line-IsTree allow line tr2 tr2' (some e)
                        (λ evt read version. fresh) h first)
              ]
            ]
        later run

-- Nothing but the names of the host and the user is in a dataset at its start.
gathered-IsFresh :
    (cfg : Config) (around : Surroundings)
    → IsFresh (gathered cfg around) × IsTree (gathered cfg around)
unfolding gathered new_trace2_dataset
gathered-IsFresh cfg around =
    let new = new_trace2_dataset around.dataset_id around.seed in
    subst (λ d. IsFresh d × IsTree d)
      (sym (pii_gather-asked_for cfg.pii_settings around.host around.user new refl))
      ((refl, refl, refl, refl, refl), ((tt, tt), ((tt, tt, tt), tt)))

-- If only the first line of a connection can be a version event, and at the end of the stream no
-- thread that has ended has an open region, then in what a worker exports the parent of every span
-- but the first, which is that of the process, is a span of the same trace.
pub worker-HasParent :
    (rt : Runtime) (em : Emitter) (cfg : Config) (around : Surroundings) (conn : Connection)
    (traces : Traces)
    → All (IsNoVersion rt) (drop 1 conn.lines)
    → ((tr2 : Trace2Dataset)
        → read_loop rt conn.lines conn.ending (gathered cfg around) cfg.allow_command_control_verbs
          ≡ ret (tr2, false)
        → AreIdle tr2)
    → worker rt em cfg around conn ≡ ret (some traces)
    → All (HasParent traces.spans) (drop 1 traces.spans)
worker-HasParent rt em cfg around conn traces later idle run =
    let (tr2, tr2', dl, read, exported, same) =
      worker-IsExported rt em cfg around conn traces run in
    let (fresh, start) = gathered-IsFresh cfg around in
    let tree =
      read_loop-IsTree rt cfg.allow_command_control_verbs conn (gathered cfg around) later fresh
        start read in
    subst (λ (t : Traces). All (HasParent t.spans) (drop 1 t.spans)) same
      (prepare_dataset-to_traces-HasParent rt em around.now tr2 tr2' dl tree.0 tree.1
        (idle tr2 read) exported.1)
