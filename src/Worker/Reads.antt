-- ===== src/Worker/Reads.antt =====
-- A stream that is read through, and what a worker makes of it and of one that is not.
use trace2receiver.Common.{
  ◌≡◌, ◌↔◌, refl, sym, ◌∙◌, ap, String, Bool, true, false, List, [], ◌∷◌, ◌++◌, none, some, inl,
  inr, GoError, ret,
}
use trace2receiver.Common.Panics.{ret-injective}
use trace2receiver.Runtime.{Runtime}
use trace2receiver.Dataset.{Trace2Dataset}
use trace2receiver.Filter.Level.{FilterDetailLevel}
use trace2receiver.Apply.{process_raw_line}
use trace2receiver.Emit.{Traces, to_traces}
use trace2receiver.Emit.Spans.{Emitter}
use trace2receiver.Config.{Config}
use trace2receiver.Worker.{
  Connection, Surroundings, Ending, eof, closed, failed, is_failure, read_loop, gathered,
  export_dataset, worker,
}
use trace2receiver.Worker.Loop.{Go-cases}
use trace2receiver.Worker.Export.{IsExported, worker-IsExported, ready_run}

-- Each line is handled without an error, from the dataset that the line before it leaves.
abbrev pub Reads : Runtime → Bool → List String → Trace2Dataset → Trace2Dataset → Type 0
Reads rt allow [] tr2 last = tr2 ≡ last
Reads rt allow (line ∷ lines) tr2 last =
    (tr2' : Trace2Dataset) × (process_raw_line rt line tr2 allow ≡ ret (tr2', none))
    × Reads rt allow lines tr2' last

-- The stream ends without an error.
abbrev pub IsQuiet : Ending → Type 0
IsQuiet (eof rest) = Unit
IsQuiet closed = Unit
IsQuiet (failed e) = ⊥

is_failure-IsQuiet : (e : Ending) → is_failure e ≡ false → IsQuiet e
is_failure-IsQuiet (eof rest) h = tt
is_failure-IsQuiet closed h = tt
is_failure-IsQuiet (failed e) h = cc

IsQuiet-is_failure : (e : Ending) → IsQuiet e → is_failure e ≡ false
IsQuiet-is_failure (eof rest) h = refl
IsQuiet-is_failure closed h = refl
IsQuiet-is_failure (failed e) h = absurd h

module _ (rt : Runtime) (allow : Bool) (ending : Ending) where
  pub read_loop-Reads :
      (lines : List String) (tr2 last : Trace2Dataset)
      → read_loop rt lines ending tr2 allow ≡ ret (last, false)
      → Reads rt allow lines tr2 last × IsQuiet ending
  unfolding read_loop
  read_loop-Reads [] tr2 last run = (
    ap (λ p. p.0) (ret-injective run),
    is_failure-IsQuiet ending (ap (λ p. p.1) (ret-injective run)),
  )
  read_loop-Reads (line ∷ lines) tr2 last run =
      elim (Go-cases (process_raw_line rt line tr2 allow)) [
        | inl (p, stop) ↦ cc (rw (stop, read_loop) at run)
        | inr ((tr2', none), first) ↦
            let (rest, quiet) = read_loop-Reads lines tr2' last (rw (first, read_loop) at run) in
            ((tr2', first, rest), quiet)
        | inr ((tr2', some e), first) ↦ cc (rw (first, read_loop) at run)
      ]

  Reads-read_loop :
      (lines : List String) (tr2 last : Trace2Dataset)
      → Reads rt allow lines tr2 last
      → IsQuiet ending
      → read_loop rt lines ending tr2 allow ≡ ret (last, false)
  unfolding read_loop
  Reads-read_loop [] tr2 last same quiet =
      rw same (ap (λ b. ret (last, b)) (IsQuiet-is_failure ending quiet))
  Reads-read_loop (line ∷ lines) tr2 last (tr2', first, rest) quiet =
      rw (first, read_loop) (Reads-read_loop lines tr2' last rest quiet)

  -- An error of a line ends the loop, whatever follows.
  Reads-fails :
      (before : List String) (line : String) (after : List String) (tr2 last tr2' : Trace2Dataset)
      (e : GoError)
      → Reads rt allow before tr2 last
      → process_raw_line rt line last allow ≡ ret (tr2', some e)
      → read_loop rt (before ++ line ∷ after) ending tr2 allow ≡ ret (tr2', true)
  unfolding read_loop
  Reads-fails [] line after tr2 last tr2' e same bad = rw (same, read_loop, bad) refl
  Reads-fails (l ∷ before) line after tr2 last tr2' e (next, first, rest) bad =
      rw (first, read_loop) (Reads-fails before line after next last tr2' e rest bad)

module _ (rt : Runtime) (em : Emitter) (cfg : Config) (around : Surroundings)
    (conn : Connection) where
  Reads-worker :
      (tr2 tr2' : Trace2Dataset) (dl : FilterDetailLevel)
      → Reads rt cfg.allow_command_control_verbs conn.lines (gathered cfg around) tr2
      → IsQuiet conn.ending
      → IsExported rt cfg.filter_settings around.now tr2 tr2' dl
      → worker rt em cfg around conn ≡ ret (some (to_traces em tr2' dl))
  unfolding worker export_dataset
  Reads-worker tr2 tr2' dl reads quiet (seen, prepared, level, kept) =
      let read =
        Reads-read_loop rt cfg.allow_command_control_verbs conn.ending conn.lines
          (gathered cfg around) tr2 reads quiet in
      let exported = ready_run rt cfg.filter_settings around.now tr2 tr2' seen prepared in
      rw (read, worker, exported, sym level, kept) refl

  -- A worker exports a trace exactly if every line of its stream is handled without an error, each
  -- from the dataset that the one before it leaves, the stream ends or is closed without an error,
  -- and the trace is that of the dataset left: this dataset has seen data and can be prepared, and
  -- the trace is made of it, prepared, at the level that the settings give it, which is not the level
  -- that drops it.
  pub worker-IsExported_iff :
      (traces : Traces)
      → (worker rt em cfg around conn ≡ ret (some traces)) ↔ (
          (tr2 tr2' : Trace2Dataset) × (dl : FilterDetailLevel) × Reads rt
            cfg.allow_command_control_verbs conn.lines
            (gathered cfg around)
            tr2
          × IsQuiet conn.ending
          × IsExported rt cfg.filter_settings around.now tr2 tr2' dl
          × (to_traces em tr2' dl ≡ traces))
  worker-IsExported_iff traces = (
    (λ run.
        let (tr2, tr2', dl, read, exported, same) =
          worker-IsExported rt em cfg around conn traces run in
        let (reads, quiet) =
          read_loop-Reads rt cfg.allow_command_control_verbs conn.ending conn.lines
            (gathered cfg around) tr2 read in
        (tr2, tr2', dl, reads, quiet, exported, same)),
    (λ (tr2, tr2', dl, reads, quiet, exported, same).
        Reads-worker tr2 tr2' dl reads quiet exported ∙ ap (λ t. ret (some t)) same),
  )

  -- A worker exports nothing from a stream with a line that is an error after lines that are none,
  -- whatever follows that line and however the stream ends, and it returns.
  pub worker-rejects :
      (before : List String) (line : String) (after : List String) (tr2 tr2' : Trace2Dataset)
      (e : GoError)
      → conn.lines ≡ before ++ line ∷ after
      → Reads rt cfg.allow_command_control_verbs before (gathered cfg around) tr2
      → process_raw_line rt line tr2 cfg.allow_command_control_verbs ≡ ret (tr2', some e)
      → worker rt em cfg around conn ≡ ret none
  unfolding worker
  worker-rejects before line after tr2 tr2' e lines reads bad =
      let read =
        Reads-fails rt cfg.allow_command_control_verbs conn.ending before line after
          (gathered cfg around) tr2 tr2' e reads bad in
      rw (lines, worker, read) refl
