-- ===== src/Tests/Workers.antt =====
-- What the theorems say of a short stream and of a dataset inside a region.
use trace2receiver.Prepare.Returns.{AreStrings}
use trace2receiver.Common.{
  sub64, pos, ◌≡◌, ◌↔◌, error_text, lookup, ◌≢◌, refl, true, false, [], ◌∷◌, ◌++◌, none, some, ret,
  panic, nil_deref, All, drop, string_eq, if◌then◌else◌, length, ok,
}
use trace2receiver.Dataset.{Trace2Dataset}
use trace2receiver.Filter.Level.{FilterDetailLevel, verbose, is_drop, summary}
use trace2receiver.Filter.Precedence.{level_spec}
use trace2receiver.Nesting.{IsWellNested}
use trace2receiver.Linked.{IsLinked}
use trace2receiver.Linked.Events.{evt_apply-IsLinked}
use trace2receiver.Prepare.{prepare_dataset}
use trace2receiver.Emit.{to_traces}
use trace2receiver.Emit.Parents.{HasParent, prepare_dataset-to_traces-HasParent}
use trace2receiver.Worker.{Connection, eof, gathered, worker}
use trace2receiver.Worker.Export.{IsExported, worker-exports}
use trace2receiver.Worker.Reads.{
  Reads, IsQuiet, read_loop-Reads, worker-IsExported_iff, worker-rejects,
}
use trace2receiver.Apply.{process_raw_line}
use trace2receiver.Parse.{parse_json}
use trace2receiver.Parse.Line.{evt_parse, parse_trimmed, is_ignored, first_byte}
use trace2receiver.Common.Text.{trim_space}
use trace2receiver.Worker.Tree.{worker-HasParent}
use trace2receiver.Worker.Safety.{worker-ne-nil_deref}
use trace2receiver.Tests.{test_rt, fresh, enter_event, inside, prepared}
use trace2receiver.Tests.Events.{enter_run, prepare_run, not_version}
use trace2receiver.Emit.Levels.{visible, span_count, to_traces-visible, length-to_traces}
use trace2receiver.Pii.Gather.{asked_for}
use trace2receiver.Worker.Privacy.{worker-asked_for}
use trace2receiver.Tests.Streams.{
  test_em, stream_rt, conn, verbose_settings, cfg, around, left, sent, read_whole, worker_run,
  later, idle,
}

evt_apply-IsLinked_example : IsLinked inside
evt_apply-IsLinked_example =
    evt_apply-IsLinked test_rt fresh inside enter_event none
      (λ version. absurd (not_version version)) (tt, tt) ((tt, tt, tt), tt) enter_run

inside_nested : IsWellNested inside
unfolding sub64
inside_nested = ((refl, refl, refl, tt), tt)

prepare_dataset-to_traces-HasParent_example :
    All
      (HasParent (to_traces test_em prepared verbose).spans)
      (drop 1 (to_traces test_em prepared verbose).spans)
prepare_dataset-to_traces-HasParent_example =
    prepare_dataset-to_traces-HasParent test_rt test_em (pos 90) inside prepared verbose
      inside_nested ((tt, tt, tt), tt) tt prepare_run

stream_strings : AreStrings left.process.cmd_argv
stream_strings = (("git", refl), (("gc", refl), tt))

worker-exports_example :
    (tr2' : Trace2Dataset) × (prepare_dataset stream_rt (pos 90) left ≡ ret (true, tr2'))
    × (worker stream_rt test_em cfg around conn
        ≡ ret (
            let dl =
              level_spec
                (some verbose_settings)
                tr2'.process.param_set_values
                tr2'.process.qualified_names in
            if is_drop dl then none else some (to_traces test_em tr2' dl)))
worker-exports_example =
    worker-exports stream_rt test_em cfg around conn left read_whole refl refl stream_strings

worker-IsExported_iff_example :
    (worker stream_rt test_em cfg around conn ≡ ret (some (to_traces test_em sent verbose))) ↔ (
      (tr2 tr2' : Trace2Dataset) × (dl : FilterDetailLevel) × Reads stream_rt false conn.lines
        (gathered cfg around)
        tr2
      × IsQuiet conn.ending
      × IsExported stream_rt (some verbose_settings) (pos 90) tr2 tr2' dl
      × (to_traces test_em tr2' dl ≡ to_traces test_em sent verbose))
worker-IsExported_iff_example =
    worker-IsExported_iff stream_rt test_em cfg around conn (to_traces test_em sent verbose)

-- A line that is no object behind the lines of the stream, and one more line.
abbrev broken : Connection
broken = record { lines = conn.lines ++ "{x}\n" ∷ "{v}\n" ∷ []; ending = eof "" }

broken_run :
    process_raw_line stream_rt "{x}\n" left false ≡ ret (left, some (error_text "no object"))
unfolding process_raw_line evt_parse parse_trimmed is_ignored first_byte parse_json trim_space
    lookup
broken_run = refl

worker-rejects_example : worker stream_rt test_em cfg around broken ≡ ret none
worker-rejects_example =
    worker-rejects stream_rt test_em cfg around broken conn.lines "{x}\n" ("{v}\n" ∷ []) left left
      (error_text "no object") refl
      ((read_loop-Reads stream_rt false conn.ending conn.lines (gathered cfg around) left
        read_whole).0)
      broken_run

worker-ne-nil_deref_example : worker stream_rt test_em cfg around conn ≢ panic nil_deref
worker-ne-nil_deref_example = worker-ne-nil_deref stream_rt test_em cfg around conn

worker-HasParent_example :
    All
      (HasParent (to_traces test_em sent verbose).spans)
      (drop 1 (to_traces test_em sent verbose).spans)
worker-HasParent_example =
    worker-HasParent stream_rt test_em cfg around conn (to_traces test_em sent verbose) later idle
      worker_run

to_traces-visible_example :
    to_traces test_em sent summary ≡ to_traces test_em (visible summary sent) summary
to_traces-visible_example = to_traces-visible test_em sent summary

length-to_traces_example :
    length (to_traces test_em sent verbose).spans ≡ span_count test_em sent verbose
length-to_traces_example = length-to_traces test_em sent verbose

worker-asked_for_example :
    (tr2 : Trace2Dataset) × (dl : FilterDetailLevel) × (tr2.pii ≡ asked_for none (ok "h") (ok "u"))
    × (to_traces test_em tr2 dl ≡ to_traces test_em sent verbose)
worker-asked_for_example =
    worker-asked_for stream_rt test_em cfg around conn (to_traces test_em sent verbose) worker_run
