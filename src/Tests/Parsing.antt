-- ===== src/Tests/Parsing.antt =====
-- Lines and SIDs.
use trace2receiver.Common.{
  ◌≢◌, ◌≡◌, panic, nil_deref, ok, none, some, ret, false, ◌<>◌, refl, ℕ, List,
}
use trace2receiver.Common.Text.{trim_space, cut_prefix}
use trace2receiver.Apply.{process_raw_line}
use trace2receiver.Apply.Process.{extract_ids_from_sid, span_bits}
use trace2receiver.Apply.Sids.{extract_ids_from_sid-child}
use trace2receiver.Parse.{parse_json}
use trace2receiver.Parse.Line.{some_event, evt_parse}
use trace2receiver.Runtime.{SpanId}
use trace2receiver.Lines.{process_raw_line-ne-nil_deref, evt_parse_lem}
use trace2receiver.Tests.{test_rt, fresh}

process_raw_line-ne-nil_deref_example :
    process_raw_line test_rt " {\"event\":\"start\"}" fresh false ≢ panic nil_deref
process_raw_line-ne-nil_deref_example =
    process_raw_line-ne-nil_deref test_rt " {\"event\":\"start\"}" fresh false

evt_parse_lem_example :
    evt_parse test_rt " {\"event\":\"start\"}" false
    ≡ ret (elim (cut_prefix (trim_space " {\"event\":\"start\"}") "{") [
      | none ↦ ok none
      | some _ ↦ some_event (parse_json test_rt (trim_space " {\"event\":\"start\"}"))
    ])
evt_parse_lem_example = evt_parse_lem test_rt " {\"event\":\"start\"}" false

extract_ids_from_sid-child_example :
    (tid : List ℕ) × (spid : SpanId) × (parent : SpanId) × (extract_ids_from_sid test_rt "a/b"
      ≡ ret (tid, spid, parent))
    × (extract_ids_from_sid test_rt ("a/b" <> "/" <> "c")
        ≡ ret (tid, span_bits (test_rt.sha256 "c"), spid))
extract_ids_from_sid-child_example = extract_ids_from_sid-child test_rt "a/b" "c" (refl, tt)
