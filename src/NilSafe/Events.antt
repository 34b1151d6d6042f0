-- ===== src/NilSafe/Events.antt =====
-- Whatever object a client sends, the event that the parser makes of it is applied without a nil
-- pointer being followed.
use mathlib.Core.Path.{subst}
use trace2receiver.Common.{
  ◌≡◌, ◌≢◌, sym, refl, String, none, Option-cases, inl, inr, lookup, lookup-All, string_eq, ok,
  panic, nil_deref,
}
use trace2receiver.Common.Fallible.{>>=-eq-ok, ok-injective}
use trace2receiver.Json.{Jmap}
use trace2receiver.Runtime.{Runtime}
use trace2receiver.Event.{TrEvent, new_event}
use trace2receiver.Dataset.{Trace2Dataset}
use trace2receiver.Extract.{extract_keys_common}
use trace2receiver.Parse.{ekm, run_extractor, parse_jmap, parse_json}
use trace2receiver.Apply.Effect.{Outcome-panic}
use trace2receiver.Apply.{applymap, run_apply, evt_apply}
use trace2receiver.NilSafe.{NilSafe}
use trace2receiver.NilSafe.Entry.{Entry}
use trace2receiver.NilSafe.Entries.{ekm_entries, ekm_covers_applymap}

not_applied :
    (rt : Runtime) (event : String)
    → lookup event (ekm rt) ≡ none
    → lookup event (applymap rt) ≡ none
not_applied rt event unknown = elim (Option-cases (lookup event (applymap rt))) [
  | inl missing ↦ missing
  | inr (afn, found) ↦ absurd (
      lookup-All (λ k f. lookup k (ekm rt) ≢ none) event (applymap rt) (ekm_covers_applymap rt)
        found unknown)
]

module _ (rt : Runtime) where
  run_extractor_safe :
      (evt0 : TrEvent) (jm : Jmap) {evt : TrEvent}
      → run_extractor rt (lookup evt0.mf_event (ekm rt)) evt0 jm ≡ ok evt
      → (tr2 : Trace2Dataset) → NilSafe (evt_apply rt tr2 evt)
  unfolding run_extractor evt_apply
  run_extractor_safe evt0 jm {evt} run tr2 = elim (Option-cases (lookup evt0.mf_event (ekm rt))) [
    | inl unknown ↦
        let same : evt0 ≡ evt = ok-injective (rw unknown at run) in
        let ignored : lookup evt.mf_event (applymap rt) ≡ none =
          subst (λ e. lookup e.mf_event (applymap rt) ≡ none) same
            (not_applied rt evt0.mf_event unknown) in
        rw (ignored, evt_apply) tt
    | inr (ekfn, found) ↦
        let (event, safe) =
          lookup-All (Entry rt) evt0.mf_event (ekm rt) (ekm_entries rt) found evt0 jm evt
            (rw found at run) in
        subst (λ k. NilSafe (run_apply rt (lookup k (applymap rt)) tr2 evt)) (sym event) (safe tr2)
  ]

  parse_jmap_safe :
      (jm : Jmap) {evt : TrEvent}
      → parse_jmap rt jm ≡ ok evt
      → (tr2 : Trace2Dataset) → NilSafe (evt_apply rt tr2 evt)
  unfolding parse_jmap
  parse_jmap_safe jm h tr2 =
      let (evt0, common, run) = >>=-eq-ok (extract_keys_common rt new_event jm) _ h in
      run_extractor_safe evt0 jm run tr2

  -- The event that the parser makes of a line is applied without a nil pointer being followed.
  pub evt_apply-parse_json-ne-nil_deref :
      (line : String) (evt : TrEvent) (tr2 : Trace2Dataset)
      → parse_json rt line ≡ ok evt
      → evt_apply rt tr2 evt ≢ panic nil_deref
  unfolding parse_json
  evt_apply-parse_json-ne-nil_deref line evt tr2 h run =
      let (jm, decoded, parsed) = >>=-eq-ok (rt.unmarshal line) _ h in
      Outcome-panic (λ d e. Unit) (λ p. p ≢ nil_deref) (evt_apply rt tr2 evt)
        (parse_jmap_safe jm parsed tr2) run refl
