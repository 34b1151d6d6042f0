-- ===== src/Apply/Process/Params.antt =====
-- The configuration parameters that a client reports, over a sequence of def_param events.
use trace2receiver.Common.{
  ℕ, ◌≡◌, refl, sym, ◌∙◌, ap, arith, String, List, [], ◌∷◌, Option, none, some, leb, lookup, insert,
  lookup-insert, string_eq, eq_iff, ◌==◌, if◌then◌else◌, Bool-cases, Option-cases, inl, inr, Go,
  ret,
}
use trace2receiver.Common.Panics.{◌>>=◌}
use trace2receiver.Event.{TrEventDefParam, new_event}
use trace2receiver.Dataset.{Trace2Dataset}
use trace2receiver.Apply.Process.{apply_def_param, get_scope_priority, keeps_value}

abbrev pub priority : TrEventDefParam → ℕ
priority p = get_scope_priority p.pmf_scope

-- The events, one after the other.
abbrev pub report : List TrEventDefParam → Trace2Dataset → Go Trace2Dataset
report [] tr2 = ret tr2
report (p ∷ ps) tr2 = do
  (tr2', e) ← apply_def_param tr2 (record new_event { pm_def_param = some p })
  report ps tr2'

-- Of the reports of a parameter, the first one of the greatest priority.
abbrev pub prefer : TrEventDefParam → Option TrEventDefParam → TrEventDefParam
prefer p none = p
prefer p (some q) = if leb (priority q) (priority p) then p else q

abbrev pub winner : String → List TrEventDefParam → Option TrEventDefParam
winner key [] = none
winner key (p ∷ ps) = if p.mf_param == key then some (prefer p (winner key ps)) else winner key ps

-- The value and the priority of a parameter, as the dataset holds them.
abbrev Held : Type 0
Held = Option String × Option ℕ

abbrev held : String → Trace2Dataset → Held
held key tr2 =
    (lookup key tr2.process.param_set_values, lookup key tr2.process.param_set_priorities)

abbrev offer : Held → TrEventDefParam → Held
offer (v, c) p =
    if keeps_value v c (priority p) then (v, c) else (some p.mf_value, some (priority p))

abbrev offer_winner : Held → Option TrEventDefParam → Held
offer_winner h none = h
offer_winner h (some q) = offer h q

offer-prefer :
    (h : Held) (p : TrEventDefParam) (o : Option TrEventDefParam)
    → offer_winner (offer h p) o ≡ offer h (prefer p o)
offer-prefer (none, c) p none = refl
offer-prefer (some v, none) p none = refl
offer-prefer (some v, some c) p none = refl
offer-prefer (none, c) p (some q) = ground arith
offer-prefer (some v, none) p (some q) = ground arith
offer-prefer (some v, some c) p (some q) = ground arith

report_one :
    (key : String) (p : TrEventDefParam) (tr2 : Trace2Dataset)
    → (tr2' : Trace2Dataset) × (apply_def_param tr2 (record new_event { pm_def_param = some p })
        ≡ ret (tr2', none))
      × (held key tr2' ≡ (if p.mf_param == key then offer (held key tr2) p else held key tr2))
unfolding apply_def_param
report_one key p tr2 =
    let values = tr2.process.param_set_values in
    let priorities = tr2.process.param_set_priorities in
    let keep = keeps_value (lookup p.mf_param values) (lookup p.mf_param priorities) (priority p) in
    elim (Bool-cases keep) [
      | inl kept ↦ (
        tr2,
        rw (kept, apply_def_param) refl,
        elim (Bool-cases (p.mf_param == key)) [
          | inl same ↦ rw same (rw (sym ((eq_iff p.mf_param key).0 same), kept) refl)
          | inr other ↦ rw other refl
        ],
      )
      | inr new ↦ (
        record tr2 {
          process = record tr2.process {
            param_set_values = insert p.mf_param p.mf_value values;
            param_set_priorities = insert p.mf_param (priority p) priorities;
          };
        },
        rw (new, apply_def_param) refl,
        rw
            (
              lookup-insert p.mf_param key p.mf_value values,
              lookup-insert p.mf_param key (priority p) priorities,
            )
            (elim (Bool-cases (p.mf_param == key)) [
              | inl same ↦ rw same (rw (sym ((eq_iff p.mf_param key).0 same), new) refl)
              | inr other ↦ rw other refl
            ]),
      )
    ]

report_lem :
    (key : String) (ps : List TrEventDefParam) (tr2 : Trace2Dataset)
    → (tr2' : Trace2Dataset) × (report ps tr2 ≡ ret tr2')
      × (held key tr2' ≡ offer_winner (held key tr2) (winner key ps))
report_lem key [] tr2 = (tr2, refl, refl)
report_lem key (p ∷ ps) tr2 =
    let (tr2', one, step) = report_one key p tr2 in
    let (last, more, rest) = report_lem key ps tr2' in
    (
      last,
      rw one more,
      elim (Bool-cases (p.mf_param == key)) [
        | inl same ↦
            let stepped : held key tr2' ≡ offer (held key tr2) p = rw same at step in
            rw same (
              rest
              ∙ ap (λ h. offer_winner h (winner key ps)) stepped
              ∙ offer-prefer (held key tr2) p (winner key ps))
        | inr other ↦
            let stepped : held key tr2' ≡ held key tr2 = rw other at step in
            rw other (rest ∙ ap (λ h. offer_winner h (winner key ps)) stepped)
      ],
    )

-- The parameters that a client reports, in any number and order, on a dataset without a value for a
-- name: all events are handled without a panic, and the name gets the value of the first report of
-- the greatest priority among its reports, or none where it has no report.
pub report-winner :
    (key : String) (ps : List TrEventDefParam) (tr2 : Trace2Dataset)
    → lookup key tr2.process.param_set_values ≡ none
    → (tr2' : Trace2Dataset) × (report ps tr2 ≡ ret tr2')
      × (lookup key tr2'.process.param_set_values
          ≡ elim (winner key ps) [ none ↦ none | some p ↦ some p.mf_value ])
report-winner key ps tr2 absent =
    let (tr2', run, same) = report_lem key ps tr2 in
    (
      tr2',
      run,
      ap (λ h. h.0) same ∙ elim (Option-cases (winner key ps)) [
        | inl missing ↦ rw (missing, absent) refl
        | inr (p, won) ↦ rw (won, absent) refl
      ],
    )
