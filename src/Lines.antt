-- ===== src/Lines.antt =====
-- The lines of a client's stream: which of them have an effect on the dataset, and what a run of
-- `processRawLine` of evt_parse.go comes to.
use Prim.Native.Char.{Char}
use Prim.Native.String.{[], ◌∷◌}
use trace2receiver.Common.{
  ◌≡◌, ◌≢◌, refl, sym, ◌∙◌, true, false, arith, String, Bool, none, some, Option-cases, inl, inr,
  ok, err, ret, panic, nil_deref, string_eq, ◌==◌, ◌⊎◌, GoError, Bool-cases, eq_iff,
}
use trace2receiver.Common.Fallible.{Result-cases}
use trace2receiver.Common.Text.{trim_space, cut_prefix, is_code}
use trace2receiver.Runtime.{Runtime}
use trace2receiver.Event.{TrEvent}
use trace2receiver.Parse.{parse_json}
use trace2receiver.Parse.Line.{
  some_event, evt_parse, parse_trimmed, is_ignored, first_byte, parse_command, do_command_verb,
}
use trace2receiver.Dataset.{Trace2Dataset}
use trace2receiver.Apply.{evt_apply, process_raw_line}
use trace2receiver.Apply.Effect.{done}
use trace2receiver.NilSafe.Events.{evt_apply-parse_json-ne-nil_deref}

is_ignored_lem : (c : Char) (s : String) → is_ignored (c ∷ s) ≡ ret (is_code b'#' c)
unfolding is_ignored first_byte
is_ignored_lem c s = elim (Bool-cases ((c ∷ s) == "")) [
  | inl empty ↦ cc ((eq_iff (c ∷ s) "").0 empty)
  | inr text ↦ rw (text, is_ignored) refl
]

-- No command has an effect, and none is an error.
parse_command_lem :
    (trimmed : String) (allow_commands : Bool) → parse_command trimmed allow_commands ≡ ok none
unfolding parse_command do_command_verb
parse_command_lem trimmed allow_commands = ground arith

-- No character is both a brace and the sign of a comment.
brace-ne-hash : (c : Char) → is_code b'{' c ≡ true → is_code b'#' c ≡ false
brace-ne-hash c h = ground arith

module _ (rt : Runtime) where
  parse_trimmed_lem :
      (trimmed : String) (allow_commands : Bool)
      → parse_trimmed rt trimmed allow_commands
        ≡ ret (elim (cut_prefix trimmed "{") [
          | none ↦ ok none
          | some _ ↦ some_event (parse_json rt trimmed)
        ])
  unfolding parse_trimmed is_ignored first_byte cut_prefix
  parse_trimmed_lem [] allow_commands = refl
  parse_trimmed_lem (c ∷ s) allow_commands = elim (Bool-cases (is_code b'{' c)) [
    | inl brace ↦ rw (is_ignored_lem c s, parse_trimmed, brace-ne-hash c brace, brace) refl
    | inr other ↦ elim (Bool-cases (is_code b'#' c)) [
      | inl hash ↦ rw (is_ignored_lem c s, parse_trimmed, hash, other) refl
      | inr text ↦
          rw
            (
              is_ignored_lem c s,
              parse_trimmed,
              text,
              other,
              parse_command_lem (c ∷ s) allow_commands,
            )
            refl
    ]
  ]

  -- Reading a line never panics, and it gives an event exactly if the line begins with a brace,
  -- behind white space, and what it holds is parsed. A line that is empty or begins with anything
  -- else gives neither an event nor an error, whether commands are allowed or not.
  pub evt_parse_lem :
      (raw_line : String) (allow_commands : Bool)
      → evt_parse rt raw_line allow_commands
        ≡ ret (elim (cut_prefix (trim_space raw_line) "{") [
          | none ↦ ok none
          | some _ ↦ some_event (parse_json rt (trim_space raw_line))
        ])
  unfolding evt_parse
  evt_parse_lem raw_line allow_commands = parse_trimmed_lem (trim_space raw_line) allow_commands

  abbrev seen : Trace2Dataset → Trace2Dataset
  seen tr2 = record tr2 { saw_data = true }

  -- The three ways a line goes: no effect, an error that leaves the dataset, an event.
  pub process_raw_line-cases :
      (line : String) (tr2 : Trace2Dataset) (allow_commands : Bool)
      → let run = process_raw_line rt line tr2 allow_commands in
        (run ≡ done tr2)
        ⊎ ((e : GoError) × (parse_json rt (trim_space line) ≡ err e) × (run ≡ ret (tr2, some e)))
        ⊎ ((evt : TrEvent) × (parse_json rt (trim_space line) ≡ ok evt)
            × (run ≡ evt_apply rt (seen tr2) evt))
  unfolding process_raw_line
  process_raw_line-cases line tr2 allow_commands =
      let parsed = evt_parse_lem line allow_commands in
      elim (Option-cases (cut_prefix (trim_space line) "{")) [
        | inl other ↦ inl (rw (parsed, other, process_raw_line) refl)
        | inr (tail, brace) ↦ elim (Result-cases (parse_json rt (trim_space line))) [
          | inl (e, failed) ↦
              inr (inl (e, failed, rw (parsed, brace, failed, process_raw_line) refl))
          | inr (evt, read) ↦ inr (inr (evt, read, rw (parsed, brace, read, process_raw_line) refl))
        ]
      ]

  -- Whatever line a client sends, and whatever was sent before, handling the line follows no nil
  -- pointer: an event that the parser accepts has every part that its handler reads.
  pub process_raw_line-ne-nil_deref :
      (line : String) (tr2 : Trace2Dataset) (allow_commands : Bool)
      → process_raw_line rt line tr2 allow_commands ≢ panic nil_deref
  process_raw_line-ne-nil_deref line tr2 allow_commands bad =
      elim (process_raw_line-cases line tr2 allow_commands) [
        | inl ignored ↦ cc
        | inr (inl (e, failed, run)) ↦ cc
        | inr (inr (evt, read, run)) ↦
            evt_apply-parse_json-ne-nil_deref rt (trim_space line) evt (seen tr2) read
              (sym run ∙ bad)
      ]
