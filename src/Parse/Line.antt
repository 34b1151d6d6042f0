-- ===== src/Parse/Line.antt =====
-- `evt_parse` and `do_command_verb` of evt_parse.go: what a line of a client's stream is read as.
use Prim.Native.Char.{Char}
use Prim.Native.String.{String, [], ◌∷◌}
use trace2receiver.Common.{
  Bool, true, Option, none, some, string_eq, ◌==◌, if◌then◌else◌, Result, ok, err, GoError, Go, ret,
  panic, index_out_of_range,
}
use trace2receiver.Common.Panics.{◌>>=◌}
use trace2receiver.Common.Text.{trim_space, cut_prefix, is_code}
use trace2receiver.Event.{TrEvent}
use trace2receiver.Runtime.{Runtime}
use trace2receiver.Parse.{parse_json}

-- The error of a command, if it has one. cmd stands behind the prefix "cc: "; no verb is known yet,
-- and each is only logged.
unfoldable pub do_command_verb : String → Option GoError
do_command_verb cmd = none

-- `trimmed[0]`
unfoldable pub first_byte : String → Go Char
first_byte [] = panic index_out_of_range
first_byte (c ∷ s) = ret c

-- `len(trimmed) == 0 || trimmed[0] == '#'`, of which the second is read only where the first fails.
-- Without the log, a comment is told from other text that is no event by nothing that follows.
unfoldable pub is_ignored : String → Go Bool
unfolding first_byte
is_ignored trimmed =
    if trimmed == "" then ret true else (do c ← first_byte trimmed; ret (is_code b'#' c))

-- (nil, err), for a line without an event.
abbrev pub no_event : Option GoError → Result (Option TrEvent)
no_event none = ok none
no_event (some e) = err e

abbrev pub some_event : Result TrEvent → Result (Option TrEvent)
some_event (err e) = err e
some_event (ok evt) = ok (some evt)

-- A line that is neither empty nor a comment nor an event.
unfoldable pub parse_command : String → Bool → Result (Option TrEvent)
unfolding do_command_verb
parse_command trimmed allow_commands = elim (cut_prefix trimmed "cc: ") [
  | some cmd ↦ if allow_commands then no_event (do_command_verb cmd) else ok none
  | none ↦ ok none
]

module _ (rt : Runtime) where
  -- The rest of evt_parse, behind bytes.TrimSpace. `ok none` is (nil, nil): a line without an event.
  unfoldable pub parse_trimmed : String → Bool → Go (Result (Option TrEvent))
  unfolding is_ignored first_byte parse_command
  parse_trimmed trimmed allow_commands = do
    ignored ← is_ignored trimmed
    if ignored then ret (ok none) else (do
      c ← first_byte trimmed
      ret (
          if is_code b'{' c
          then some_event (parse_json rt trimmed)
          else parse_command trimmed allow_commands))

  unfoldable pub evt_parse : String → Bool → Go (Result (Option TrEvent))
  unfolding parse_trimmed
  evt_parse raw_line allow_commands = parse_trimmed (trim_space raw_line) allow_commands
