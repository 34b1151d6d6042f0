-- ===== src/Filter/Rules.antt =====
-- trace2ruleset.go: the detail level of a command. The lookups return the name that they found and
-- the debug text so far.
use trace2receiver.Common.{
  String, ◌<>◌, Option, none, some, Dict, lookup, string_eq, ◌==◌, if◌then◌else◌,
}
use trace2receiver.Dataset.{QualifiedNames}
use trace2receiver.Filter.Level.{FilterDetailLevel, get_detail_level, default_name}
use trace2receiver.Filter.Settings.{RulesetDefinition, FilterSettings}

unfoldable pub debug_describe : String → String → String → String
debug_describe base lval rval =
    if base == ""
    then "[" <> lval <> " -> " <> rval <> "]"
    else base <> "/[" <> lval <> " -> " <> rval <> "]"

-- A value that is there and not empty.
abbrev pub non_empty : Option String → Option String
non_empty none = none
non_empty (some s) = if s == "" then none else some s

abbrev Found : Type 0
Found = Option String × String

unfoldable pub lookup_ruleset_name_by_ruleset_key :
    FilterSettings → Dict String String → String → Found
lookup_ruleset_name_by_ruleset_key fs params debug =
    if fs.ruleset_key == ""
    then (none, debug)
    else elim (non_empty (lookup fs.ruleset_key params)) [
      | none ↦ (none, debug)
      | some name ↦ (some name, debug_describe debug "rskey" name)
    ]

unfoldable pub lookup_ruleset_name_by_nickname :
    FilterSettings → Dict String String → String → Found
lookup_ruleset_name_by_nickname fs params debug =
    if fs.nickname_key == ""
    then (none, debug)
    else elim (non_empty (lookup fs.nickname_key params)) [
      | none ↦ (none, debug)
      | some nick ↦
          let seen = debug_describe debug "nickname" nick in
          elim (non_empty (lookup nick fs.nicknames)) [
            | none ↦ (none, debug_describe seen nick "UNKNOWN")
            | some name ↦ (some name, debug_describe seen nick name)
          ]
    ]

unfoldable pub lookup_default_ruleset_name : FilterSettings → String → Found
lookup_default_ruleset_name fs debug =
    if fs.ruleset_name == ""
    then (none, debug)
    else (some fs.ruleset_name, debug_describe debug "default-ruleset" fs.ruleset_name)

abbrev or_else : Found → (String → Found) → Found
or_else (some name, debug) next = (some name, debug)
or_else (none, debug) next = next debug

-- The ruleset key goes before the nickname, and that before the default.
unfoldable pub lookup_ruleset_name : FilterSettings → Dict String String → String → Found
unfolding lookup_ruleset_name_by_ruleset_key lookup_ruleset_name_by_nickname
    lookup_default_ruleset_name
lookup_ruleset_name fs params debug =
    or_else (lookup_ruleset_name_by_ruleset_key fs params debug) λ debug1.
      or_else (lookup_ruleset_name_by_nickname fs params debug1)
        λ debug2. lookup_default_ruleset_name fs debug2

unfoldable pub use_builtin_default_detail_level : String → FilterDetailLevel × String
unfolding get_detail_level
use_builtin_default_detail_level debug =
    ((get_detail_level default_name).0, debug_describe debug "builtin-default" default_name)

unfoldable pub use_ruleset_default_detail_level :
    RulesetDefinition → String → FilterDetailLevel × String
use_ruleset_default_detail_level rsdef debug = (
  (get_detail_level rsdef.detail_level_name).0,
  debug_describe debug "ruleset-default" rsdef.detail_level_name,
)

-- The most specific entry: with verb and mode, with verb, the command alone.
unfoldable pub lookup_command_detail_level_name :
    RulesetDefinition → QualifiedNames → String → Found
lookup_command_detail_level_name rsdef qn debug = elim (lookup qn.exe_verb_mode rsdef.commands) [
  | some dl ↦ (some dl, debug_describe debug qn.exe_verb_mode dl)
  | none ↦ elim (lookup qn.exe_verb rsdef.commands) [
    | some dl ↦ (some dl, debug_describe debug qn.exe_verb dl)
    | none ↦ elim (lookup qn.exe rsdef.commands) [
      | some dl ↦ (some dl, debug_describe debug qn.exe dl)
      | none ↦ (none, debug)
    ]
  ]
]

-- A level by its name, with another result where the name is none.
abbrev pub level_or : String → FilterDetailLevel × String → String → FilterDetailLevel × String
level_or name other debug = elim ((get_detail_level name).1) [
  | none ↦ ((get_detail_level name).0, debug)
  | some _ ↦ other
]

-- The part of computeDetailLevel for a custom ruleset.
unfoldable pub command_level :
    RulesetDefinition → QualifiedNames → String → FilterDetailLevel × String
command_level rsdef qn debug =
    let (found, debug') = lookup_command_detail_level_name rsdef qn debug in
    elim found [
      | none ↦ use_ruleset_default_detail_level rsdef debug'
      | some name ↦
          level_or name
            ((get_detail_level default_name).0, debug_describe debug' "BACKSTOP" default_name)
            debug'
    ]

-- The part of computeDetailLevel for a name that was asked for.
unfoldable pub named_level :
    FilterSettings → QualifiedNames → String → String → FilterDetailLevel × String
named_level fs qn name debug =
    level_or name
      (elim (lookup name fs.ruleset_defs) [
        | none ↦ use_builtin_default_detail_level (debug_describe debug name "INVALID")
        | some rsdef ↦ command_level rsdef qn (debug_describe debug "command" qn.exe_verb_mode)
      ])
      debug

unfoldable pub compute_detail_level :
    Option FilterSettings → Dict String String → QualifiedNames → FilterDetailLevel × String
compute_detail_level none params qn = use_builtin_default_detail_level ""
compute_detail_level (some fs) params qn =
    let (found, debug) = lookup_ruleset_name fs params "" in
    elim found [
      | none ↦ use_builtin_default_detail_level debug
      | some name ↦ named_level fs qn name debug
    ]
