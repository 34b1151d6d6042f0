-- ===== src/Filter/Settings.antt =====
-- filter_settings.go, ruleset_definition.go and parse_yml.go: the settings and their validation.
-- Reading files, the YAML parser and `mapstructure` are parameters.
use trace2receiver.Common.{
  String, ◌<>◌, [], ◌∷◌, Bool, true, false, none, some, ◌||◌, not, Dict, insert, string_eq, ◌==◌,
  if◌then◌else◌, Result, ok, err, GoError, error_text,
}
use trace2receiver.Common.Fallible.{◌>>=◌}
use trace2receiver.Common.Text.{cut_prefix}
use trace2receiver.Filter.Level.{get_detail_level, default_name}

pub record RulesetDefinition : Type 0 where
  pub commands : Dict String String
  pub detail_level_name : String

pub record FilterSettings : Type 0 where
  pub nickname_key : String
  pub ruleset_key : String
  pub nicknames : Dict String String
  pub rulesets : Dict String String
  pub ruleset_name : String
  pub ruleset_defs : Dict String RulesetDefinition

-- os.ReadFile, and yaml.Unmarshal with mapstructure.Decode for the two kinds of file. An error is
-- its text. The decoder does not set the internal table of definitions.
pub record Yml : Type 0 where
  pub read_file : String → Result String
  pub decode_ruleset : String → Result RulesetDefinition
  pub decode_filter : String → Result FilterSettings

-- The error of a file that cannot be read.
abbrev pub not_read {ℓ} : {T : Type ℓ} → String → GoError → Result T
not_read path (error_text e) =
    err (error_text ("could not read YML '" <> path <> "': '" <> e <> "'"))
not_read path e = err e

-- parseYmlFile
unfoldable pub parse_yml_file {ℓ} :
    {T : Type ℓ} → Yml → String → (String → String → Result T) → Result T
parse_yml_file yml path fn = elim (yml.read_file path) [
  | err e ↦ not_read path e
  | ok text ↦ fn text path
]

abbrev pub is_level : String → Bool
is_level name = elim ((get_detail_level name).1) [ none ↦ true | some _ ↦ false ]

abbrev bad_command {ℓ} : {T : Type ℓ} → String → String → String → Result T
bad_command path cmd dl =
    err (error_text ("ruleset '" <> path <> "' has invalid command '" <> cmd <> "':'" <> dl <> "'"))

-- Each command has a name, and maps to a level.
unfoldable pub check_commands : String → Dict String String → Result (Unit {0})
check_commands path [] = ok tt
check_commands path ((cmd, dl) ∷ rest) =
    if cmd == "" || not (is_level dl) then bad_command path cmd dl else check_commands path rest

-- The default level is valid, or absent and filled in.
unfoldable pub check_default : String → RulesetDefinition → Result RulesetDefinition
check_default path rsdef =
    if rsdef.detail_level_name == ""
    then ok (record rsdef { detail_level_name = default_name })
    else if is_level rsdef.detail_level_name
    then ok rsdef
    else err (error_text ("ruleset '" <> path <> "' has invalid default detail level"))

abbrev bad_ruleset {ℓ} : {T : Type ℓ} → String → String → Result T
bad_ruleset name path =
    err (error_text ("ruleset has invalid name or pathname'" <> name <> "':'" <> path <> "'"))

module _ (yml : Yml) where
  unfoldable pub parse_ruleset_from_buffer : String → String → Result RulesetDefinition
  parse_ruleset_from_buffer text path = do
    rsdef ← yml.decode_ruleset text
    _ ← check_commands path rsdef.commands
    check_default path rsdef

  unfoldable pub parse_ruleset_file : String → Result RulesetDefinition
  parse_ruleset_file path = parse_yml_file yml path parse_ruleset_from_buffer

  -- A custom ruleset is called "rs:" and something more, and has a path.
  unfoldable pub load_rulesets :
      Dict String String → Dict String RulesetDefinition → Result (Dict String RulesetDefinition)
  load_rulesets [] defs = ok defs
  load_rulesets ((name, path) ∷ rest) defs = elim (cut_prefix name "rs:") [
    | none ↦ bad_ruleset name path
    | some tail ↦
        if tail == "" || path == ""
        then bad_ruleset name path
        else (do rsdef ← parse_ruleset_file path; load_rulesets rest (insert name rsdef defs))
  ]

  unfoldable pub parse_filter_settings_from_buffer : String → String → Result FilterSettings
  parse_filter_settings_from_buffer text path = do
    fs ← yml.decode_filter text
    defs ← load_rulesets fs.rulesets []
    ok (record fs { ruleset_defs = defs })

  unfoldable pub parse_filter_settings : String → Result FilterSettings
  parse_filter_settings path = parse_yml_file yml path parse_filter_settings_from_buffer
