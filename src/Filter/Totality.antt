-- ===== src/Filter/Totality.antt =====
-- The unset level, and rulesets that come from the parser.
use mathlib.Core.Path.{subst}
use trace2receiver.Common.{
  ◌≡◌, ◌≢◌, refl, sym, ◌||◌, error_text, reject_client_error, arith, eq_iff, String, ◌∷◌, [], true,
  Bool-cases, none, some, Option-cases, inl, inr, Dict, All, lookup, lookup-All, insert, insert-All,
  string_eq, ◌==◌, Result, ok,
}
use trace2receiver.Common.Text.{cut_prefix}
use trace2receiver.Common.Fallible.{>>=-eq-ok, ok-injective, Result-cases}
use trace2receiver.Dataset.{QualifiedNames}
use trace2receiver.Filter.Level.{FilterDetailLevel, unset, get_detail_level, default_name}
use trace2receiver.Filter.Settings.{
  RulesetDefinition, FilterSettings, Yml, parse_yml_file, is_level, check_commands, check_default,
  parse_ruleset_from_buffer, parse_ruleset_file, load_rulesets, parse_filter_settings_from_buffer,
  parse_filter_settings,
}
use trace2receiver.Filter.Rules.{
  level_or, use_builtin_default_detail_level, use_ruleset_default_detail_level,
  lookup_command_detail_level_name, command_level, named_level, lookup_ruleset_name,
  compute_detail_level,
}

get_detail_level-ne-unset :
    (name : String) → (get_detail_level name).1 ≡ none → (get_detail_level name).0 ≢ unset
unfolding get_detail_level
get_detail_level-ne-unset name h = ground arith

default-ne-unset : (get_detail_level default_name).0 ≢ unset
unfolding get_detail_level
default-ne-unset = ground arith

level_or-ne-unset :
    (name : String) (other : FilterDetailLevel × String) (debug : String)
    → other.0 ≢ unset
    → (level_or name other debug).0 ≢ unset
level_or-ne-unset name other debug h = ground (arith, get_detail_level-ne-unset name)

abbrev pub AreCommands : Dict String String → Type 0
AreCommands commands = All (λ (x : String × String). (x.0 ≢ "") × (is_level x.1 ≡ true)) commands

-- What the parser makes sure of in a ruleset.
pub record IsValidRuleset (rsdef : RulesetDefinition) : Type 0 where
  pub commands : AreCommands rsdef.commands
  pub default : is_level rsdef.detail_level_name ≡ true

command_level-ne-unset :
    (rsdef : RulesetDefinition) (qn : QualifiedNames) (debug : String)
    → is_level rsdef.detail_level_name ≡ true
    → (command_level rsdef qn debug).0 ≢ unset
unfolding command_level use_ruleset_default_detail_level
command_level-ne-unset rsdef qn debug h =
    elim (Option-cases ((lookup_command_detail_level_name rsdef qn debug).0)) [
      | inl missing ↦
          rw (missing, command_level)
            (get_detail_level-ne-unset rsdef.detail_level_name (ground arith))
      | inr (name, found) ↦
          rw (found, command_level)
            (ground (arith, get_detail_level-ne-unset name, default-ne-unset))
    ]

named_level-ne-unset :
    (fs : FilterSettings) (qn : QualifiedNames) (name debug : String)
    → All (λ (x : String × RulesetDefinition). IsValidRuleset x.1) fs.ruleset_defs
    → (named_level fs qn name debug).0 ≢ unset
unfolding named_level use_builtin_default_detail_level
named_level-ne-unset fs qn name debug h = elim (Option-cases (lookup name fs.ruleset_defs)) [
  | inl missing ↦
      rw (missing, named_level) (ground (arith, get_detail_level-ne-unset name, default-ne-unset))
  | inr (rsdef, found) ↦
      let valid =
        lookup-All (λ k (r : RulesetDefinition). IsValidRuleset r) name fs.ruleset_defs h found in
      rw (found, named_level)
        (level_or-ne-unset name _ debug (command_level-ne-unset rsdef qn _ valid.default))
]

pub compute_detail_level-ne-unset :
    (fs : FilterSettings) (params : Dict String String) (qn : QualifiedNames)
    → All (λ (x : String × RulesetDefinition). IsValidRuleset x.1) fs.ruleset_defs
    → (compute_detail_level (some fs) params qn).0 ≢ unset
unfolding compute_detail_level use_builtin_default_detail_level
compute_detail_level-ne-unset fs params qn h =
    elim (Option-cases ((lookup_ruleset_name fs params "").0)) [
      | inl missing ↦ rw (missing, compute_detail_level) default-ne-unset
      | inr (name, found) ↦ rw (found, compute_detail_level) (named_level-ne-unset fs qn name _ h)
    ]

check_commands-valid :
    (path : String) (commands : Dict String String)
    → check_commands path commands ≡ ok tt
    → AreCommands commands
unfolding check_commands
check_commands-valid path [] h = tt
check_commands-valid path ((cmd, dl) ∷ rest) h =
    ground (arith, eq_iff cmd "", check_commands-valid path rest)

is_level-default : is_level default_name ≡ true
unfolding get_detail_level
is_level-default = refl

check_default-valid :
    (path : String) (raw : RulesetDefinition) {rsdef : RulesetDefinition}
    → check_default path raw ≡ ok rsdef
    → (rsdef.commands ≡ raw.commands) × (is_level rsdef.detail_level_name ≡ true)
unfolding check_default
check_default-valid path raw h = ground (arith, is_level-default)

parse_yml_file-eq-ok {ℓ} :
    {T : Type ℓ} (yml : Yml) (path : String) (fn : String → String → Result T) {a : T}
    → parse_yml_file yml path fn ≡ ok a
    → (text : String) × (fn text path ≡ ok a)
unfolding parse_yml_file
parse_yml_file-eq-ok yml path fn h = elim (Result-cases (yml.read_file path)) [
  | inl (error_text e, failed) ↦ cc (rw (failed, parse_yml_file) at h)
  | inl (reject_client_error e f, failed) ↦ cc (rw (failed, parse_yml_file) at h)
  | inr (text, read) ↦ (text, rw (read, parse_yml_file) at h)
]

parse_ruleset-valid :
    (yml : Yml) (text path : String) {rsdef : RulesetDefinition}
    → parse_ruleset_from_buffer yml text path ≡ ok rsdef
    → IsValidRuleset rsdef
unfolding parse_ruleset_from_buffer
parse_ruleset-valid yml text path {rsdef} h =
    let (raw, decoded, rest) = >>=-eq-ok (yml.decode_ruleset text) _ h in
    let (u, checked, filled) = >>=-eq-ok (check_commands path raw.commands) _ rest in
    let (same, default) = check_default-valid path raw filled in
    record {
      commands = subst AreCommands (sym same) (check_commands-valid path raw.commands checked);
      default = default;
    }

parse_ruleset_file-valid :
    (yml : Yml) (path : String) {rsdef : RulesetDefinition}
    → parse_ruleset_file yml path ≡ ok rsdef
    → IsValidRuleset rsdef
unfolding parse_ruleset_file
parse_ruleset_file-valid yml path h =
    let (text, parsed) = parse_yml_file-eq-ok yml path (parse_ruleset_from_buffer yml) h in
    parse_ruleset-valid yml text path parsed

abbrev pub AreValid : Dict String RulesetDefinition → Type 0
AreValid defs = All (λ (x : String × RulesetDefinition). IsValidRuleset x.1) defs

load_rulesets-valid :
    (yml : Yml) (rulesets : Dict String String) (defs : Dict String RulesetDefinition)
    {all : Dict String RulesetDefinition}
    → AreValid defs
    → load_rulesets yml rulesets defs ≡ ok all
    → AreValid all
unfolding load_rulesets
load_rulesets-valid yml [] defs {all} v h = subst AreValid (ok-injective h) v
load_rulesets-valid yml ((name, path) ∷ rest) defs {all} v h =
    elim (Option-cases (cut_prefix name "rs:")) [
      | inl other ↦ cc (rw (other, load_rulesets) at h)
      | inr (tail, found) ↦ elim (Bool-cases (tail == "" || path == "")) [
        | inl bad ↦ cc (rw (found, load_rulesets, bad) at h)
        | inr good ↦
            let (rsdef, parsed, more) =
              >>=-eq-ok (parse_ruleset_file yml path) _ (rw (found, load_rulesets, good) at h) in
            load_rulesets-valid yml rest (insert name rsdef defs)
              (insert-All (λ k (r : RulesetDefinition). IsValidRuleset r) name rsdef defs v
                (parse_ruleset_file-valid yml path parsed))
              more
      ]
    ]

-- With filter settings that the parser accepts, the detail level of a command is never the unset
-- one, whatever parameters and names the command has.
pub parse_filter_settings-level-ne-unset :
    (yml : Yml) (path : String) (fs : FilterSettings) (params : Dict String String)
    (qn : QualifiedNames)
    → parse_filter_settings yml path ≡ ok fs
    → (compute_detail_level (some fs) params qn).0 ≢ unset
unfolding parse_filter_settings parse_filter_settings_from_buffer
parse_filter_settings-level-ne-unset yml path fs params qn h =
    let (text, parsed) = parse_yml_file-eq-ok yml path (parse_filter_settings_from_buffer yml) h in
    let (raw, decoded, rest) = >>=-eq-ok (yml.decode_filter text) _ parsed in
    let (defs, loaded, done) = >>=-eq-ok (load_rulesets yml raw.rulesets []) _ rest in
    compute_detail_level-ne-unset fs params qn (
      subst (λ (s : FilterSettings). AreValid s.ruleset_defs) (ok-injective done)
        (load_rulesets-valid yml raw.rulesets [] tt loaded))
