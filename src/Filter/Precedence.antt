-- ===== src/Filter/Precedence.antt =====
-- The level of a command, against a description by lists of candidates.
use trace2receiver.Common.{
  ◌≡◌, ◌∙◌, sym, ap, inl, inr, beq_sym, Option-cases, refl, ◌≢◌, arith, String, List, [], ◌∷◌,
  Option, none, some, Dict, lookup, string_eq, ◌==◌, if◌then◌else◌,
}
use trace2receiver.Dataset.{QualifiedNames}
use trace2receiver.Filter.Level.{
  FilterDetailLevel, unset, drop, summary, process, verbose, get_detail_level,
}
use trace2receiver.Filter.Settings.{RulesetDefinition, FilterSettings}
use trace2receiver.Filter.Rules.{
  non_empty, level_or, lookup_ruleset_name, lookup_command_detail_level_name, command_level,
  named_level, use_builtin_default_detail_level, use_ruleset_default_detail_level,
  compute_detail_level,
}

abbrev pub first_some {ℓ} : {A : Type ℓ} → List (Option A) → Option A
first_some [] = none
first_some (none ∷ more) = first_some more
first_some (some a ∷ more) = some a

-- The names of the levels, as a table.
abbrev pub levels : Dict String FilterDetailLevel
levels =
    ("dl:drop", drop)
    ∷ ("dl:summary", summary)
    ∷ ("dl:process", process)
    ∷ ("dl:verbose", verbose)
    ∷ []

-- The value that a command sent under a configured key.
abbrev pub sent : String → Dict String String → Option String
sent key params = if key == "" then none else non_empty (lookup key params)

abbrev pub nick_rules : FilterSettings → Option String → Option String
nick_rules fs none = none
nick_rules fs (some nick) = non_empty (lookup nick fs.nicknames)

-- What is asked for: by the ruleset key, by the nickname, by default.
abbrev pub asked : FilterSettings → Dict String String → Option String
asked fs params = first_some (
    sent fs.ruleset_key params
    ∷ nick_rules fs (sent fs.nickname_key params)
    ∷ non_empty (some fs.ruleset_name)
    ∷ [])

-- The entries of a ruleset that fit a command, the most specific one first.
abbrev pub entries : RulesetDefinition → QualifiedNames → Option String
entries rs qn = first_some (
    lookup qn.exe_verb_mode rs.commands
    ∷ lookup qn.exe_verb rs.commands
    ∷ lookup qn.exe rs.commands
    ∷ [])

lookup_ruleset_name_lem :
    (fs : FilterSettings) (params : Dict String String) (debug : String)
    → (lookup_ruleset_name fs params debug).0 ≡ asked fs params
unfolding lookup_ruleset_name
lookup_ruleset_name_lem fs params debug = ground arith

lookup_command_lem :
    (rs : RulesetDefinition) (qn : QualifiedNames) (debug : String)
    → (lookup_command_detail_level_name rs qn debug).0 ≡ entries rs qn
unfolding lookup_command_detail_level_name
lookup_command_lem rs qn debug = ground arith

-- The level that a name stands for, with another one for any other name.
abbrev pub level_named : String → FilterDetailLevel → FilterDetailLevel
level_named name other = elim (lookup name levels) [ none ↦ other | some dl ↦ dl ]

-- What a custom ruleset gives a command: its most specific entry, or the ruleset's own default.
abbrev pub entry_level : RulesetDefinition → Option String → FilterDetailLevel
entry_level rs none = level_named rs.detail_level_name unset
entry_level rs (some name) = level_named name summary

abbrev pub ruleset_level : RulesetDefinition → QualifiedNames → FilterDetailLevel
ruleset_level rs qn = entry_level rs (entries rs qn)

-- What a name stands for: a level, or else a custom ruleset.
abbrev pub name_level : FilterSettings → QualifiedNames → String → FilterDetailLevel
name_level fs qn name =
    level_named name
      (elim (lookup name fs.ruleset_defs) [ none ↦ summary | some rs ↦ ruleset_level rs qn ])

-- The level of a command, from the first of the names that are asked for.
abbrev pub asked_level : FilterSettings → QualifiedNames → Option String → FilterDetailLevel
asked_level fs qn none = summary
asked_level fs qn (some name) = name_level fs qn name

abbrev pub level_spec :
    Option FilterSettings → Dict String String → QualifiedNames → FilterDetailLevel
level_spec none params qn = summary
level_spec (some fs) params qn = asked_level fs qn (asked fs params)

-- The name of a level is known by one comparison, and the table compares the other way round.
get_detail_level_lem :
    (name : String)
    → (level_named name unset ≡ (get_detail_level name).0)
      × ((get_detail_level name).1 ≡ none → lookup name levels ≡ some ((get_detail_level name).0))
      × ((get_detail_level name).1 ≢ none → lookup name levels ≡ none)
unfolding get_detail_level lookup
get_detail_level_lem name = ground (
  arith,
  beq_sym "dl:drop" name,
  beq_sym "dl:summary" name,
  beq_sym "dl:process" name,
  beq_sym "dl:verbose" name,
)

level_or_lem :
    (name debug : String) (other : FilterDetailLevel × String)
    → (level_or name other debug).0 ≡ level_named name (other.0)
level_or_lem name debug other = ground (arith, get_detail_level_lem name)

command_level_lem :
    (rs : RulesetDefinition) (qn : QualifiedNames) (debug : String)
    → (command_level rs qn debug).0 ≡ ruleset_level rs qn
unfolding command_level use_ruleset_default_detail_level get_detail_level
command_level_lem rs qn debug =
    let same = lookup_command_lem rs qn debug in
    elim (Option-cases ((lookup_command_detail_level_name rs qn debug).0)) [
      | inl missing ↦
          rw (missing, command_level)
            (sym ((get_detail_level_lem rs.detail_level_name).0)
              ∙ ap (entry_level rs) (sym missing ∙ same))
      | inr (name, found) ↦
          rw (found, command_level) (level_or_lem name _ _ ∙ ap (entry_level rs) (sym found ∙ same))
    ]

named_level_lem :
    (fs : FilterSettings) (qn : QualifiedNames) (name debug : String)
    → (named_level fs qn name debug).0 ≡ name_level fs qn name
unfolding named_level use_builtin_default_detail_level get_detail_level
named_level_lem fs qn name debug = elim (Option-cases (lookup name fs.ruleset_defs)) [
  | inl missing ↦ rw (missing, named_level) (level_or_lem name _ _)
  | inr (rs, found) ↦
      rw (found, named_level)
        (level_or_lem name _ _ ∙ ap (level_named name) (command_level_lem rs qn _))
]

-- The detail level of a command is the one that the description by candidates gives: the first
-- name asked for, by the ruleset key, the nickname key and the filter's default, in this order,
-- where absent and empty values are passed over, and so is a nickname without an entry, but not a
-- ruleset that is not defined; this name read as a level or else as a custom ruleset; in a ruleset
-- the entry for command, verb and mode before that for command and verb before that for the
-- command, and the ruleset's own default where there is none. Without settings, without a name and
-- for a name that stands for nothing, whatever the filter's default is, it is the summary level.
pub compute_detail_level_lem :
    (fs : Option FilterSettings) (params : Dict String String) (qn : QualifiedNames)
    → (compute_detail_level fs params qn).0 ≡ level_spec fs params qn
unfolding compute_detail_level use_builtin_default_detail_level get_detail_level
compute_detail_level_lem none params qn = refl
compute_detail_level_lem (some fs) params qn =
    let same = lookup_ruleset_name_lem fs params "" in
    elim (Option-cases ((lookup_ruleset_name fs params "").0)) [
      | inl missing ↦
          rw (missing, compute_detail_level) (ap (asked_level fs qn) (sym missing ∙ same))
      | inr (name, found) ↦
          rw (found, compute_detail_level)
            (named_level_lem fs qn name _ ∙ ap (asked_level fs qn) (sym found ∙ same))
    ]
