-- ===== src/Tests/Levels.antt =====
-- Filter settings and the levels that they give.
use trace2receiver.Common.{◌≢◌, ◌≡◌, String, Dict, ok, some, refl, insert, ◌∷◌, [], string_eq}
use trace2receiver.Common.Text.{cut_prefix}
use trace2receiver.Dataset.{QualifiedNames}
use trace2receiver.Filter.Level.{unset, get_detail_level}
use trace2receiver.Filter.Settings.{
  RulesetDefinition, FilterSettings, Yml, parse_filter_settings, parse_yml_file,
  parse_filter_settings_from_buffer, load_rulesets, parse_ruleset_file, parse_ruleset_from_buffer,
  check_commands, check_default,
}
use trace2receiver.Filter.Rules.{compute_detail_level}
use trace2receiver.Filter.Totality.{parse_filter_settings-level-ne-unset}
use trace2receiver.Filter.Precedence.{level_spec, compute_detail_level_lem}

abbrev work_rules : RulesetDefinition
work_rules = record {
  commands = ("git:status", "dl:drop") ∷ ("git", "dl:process") ∷ [];
  detail_level_name = "";
}

abbrev raw_settings : FilterSettings
raw_settings = record {
  nickname_key = "nick";
  ruleset_key = "";
  nicknames = ("work", "rs:work") ∷ [];
  rulesets = ("rs:work", "work.yml") ∷ [];
  ruleset_name = "dl:verbose";
  ruleset_defs = [];
}

abbrev settings : FilterSettings
settings = record raw_settings {
  ruleset_defs = ("rs:work", record work_rules { detail_level_name = "dl:summary" }) ∷ [];
}

abbrev yml : Yml
yml = record {
  read_file = λ path. ok path;
  decode_ruleset = λ text. ok work_rules;
  decode_filter = λ text. ok raw_settings;
}

abbrev fetch : QualifiedNames
fetch = record { exe = "git"; exe_verb = "git:fetch"; exe_verb_mode = "git:fetch" }

abbrev params : Dict String String
params = ("nick", "work") ∷ []

parsed : parse_filter_settings yml "filter.yml" ≡ ok settings
unfolding parse_filter_settings parse_yml_file parse_filter_settings_from_buffer load_rulesets
    parse_ruleset_file parse_ruleset_from_buffer check_commands check_default get_detail_level
    cut_prefix insert
parsed = refl

parse_filter_settings-level-ne-unset_example :
    (compute_detail_level (some settings) params fetch).0 ≢ unset
parse_filter_settings-level-ne-unset_example =
    parse_filter_settings-level-ne-unset yml "filter.yml" settings params fetch parsed

compute_detail_level_lem_example :
    (compute_detail_level (some settings) params fetch).0 ≡ level_spec (some settings) params fetch
compute_detail_level_lem_example = compute_detail_level_lem (some settings) params fetch
