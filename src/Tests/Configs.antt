-- ===== src/Tests/Configs.antt =====
-- Configurations and personal data.
use trace2receiver.Common.{◌≡◌, ◌≢◌, refl, ◌<>◌, true, false, [], none, some, ok, err, error_text}
use trace2receiver.Common.Text.{cut_prefix}
use trace2receiver.Dataset.{new_trace2_dataset}
use trace2receiver.Filter.Level.{unset}
use trace2receiver.Filter.Settings.{
  FilterSettings, parse_yml_file, parse_filter_settings, parse_filter_settings_from_buffer,
  load_rulesets,
}
use trace2receiver.Filter.Rules.{compute_detail_level}
use trace2receiver.Pii.{PiiSettings, pii_gather, parse_pii_file, parse_pii_from_buffer}
use trace2receiver.Pii.Gather.{asked_for, pii_gather-asked_for}
use trace2receiver.Config.{
  Config, Platform, normalize_uds_path, validate, validate_path, validate_pii, validate_filter,
}
use trace2receiver.Config.Paths.{any, spelled, meant, normalize_uds_path-spelled}
use trace2receiver.Config.Validity.{IsValidated, validate-IsValidated, validate-level-ne-unset}

abbrev host_only : PiiSettings
host_only = record { include = record { hostname = true; username = false } }

pii_gather-asked_for_example :
    pii_gather (some host_only) (ok "build-7") (ok "user") (new_trace2_dataset 1 2)
    ≡ record (new_trace2_dataset 1 2) {
      pii = asked_for (some host_only) (ok "build-7") (ok "user");
    }
unfolding new_trace2_dataset
pii_gather-asked_for_example =
    pii_gather-asked_for (some host_only) (ok "build-7") (ok "user") (new_trace2_dataset 1 2) refl

normalize_uds_path-spelled_example :
    normalize_uds_path (spelled any "/tmp/trace2") ≡ meant any "/tmp/trace2"
unfolding cut_prefix
normalize_uds_path-spelled_example = normalize_uds_path-spelled any "/tmp/trace2" (refl, refl, refl)

abbrev filter_all : FilterSettings
filter_all = record {
  nickname_key = "";
  ruleset_key = "";
  nicknames = [];
  rulesets = [];
  ruleset_name = "dl:verbose";
  ruleset_defs = [];
}

abbrev test_platform : Platform
test_platform = record {
  is_windows = false;
  clean = λ path. path;
  join = λ folder name. folder <> "\\" <> name;
  lower = λ c. c;
  yml = record {
    read_file = λ path. ok path;
    decode_ruleset = λ text. err (error_text "no ruleset");
    decode_filter = λ text. ok filter_all;
  };
  decode_pii = λ text. ok host_only;
}

abbrev raw : Config
raw = record {
  named_pipe_path = "";
  unix_socket_path = "af_unix:/tmp/trace2";
  allow_command_control_verbs = true;
  pii_settings_path = "pii.yml";
  pii_settings = none;
  filter_settings_path = "filter.yml";
  filter_settings = none;
}

abbrev checked : Config
checked = record raw {
  unix_socket_path = "/tmp/trace2";
  pii_settings = some host_only;
  filter_settings = some filter_all;
}

validate_run : validate test_platform raw ≡ (checked, none)
unfolding validate validate_path normalize_uds_path cut_prefix validate_pii parse_pii_file
    parse_pii_from_buffer parse_yml_file validate_filter parse_filter_settings
    parse_filter_settings_from_buffer load_rulesets
validate_run = refl

validate-IsValidated_example : IsValidated test_platform raw checked
validate-IsValidated_example = validate-IsValidated test_platform raw checked validate_run

validate-level-ne-unset_example :
    (compute_detail_level
      (some filter_all)
      []
      (record { exe = "git"; exe_verb = "git:fetch"; exe_verb_mode = "git:fetch" })).0
    ≢ unset
validate-level-ne-unset_example =
    validate-level-ne-unset test_platform raw checked []
      (record { exe = "git"; exe_verb = "git:fetch"; exe_verb_mode = "git:fetch" }) refl
      validate_run

-- The two prefixes alone pass the validation, and leave an empty path.
empty_path :
    validate_path test_platform (record raw { unix_socket_path = "af_unix:" })
    ≡ ok (record raw { unix_socket_path = "" })
unfolding validate_path normalize_uds_path cut_prefix
empty_path = refl
