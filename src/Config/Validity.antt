-- ===== src/Config/Validity.antt =====
-- What a configuration that has been validated holds.
use mathlib.Core.Path.{subst}
use trace2receiver.Common.{
  ◌≡◌, ◌≢◌, sym, ◌∙◌, ap, arith, String, Option, none, some, Option-cases, Result, ok, inl, inr,
  ◌⊎◌, string_eq, eq_iff, if◌then◌else◌, Dict,
}
use trace2receiver.Common.Fallible.{Result-cases}
use trace2receiver.Dataset.{QualifiedNames}
use trace2receiver.Filter.Level.{unset, get_detail_level}
use trace2receiver.Filter.Settings.{parse_filter_settings}
use trace2receiver.Filter.Rules.{compute_detail_level, use_builtin_default_detail_level}
use trace2receiver.Filter.Totality.{parse_filter_settings-level-ne-unset}
use trace2receiver.Pii.{parse_pii_file}
use trace2receiver.Config.{
  Config, Platform, normalize_uds_path, normalize_named_pipe_path, validate_path, validate_pii,
  validate_filter, validate,
}

-- The path of the platform is normalized, from one that is not empty; the other one is kept.
abbrev pub IsPlaced : Platform → Config → String → String → Type 0
IsPlaced p cfg pipe socket =
    if p.is_windows
    then (cfg.named_pipe_path ≢ "")
      × (normalize_named_pipe_path p cfg.named_pipe_path ≡ ok pipe)
      × (socket ≡ cfg.unix_socket_path)
    else (cfg.unix_socket_path ≢ "")
      × (normalize_uds_path cfg.unix_socket_path ≡ ok socket)
      × (pipe ≡ cfg.named_pipe_path)

-- The settings are those of the file, if there is one.
abbrev pub IsLoaded : {S : Type 0} → String → (String → Result S) → Option S → Option S → Type 0
IsLoaded {S} path parse old new =
    ((path ≡ "") × (new ≡ old)) ⊎ ((s : S) × (parse path ≡ ok s) × (new ≡ some s))

pub record IsValidated (p : Platform) (cfg cfg' : Config) : Type 0 where
  pub placed : IsPlaced p cfg cfg'.named_pipe_path cfg'.unix_socket_path
  pub commands : cfg'.allow_command_control_verbs ≡ cfg.allow_command_control_verbs
  pub pii_path : cfg'.pii_settings_path ≡ cfg.pii_settings_path
  pub filter_path : cfg'.filter_settings_path ≡ cfg.filter_settings_path
  pub pii :
      IsLoaded cfg.pii_settings_path
        (parse_pii_file p.yml p.decode_pii)
        cfg.pii_settings
        cfg'.pii_settings
  pub filter :
      IsLoaded cfg.filter_settings_path
        (parse_filter_settings p.yml)
        cfg.filter_settings
        cfg'.filter_settings

validate_path-IsPlaced :
    (p : Platform) (cfg cfg' : Config)
    → validate_path p cfg ≡ ok cfg'
    → IsPlaced p cfg cfg'.named_pipe_path cfg'.unix_socket_path
      × (cfg' ≡ record cfg {
        named_pipe_path = cfg'.named_pipe_path;
        unix_socket_path = cfg'.unix_socket_path;
      })
unfolding validate_path
validate_path-IsPlaced p cfg cfg' h =
    ground (arith, h, eq_iff cfg.named_pipe_path "", eq_iff cfg.unix_socket_path "")

validate_pii-IsLoaded :
    (p : Platform) (cfg cfg' : Config)
    → validate_pii p cfg ≡ (cfg', none)
    → IsLoaded cfg.pii_settings_path
        (parse_pii_file p.yml p.decode_pii)
        cfg.pii_settings
        cfg'.pii_settings
      × (cfg' ≡ record cfg { pii_settings = cfg'.pii_settings })
unfolding validate_pii
validate_pii-IsLoaded p cfg cfg' h =
    elim (Result-cases (parse_pii_file p.yml p.decode_pii cfg.pii_settings_path)) [
      | inl (e, failed) ↦ ground (arith, h, failed, eq_iff cfg.pii_settings_path "")
      | inr (pii, read) ↦ ground (arith, h, read, eq_iff cfg.pii_settings_path "")
    ]

validate_filter-IsLoaded :
    (p : Platform) (cfg cfg' : Config)
    → validate_filter p cfg ≡ (cfg', none)
    → IsLoaded cfg.filter_settings_path
        (parse_filter_settings p.yml)
        cfg.filter_settings
        cfg'.filter_settings
      × (cfg' ≡ record cfg { filter_settings = cfg'.filter_settings })
unfolding validate_filter
validate_filter-IsLoaded p cfg cfg' h =
    elim (Result-cases (parse_filter_settings p.yml cfg.filter_settings_path)) [
      | inl (e, failed) ↦ ground (arith, h, failed, eq_iff cfg.filter_settings_path "")
      | inr (fs, read) ↦ ground (arith, h, read, eq_iff cfg.filter_settings_path "")
    ]

-- A validation goes through its three parts.
validate-parts :
    (p : Platform) (cfg cfg' : Config)
    → validate p cfg ≡ (cfg', none)
    → (placed : Config) × (with_pii : Config) × (validate_path p cfg ≡ ok placed)
      × (validate_pii p placed ≡ (with_pii, none))
      × (validate_filter p with_pii ≡ (cfg', none))
unfolding validate
validate-parts p cfg cfg' h = elim (Result-cases (validate_path p cfg)) [
  | inl (e, failed) ↦ cc (rw (failed, validate) at h)
  | inr (placed, good) ↦ elim (Option-cases ((validate_pii p placed).1)) [
    | inl fine ↦ (
      placed,
      (validate_pii p placed).0,
      good,
      ap (λ e. ((validate_pii p placed).0, e)) fine,
      rw (good, validate, fine) at h,
    )
    | inr (e, failed) ↦ cc (rw (good, validate, failed) at h)
  ]
]

-- A validation without an error normalizes the path of the platform, which was not empty, takes the
-- settings on personal data and on filtering from their files, where a file is named, and leaves all
-- else as it was.
pub validate-IsValidated :
    (p : Platform) (cfg cfg' : Config) → validate p cfg ≡ (cfg', none) → IsValidated p cfg cfg'
validate-IsValidated p cfg cfg' h =
    let (placed, with_pii, path, pii, filter) = validate-parts p cfg cfg' h in
    let (at_path, only_path) = validate_path-IsPlaced p cfg placed path in
    let (read_pii, only_pii) = validate_pii-IsLoaded p placed with_pii pii in
    let (read_filter, only_filter) = validate_filter-IsLoaded p with_pii cfg' filter in
    let pipe : placed.named_pipe_path ≡ cfg'.named_pipe_path =
      ap (λ c. c.named_pipe_path) (sym only_pii) ∙ ap (λ c. c.named_pipe_path) (sym only_filter) in
    let socket : placed.unix_socket_path ≡ cfg'.unix_socket_path =
      ap (λ c. c.unix_socket_path) (sym only_pii)
      ∙ ap (λ c. c.unix_socket_path) (sym only_filter) in
    let pii_path : placed.pii_settings_path ≡ cfg.pii_settings_path =
      ap (λ c. c.pii_settings_path) only_path in
    let pii_before : placed.pii_settings ≡ cfg.pii_settings = ap (λ c. c.pii_settings) only_path in
    let pii_after : with_pii.pii_settings ≡ cfg'.pii_settings =
      ap (λ c. c.pii_settings) (sym only_filter) in
    let filter_path : with_pii.filter_settings_path ≡ cfg.filter_settings_path =
      ap (λ c. c.filter_settings_path) only_pii ∙ ap (λ c. c.filter_settings_path) only_path in
    let filter_before : with_pii.filter_settings ≡ cfg.filter_settings =
      ap (λ c. c.filter_settings) only_pii ∙ ap (λ c. c.filter_settings) only_path in
    record {
      placed =
          subst (λ s. IsPlaced p cfg s cfg'.unix_socket_path) pipe
            (subst (λ s. IsPlaced p cfg placed.named_pipe_path s) socket at_path);
      commands =
          ap (λ c. c.allow_command_control_verbs) only_filter
          ∙ ap (λ c. c.allow_command_control_verbs) only_pii
          ∙ ap (λ c. c.allow_command_control_verbs) only_path;
      pii_path =
          ap (λ c. c.pii_settings_path) only_filter
          ∙ ap (λ c. c.pii_settings_path) only_pii
          ∙ pii_path;
      filter_path = ap (λ c. c.filter_settings_path) only_filter ∙ filter_path;
      pii = rw (pii_path, pii_before, pii_after) at read_pii;
      filter = rw (filter_path, filter_before) at read_filter;
    }

-- With the settings of a validated configuration, which had none before, the detail level of a
-- command is never the unset one, whatever parameters and names the command has.
pub validate-level-ne-unset :
    (p : Platform) (cfg cfg' : Config) (params : Dict String String) (qn : QualifiedNames)
    → cfg.filter_settings ≡ none
    → validate p cfg ≡ (cfg', none)
    → (compute_detail_level cfg'.filter_settings params qn).0 ≢ unset
unfolding compute_detail_level use_builtin_default_detail_level get_detail_level
validate-level-ne-unset p cfg cfg' params qn before h =
    elim ((validate-IsValidated p cfg cfg' h).filter) [
      | inl (no_path, kept) ↦ rw (kept ∙ before) (ground arith)
      | inr (fs, read, loaded) ↦
          rw loaded
            (parse_filter_settings-level-ne-unset p.yml cfg.filter_settings_path fs params qn read)
    ]
