-- ===== src/Config.antt =====
-- config.go and `createDefaultConfig` of factory.go: the settings of a receiver and their
-- validation. The path functions of Windows, and the platform, are parameters.
pub mod Paths
pub mod Validity
use Prim.Native.Char.{code}
use Prim.Native.String.{[], ◌∷◌}
use trace2receiver.Common.{
  String, Bool, false, Option, none, some, Result, ok, err, GoError, error_text, string_eq, ◌==◌,
  ◌<>◌, ◌&&◌, not, ltb, if◌then◌else◌,
}
use trace2receiver.Common.Text.{cut_prefix, map_text, is_code}
use trace2receiver.Filter.Settings.{FilterSettings, Yml, parse_filter_settings}
use trace2receiver.Pii.{PiiSettings, DecodePii, parse_pii_file}
use Prim.Native.Char.{Char}

pub record Config : Type 0 where
  pub named_pipe_path : String
  pub unix_socket_path : String
  pub allow_command_control_verbs : Bool
  pub pii_settings_path : String
  pub pii_settings : Option PiiSettings
  pub filter_settings_path : String
  pub filter_settings : Option FilterSettings

-- What the validation takes from outside the sources.
pub record Platform : Type 0 where
  -- runtime.GOOS == "windows"
  pub is_windows : Bool
  -- filepath.Clean and filepath.Join, on Windows
  pub clean : String → String
  pub join : String → String → String
  -- unicode.ToLower
  pub lower : Char → Char
  pub yml : Yml
  pub decode_pii : DecodePii

unfoldable pub create_default_config : Config
create_default_config = record {
  named_pipe_path = "";
  unix_socket_path = "";
  allow_command_control_verbs = false;
  pii_settings_path = "";
  pii_settings = none;
  filter_settings_path = "";
  filter_settings = none;
}

-- strings.HasPrefix
abbrev pub has_prefix : String → String → Bool
has_prefix s p = elim (cut_prefix s p) [ none ↦ Bool.false | some _ ↦ Bool.true ]

-- `len(in) > 2 && in[1] == ':'`, on bytes: the first character is one byte long.
abbrev pub has_drive : String → Bool
has_drive (c ∷ d ∷ e ∷ s) = ltb (code c) 128 && is_code b':' d
has_drive _ = Bool.false

abbrev pub pipe_prefix : String
pipe_prefix = "\\\\.\\pipe\\"

abbrev pub unc_prefix : String
unc_prefix = "\\\\"

abbrev pub pipe_folder : String
pipe_folder = "\\\\.\\pipe"

abbrev not_a_pipe {ℓ} : {A : Type ℓ} → Result A
not_a_pipe = err (error_text "expect '[\\\\.\\pipe\\]<pipename>'")

unfoldable pub normalize_named_pipe_path : Platform → String → Result String
unfolding map_text
normalize_named_pipe_path p path =
    let slashed = p.clean (map_text p.lower path) in
    if has_prefix slashed pipe_prefix
    then ok path
    else if has_prefix slashed unc_prefix
    then not_a_pipe
    else if has_drive path
    then not_a_pipe
    else ok (p.join pipe_folder path)

unfoldable pub normalize_uds_path : String → Result String
normalize_uds_path path = elim (cut_prefix path "af_unix:stream:") [
  | some p ↦ ok p
  | none ↦ elim (cut_prefix path "af_unix:dgram:") [
    | some _ ↦ err (error_text "SOCK_DGRAM sockets are not supported")
    | none ↦ elim (cut_prefix path "af_unix:") [ some p ↦ ok p | none ↦ ok path ]
  ]
]

-- The text of an error inside another.
abbrev invalid {ℓ} : {A : Type ℓ} → String → GoError → Result A
invalid what (error_text e) =
    err (error_text ("receivers.trace2receiver." <> what <> " invalid: '" <> e <> "'"))
invalid what e = err e

module _ (p : Platform) where
  -- The path of the platform, normalized; that of the other one is left alone.
  unfoldable pub validate_path : Config → Result Config
  unfolding normalize_named_pipe_path normalize_uds_path
  validate_path cfg =
      if p.is_windows
      then (if cfg.named_pipe_path == ""
          then err (error_text "receivers.trace2receiver.pipe not defined")
          else elim (normalize_named_pipe_path p cfg.named_pipe_path) [
            | err e ↦ invalid "pipe" e
            | ok path ↦ ok (record cfg { named_pipe_path = path })
          ])
      else (if cfg.unix_socket_path == ""
          then err (error_text "receivers.trace2receiver.socket not defined")
          else elim (normalize_uds_path cfg.unix_socket_path) [
            | err e ↦ invalid "socket" e
            | ok path ↦ ok (record cfg { unix_socket_path = path })
          ])

  -- What is behind the pointer of the configuration, and the error. A file that is not accepted
  -- leaves no settings.
  unfoldable pub validate_pii : Config → Config × Option GoError
  validate_pii cfg =
      if cfg.pii_settings_path == ""
      then (cfg, none)
      else elim (parse_pii_file p.yml p.decode_pii cfg.pii_settings_path) [
        | err e ↦ (record cfg { pii_settings = none }, some e)
        | ok pii ↦ (record cfg { pii_settings = some pii }, none)
      ]

  unfoldable pub validate_filter : Config → Config × Option GoError
  validate_filter cfg =
      if cfg.filter_settings_path == ""
      then (cfg, none)
      else elim (parse_filter_settings p.yml cfg.filter_settings_path) [
        | err e ↦ (record cfg { filter_settings = none }, some e)
        | ok fs ↦ (record cfg { filter_settings = some fs }, none)
      ]

  unfoldable pub validate : Config → Config × Option GoError
  unfolding validate_path validate_pii validate_filter
  validate cfg = elim (validate_path cfg) [
    | err e ↦ (cfg, some e)
    | ok placed ↦
        let (with_pii, e) = validate_pii placed in
        elim e [ some bad ↦ (with_pii, some bad) | none ↦ validate_filter with_pii ]
  ]
