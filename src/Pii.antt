-- ===== src/Pii.antt =====
-- pii.go and `pii_gather` of platform_unix.go and platform_windows.go: what may identify a user is
-- added to a dataset only where the settings ask for it.
pub mod Gather
use trace2receiver.Common.{
  String, Bool, Option, none, some, insert, string_eq, Result, ok, err, if◌then◌else◌,
}
use trace2receiver.Dataset.{Trace2Dataset}
use trace2receiver.Filter.Settings.{Yml, parse_yml_file}
use trace2receiver.Emit.Keys

pub record PiiInclude : Type 0 where
  pub hostname : Bool
  pub username : Bool

pub record PiiSettings : Type 0 where
  pub include : PiiInclude

-- The decoder of the settings: yaml.Unmarshal with mapstructure.Decode.
abbrev pub DecodePii : Type 0
DecodePii = String → Result PiiSettings

unfoldable pub parse_pii_from_buffer : DecodePii → String → String → Result PiiSettings
parse_pii_from_buffer decode text path = decode text

unfoldable pub parse_pii_file : Yml → DecodePii → String → Result PiiSettings
unfolding parse_pii_from_buffer
parse_pii_file yml decode path = parse_yml_file yml path (parse_pii_from_buffer decode)

-- `if x, err := …; err == nil { tr2.pii[key] = x }`
abbrev put_pii : String → Result String → Trace2Dataset → Trace2Dataset
put_pii key (err e) tr2 = tr2
put_pii key (ok value) tr2 = record tr2 { pii = insert key value tr2.pii }

-- The name of the host, as os.Hostname gives it, and that of the user at the other end of the
-- connection: getPeerUsername on Unix, user.Current on Windows.
unfoldable pub pii_gather :
    Option PiiSettings → Result String → Result String → Trace2Dataset → Trace2Dataset
pii_gather none host user tr2 = tr2
pii_gather (some settings) host user tr2 =
    let named =
      if settings.include.hostname then put_pii Keys.trace2_pii_hostname host tr2 else tr2 in
    if settings.include.username then put_pii Keys.trace2_pii_username user named else named
