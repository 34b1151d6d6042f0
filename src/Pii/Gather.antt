-- ===== src/Pii/Gather.antt =====
-- What is gathered.
use trace2receiver.Common.{
  ◌≡◌, arith, String, Bool, [], ◌∷◌, ◌++◌, Option, none, some, Dict, insert, string_eq, Result, ok,
  err, if◌then◌else◌,
}
use trace2receiver.Dataset.{Trace2Dataset}
use trace2receiver.Pii.{PiiSettings, pii_gather}
use trace2receiver.Emit.Keys

-- A name that was asked for and found.
abbrev pub asked : Bool → String → Result String → Dict String String
asked wanted key (err e) = []
asked wanted key (ok value) = if wanted then (key, value) ∷ [] else []

abbrev pub asked_for : Option PiiSettings → Result String → Result String → Dict String String
asked_for none host user = []
asked_for (some settings) host user =
    asked settings.include.hostname Keys.trace2_pii_hostname host
    ++ asked settings.include.username Keys.trace2_pii_username user

-- Gathering for a dataset that has nothing yet adds the names that the settings ask for and that
-- can be found, each under its key, and nothing else, and changes nothing else in the dataset.
pub pii_gather-asked_for :
    (settings : Option PiiSettings) (host user : Result String) (tr2 : Trace2Dataset)
    → tr2.pii ≡ []
    → pii_gather settings host user tr2 ≡ record tr2 { pii = asked_for settings host user }
unfolding pii_gather insert
pii_gather-asked_for settings host user tr2 fresh = ground arith
