-- ===== src/Version.antt =====
-- version.go: the version of the receiver, from the build information of the executable.
use Prim.Native.String.{[], ◌∷◌}
use trace2receiver.Common.{
  String, Bool, true, false, List, [], ◌∷◌, Option, none, some, if◌then◌else◌,
}
use trace2receiver.Common.Text.{cut_prefix}

-- strings.Contains
unfoldable pub contains : String → String → Bool
contains [] t = elim (cut_prefix "" t) [ some _ ↦ true | none ↦ false ]
contains (c ∷ s) t = elim (cut_prefix (c ∷ s) t) [ some _ ↦ true | none ↦ contains s t ]

abbrev pub default_version : String
default_version = "v0.0.0-unset"

-- The paths and versions of the modules that the executable is built from.
unfoldable pub find_version : List (String × String) → String
unfolding contains
find_version [] = default_version
find_version ((path, version) ∷ more) =
    if contains path "trace2receiver" then version else find_version more

-- init, with the result of debug.ReadBuildInfo.
unfoldable pub trace2_receiver_version : Option (List (String × String)) → String
unfolding find_version
trace2_receiver_version none = default_version
trace2_receiver_version (some deps) = find_version deps
