-- ===== src/Config/Paths.antt =====
-- The spellings of a socket's path, and the paths of named pipes.
use Prim.Native.String.{[], ◌∷◌}
use Prim.Native.String.append
use Prim.Native.Char.{code}
use trace2receiver.Common.{
  ◌≡◌, refl, arith, String, ◌<>◌, none, some, Result, ok, err, error_text, true, eqb, eqb_iff, ◌∙◌,
}
use trace2receiver.Common.Text.{cut_prefix}
use trace2receiver.Config.{normalize_uds_path}

cut_prefix-append : (a s b : String) → cut_prefix (a <> s) (a <> b) ≡ cut_prefix s b
unfolding cut_prefix
cut_prefix-append [] s b = rw (append.nil s, append.nil b) refl
cut_prefix-append (c ∷ a) s b =
    let same : eqb (code c) (code c) ≡ true = (eqb_iff (code c) (code c)).1 refl in
    rw (append.cons c a s, append.cons c a b) (rw same (cut_prefix-append a s b))

cut_prefix-longer : (s a b : String) → cut_prefix s a ≡ none → cut_prefix s (a <> b) ≡ none
unfolding cut_prefix
cut_prefix-longer s [] b h = cc
cut_prefix-longer [] (d ∷ a) b h = rw (append.cons d a b) refl
cut_prefix-longer (c ∷ s) (d ∷ a) b h =
    rw (append.cons d a b) (ground (arith, h, cut_prefix-longer s a b))

cut_prefix_self : (a s : String) → cut_prefix (a <> s) a ≡ some s
unfolding cut_prefix
cut_prefix_self [] s = rw (append.nil s) refl
cut_prefix_self (c ∷ a) s =
    let same : eqb (code c) (code c) ≡ true = (eqb_iff (code c) (code c)).1 refl in
    rw (append.cons c a s) (rw same (cut_prefix_self a s))

-- The ways to write a path: bare, or as in the environment variable of Git.
pub data Spelling : Type 0 where
  bare any stream dgram : Spelling

abbrev pub spelled : Spelling → String → String
spelled bare path = path
spelled any path = "af_unix:" <> path
spelled stream path = "af_unix:" <> ("stream:" <> path)
spelled dgram path = "af_unix:" <> ("dgram:" <> path)

-- What the receiver makes of them.
abbrev pub meant : Spelling → String → Result String
meant dgram path = err (error_text "SOCK_DGRAM sockets are not supported")
meant _ path = ok path

-- The path has no prefix of its own.
abbrev pub IsPlain : String → Type 0
IsPlain path =
    (cut_prefix path "af_unix:" ≡ none)
    × (cut_prefix path "stream:" ≡ none)
    × (cut_prefix path "dgram:" ≡ none)

stream_of_dgram : (path : String) → cut_prefix ("dgram:" <> path) "stream:" ≡ none
unfolding cut_prefix
stream_of_dgram path = rw (append.cons "d" "gram:" path) refl

-- A path without a prefix of its own is found again behind each spelling of it that the receiver
-- supports, and the spelling of a datagram socket is refused.
pub normalize_uds_path-spelled :
    (spelling : Spelling) (path : String)
    → IsPlain path
    → normalize_uds_path (spelled spelling path) ≡ meant spelling path
unfolding normalize_uds_path
normalize_uds_path-spelled bare path h =
    let not_stream : cut_prefix path "af_unix:stream:" ≡ none =
      cut_prefix-longer path "af_unix:" "stream:" h.0 in
    let not_dgram : cut_prefix path "af_unix:dgram:" ≡ none =
      cut_prefix-longer path "af_unix:" "dgram:" h.0 in
    rw (not_stream, normalize_uds_path, not_dgram, h.0) refl
normalize_uds_path-spelled any path h =
    let not_stream : cut_prefix ("af_unix:" <> path) "af_unix:stream:" ≡ none =
      cut_prefix-append "af_unix:" path "stream:" ∙ h.1 in
    let not_dgram : cut_prefix ("af_unix:" <> path) "af_unix:dgram:" ≡ none =
      cut_prefix-append "af_unix:" path "dgram:" ∙ h.2 in
    rw (not_stream, normalize_uds_path, not_dgram, cut_prefix_self "af_unix:" path) refl
normalize_uds_path-spelled stream path h =
    let is_stream : cut_prefix ("af_unix:" <> ("stream:" <> path)) "af_unix:stream:" ≡ some path =
      cut_prefix-append "af_unix:" ("stream:" <> path) "stream:" ∙ cut_prefix_self "stream:" path in
    rw (is_stream, normalize_uds_path) refl
normalize_uds_path-spelled dgram path h =
    let not_stream : cut_prefix ("af_unix:" <> ("dgram:" <> path)) "af_unix:stream:" ≡ none =
      cut_prefix-append "af_unix:" ("dgram:" <> path) "stream:" ∙ stream_of_dgram path in
    let is_dgram : cut_prefix ("af_unix:" <> ("dgram:" <> path)) "af_unix:dgram:" ≡ some path =
      cut_prefix-append "af_unix:" ("dgram:" <> path) "dgram:" ∙ cut_prefix_self "dgram:" path in
    rw (not_stream, normalize_uds_path, is_dgram) refl
