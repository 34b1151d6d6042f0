-- ===== src/Common/Text.antt =====
-- The functions of Go's `bytes`, `strings` and `filepath` packages that the program calls, over
-- the code points of a text. Paths are those of Unix, with `/` as the only separator.
use Prim.Native.Nat.{ℕ}
use Prim.Native.Char.{Char, code}
use Prim.Native.String.{String, [], ◌∷◌}
use mathlib.Core.Bool.{Bool, false, ◌&&◌, ◌||◌}
use mathlib.Core.Option.{Option, none, some}
use mathlib.Core.List.{List, [], ◌∷◌}
use trace2receiver.Common.Tests.{leb, eqb, if◌then◌else◌}
use trace2receiver.Common.Equality.{◌==◌, string_eq}

abbrev pub is_code : ℕ → Char → Bool
is_code n c = eqb (code c) n

-- strings.Map
unfoldable pub map_text : (Char → Char) → String → String
map_text f [] = []
map_text f (c ∷ s) = f c ∷ map_text f s

-- strings.Replace of a text of one character by another, everywhere.
unfoldable pub replace_char : ℕ → Char → String → String
replace_char old new [] = []
replace_char old new (c ∷ s) = (if is_code old c then new else c) ∷ replace_char old new s

-- strings.CutPrefix: the text behind the prefix, or `none` where it is not one.
unfoldable pub cut_prefix : String → String → Option String
cut_prefix s [] = some s
cut_prefix [] (p ∷ ps) = none
cut_prefix (c ∷ s) (p ∷ ps) = if is_code (code p) c then cut_prefix s ps else none

-- strings.HasSuffix
unfoldable pub has_suffix : String → String → Bool
has_suffix [] t = [] == t
has_suffix (c ∷ s) t = (c ∷ s) == t || has_suffix s t

-- strings.TrimSuffix
unfoldable pub trim_suffix : String → String → String
trim_suffix [] t = []
trim_suffix (c ∷ s) t = if (c ∷ s) == t then [] else c ∷ trim_suffix s t

abbrev push_head : Char → List String → List String
push_head c [] = (c ∷ []) ∷ []
push_head c (part ∷ parts) = (c ∷ part) ∷ parts

-- strings.Split at "/": always at least one part.
unfoldable pub split_slash : String → List String
split_slash [] = [] ∷ []
split_slash (c ∷ s) =
    let parts = split_slash s in if is_code b'/' c then [] ∷ parts else push_head c parts

-- unicode.IsSpace
abbrev pub is_space : Char → Bool
is_space c =
    let n = code c in
    leb 9 n && leb n 13
    || eqb n 0x20
    || eqb n 0x85
    || eqb n 0xa0
    || eqb n 0x1680
    || leb 0x2000 n && leb n 0x200a
    || eqb n 0x2028
    || eqb n 0x2029
    || eqb n 0x202f
    || eqb n 0x205f
    || eqb n 0x3000

unfoldable pub trim_left : (Char → Bool) → String → String
trim_left p [] = []
trim_left p (c ∷ s) = let rest = trim_left p s in if p c then rest else c ∷ s

unfoldable pub trim_right : (Char → Bool) → String → String
trim_right p [] = []
trim_right p (c ∷ s) = let rest = trim_right p s in if p c && rest == [] then [] else c ∷ rest

-- bytes.TrimSpace
unfoldable pub trim_space : String → String
unfolding trim_left trim_right
trim_space s = trim_right is_space (trim_left is_space s)

abbrev last_part : List String → String
last_part [] = []
last_part (part ∷ []) = part
last_part (part ∷ next ∷ parts) = last_part (next ∷ parts)

-- filepath.Base
unfoldable pub base : String → String
unfolding trim_right split_slash
base s =
    let name = last_part (split_slash (trim_right (is_code b'/') s)) in
    if s == [] then "." else if name == [] then "/" else name

has_slash : String → Bool
has_slash [] = false
has_slash (c ∷ s) = is_code b'/' c || has_slash s

-- filepath.Ext: from the last dot of the last path element.
unfoldable pub ext : String → String
unfolding has_slash
ext [] = []
ext (c ∷ s) =
    let rest = ext s in
    if has_slash s then rest else if rest == [] && is_code b'.' c then c ∷ s else rest
