-- ===== src/Apply/Names.antt =====
-- The display names of evt_apply.go. A failed type assertion, an index out of range and a nil
-- pointer are panics.
use Prim.Native.Char.{Char}
use trace2receiver.Common.{
  ℕ, String, ◌<>◌, List, Option, none, some, length, get_elem?, ltb, string_eq, ◌==◌, ◌||◌,
  if◌then◌else◌, Go, ret,
}
use trace2receiver.Common.Panics.{◌>>=◌, deref, at_index}
use trace2receiver.Common.Text.{map_text, replace_char, has_suffix, base}
use trace2receiver.Json.{Value}
use trace2receiver.Event.{TrEventChildStart, TrEventExec, TrEventRegionEnter}
use trace2receiver.Apply.Effect.{as_string}
use trace2receiver.Runtime.{Runtime}

-- The branch of "cred" for a single argument.
cred_name : String → String
cred_name argv0 =
    if has_suffix argv0 "get"
    then "child(cred:get)"
    else if has_suffix argv0 "store"
    then "child(cred:store)"
    else if has_suffix argv0 "erase"
    then "child(cred:erase)"
    else "child(cred:unknown)"

-- argv[i].(string)
unfoldable pub string_arg : List Value → ℕ → Go String
string_arg argv i = do v ← at_index (get_elem? argv i); as_string v

-- The name of a credential manager, by its second argument or the end of its only one.
unfoldable pub cred_display_name : List Value → Go String
unfolding cred_name
cred_display_name argv =
    if ltb 1 (length argv)
    then (do arg ← string_arg argv 1; ret ("child(cred:" <> arg <> ")"))
    else (do arg ← string_arg argv 0; ret (cred_name arg))

unfoldable pub make_child_display_name : TrEventChildStart → Go String
make_child_display_name cs =
    let class = cs.mf_child_class in
    if class == "editor" || class == "pager"
    then ret ("child(class:" <> class <> ")")
    else if class == "hook"
    then (do name ← deref cs.pmf_hook_name; ret ("child(hook:" <> name <> ")"))
    else if class == "git_alias"
    then ret "child(alias:git)"
    else if class == "shell_alias"
    then ret "child(alias:shell)"
    else if class == "dashed"
    then (do arg ← string_arg cs.mf_argv 0; ret ("child(dashed:" <> arg <> ")"))
    else if class == "cred"
    then cred_display_name cs.mf_argv
    else if class == "?"
    then ret "child(class:unknown)"
    else ret ("child(class:" <> class <> ")")

unfoldable pub make_exec_display_name : TrEventExec → Go String
make_exec_display_name ex = elim ex.pmf_exe [
  | some exe ↦ ret ("exec(" <> base exe <> ")")
  | none ↦
      if ltb 0 (length ex.mf_argv)
      then (do arg ← string_arg ex.mf_argv 0; ret ("exec(" <> base arg <> ")"))
      else ret "exec(?)"
]

abbrev underscore : Char
underscore = "_"

module _ (rt : Runtime) where
  unfoldable pub normalize_for_region_display_name : String → String
  normalize_for_region_display_name value = map_text rt.lower (
      replace_char b')' underscore (
        replace_char b'(' underscore (
          replace_char b':' underscore (
            replace_char b',' underscore (
              replace_char b'.' underscore
                (replace_char b'-' underscore (replace_char b' ' underscore value)))))))

  part_name : Option String → String → String
  part_name none absent = absent
  part_name (some value) absent = normalize_for_region_display_name value

  unfoldable pub make_region_display_name : TrEventRegionEnter → String
  unfolding part_name normalize_for_region_display_name
  make_region_display_name re =
      "region(" <> part_name re.pmf_category "C" <> "," <> part_name re.pmf_label "L" <> ")"
