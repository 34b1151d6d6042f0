-- ===== src/Prepare/Names.antt =====
-- `setQualifiedExeName`, `setQualifiedExeVerbName` and `setQualifiedExeVerbModeName` of
-- trace2dataset.go, with the paths of Unix.
use trace2receiver.Common.{
  ltb, String, ◌<>◌, length, string_eq, ◌==◌, ◌&&◌, not, if◌then◌else◌, Go, ret,
}
use trace2receiver.Common.Panics.{◌>>=◌}
use trace2receiver.Common.Text.{map_text, trim_suffix, base, ext}
use trace2receiver.Runtime.{Runtime}
use trace2receiver.Dataset.{TrProcess, QualifiedNames}
use trace2receiver.Apply.Names.{string_arg}

-- The last part of argv[0], without the extension `.exe` in any case.
unfoldable pub qualified_exe : Runtime → TrProcess → Go String
qualified_exe rt process = do
  argv_0 ← string_arg process.cmd_argv 0
  let exe_name = base argv_0
  let e = ext exe_name
  if not (e == "") && map_text rt.lower e == ".exe"
      then ret (trim_suffix exe_name e)
      else ret exe_name

-- A dashed form is known by its first argument; every other verb stands for itself.
unfoldable pub qualified_verb : TrProcess → Go String
qualified_verb process =
    if process.cmd_verb == "_run_dashed_"
    then if ltb 1 (length process.cmd_argv)
      then string_arg process.cmd_argv 1
      else ret "_run_dashed_"
    else ret process.cmd_verb

unfoldable pub qualified_exe_verb : TrProcess → String → Go String
unfolding qualified_verb
qualified_exe_verb process exe =
    if process.cmd_verb == ""
    then ret exe
    else (do verb ← qualified_verb process; ret (exe <> ":" <> verb))

unfoldable pub qualified_exe_verb_mode : TrProcess → String → String
qualified_exe_verb_mode process exe_verb =
    if process.cmd_mode == "" then exe_verb else exe_verb <> "#" <> process.cmd_mode

unfoldable pub qualified_names : Runtime → TrProcess → Go QualifiedNames
unfolding qualified_exe qualified_exe_verb qualified_exe_verb_mode
qualified_names rt process = do
  exe ← qualified_exe rt process
  exe_verb ← qualified_exe_verb process exe
  ret (record {
    exe = exe;
    exe_verb = exe_verb;
    exe_verb_mode = qualified_exe_verb_mode process exe_verb;
  })
