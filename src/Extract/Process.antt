-- ===== src/Extract/Process.antt =====
-- The extractors of evt_parse.go for the events about the process as a whole.
use trace2receiver.Common.{String, ℤ, Option, none, some, Result, ok, err, error_text}
use trace2receiver.Common.Fallible.{◌>>=◌}
use trace2receiver.Json.{Jmap}
use trace2receiver.Jmap.{
  get_required_string, get_required_array, get_required_int64, get_optional_string,
}
use trace2receiver.Event.{TrEvent}
use trace2receiver.Runtime.{Runtime}

module _ (rt : Runtime) where
  unfoldable pub extract_keys_version : TrEvent → Jmap → Result TrEvent
  extract_keys_version evt jm = do
    evt_format ← get_required_string jm "evt"
    exe ← get_required_string jm "exe"
    ok (record evt { pm_version = some (record { mf_evt = evt_format; mf_exe = exe }) })

  unfoldable pub extract_keys_start : TrEvent → Jmap → Result TrEvent
  extract_keys_start evt jm = do
    argv ← get_required_array jm "argv"
    ok (record evt { pm_start = some (record { mf_argv = argv }) })

  unfoldable pub extract_keys_atexit : TrEvent → Jmap → Result TrEvent
  extract_keys_atexit evt jm = do
    code ← get_required_int64 rt jm "code"
    ok (record evt { pm_atexit = some (record { mf_code = code }) })

  unfoldable pub extract_keys_signal : TrEvent → Jmap → Result TrEvent
  extract_keys_signal evt jm = do
    signo ← get_required_int64 rt jm "signo"
    ok (record evt { pm_signal = some (record { mf_signo = signo }) })

  unfoldable pub extract_keys_error : TrEvent → Jmap → Result TrEvent
  extract_keys_error evt jm = do
    msg ← get_required_string jm "msg"
    fmt ← get_required_string jm "fmt"
    ok (record evt { pm_error = some (record { mf_msg = msg; mf_fmt = fmt }) })

  unfoldable pub extract_keys_cmd_path : TrEvent → Jmap → Result TrEvent
  extract_keys_cmd_path evt jm = do
    path ← get_required_string jm "path"
    ok (record evt { pm_cmd_path = some (record { mf_path = path }) })

  unfoldable pub extract_keys_cmd_ancestry : TrEvent → Jmap → Result TrEvent
  extract_keys_cmd_ancestry evt jm = do
    ancestry ← get_required_array jm "ancestry"
    ok (record evt { pm_cmd_ancestry = some (record { mf_ancestry = ancestry }) })

  unfoldable pub extract_keys_cmd_name : TrEvent → Jmap → Result TrEvent
  extract_keys_cmd_name evt jm = do
    name ← get_required_string jm "name"
    hierarchy ← get_required_string jm "hierarchy"
    ok (record evt { pm_cmd_name = some (record { mf_name = name; mf_hierarchy = hierarchy }) })

  unfoldable pub extract_keys_cmd_mode : TrEvent → Jmap → Result TrEvent
  extract_keys_cmd_mode evt jm = do
    name ← get_required_string jm "name"
    ok (record evt { pm_cmd_mode = some (record { mf_name = name }) })

  unfoldable pub extract_keys_alias : TrEvent → Jmap → Result TrEvent
  extract_keys_alias evt jm = do
    alias ← get_required_string jm "alias"
    argv ← get_required_array jm "argv"
    ok (record evt { pm_alias = some (record { mf_alias = alias; mf_argv = argv }) })

  unfoldable pub extract_keys_def_param : TrEvent → Jmap → Result TrEvent
  extract_keys_def_param evt jm = do
    param ← get_required_string jm "param"
    value ← get_required_string jm "value"
    scope ← get_optional_string jm "scope"
    ok (record evt {
      pm_def_param = some (record { mf_param = param; mf_value = value; pmf_scope = scope });
    })

  -- "repo" is optional among the common fields and required here.
  unfoldable pub worktree_of : Option ℤ → Jmap → Result String
  worktree_of none jm = err (error_text "key 'repo' is not present in Trace2 event")
  worktree_of (some repo) jm = get_required_string jm "worktree"

  unfoldable pub extract_keys_def_repo : TrEvent → Jmap → Result TrEvent
  unfolding worktree_of
  extract_keys_def_repo evt jm = do
    worktree ← worktree_of evt.pmf_repo jm
    ok (record evt { pm_def_repo = some (record { mf_worktree = worktree }) })
