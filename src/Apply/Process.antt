-- ===== src/Apply/Process.antt =====
-- The functions `apply__*` of evt_apply.go for the events about the process as a whole, with
-- `IsFSMonitorDaemon` of reject_client.go and `extractIDsfromSID` of trace2sids.go.
pub mod Params
use trace2receiver.Common.{
  ℕ, ◌-◌, ℤ, pos, add64, String, Bool, true, false, List, Option, none, some, length, take, drop,
  get_elem?, eqb, leb, lookup, insert, string_eq, int_eq, ◌==◌, if◌then◌else◌, GoError,
  reject_client_error, Go, ret,
}
use trace2receiver.Common.Panics.{◌>>=◌, deref, at_index}
use trace2receiver.Common.Text.{split_slash}
use trace2receiver.Event.{TrEvent}
use trace2receiver.Dataset.{Trace2Dataset, zero_span_id}
use trace2receiver.Apply.Effect.{FnApply, done}
use trace2receiver.Runtime.{Runtime, SpanId}

-- hash[16:24]
abbrev pub span_bits : List ℕ → SpanId
span_bits hash = take 8 (drop 16 hash)

module _ (rt : Runtime) where
  -- The ids, in the order of the source: trace, own span, parent span.
  unfoldable pub extract_ids_from_sid : String → Go (List ℕ × SpanId × SpanId)
  extract_ids_from_sid raw_sid = do
    let sid_array = split_slash raw_sid
    sid_0 ← at_index (get_elem? sid_array 0)
    let hash_0 = rt.sha256 sid_0
    let n = length sid_array - 1
    if eqb (length sid_array) 1 then ret (take 16 hash_0, span_bits hash_0, zero_span_id) else do
      sid_n1 ← at_index (get_elem? sid_array (n - 1))
      sid_n ← at_index (get_elem? sid_array n)
      ret (take 16 hash_0, span_bits (rt.sha256 sid_n), span_bits (rt.sha256 sid_n1))

  unfoldable pub apply_version : FnApply
  unfolding extract_ids_from_sid
  apply_version tr2 evt = do
    v ← deref evt.pm_version
    (tid, spid, parent) ← extract_ids_from_sid evt.mf_sid
    let main = tr2.process.main_thread
    let lifetime = record main.lifetime {
      self_span_id = spid;
      parent_span_id = parent;
      start_time = evt.mf_time;
      display_name = evt.mf_thread;
    }
    done (record tr2 {
      trace2_sid = evt.mf_sid;
      otel_trace_id = tid;
      process = record tr2.process {
        exe_version = v.mf_exe;
        evt_version = v.mf_evt;
        main_thread = record main { lifetime = lifetime };
      };
    })

unfoldable pub apply_start : FnApply
apply_start tr2 evt = do
  s ← deref evt.pm_start
  done (record tr2 { process = record tr2.process { cmd_argv = s.mf_argv } })

-- The end of the main thread and the exit code, of "exit", "atexit" and "signal".
end_process : Trace2Dataset → TrEvent → ℤ → Trace2Dataset
end_process tr2 evt code =
    let main = tr2.process.main_thread in
    record tr2 {
      process = record tr2.process {
        main_thread = record main { lifetime = record main.lifetime { end_time = evt.mf_time } };
        exe_exit_code = code;
      };
    }

unfoldable pub apply_atexit : FnApply
unfolding end_process
apply_atexit tr2 evt = do x ← deref evt.pm_atexit; done (end_process tr2 evt x.mf_code)

unfoldable pub apply_signal : FnApply
unfolding end_process add64
apply_signal tr2 evt = do
  x ← deref evt.pm_signal
  done (end_process tr2 evt (add64 (pos 128) x.mf_signo))

-- The event is read only where no message is held yet.
unfoldable pub apply_error : FnApply
apply_error tr2 evt =
    if tr2.process.exe_error_fmt == ""
    then (do
      e ← deref evt.pm_error
      done (record tr2 {
        process = record tr2.process { exe_error_fmt = e.mf_fmt; exe_error_msg = e.mf_msg };
      }))
    else done tr2

unfoldable pub apply_cmd_path : FnApply
apply_cmd_path tr2 evt = done tr2

unfoldable pub apply_cmd_ancestry : FnApply
apply_cmd_ancestry tr2 evt = do
  a ← deref evt.pm_cmd_ancestry
  done (record tr2 { process = record tr2.process { cmd_ancestry = a.mf_ancestry } })

unfoldable pub is_fsmonitor_daemon : String → Option GoError
is_fsmonitor_daemon verb =
    if verb == "fsmonitor--daemon"
    then some (reject_client_error "rejecting telemetry from fsmonitor--daemon" true)
    else none

unfoldable pub apply_cmd_name : FnApply
unfolding is_fsmonitor_daemon
apply_cmd_name tr2 evt = do
  c ← deref evt.pm_cmd_name
  elim (is_fsmonitor_daemon c.mf_name) [
    | some e ↦ ret (tr2, some e)
    | none ↦ done (record tr2 {
      process = record tr2.process { cmd_verb = c.mf_name; cmd_hierarchy = c.mf_hierarchy };
    })
  ]

unfoldable pub apply_cmd_mode : FnApply
apply_cmd_mode tr2 evt = do
  c ← deref evt.pm_cmd_mode
  done (record tr2 { process = record tr2.process { cmd_mode = c.mf_name } })

unfoldable pub apply_alias : FnApply
apply_alias tr2 evt = do
  a ← deref evt.pm_alias
  done (record tr2 {
    process = record tr2.process { cmd_alias_key = a.mf_alias; cmd_alias_value = a.mf_argv };
  })

unfoldable pub get_scope_priority : Option String → ℕ
get_scope_priority none = 100
get_scope_priority (some scope) =
    if scope == "system"
    then 1
    else if scope == "global"
    then 2
    else if scope == "local"
    then 3
    else if scope == "worktree"
    then 4
    else if scope == "command"
    then 5
    else if scope == "submodule"
    then 6
    else if scope == "unknown"
    then 7
    else 99

-- Is there a value already, of at least the new priority?
abbrev pub keeps_value : Option String → Option ℕ → ℕ → Bool
keeps_value (some _) (some current) new = leb new current
keeps_value _ _ new = false

unfoldable pub apply_def_param : FnApply
unfolding get_scope_priority
apply_def_param tr2 evt = do
  p ← deref evt.pm_def_param
  let values = tr2.process.param_set_values
  let priorities = tr2.process.param_set_priorities
  let new = get_scope_priority p.pmf_scope
  if keeps_value (lookup p.mf_param values) (lookup p.mf_param priorities) new
      then done tr2
      else done (record tr2 {
        process = record tr2.process {
          param_set_values = insert p.mf_param p.mf_value values;
          param_set_priorities = insert p.mf_param new priorities;
        };
      })

unfoldable pub apply_def_repo : FnApply
apply_def_repo tr2 evt = do
  repo_id ← deref evt.pmf_repo
  d ← deref evt.pm_def_repo
  done (record tr2 {
    process = record tr2.process { repo_set = insert repo_id d.mf_worktree tr2.process.repo_set };
  })
