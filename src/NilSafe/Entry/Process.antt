-- ===== src/NilSafe/Entry/Process.antt =====
-- The events about the process as a whole, the timers and the counters.
use trace2receiver.Common.{some, lookup, string_eq}
use trace2receiver.Runtime.{Runtime}
use trace2receiver.Extract.Process.{
  extract_keys_version, extract_keys_start, extract_keys_atexit, extract_keys_signal,
  extract_keys_error, extract_keys_cmd_path, extract_keys_cmd_ancestry, extract_keys_cmd_name,
  extract_keys_cmd_mode, extract_keys_alias, extract_keys_def_param, extract_keys_def_repo,
}
use trace2receiver.Extract.Work.{extract_keys_timer, extract_keys_counter}
use trace2receiver.Parse.{ekm, run_extractor}
use trace2receiver.Apply.Process.{apply_cmd_path}
use trace2receiver.Apply.{applymap}
use trace2receiver.NilSafe.Present.{
  alias_present, atexit_present, cmd_ancestry_present, cmd_mode_present, cmd_name_present,
  cmd_path_present, counter_present, def_param_present, def_repo_present, error_present,
  signal_present, start_present, timer_present, version_present,
}
use trace2receiver.NilSafe.Process.{
  version_safe, def_repo_safe, start_safe, atexit_safe, signal_safe, error_safe, cmd_ancestry_safe,
  cmd_name_safe, cmd_mode_safe, alias_safe, def_param_safe, timer_safe, th_timer_safe, counter_safe,
  th_counter_safe,
}
use trace2receiver.NilSafe.Entry.{Entry}

module _ (rt : Runtime) where
  pub version-Entry : Entry rt "version" (some (extract_keys_version rt))
  unfolding ekm applymap lookup run_extractor
  version-Entry evt jm evt' h = (
    (version_present rt evt jm h).0,
    λ tr2. version_safe tr2 evt' rt (version_present rt evt jm h).1,
  )

  pub start-Entry : Entry rt "start" (some (extract_keys_start rt))
  unfolding ekm applymap lookup run_extractor
  start-Entry evt jm evt' h =
      ((start_present rt evt jm h).0, λ tr2. start_safe tr2 evt' (start_present rt evt jm h).1)

  pub exit-Entry : Entry rt "exit" (some (extract_keys_atexit rt))
  unfolding ekm applymap lookup run_extractor
  exit-Entry evt jm evt' h =
      ((atexit_present rt evt jm h).0, λ tr2. atexit_safe tr2 evt' (atexit_present rt evt jm h).1)

  pub atexit-Entry : Entry rt "atexit" (some (extract_keys_atexit rt))
  unfolding ekm applymap lookup run_extractor
  atexit-Entry evt jm evt' h =
      ((atexit_present rt evt jm h).0, λ tr2. atexit_safe tr2 evt' (atexit_present rt evt jm h).1)

  pub signal-Entry : Entry rt "signal" (some (extract_keys_signal rt))
  unfolding ekm applymap lookup run_extractor
  signal-Entry evt jm evt' h =
      ((signal_present rt evt jm h).0, λ tr2. signal_safe tr2 evt' (signal_present rt evt jm h).1)

  pub error-Entry : Entry rt "error" (some (extract_keys_error rt))
  unfolding ekm applymap lookup run_extractor
  error-Entry evt jm evt' h =
      ((error_present rt evt jm h).0, λ tr2. error_safe tr2 evt' (error_present rt evt jm h).1)

  pub cmd_path-Entry : Entry rt "cmd_path" (some (extract_keys_cmd_path rt))
  unfolding ekm applymap lookup run_extractor apply_cmd_path
  cmd_path-Entry evt jm evt' h = (cmd_path_present rt evt jm h, λ tr2. tt)

  pub cmd_ancestry-Entry : Entry rt "cmd_ancestry" (some (extract_keys_cmd_ancestry rt))
  unfolding ekm applymap lookup run_extractor
  cmd_ancestry-Entry evt jm evt' h = (
    (cmd_ancestry_present rt evt jm h).0,
    λ tr2. cmd_ancestry_safe tr2 evt' (cmd_ancestry_present rt evt jm h).1,
  )

  pub cmd_name-Entry : Entry rt "cmd_name" (some (extract_keys_cmd_name rt))
  unfolding ekm applymap lookup run_extractor
  cmd_name-Entry evt jm evt' h = (
    (cmd_name_present rt evt jm h).0,
    λ tr2. cmd_name_safe tr2 evt' (cmd_name_present rt evt jm h).1,
  )

  pub cmd_mode-Entry : Entry rt "cmd_mode" (some (extract_keys_cmd_mode rt))
  unfolding ekm applymap lookup run_extractor
  cmd_mode-Entry evt jm evt' h = (
    (cmd_mode_present rt evt jm h).0,
    λ tr2. cmd_mode_safe tr2 evt' (cmd_mode_present rt evt jm h).1,
  )

  pub alias-Entry : Entry rt "alias" (some (extract_keys_alias rt))
  unfolding ekm applymap lookup run_extractor
  alias-Entry evt jm evt' h =
      ((alias_present rt evt jm h).0, λ tr2. alias_safe tr2 evt' (alias_present rt evt jm h).1)

  pub def_param-Entry : Entry rt "def_param" (some (extract_keys_def_param rt))
  unfolding ekm applymap lookup run_extractor
  def_param-Entry evt jm evt' h = (
    (def_param_present rt evt jm h).0,
    λ tr2. def_param_safe tr2 evt' (def_param_present rt evt jm h).1,
  )

  pub def_repo-Entry : Entry rt "def_repo" (some (extract_keys_def_repo rt))
  unfolding ekm applymap lookup run_extractor
  def_repo-Entry evt jm evt' h = (
    (def_repo_present rt evt jm h).0,
    λ tr2. def_repo_safe tr2 evt' (def_repo_present rt evt jm h).1 (def_repo_present rt evt jm h).2,
  )

  pub timer-Entry : Entry rt "timer" (some (extract_keys_timer rt))
  unfolding ekm applymap lookup run_extractor
  timer-Entry evt jm evt' h =
      ((timer_present rt evt jm h).0, λ tr2. timer_safe tr2 evt' (timer_present rt evt jm h).1)

  pub th_timer-Entry : Entry rt "th_timer" (some (extract_keys_timer rt))
  unfolding ekm applymap lookup run_extractor
  th_timer-Entry evt jm evt' h =
      ((timer_present rt evt jm h).0, λ tr2. th_timer_safe tr2 evt' (timer_present rt evt jm h).1)

  pub counter-Entry : Entry rt "counter" (some (extract_keys_counter rt))
  unfolding ekm applymap lookup run_extractor
  counter-Entry evt jm evt' h = (
    (counter_present rt evt jm h).0,
    λ tr2. counter_safe tr2 evt' (counter_present rt evt jm h).1,
  )

  pub th_counter-Entry : Entry rt "th_counter" (some (extract_keys_counter rt))
  unfolding ekm applymap lookup run_extractor
  th_counter-Entry evt jm evt' h = (
    (counter_present rt evt jm h).0,
    λ tr2. th_counter_safe tr2 evt' (counter_present rt evt jm h).1,
  )
