-- ===== src/NilSafe/Entry/Work.antt =====
-- The events about children, threads, exec and regions.
use trace2receiver.Common.{some, lookup, string_eq}
use trace2receiver.Runtime.{Runtime}
use trace2receiver.Extract.Work.{
  extract_keys_child_start, extract_keys_child_exit, extract_keys_child_ready,
  extract_keys_thread_start, extract_keys_thread_exit, extract_keys_exec, extract_keys_exec_result,
  extract_keys_region_enter, extract_keys_region_leave, extract_keys_data, extract_keys_data_json,
}
use trace2receiver.Parse.{ekm, run_extractor}
use trace2receiver.Apply.{applymap}
use trace2receiver.NilSafe.Present.{
  child_exit_present, child_ready_present, child_start_present, data_json_present, data_present,
  exec_present, exec_result_present, region_enter_present, region_leave_present,
  thread_exit_present, thread_start_present,
}
use trace2receiver.NilSafe.Work.{
  child_exit_safe, child_ready_safe, exec_result_safe, region_leave_safe, data_generic_safe,
  thread_exit_safe, child_start_safe, thread_start_safe, exec_safe, region_enter_safe,
}
use trace2receiver.NilSafe.Entry.{Entry}

module _ (rt : Runtime) where
  pub child_start-Entry : Entry rt "child_start" (some (extract_keys_child_start rt))
  unfolding ekm applymap lookup run_extractor
  child_start-Entry evt jm evt' h = (
    (child_start_present rt evt jm h).0,
    λ tr2.
        child_start_safe rt tr2 evt' (child_start_present rt evt jm h).1
          (child_start_present rt evt jm h).2,
  )

  pub child_exit-Entry : Entry rt "child_exit" (some (extract_keys_child_exit rt))
  unfolding ekm applymap lookup run_extractor
  child_exit-Entry evt jm evt' h = (
    (child_exit_present rt evt jm h).0,
    λ tr2. child_exit_safe tr2 evt' (child_exit_present rt evt jm h).1,
  )

  pub child_ready-Entry : Entry rt "child_ready" (some (extract_keys_child_ready rt))
  unfolding ekm applymap lookup run_extractor
  child_ready-Entry evt jm evt' h = (
    (child_ready_present rt evt jm h).0,
    λ tr2. child_ready_safe tr2 evt' (child_ready_present rt evt jm h).1,
  )

  pub thread_start-Entry : Entry rt "thread_start" (some (extract_keys_thread_start rt))
  unfolding ekm applymap lookup run_extractor
  thread_start-Entry evt jm evt' h =
      (thread_start_present rt evt jm h, λ tr2. thread_start_safe rt tr2 evt')

  pub thread_exit-Entry : Entry rt "thread_exit" (some (extract_keys_thread_exit rt))
  unfolding ekm applymap lookup run_extractor
  thread_exit-Entry evt jm evt' h =
      (thread_exit_present rt evt jm h, λ tr2. thread_exit_safe tr2 evt')

  pub exec-Entry : Entry rt "exec" (some (extract_keys_exec rt))
  unfolding ekm applymap lookup run_extractor
  exec-Entry evt jm evt' h =
      ((exec_present rt evt jm h).0, λ tr2. exec_safe rt tr2 evt' (exec_present rt evt jm h).1)

  pub exec_result-Entry : Entry rt "exec_result" (some (extract_keys_exec_result rt))
  unfolding ekm applymap lookup run_extractor
  exec_result-Entry evt jm evt' h = (
    (exec_result_present rt evt jm h).0,
    λ tr2. exec_result_safe tr2 evt' (exec_result_present rt evt jm h).1,
  )

  pub region_enter-Entry : Entry rt "region_enter" (some (extract_keys_region_enter rt))
  unfolding ekm applymap lookup run_extractor
  region_enter-Entry evt jm evt' h = (
    (region_enter_present rt evt jm h).0,
    λ tr2. region_enter_safe rt tr2 evt' (region_enter_present rt evt jm h).1,
  )

  pub region_leave-Entry : Entry rt "region_leave" (some (extract_keys_region_leave rt))
  unfolding ekm applymap lookup run_extractor
  region_leave-Entry evt jm evt' h = (
    (region_leave_present rt evt jm h).0,
    λ tr2. region_leave_safe tr2 evt' (region_leave_present rt evt jm h).1,
  )

  pub data-Entry : Entry rt "data" (some (extract_keys_data rt))
  unfolding ekm applymap lookup run_extractor
  data-Entry evt jm evt' h =
      ((data_present rt evt jm h).0, λ tr2. data_generic_safe tr2 evt' (data_present rt evt jm h).1)

  pub data_json-Entry : Entry rt "data_json" (some (extract_keys_data_json rt))
  unfolding ekm applymap lookup run_extractor
  data_json-Entry evt jm evt' h = (
    (data_json_present rt evt jm h).0,
    λ tr2. data_generic_safe tr2 evt' (data_json_present rt evt jm h).1,
  )
