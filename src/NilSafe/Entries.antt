-- ===== src/NilSafe/Entries.antt =====
-- The two tables of events agree: the function that an event's extractor is paired with reads only
-- the pointers that the extractor sets.
use mathlib.Core.Option.{some-ne-none}
use trace2receiver.Common.{◌≢◌, arith, String, Option, none, All, lookup, string_eq}
use trace2receiver.Runtime.{Runtime}
use trace2receiver.Parse.{FnExtractKeys, ekm, run_extractor}
use trace2receiver.Apply.Effect.{FnApply}
use trace2receiver.Apply.{applymap}
use trace2receiver.NilSafe.Entry.{Entry}
use trace2receiver.NilSafe.Entry.Process.{
  version-Entry, start-Entry, exit-Entry, atexit-Entry, signal-Entry, error-Entry, cmd_path-Entry,
  cmd_ancestry-Entry, cmd_name-Entry, cmd_mode-Entry, alias-Entry, def_param-Entry, def_repo-Entry,
  timer-Entry, th_timer-Entry, counter-Entry, th_counter-Entry,
}
use trace2receiver.NilSafe.Entry.Work.{
  child_start-Entry, child_exit-Entry, child_ready-Entry, thread_start-Entry, thread_exit-Entry,
  exec-Entry, exec_result-Entry, region_enter-Entry, region_leave-Entry, data-Entry,
  data_json-Entry,
}

module _ (rt : Runtime) where
  too_many_files-Entry : Entry rt "too_many_files" none
  unfolding ekm applymap lookup run_extractor
  too_many_files-Entry evt jm evt' h = (ground arith, λ tr2. tt)

  pub ekm_entries : All (λ (x : String × Option FnExtractKeys). Entry rt x.0 x.1) (ekm rt)
  unfolding ekm
  ekm_entries = (
    version-Entry rt,
    (
      start-Entry rt,
      (
        exit-Entry rt,
        (
          atexit-Entry rt,
          (
            signal-Entry rt,
            (
              error-Entry rt,
              (
                cmd_path-Entry rt,
                (
                  cmd_ancestry-Entry rt,
                  (
                    cmd_name-Entry rt,
                    (
                      cmd_mode-Entry rt,
                      (
                        alias-Entry rt,
                        (
                          child_start-Entry rt,
                          (
                            child_exit-Entry rt,
                            (
                              child_ready-Entry rt,
                              (
                                thread_start-Entry rt,
                                (
                                  thread_exit-Entry rt,
                                  (
                                    exec-Entry rt,
                                    (
                                      exec_result-Entry rt,
                                      (
                                        def_param-Entry rt,
                                        (
                                          def_repo-Entry rt,
                                          (
                                            region_enter-Entry rt,
                                            (
                                              region_leave-Entry rt,
                                              (
                                                data-Entry rt,
                                                (
                                                  data_json-Entry rt,
                                                  (
                                                    timer-Entry rt,
                                                    (
                                                      th_timer-Entry rt,
                                                      (
                                                        counter-Entry rt,
                                                        (
                                                          th_counter-Entry rt,
                                                          (too_many_files-Entry, tt),
                                                        ),
                                                      ),
                                                    ),
                                                  ),
                                                ),
                                              ),
                                            ),
                                          ),
                                        ),
                                      ),
                                    ),
                                  ),
                                ),
                              ),
                            ),
                          ),
                        ),
                      ),
                    ),
                  ),
                ),
              ),
            ),
          ),
        ),
      ),
    ),
  )

  -- Every event that is applied is parsed.
  pub ekm_covers_applymap : All (λ (x : String × FnApply). lookup x.0 (ekm rt) ≢ none) (applymap rt)
  unfolding ekm applymap lookup
  ekm_covers_applymap = (
    some-ne-none _,
    (
      some-ne-none _,
      (
        some-ne-none _,
        (
          some-ne-none _,
          (
            some-ne-none _,
            (
              some-ne-none _,
              (
                some-ne-none _,
                (
                  some-ne-none _,
                  (
                    some-ne-none _,
                    (
                      some-ne-none _,
                      (
                        some-ne-none _,
                        (
                          some-ne-none _,
                          (
                            some-ne-none _,
                            (
                              some-ne-none _,
                              (
                                some-ne-none _,
                                (
                                  some-ne-none _,
                                  (
                                    some-ne-none _,
                                    (
                                      some-ne-none _,
                                      (
                                        some-ne-none _,
                                        (
                                          some-ne-none _,
                                          (
                                            some-ne-none _,
                                            (
                                              some-ne-none _,
                                              (
                                                some-ne-none _,
                                                (
                                                  some-ne-none _,
                                                  (
                                                    some-ne-none _,
                                                    (
                                                      some-ne-none _,
                                                      (some-ne-none _, (some-ne-none _, tt)),
                                                    ),
                                                  ),
                                                ),
                                              ),
                                            ),
                                          ),
                                        ),
                                      ),
                                    ),
                                  ),
                                ),
                              ),
                            ),
                          ),
                        ),
                      ),
                    ),
                  ),
                ),
              ),
            ),
          ),
        ),
      ),
    ),
  )
