-- ===== src/Filter/Level.antt =====
-- fsdetaillevel.go: the detail levels, their names, and what each level wants emitted.
use trace2receiver.Common.{
  String, Bool, true, false, Option, none, some, ◌||◌, string_eq, ◌==◌, if◌then◌else◌, GoError,
  error_text,
}

pub data FilterDetailLevel : Type 0 where
  unset drop summary process verbose : FilterDetailLevel

abbrev pub drop_name : String
drop_name = "dl:drop"

abbrev pub summary_name : String
summary_name = "dl:summary"

abbrev pub process_name : String
process_name = "dl:process"

abbrev pub verbose_name : String
verbose_name = "dl:verbose"

abbrev pub default_name : String
default_name = summary_name

-- The level and the error: an unknown name gives the unset level beside its error.
unfoldable pub get_detail_level : String → FilterDetailLevel × Option GoError
get_detail_level dl_name =
    if dl_name == drop_name
    then (drop, none)
    else if dl_name == summary_name
    then (summary, none)
    else if dl_name == process_name
    then (process, none)
    else if dl_name == verbose_name
    then (verbose, none)
    else (unset, some (error_text "invalid detail level"))

abbrev is_verbose : FilterDetailLevel → Bool
is_verbose verbose = true
is_verbose _ = false

abbrev is_process : FilterDetailLevel → Bool
is_process process = true
is_process _ = false

abbrev pub is_drop : FilterDetailLevel → Bool
is_drop drop = true
is_drop _ = false

unfoldable pub want_region_and_thread_spans : FilterDetailLevel → Bool
want_region_and_thread_spans dl = is_verbose dl

unfoldable pub want_child_spans : FilterDetailLevel → Bool
want_child_spans dl = is_process dl || is_verbose dl

unfoldable pub want_process_ancestry : FilterDetailLevel → Bool
want_process_ancestry dl = is_process dl || is_verbose dl

unfoldable pub want_process_aliases : FilterDetailLevel → Bool
want_process_aliases dl = is_process dl || is_verbose dl

unfoldable pub want_process_timers_counters_and_data : FilterDetailLevel → Bool
want_process_timers_counters_and_data dl = is_process dl || is_verbose dl

unfoldable pub want_main_thread_timers_and_counters : FilterDetailLevel → Bool
unfolding want_region_and_thread_spans
want_main_thread_timers_and_counters dl = want_region_and_thread_spans dl
