-- ===== src/Apply/Totals.antt =====
-- The stopwatch timers and counters of evt_apply.go, of the process and of a thread. The last
-- value of a (category, name) pair stays.
use trace2receiver.Common.Panics.{◌>>=◌, deref}
use trace2receiver.Event.{TrEventTimer}
use trace2receiver.Dataset.{TrStopwatchTimer}
use trace2receiver.Dataset.Stack.{lookup_thread, store_thread}
use trace2receiver.Apply.Effect.{FnApply, done, if_found, set_nested}

abbrev pub stopwatch : TrEventTimer → TrStopwatchTimer
stopwatch t = record {
  intervals = t.mf_intervals;
  total_sec = t.mf_t_total;
  min_sec = t.mf_t_min;
  max_sec = t.mf_t_max;
}

unfoldable pub apply_timer : FnApply
unfolding set_nested
apply_timer tr2 evt = do
  t ← deref evt.pm_timer
  let timers = set_nested tr2.process.timers t.mf_category t.mf_name (stopwatch t)
  done (record tr2 { process = record tr2.process { timers = timers } })

unfoldable pub apply_th_timer : FnApply
unfolding set_nested
apply_th_timer tr2 evt = if_found (lookup_thread tr2 evt.mf_thread) tr2 λ th. do
  t ← deref evt.pm_timer
  let timers = set_nested th.timers t.mf_category t.mf_name (stopwatch t)
  done (store_thread tr2 evt.mf_thread (record th { timers = timers }))

unfoldable pub apply_counter : FnApply
unfolding set_nested
apply_counter tr2 evt = do
  c ← deref evt.pm_counter
  let counters = set_nested tr2.process.counters c.mf_category c.mf_name c.mf_count
  done (record tr2 { process = record tr2.process { counters = counters } })

unfoldable pub apply_th_counter : FnApply
unfolding set_nested
apply_th_counter tr2 evt = if_found (lookup_thread tr2 evt.mf_thread) tr2 λ th. do
  c ← deref evt.pm_counter
  let counters = set_nested th.counters c.mf_category c.mf_name c.mf_count
  done (store_thread tr2 evt.mf_thread (record th { counters = counters }))
