-- ===== src/Extract.antt =====
-- The functions `extract_keys__*` of evt_parse.go: each fills the common fields or one pointer of
-- the event from the JSON object. An error discards the event, which Go returns half filled beside
-- the error and no caller reads.
pub mod Process
pub mod Work
use trace2receiver.Common.{String, ok, Result}
use trace2receiver.Common.Fallible.{◌>>=◌}
use trace2receiver.Json.{Jmap}
use trace2receiver.Jmap.{get_required_string, get_required_time, get_optional_int64}
use trace2receiver.Event.{TrEvent}
use trace2receiver.Runtime.{Runtime}

module _ (rt : Runtime) where
  unfoldable pub extract_keys_common : TrEvent → Jmap → Result TrEvent
  extract_keys_common evt jm = do
    event ← get_required_string jm "event"
    sid ← get_required_string jm "sid"
    thread ← get_required_string jm "thread"
    time ← get_required_time rt jm "time"
    repo ← get_optional_int64 rt jm "repo"
    ok (record evt {
      mf_event = event;
      mf_sid = sid;
      mf_thread = thread;
      mf_time = time;
      pmf_repo = repo;
    })
