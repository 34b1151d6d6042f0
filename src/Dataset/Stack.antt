-- ===== src/Dataset/Stack.antt =====
-- The stack of regions of a thread: `popRegionStack`, `popAllRegionStack`, `lookupThread`,
-- `lookupTopParentSpanID`, `NewSpanID` and `isIncomplete` of trace2dataset.go.
pub mod Threads
pub mod Pop
pub mod Nesting
use trace2receiver.Common.{
  ℕ, zero, suc, ◌-◌, pos, eqb_ℤ, String, Bool, List, [], ◌∷◌, ◌++◌, Option, some, length, take,
  get_elem?, lookup, insert, string_eq, ◌==◌, if◌then◌else◌, Go, ret,
}
use trace2receiver.Common.Panics.{◌>>=◌, at_index}
use trace2receiver.Runtime.{Runtime, Time, SpanId}
use trace2receiver.Dataset.{TrSpanEssentials, TrRegion, TrThread, Trace2Dataset}

unfoldable pub is_incomplete : TrSpanEssentials → Bool
is_incomplete se = eqb_ℤ se.end_time (pos 0)

-- NewSpanID: the id, and the dataset with the generator moved on.
unfoldable pub new_span_id : Runtime → Trace2Dataset → SpanId × Trace2Dataset
new_span_id rt tr2 =
    let (spid, state) = rt.rand_read tr2.rand_source in (spid, record tr2 { rand_source = state })

abbrev pub close_region : Time → TrRegion → TrRegion
close_region t r = record r { lifetime = record r.lifetime { end_time = t } }

-- popRegionStack: the thread and the completed regions, which are all that it writes.
unfoldable pub pop_region_stack : TrThread → List TrRegion → Time → Go (TrThread × List TrRegion)
pop_region_stack th completed t = do
  let count = length th.region_stack
  r ← at_index (get_elem? th.region_stack (count - 1))
  ret (
    record th { region_stack = take (count - 1) th.region_stack },
    completed ++ close_region t r ∷ [],
  )

-- The loop of popAllRegionStack, with the length of the stack as its fuel.
unfoldable pub pop_loop : ℕ → TrThread → List TrRegion → Time → Go (TrThread × List TrRegion)
unfolding pop_region_stack
pop_loop zero th completed t = ret (th, completed)
pop_loop (suc fuel) th completed t = elim (th.region_stack) [
  | [] ↦ ret (th, completed)
  | _ ∷ _ ↦ (do (th', completed') ← pop_region_stack th completed t; pop_loop fuel th' completed' t)
]

unfoldable pub pop_all_region_stack :
    TrThread → List TrRegion → Time → Go (TrThread × List TrRegion)
unfolding pop_loop
pop_all_region_stack th completed t = pop_loop (length th.region_stack) th completed t

-- lookupThread: "main" names the thread of the process, which is not in the map.
unfoldable pub lookup_thread : Trace2Dataset → String → Option TrThread
lookup_thread tr2 name =
    if name == "main" then some tr2.process.main_thread else lookup name tr2.threads

-- A write through the pointer that lookupThread returned for this name.
unfoldable pub store_thread : Trace2Dataset → String → TrThread → Trace2Dataset
store_thread tr2 name th =
    if name == "main"
    then record tr2 { process = record tr2.process { main_thread = th } }
    else record tr2 { threads = insert name th tr2.threads }

unfoldable pub lookup_top_parent_span_id : TrThread → Go SpanId
lookup_top_parent_span_id th = elim (th.region_stack) [
  | [] ↦ ret th.lifetime.self_span_id
  | _ ∷ _ ↦ (do
    r ← at_index (get_elem? th.region_stack (length th.region_stack - 1))
    ret r.lifetime.self_span_id)
]
