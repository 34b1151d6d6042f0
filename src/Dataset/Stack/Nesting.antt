-- ===== src/Dataset/Stack/Nesting.antt =====
-- The discipline of a stack of open regions: levels, parents and end times.
use trace2receiver.Common.{
  ℕ, zero, suc, ◌+◌, ◌-◌, ◌≡◌, refl, ap, arith, pos, sub64, List, [], ◌∷◌, ◌++◌, some, length, take,
  set, get_elem?, ret,
}
use trace2receiver.Runtime.{SpanId}
use trace2receiver.Dataset.{TrRegion, TrThread}
use trace2receiver.Dataset.Stack.{lookup_top_parent_span_id}

-- From the given index and parent on: a region's level is one more than its index (as an int64),
-- its parent is the region below it, and it is still open.
abbrev pub StackFrom : ℕ → SpanId → List TrRegion → Type 0
StackFrom i parent [] = Unit
StackFrom i parent (r ∷ s) =
    (sub64 r.nesting_level (pos 1) ≡ pos i)
    × (r.lifetime.parent_span_id ≡ parent)
    × (r.lifetime.end_time ≡ pos 0)
    × StackFrom (suc i) r.lifetime.self_span_id s

-- The bottom region lies below the thread itself.
abbrev pub IsStacked : TrThread → Type 0
IsStacked th = StackFrom 0 th.lifetime.self_span_id th.region_stack

-- The span under which the next region opens.
abbrev pub top_span : SpanId → List TrRegion → SpanId
top_span parent [] = parent
top_span parent (r ∷ s) = top_span r.lifetime.self_span_id s

pub StackFrom-push :
    (i : ℕ) (parent : SpanId) (s : List TrRegion) (r : TrRegion)
    → StackFrom i parent s
    → sub64 r.nesting_level (pos 1) ≡ pos (i + length s)
    → r.lifetime.parent_span_id ≡ top_span parent s
    → r.lifetime.end_time ≡ pos 0
    → StackFrom i parent (s ++ r ∷ [])
StackFrom-push i parent [] r h level below still = ground arith
StackFrom-push i parent (x ∷ s) r h level below still = (
  h.0,
  h.1,
  h.2,
  StackFrom-push (suc i) x.lifetime.self_span_id s r h.3 (ground arith) below still,
)

pub StackFrom-take :
    (n i : ℕ) (parent : SpanId) (s : List TrRegion)
    → StackFrom i parent s
    → StackFrom i parent (take n s)
StackFrom-take zero i parent s h = tt
StackFrom-take (suc n) i parent [] h = tt
StackFrom-take (suc n) i parent (x ∷ s) h =
    (h.0, h.1, h.2, StackFrom-take n (suc i) x.lifetime.self_span_id s h.3)

-- Writing back a region that differs in its data alone.
pub StackFrom-set :
    (n i : ℕ) (parent : SpanId) (s : List TrRegion) (r r' : TrRegion)
    → get_elem? s n ≡ some r
    → r'.nesting_level ≡ r.nesting_level
    → r'.lifetime ≡ r.lifetime
    → StackFrom i parent s
    → StackFrom i parent (set s n r')
StackFrom-set n i parent [] r r' found level life h = tt
StackFrom-set zero i parent (x ∷ s) r r' found level life h = ground arith
StackFrom-set (suc n) i parent (x ∷ s) r r' found level life h =
    (h.0, h.1, h.2, StackFrom-set n (suc i) x.lifetime.self_span_id s r r' found level life h.3)

-- The region at an index of the stack has the level that the index says.
pub StackFrom-get :
    (n i : ℕ) (parent : SpanId) (s : List TrRegion) {r : TrRegion}
    → StackFrom i parent s
    → get_elem? s n ≡ some r
    → sub64 r.nesting_level (pos 1) ≡ pos (i + n)
StackFrom-get n i parent [] h found = cc
StackFrom-get zero i parent (x ∷ s) h found = ground arith
StackFrom-get (suc n) i parent (x ∷ s) h found =
    ground (arith, StackFrom-get n (suc i) x.lifetime.self_span_id s h.3 found)

-- The last region of a stack that is not empty is the top one.
last-top_span :
    (parent : SpanId) (x : TrRegion) (s : List TrRegion)
    → (r : TrRegion) × (get_elem? (x ∷ s) (length s) ≡ some r)
      × (r.lifetime.self_span_id ≡ top_span parent (x ∷ s))
last-top_span parent x [] = (x, refl, refl)
last-top_span parent x (y ∷ s) = last-top_span x.lifetime.self_span_id y s

top_span_of :
    (th : TrThread) (s : List TrRegion)
    → lookup_top_parent_span_id (record th { region_stack = s })
      ≡ ret (top_span th.lifetime.self_span_id s)
unfolding lookup_top_parent_span_id
top_span_of th [] = refl
top_span_of th (x ∷ s) =
    let (r, found, self) = last-top_span th.lifetime.self_span_id x s in
    let last : length (x ∷ s) - 1 ≡ length s = omega arith in rw (last, found) (ap ret self)

pub lookup_top_parent_span_id_lem :
    (th : TrThread)
    → lookup_top_parent_span_id th ≡ ret (top_span th.lifetime.self_span_id th.region_stack)
lookup_top_parent_span_id_lem th = top_span_of th th.region_stack
