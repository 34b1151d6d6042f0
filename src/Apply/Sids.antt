-- ===== src/Apply/Sids.antt =====
-- The ids of a process and of the processes it starts, whose SID extends its own by one part.
use Prim.Native.String.{String, [], ◌∷◌, ◌++◌ as ◌<>◌}
use Prim.Native.Char.{Char}
use Prim.Native.String.append.{nil, cons}
use mathlib.Core.List.{List, [], ◌∷◌, ◌++◌}
use trace2receiver.Common.{
  ℕ, zero, suc, ◌-◌, ◌<◌, ◌≡◌, refl, arith, eqb, false, some, length, get_elem?, take,
  length-append, ret, Bool-cases, inl, inr,
}
use trace2receiver.Common.Text.{split_slash, is_code}
use trace2receiver.Runtime.{Runtime, SpanId}
use trace2receiver.Dataset.Stack.Pop.{last_split}
use trace2receiver.Dataset.{zero_span_id}
use trace2receiver.Apply.Process.{extract_ids_from_sid, span_bits}

-- A part of a SID.
abbrev pub HasNoSlash : String → Type 0
HasNoSlash [] = Unit
HasNoSlash (c ∷ s) = (is_code b'/' c ≡ false) × HasNoSlash s

split_slash-single : (x : String) → HasNoSlash x → split_slash x ≡ x ∷ []
unfolding split_slash
split_slash-single [] h = refl
split_slash-single (c ∷ x) h = rw (h.0, split_slash-single x h.1) refl

split_slash-more : (s : String) → (p : String) × (ps : List String) × (split_slash s ≡ p ∷ ps)
unfolding split_slash
split_slash-more [] = ([], [], refl)
split_slash-more (c ∷ s) =
    let (p, ps, same) = split_slash-more s in
    elim (Bool-cases (is_code b'/' c)) [
      | inl found ↦ ([], split_slash s, rw found refl)
      | inr other ↦ (c ∷ p, ps, rw (other, same) refl)
    ]

abbrev slash : Char
slash = "/"

split_slash-append :
    (s x : String) → HasNoSlash x → split_slash (s <> "/" <> x) ≡ split_slash s ++ x ∷ []
unfolding split_slash
split_slash-append [] x h = rw (nil ("/" <> x), cons slash [] x, nil x, split_slash-single x h) refl
split_slash-append (c ∷ s) x h =
    let (p, ps, same) = split_slash-more s in
    rw (cons c s ("/" <> x), split_slash-append s x h)
      (elim (Bool-cases (is_code b'/' c)) [
        | inl found ↦ rw found refl
        | inr other ↦ rw (other, same) refl
      ])

module _ {ℓ} {A : Type ℓ} where
  get_elem?-append : (s t : List A) (i : ℕ) → i < length s → get_elem? (s ++ t) i ≡ get_elem? s i
  get_elem?-append [] t i h = absurd (omega (arith, h))
  get_elem?-append (x ∷ s) t zero h = refl
  get_elem?-append (x ∷ s) t (suc i) h = get_elem?-append s t i (omega (arith, h))

  get_elem?-lt : (s : List A) (i : ℕ) → i < length s → (x : A) × (get_elem? s i ≡ some x)
  get_elem?-lt [] i h = absurd (omega (arith, h))
  get_elem?-lt (x ∷ s) zero h = (x, refl)
  get_elem?-lt (x ∷ s) (suc i) h = get_elem?-lt s i (omega (arith, h))

  get_elem?-last : (s : List A) (x : A) → get_elem? (s ++ x ∷ []) (length s) ≡ some x
  get_elem?-last [] x = refl
  get_elem?-last (y ∷ s) x = get_elem?-last s x

abbrev Linked : Runtime → String → String → Type 0
Linked rt sid part =
    (tid : List ℕ) × (spid : SpanId) × (parent : SpanId) × (extract_ids_from_sid rt sid
      ≡ ret (tid, spid, parent))
    × (extract_ids_from_sid rt (sid <> "/" <> part) ≡ ret (tid, span_bits (rt.sha256 part), spid))

-- A process and a child of it, whose SID is the parent's with one more part, get ids that tie their
-- telemetry together, though each computes them from its own SID alone: the same trace id, and as
-- the child's parent span the parent's own span.
pub extract_ids_from_sid-child :
    (rt : Runtime) (sid part : String)
    → HasNoSlash part
    → (tid : List ℕ) × (spid : SpanId) × (parent : SpanId) × (extract_ids_from_sid rt sid
        ≡ ret (tid, spid, parent))
      × (extract_ids_from_sid rt (sid <> "/" <> part) ≡ ret (tid, span_bits (rt.sha256 part), spid))
unfolding extract_ids_from_sid
extract_ids_from_sid-child rt sid part h =
    let (p, ps, parts) = split_slash-more sid in
    let child = split_slash-append sid part h in
    let tid = take 16 (rt.sha256 p) in
    elim ps as (λ l. split_slash sid ≡ p ∷ l → Linked rt sid part) [
      | [] ↦ λ one. (tid, span_bits (rt.sha256 p), zero_span_id, rw one refl, rw (child, one) refl)
      | q ∷ qs ↦ λ many.
          let (last, found, split, count, back) = last_split (q ∷ qs) (length qs) refl in
          let own = get_elem?-last (q ∷ qs) part in
          let before = get_elem?-append (q ∷ qs) (part ∷ []) (length qs) (omega arith) in
          let (above, second) = get_elem?-lt (p ∷ q ∷ qs) (length qs) (omega arith) in
          let n = length (qs ++ part ∷ []) in
          let count : n ≡ suc (length qs) = omega (arith, length-append qs (part ∷ [])) in
          let at_n1 : suc (suc n) - 1 - 1 ≡ suc (length qs) = omega (arith, count) in
          let at_n : suc (suc n) - 1 ≡ suc (suc (length qs)) = omega (arith, count) in
          let at_p1 : suc (suc (length qs)) - 1 - 1 ≡ length qs = omega arith in
          let at_p : suc (suc (length qs)) - 1 ≡ suc (length qs) = omega arith in
          let parent_many : eqb (suc (suc (length qs))) 1 ≡ false = ground arith in
          let child_many : eqb (suc (suc n)) 1 ≡ false = ground arith in
          (
            tid,
            span_bits (rt.sha256 last),
            span_bits (rt.sha256 above),
            rw many (rw (parent_many, at_p1, at_p, second, found) refl),
            rw (child, many) (rw (child_many, at_n1, at_n, own, before, found) refl),
          )
    ]
      parts
