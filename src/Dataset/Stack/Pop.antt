-- ===== src/Dataset/Stack/Pop.antt =====
-- Popping a stack of regions: one step, and the loop that empties it.
use mathlib.Core.List.{reverse, reverse-cons, append_assoc, append-nil}
use trace2receiver.Common.{
  ℕ, zero, suc, ◌-◌, ◌≡◌, refl, sym, ap, ◌∙◌, arith, List, [], ◌∷◌, ◌++◌, map, some, length, take,
  get_elem?, ret,
}
use trace2receiver.Runtime.{Time}
use trace2receiver.Dataset.{TrRegion, TrThread}
use trace2receiver.Dataset.Stack.{pop_loop, pop_all_region_stack, close_region}

module _ {ℓ} {A : Type ℓ} where
  -- The last element of a slice, and the slice without it.
  pub last_split :
      (s : List A) (n : ℕ)
      → length s ≡ suc n
      → (x : A) × (get_elem? s n ≡ some x)
        × (s ≡ take n s ++ x ∷ [])
        × (length (take n s) ≡ n)
        × (reverse s ≡ x ∷ reverse (take n s))
  last_split [] n h = absurd (omega (arith, h))
  last_split (x ∷ []) zero h = (x, refl, refl, refl, refl)
  last_split (x ∷ y ∷ s) zero h = absurd (omega (arith, h))
  last_split (x ∷ s) (suc n) h =
      let (y, found, split, count, back) = last_split s n (omega (arith, h)) in
      (
        y,
        found,
        ap (λ l. x ∷ l) split,
        omega (arith, count),
        reverse-cons x s
            ∙ ap (λ l. l ++ x ∷ []) back
            ∙ ap (λ l. y ∷ l) (sym (reverse-cons x (take n s))),
      )

pop_loop_lem :
    (n : ℕ) (s : List TrRegion) (th : TrThread) (completed : List TrRegion) (t : Time)
    → length s ≡ n
    → pop_loop n (record th { region_stack = s }) completed t
      ≡ ret (record th { region_stack = [] }, completed ++ map (close_region t) (reverse s))
unfolding pop_loop
pop_loop_lem zero [] th completed t h = rw append-nil
pop_loop_lem zero (x ∷ s) th completed t h = absurd (omega (arith, h))
pop_loop_lem (suc n) [] th completed t h = absurd (omega (arith, h))
pop_loop_lem (suc n) (x ∷ s) th completed t h =
    let (y, found, split, count, back) = last_split (x ∷ s) n h in
    let top : length (x ∷ s) - 1 ≡ n = omega (arith, h) in
    rw (top, found, back)
      (rw (pop_loop_lem n (take n (x ∷ s)) th (completed ++ close_region t y ∷ []) t count)
        (rw append_assoc))

-- Closing all open regions of a thread always succeeds: it leaves the stack empty and the rest of
-- the thread as it was, and appends every region to the completed ones, from the top of the stack
-- to the bottom, with the given end time and otherwise unchanged.
pub pop_all_region_stack_lem :
    (th : TrThread) (completed : List TrRegion) (t : Time)
    → pop_all_region_stack th completed t
      ≡ ret (
        record th { region_stack = [] },
        completed ++ map (close_region t) (reverse th.region_stack),
      )
unfolding pop_all_region_stack
pop_all_region_stack_lem th completed t =
    pop_loop_lem (length th.region_stack) th.region_stack th completed t refl
