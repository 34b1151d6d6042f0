-- ===== src/Worker/Loop.antt =====
-- The loop over the lines.
use mathlib.Core.Path.{subst}
use trace2receiver.Common.{
  ◌≡◌, ◌≢◌, refl, ◌∙◌, ap, String, Bool, List, [], ◌∷◌, Option, none, some, inl, inr, GoError, Go,
  ret, panic, nil_deref, Panic, ◌⊎◌, All,
}
use trace2receiver.Common.Panics.{ret-injective}
use trace2receiver.Runtime.{Runtime}
use trace2receiver.Dataset.{Trace2Dataset}
use trace2receiver.Apply.{process_raw_line}
use trace2receiver.Lines.{process_raw_line-ne-nil_deref}
use trace2receiver.Worker.{Ending, read_loop}

pub Go-cases {ℓ} : {A : Type ℓ} (m : Go A) → ((p : Panic) × (m ≡ panic p)) ⊎ ((a : A) × (m ≡ ret a))
Go-cases (ret a) = inr (a, refl)
Go-cases (panic p) = inl (p, refl)

pub panic-injective {ℓ} : {A : Type ℓ} {p q : Panic} → ◌≡◌ {A = Go A} (panic p) (panic q) → p ≡ q
panic-injective h = cc

module _ (rt : Runtime) where
  pub read_loop-ne-nil_deref :
      (lines : List String) (ending : Ending) (tr2 : Trace2Dataset) (allow : Bool)
      → read_loop rt lines ending tr2 allow ≢ panic nil_deref
  unfolding read_loop
  read_loop-ne-nil_deref [] ending tr2 allow bad = cc
  read_loop-ne-nil_deref (line ∷ lines) ending tr2 allow bad =
      elim (Go-cases (process_raw_line rt line tr2 allow)) [
        | inl (p, stop) ↦
            process_raw_line-ne-nil_deref rt line tr2 allow
              (stop ∙ ap panic (panic-injective (rw (stop, read_loop) at bad)))
        | inr ((tr2', none), run) ↦
            read_loop-ne-nil_deref lines ending tr2' allow (rw (run, read_loop) at bad)
        | inr ((tr2', some e), run) ↦ cc (rw (run, read_loop) at bad)
      ]

  -- A property of the dataset that every line keeps, where the lines have a property.
  pub read_loop_ind :
      (Q : String → Type 0) (P : Trace2Dataset → Type 0) (allow : Bool)
      → ((line : String) (tr2 tr2' : Trace2Dataset) (e : Option GoError)
          → Q line
          → P tr2
          → process_raw_line rt line tr2 allow ≡ ret (tr2', e)
          → P tr2')
      → (lines : List String) (ending : Ending) (tr2 : Trace2Dataset) {out : Trace2Dataset × Bool}
      → All Q lines
      → P tr2
      → read_loop rt lines ending tr2 allow ≡ ret out
      → P out.0
  unfolding read_loop
  read_loop_ind Q P allow step [] ending tr2 {out} all h run =
      subst (λ (o : Trace2Dataset × Bool). P o.0) (ret-injective run) h
  read_loop_ind Q P allow step (line ∷ lines) ending tr2 {out} all h run =
      elim (Go-cases (process_raw_line rt line tr2 allow)) [
        | inl (p, stop) ↦ cc (rw (stop, read_loop) at run)
        | inr ((tr2', none), first) ↦
            read_loop_ind Q P allow step lines ending tr2' all.1
              (step line tr2 tr2' none all.0 h first) (rw (first, read_loop) at run)
        | inr ((tr2', some e), first) ↦
            subst (λ (o : Trace2Dataset × Bool). P o.0)
              (ret-injective (rw (first, read_loop) at run))
              (step line tr2 tr2' (some e) all.0 h first)
      ]
