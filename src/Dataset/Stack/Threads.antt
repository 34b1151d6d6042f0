-- ===== src/Dataset/Stack/Threads.antt =====
-- Reading a thread of the dataset after it has been written back.
use trace2receiver.Common.{
  ◌≡◌, refl, arith, String, some, Bool-cases, inl, inr, string_eq, ◌==◌, lookup-insert_self,
}
use trace2receiver.Dataset.{TrThread, Trace2Dataset}
use trace2receiver.Dataset.Stack.{lookup_thread, store_thread}

module _ (tr2 : Trace2Dataset) (name : String) (th : TrThread) where
  pub lookup_thread-store_thread : lookup_thread (store_thread tr2 name th) name ≡ some th
  unfolding lookup_thread store_thread
  lookup_thread-store_thread = elim (Bool-cases (name == "main")) [
    | inl same ↦ rw same refl
    | inr other ↦ rw other (lookup-insert_self name th tr2.threads)
  ]

  pub completed_regions-store_thread :
      (store_thread tr2 name th).completed_regions ≡ tr2.completed_regions
  unfolding store_thread
  completed_regions-store_thread = ground arith
