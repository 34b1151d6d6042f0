-- ===== src/NilSafe.antt =====
-- The rules and the conditions under which the functions of evt_apply.go follow no nil pointer.
pub mod Present
pub mod Process
pub mod Work
pub mod Entry
pub mod Entries
pub mod Events
use trace2receiver.Common.{◌≡◌, ◌≢◌, Option, nil_deref}
use trace2receiver.Apply.Effect.{Applied, Outcome}

-- Whatever else the run does, it follows no nil pointer.
abbrev pub NilSafe : Applied → Type 0
NilSafe = Outcome (λ tr2 e. Unit) (λ p. p ≢ nil_deref)
