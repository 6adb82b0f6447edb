-- ===== src/Smp/Invariant.antt =====
-- The invariant of the MESI caches on the bus, at one memory line.
use sesc_src.Common.{ℕ, ◌≤◌, ◌<◌, ◌≡◌, ◌≢◌, true, false, Option, none, some}
use sesc_src.Smp.State.{MesiState}
use sesc_src.Smp.Request.{Sreq}
use sesc_src.Smp.System.{quiet, snooping, System}
use sesc_src.Smp.Local.{holds, owns, settled, other_ok, owner_ok, request_ok, asked_memory}
use sesc_src.Smp.Count.{pending}

-- If a cache may write the line, no other cache may read it.
abbrev pub IsCoherent : (ℕ → Option MesiState) → Type 0
IsCoherent line = (i j : ℕ) → i ≢ j → owns (line i) ≡ true → holds (line j) ≡ false

-- What is known while the request `q` is under way.
pub record InFlight (n : ℕ) (s : System) (q : Sreq) : Type 0 where
  pub inside : q.requestor < n
  pub request : request_ok q ≡ true
  pub memory : asked_memory s.stage q ≡ true
  pub owner : owner_ok q s.stage (s.line q.requestor) ≡ true
  pub silent : s.snoop q.requestor ≡ quiet
  pub others : (j : ℕ) → j ≢ q.requestor → other_ok q s.stage (s.snoop j) (s.line j) ≡ true
  pub counted : s.stage ≡ snooping → s.pend ≡ pending n s.snoop

pub record Inv (n : ℕ) (s : System) : Type 0 where
  pub coherent : IsCoherent s.line
  pub idle : s.txn ≡ none → (j : ℕ) → (settled (s.line j) ≡ true) × (s.snoop j ≡ quiet)
  pub busy : (q : Sreq) → s.txn ≡ some q → InFlight n s q
  pub bounded : (j : ℕ) → n ≤ j → (s.line j ≡ none) × (s.snoop j ≡ quiet)
