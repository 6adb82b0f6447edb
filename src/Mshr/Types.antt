-- ===== src/Mshr/Types.antt =====
-- libsuc/MSHR.h, and `CallbackContainer` of libsuc/callback.h: what the registers keep and do. A
-- callback is a number; what its code does happens after the operation that calls it.
use sesc_src.Common.{ℕ, ◌+◌, Bool, true, false, Option, none, some, List, [], ◌∷◌, ◌++◌}
use sesc_src.Common.Sums.{occurrences}

-- `call()` and `destroy()` of a callback
pub data Event : Type 0 where
  called destroyed : ℕ → Event

abbrev pub of_event : Event → ℕ
of_event (called c) = c
of_event (destroyed c) = c

-- How often the callback `x` is called or destroyed
abbrev pub handed : ℕ → List Event → ℕ
handed x [] = 0
handed x (e ∷ es) = occurrences x (of_event e ∷ []) + handed x es

-- `I(b)`: an assertion that fails stops the simulator.
abbrev pub check {ℓ} : {A : Type ℓ} → Bool → A → Option A
check true a = some a
check false a = none

-- `CallbackContainer::add`
abbrev pub add : List ℕ → ℕ → List ℕ
add cc c = cc ++ c ∷ []

-- A pointer to a callback that may be null
abbrev pub held_by : ℕ → Option ℕ → ℕ
held_by x none = 0
held_by x (some c) = occurrences x (c ∷ [])

-- `if (c) c->destroy()`
abbrev pub destroy : Option ℕ → List Event
destroy none = []
destroy (some c) = destroyed c ∷ []

-- `OverflowFieldT`, without the operation, which `FullMSHR` neither writes nor reads
pub record OverflowField : Type 0 where
  pub paddr : ℕ
  pub cb : ℕ
  pub ovflwcb : Option ℕ

-- How often `x` waits in the overflow queue
abbrev pub queued : ℕ → List OverflowField → ℕ
queued x [] = 0
queued x (f ∷ fs) = (occurrences x (f.cb ∷ []) + held_by x f.ovflwcb) + queued x fs
