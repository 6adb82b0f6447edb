-- ===== src/BPred/Total.antt =====
-- The assertions of the predictors, and the accesses to the stack and to the local histories.
use sesc_src.Common.{ℕ, ◌-◌, ◌^◌, ◌≤◌, ◌<◌, ◌≡◌, ◌≢◌, ◌⊎◌, Bool, true, false, none, some}
use sesc_src.Cache.Core
use sesc_src.Cache.Geometry.{calc_tag}
use sesc_src.BPred.Ras.{Ras}
use sesc_src.BPred.Btb.{Btb}
use sesc_src.BPred.Tournament.{Tournament}
use sesc_src.BPred.Predictor.{Predictor, oracle, always_taken, never_taken, a21264}
use sesc_src.BPred.Target.{IsBuffer}

-- A perfect buffer, or one that meets the invariant of its cache, for an address whose tag is not 0
abbrev pub IsBtb : ℕ → Btb → Type 0
IsBtb addr none = Unit {0}
IsBtb addr (some c) = IsBuffer c × (calc_tag c.geometry addr ≢ 0)

-- No stack, or a pointer inside of it
abbrev pub IsStack : Ras → Type 0
IsStack r = (r.ras_size ≡ 0) ⊎ (r.index < r.ras_size)

-- The local histories of the A21264 are no longer than the index of their table.
pub record Fits (t : Tournament) : Type 0 where
  pub bits : ℕ
  pub mask : t.l_hist_mask ≡ 2 ^ bits - 1
  pub inside : 2 ^ bits - 1 ≤ t.bht_mask

abbrev pub IsSafe : Predictor → Type 0
IsSafe (a21264 t) = Fits t
IsSafe _ = Unit {0}

has_direction : Predictor → Bool
has_direction oracle = false
has_direction always_taken = false
has_direction never_taken = false
has_direction _ = true
