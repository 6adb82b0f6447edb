-- ===== src/Common/Lists.antt =====
-- Lists indexed by native numbers, under the library's name.
use Prim.Native.Nat.{ℕ, zero, suc}
use mathlib.Core.Option.{Option, none, some}
use mathlib.Core.List.{List, [], ◌∷◌}

abbrev pub get_elem? {ℓ} : {A : Type ℓ} → List A → ℕ → Option A
get_elem? [] i = none
get_elem? (x ∷ xs) zero = some x
get_elem? (x ∷ xs) (suc i) = get_elem? xs i
