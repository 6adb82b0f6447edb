-- ===== src/Cache/Order.antt =====
-- The loop that moves one way of a set to its first position, over the pointer array `content`.
use sesc_src.Common.{ℕ, zero, suc, ◌+◌, ◌-◌, ◌≤◌, ◌≡◌, ◌&&◌, ltb, leb, ◌==◌, if◌then◌else◌, arith}
use sesc_src.Common.Arrays.{update}

-- `while(l > theSet) { Line **prev = l - 1; *l = *prev; l = prev; }`, from `l = first + rounds`.
unfoldable pub shift : (ℕ → ℕ) → ℕ → ℕ → ℕ → ℕ
shift content first zero = content
shift content first (suc d) = shift (update content (first + suc d) (content (first + d))) first d

-- `tmp = *l`, the loop, `*theSet = tmp`.
unfoldable pub move_front : (ℕ → ℕ) → ℕ → ℕ → ℕ → ℕ
move_front content first l = update (shift content first (l - first)) first (content l)

shift_at :
    (content : ℕ → ℕ) (first d j : ℕ)
    → shift content first d j
      ≡ (if ltb first j && leb j (first + d) then content (j - 1) else content j)
unfolding shift
shift_at content first zero j = ground arith
shift_at content first (suc d) j =
    ground (arith, shift_at (update content (first + suc d) (content (first + d))) first d j)

pub move_front_at :
    (content : ℕ → ℕ) (first l j : ℕ)
    → first ≤ l
    → move_front content first l j ≡ (
        if j == first
        then content l
        else if ltb first j && leb j l
        then content (j - 1)
        else content j)
unfolding move_front
move_front_at content first l j h = ground (arith, shift_at content first (l - first) j)
