-- ===== src/Port/Capacity.antt =====
-- A port with fully pipelined units never grants more slots in a cycle than it has units.
use sesc_src.Common.{
  ℕ, suc, ◌+◌, ◌-◌, ◌≤◌, ◌<◌, ◌^◌, inl, inr, ltb, ◌==◌, List, [], ◌∷◌, if◌then◌else◌, Bool-cases,
  arith,
}
use sesc_src.Port.Ports.{time, ushort, Port, fully_pipe, fully_n_pipe, create, next_slot}

-- The slots granted at the time `t` when `nextSlot` is called at the given clocks in turn
unfoldable pub granted : ℕ → List ℕ → Port → ℕ
granted t [] p = 0
granted t (c ∷ cs) p =
    let rest = granted t cs (next_slot c p).1 in if (next_slot c p).0 == t then suc rest else rest

-- No call comes later than `b`, and the slots of all the calls fit in a 64-bit word.
unfoldable pub Within : ℕ → List ℕ → Type 0
Within b [] = b < 2 ^ 64
Within b (c ∷ cs) = (c ≤ b) × Within (suc b) cs

Within-suc : (b : ℕ) (cs : List ℕ) → Within b cs → b < 2 ^ 64
unfolding Within
Within-suc b [] h = h
Within-suc b (c ∷ cs) h = let r = Within-suc (suc b) cs h.1 in omega arith

-- The slots that are left at `t`
abbrev room : ℕ → ℕ → ℕ → ℕ → ℕ
room n free l t = if ltb t l then 0 else if t == l then free else suc n

granted-fully_n_pipe :
    (t n b : ℕ) (cs : List ℕ) (free l : ℕ)
    → free ≤ suc n
    → l ≤ b
    → Within b cs
    → granted t cs (fully_n_pipe n free l) ≤ room n free l t
unfolding granted next_slot Within
granted-fully_n_pipe t n b [] free l f h w = omega arith
granted-fully_n_pipe t n b (c ∷ cs) free l f h w =
    let top = Within-suc (suc b) cs w.1 in
    elim (Bool-cases (ltb l c)) [
      | inl e ↦
          let r = granted-fully_n_pipe t n (suc b) cs n c (omega arith) (omega arith) w.1 in
          rw (e) (ground arith)
      | inr e ↦ elim (Bool-cases (ltb 0 free)) [
        | inl d ↦
            let r =
              granted-fully_n_pipe t n (suc b) cs (free - 1) l (omega arith) (omega arith) w.1 in
            rw (e, d) (ground arith)
        | inr d ↦
            let r =
              granted-fully_n_pipe t n (suc b) cs n (time (l + 1)) (omega arith) (omega arith)
                w.1 in
            rw (e, d) (ground arith)
      ]
    ]

granted-fully_pipe :
    (t b : ℕ) (cs : List ℕ) (l : ℕ)
    → l ≤ b
    → Within b cs
    → granted t cs (fully_pipe l) ≤ (if ltb t l then 0 else 1)
unfolding granted next_slot Within
granted-fully_pipe t b [] l h w = omega arith
granted-fully_pipe t b (c ∷ cs) l h w =
    let top = Within-suc (suc b) cs w.1 in
    elim (Bool-cases (ltb l c)) [
      | inl e ↦
          let r = granted-fully_pipe t (suc b) cs (time (c + 1)) (omega arith) w.1 in
          rw (e) (ground arith)
      | inr e ↦
          let r = granted-fully_pipe t (suc b) cs (time (l + 1)) (omega arith) w.1 in
          rw (e) (ground arith)
    ]

-- However often and at whatever clocks `nextSlot` is called on a new port of `n` units, 0 < n <
-- 2^16, with an occupancy of one cycle, it grants at most `n` slots in any one cycle, as long as
-- the clocks and the number of calls together stay below 2^64.
pub granted-create :
    (t clock n b : ℕ) (cs : List ℕ)
    → 0 < n
    → n < 2 ^ 16
    → clock ≤ b
    → Within b cs
    → granted t cs (create clock n 1) ≤ n
unfolding create
granted-create t clock n b cs pos small h w =
    let single = granted-fully_pipe t b cs clock h w in
    let several = granted-fully_n_pipe t (ushort (n - 1)) b cs n clock (omega arith) h w in
    elim (Bool-cases (n == 0)) [
      | inl z ↦ absurd (ground arith)
      | inr z ↦ elim (Bool-cases (n == 1)) [
        | inl e ↦ rw (z, e) (ground arith)
        | inr e ↦ rw (z, e) (ground arith)
      ]
    ]
