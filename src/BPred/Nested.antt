-- ===== src/BPred/Nested.antt =====
-- The return address stack predicts every return of calls that nest no deeper than its size.
use sesc_src.Common.{
  ℕ, suc, ◌+◌, ◌-◌, ◌≤◌, ◌<◌, ◌≡◌, ◌≢◌, refl, sym, ◌∙◌, ap, max, Bool, true, false, Option, none,
  some, ◌==◌, ltb, ◌&&◌, if◌then◌else◌, arith,
}
use sesc_src.Common.Arrays.{update_self, update_ne}
use sesc_src.BPred.Types.{PredType, correct_prediction, no_prediction, Inst}
use sesc_src.BPred.Ras.{Ras, pop_index, push_call, predict_ras}
use mathlib.Core.Path.{subst}

-- A run of calls in sequence: the call, the calls that it makes, its return, and the calls after it.
pub data Calls : Type 0 where
  done : Calls
  nested : Inst → Calls → Inst → Calls → Calls

-- How many calls are open at once
abbrev pub depth : Calls → ℕ
depth done = 0
depth (nested call body ret rest) = max (suc (depth body)) (depth rest)

-- Each call is a call, each return is one, and no return address is 0.
abbrev pub IsProgram : Calls → Type 0
IsProgram done = Unit {0}
IsProgram (nested call body ret rest) =
    (call.is_func_ret ≡ false)
    × (call.is_func_call ≡ true)
    × (ret.is_func_ret ≡ true)
    × (call.next_inst_id ≢ 0)
    × IsProgram body
    × IsProgram rest

abbrev pub is_correct : PredType → Bool
is_correct correct_prediction = true
is_correct _ = false

-- The predictions of the run, with the true outcome of each: were all returns predicted?
unfoldable pub run : Calls → Ras → Option (Bool × Ras)
run done r = some (true, r)
run (nested call body ret rest) r = elim (predict_ras r call 0 true) [
  | none ↦ none
  | some (p, r1) ↦ elim (run body r1) [
    | none ↦ none
    | some (all_body, r2) ↦ elim (predict_ras r2 ret call.next_inst_id true) [
      | none ↦ none
      | some (q, r3) ↦ elim (run rest r3) [
        | none ↦ none
        | some (all_rest, r4) ↦ some (all_body && is_correct q && all_rest, r4)
      ]
    ]
  ]
]

-- The steps from the entry `i` forward to the entry `j` of the ring
abbrev forward : ℕ → ℕ → ℕ → ℕ
forward size i j = if ltb j i then j + size - i else j - i

-- The run leaves the stack pointer and all but `d` entries from it on.
record Keeps (d : ℕ) (r r' : Ras) : Type 0 where
  size : r'.ras_size ≡ r.ras_size
  at : r'.index ≡ r.index
  entry : (j : ℕ) → j < r.ras_size → d ≤ forward r.ras_size r.index j → r'.stack j ≡ r.stack j

push-predict :
    (r : Ras) (call : Inst)
    → call.is_func_ret ≡ false
    → call.is_func_call ≡ true
    → r.index < r.ras_size
    → predict_ras r call 0 true ≡ some (no_prediction, push_call r call.next_inst_id)
unfolding predict_ras
push-predict r call c f p = ground arith

-- A return whose address is on top is predicted.
pop-predict :
    (r : Ras) (ret : Inst) (next : ℕ)
    → ret.is_func_ret ≡ true
    → pop_index r < r.ras_size
    → next ≢ 0
    → r.stack (pop_index r) ≡ next
    → predict_ras r ret next true ≡ some (correct_prediction, record r { index = pop_index r })
unfolding predict_ras
pop-predict r ret next f p nz top =
    let real : (r.ras_size == 0) ≡ false = ground arith in
    let named : (next == 0) ≡ false = ground arith in
    let same : (r.stack (pop_index r) == next) ≡ true = ground arith in
    let inside : ltb (pop_index r) r.ras_size ≡ true = ground arith in
    rw (f, real, named, same, inside) refl

push_index-lt : (r : Ras) (next : ℕ) → r.index < r.ras_size → (push_call r next).index < r.ras_size
push_index-lt r next h = ground arith

module _ (d next : ℕ) (r r2 : Ras) (at : r.index < r.ras_size)
    (k : Keeps d (push_call r next) r2) where
  pop-push : pop_index r2 ≡ r.index
  pop-push = let size = k.size in let there = k.at in ground arith

  pop_index-lt : pop_index r2 < r2.ras_size
  pop_index-lt = let size = k.size in omega (arith, pop-push)

  kept_top : suc d ≤ r.ras_size → r2.stack r.index ≡ next
  kept_top fits = k.entry r.index at (ground arith) ∙ update_self r.stack r.index next

  -- The return, and then the rest of the run
  then-Keeps :
      (e : ℕ) (r4 : Ras)
      → Keeps e (record r2 { index = pop_index r2 }) r4
      → Keeps (max (suc d) e) r r4
  then-Keeps e r4 m =
      let size = k.size in
      let size4 = m.size in
      let back = pop-push in
      record {
        size = cc;
        at = m.at ∙ back;
        entry = λ j l far.
            (let ne : r.index ≢ j = λ z. ground arith in
              let later_ : d ≤ forward r.ras_size (push_call r next).index j = ground arith in
              let still : e ≤ forward r2.ras_size (pop_index r2) j =
                subst (λ x. e ≤ forward r2.ras_size x j) (sym back)
                  (subst (λ z. e ≤ forward z r.index j) (sym size) (omega arith)) in
              m.entry j (omega arith) still
              ∙ k.entry j l later_
              ∙ update_ne r.stack r.index next j ne);
      }

run-nested :
    (call ret : Inst) (body rest : Calls) (r r1 r2 r3 r4 : Ras)
    → predict_ras r call 0 true ≡ some (no_prediction, r1)
    → run body r1 ≡ some (true, r2)
    → predict_ras r2 ret call.next_inst_id true ≡ some (correct_prediction, r3)
    → run rest r3 ≡ some (true, r4)
    → run (nested call body ret rest) r ≡ some (true, r4)
unfolding run
run-nested call ret body rest r r1 r2 r3 r4 a b c d = ground arith

run-Keeps :
    (t : Calls) (r : Ras)
    → IsProgram t
    → r.index < r.ras_size
    → depth t ≤ r.ras_size
    → (r' : Ras) × (run t r ≡ some (true, r')) × Keeps (depth t) r r'
unfolding run
run-Keeps done r p at fits = (r, refl, record { size = refl; at = refl; entry = λ j l d. refl })
run-Keeps (nested call body ret rest) r (c, f, g, nz, pb, pr) at fits =
    let at1 = push_index-lt r call.next_inst_id at in
    let (r2, ran2, k2) = run-Keeps body (push_call r call.next_inst_id) pb at1 (omega arith) in
    let at2 = pop_index-lt (depth body) call.next_inst_id r r2 at k2 in
    let back = pop-push (depth body) call.next_inst_id r r2 at k2 in
    let size = k2.size in
    let top = ap r2.stack back ∙ kept_top (depth body) call.next_inst_id r r2 at k2 (omega arith) in
    let (r4, ran4, k4) = run-Keeps rest (record r2 { index = pop_index r2 }) pr at2 (omega arith) in
    (
      r4,
      run-nested call ret body rest r (push_call r call.next_inst_id) r2
          (record r2 { index = pop_index r2 }) r4 (push-predict r call c f at) ran2
          (pop-predict r2 ret call.next_inst_id g at2 nz top) ran4,
      then-Keeps (depth body) call.next_inst_id r r2 at k2 (depth rest) r4 k4,
    )

-- From any state of a stack whose pointer is inside it, a run of well-nested calls that are never
-- open to a depth of more than `RasSize` has every return predicted, with the true outcomes as the
-- updates, and the stack pointer ends where it began.
pub run-IsPredicted :
    (t : Calls) (r : Ras)
    → IsProgram t
    → r.index < r.ras_size
    → depth t ≤ r.ras_size
    → (r' : Ras) × (run t r ≡ some (true, r')) × (r'.index ≡ r.index)
run-IsPredicted t r p at fits = let (r', ran, k) = run-Keeps t r p at fits in (r', ran, k.at)
