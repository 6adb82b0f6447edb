-- ===== src/BPred/Learn.antt =====
-- A predictor of one counter per branch learns a branch that always goes one way.
use sesc_src.Common.{
  ℕ, zero, suc, ◌^◌, ◌≤◌, ◌≡◌, ◌≢◌, refl, sym, ◌∙◌, ap, Bool, true, false, Option, none, some,
  arith,
}
use sesc_src.ScTable.Counters
use sesc_src.ScTable.Counters.{ScTable}
use sesc_src.ScTable.Range.{IsTable}
use sesc_src.ScTable.Learning.{train_times, train_times-predict}
use sesc_src.BPred.Types.{PredType, miss_prediction, Inst, calc_inst_id, access}
use sesc_src.BPred.Btb.{Btb, read_target, predict_btb, resolve}
use sesc_src.BPred.Predictor.{
  Predictor, two_bit, is_taken, direction, beside, conditional, table_predict, predict,
}
use mathlib.Core.Path.{subst}

-- `n` times `predict` with update of a branch with the same outcome
unfoldable pub predict_times : ℕ → Predictor → Btb → Inst → ℕ → Option (Predictor × Btb)
predict_times zero p b inst target = some (p, b)
predict_times (suc n) p b inst target = elim (predict p b inst target true) [
  | none ↦ none
  | some (r, p', b') ↦ predict_times n p' b' inst target
]

beside-some :
    (p p' : Predictor) (o : Option (PredType × Btb)) (r : PredType) (b' : Btb)
    → beside p o ≡ some (r, p', b')
    → (p' ≡ p) × (o ≡ some (r, b'))
beside-some p p' none r b' e = ground arith
beside-some p p' (some (d, b)) r b' e = ground arith

then_times :
    (n : ℕ) (o : Option (PredType × Predictor × Btb)) (p' : Predictor) (b' : Btb) (inst : Inst)
    (target : ℕ)
    → elim o [ none ↦ none | some (r, p1, b1) ↦ predict_times n p1 b1 inst target ] ≡ some (p', b')
    → (r : PredType) × (p1 : Predictor) × (b1 : Btb) × (o ≡ some (r, p1, b1))
      × (predict_times n p1 b1 inst target ≡ some (p', b'))
then_times n none p' b' inst target e = absurd (cc)
then_times n (some (r, p1, b1)) p' b' inst target e = (r, p1, b1, refl, e)

predict_then_times :
    (n : ℕ) (p p' : Predictor) (b b' : Btb) (inst : Inst) (target : ℕ)
    → predict_times (suc n) p b inst target ≡ some (p', b')
    → (r : PredType) × (p1 : Predictor) × (b1 : Btb) × (predict p b inst target true
        ≡ some (r, p1, b1))
      × (predict_times n p1 b1 inst target ≡ some (p', b'))
unfolding predict_times
predict_then_times n p p' b b' inst target e =
    then_times n (predict p b inst target true) p' b' inst target e

resolve-right :
    (b b' : Btb) (inst : Inst) (target : ℕ) (taken : Bool) (r : PredType)
    → resolve b inst target false taken taken ≡ some (r, b')
    → r ≢ miss_prediction
unfolding resolve predict_btb read_target
resolve-right none b' inst target true r e = ground arith
resolve-right (some c) b' inst target true r e = ground arith
resolve-right b b' inst target false r e = ground arith

module _ (inst : Inst) (target : ℕ) (branch : inst.is_branch_taken ≡ false) where
  two_bit_eq :
      (t : ScTable) (b : Btb) (do_update : Bool)
      → predict (two_bit t) b inst target do_update
        ≡ beside (two_bit (access t (calc_inst_id inst) (is_taken inst target) do_update).1) (
            resolve b inst target do_update
              (is_taken inst target)
              (access t (calc_inst_id inst) (is_taken inst target) do_update).0)
  unfolding predict table_predict conditional direction
  two_bit_eq t b do_update = rw branch refl

  trained_eq :
      (t : ScTable)
      → (access t (calc_inst_id inst) (is_taken inst target) true).1
        ≡ Counters.train t (calc_inst_id inst) (is_taken inst target)
  unfolding access Counters.train Counters.predict_and_update
  trained_eq t = refl

  two_bit_step :
      (t : ScTable) (b b' : Btb) (r : PredType) (p' : Predictor)
      → predict (two_bit t) b inst target true ≡ some (r, p', b')
      → p' ≡ two_bit (Counters.train t (calc_inst_id inst) (is_taken inst target))
  two_bit_step t b b' r p' e =
      (beside-some _ p' _ r b' (sym (two_bit_eq t b true) ∙ e)).0 ∙ ap two_bit (trained_eq t)

  predict_times_two_bit :
      (n : ℕ) (t : ScTable) (b b' : Btb) (p' : Predictor)
      → predict_times n (two_bit t) b inst target ≡ some (p', b')
      → p' ≡ two_bit (train_times n t (calc_inst_id inst) (is_taken inst target))
  unfolding predict_times train_times
  predict_times_two_bit zero t b b' p' e = cc
  predict_times_two_bit (suc n) t b b' p' e =
      let (r, p1, b1, got, rest) = predict_then_times n (two_bit t) p' b b' inst target e in
      let trained = two_bit_step t b b1 r p1 got in
      predict_times_two_bit n (Counters.train t (calc_inst_id inst) (is_taken inst target)) b1 b' p'
        (subst (λ q. predict_times n q b1 inst target ≡ some (p', b')) trained rest)

  -- For a predictor of saturating counters in range, of b + 1 bits each, and a conditional branch that
  -- has the same outcome at least 2^b times in sequence, each prediction with update and returning,
  -- whatever the counters and the buffer held: an answer for that branch and outcome from then on is
  -- not a wrong direction.
  pub predict_times-ne-miss :
      (log bits n : ℕ) (t : ScTable) (b b1 b2 : Btb) (p1 p2 : Predictor) (r : PredType)
      → IsTable log bits t
      → 2 ^ bits ≤ n
      → predict_times n (two_bit t) b inst target ≡ some (p1, b1)
      → predict p1 b1 inst target false ≡ some (r, p2, b2)
      → r ≢ miss_prediction
  unfolding access
  predict_times-ne-miss log bits n t b b1 b2 p1 p2 r w h trained asked =
      let t' = train_times n t (calc_inst_id inst) (is_taken inst target) in
      let same = train_times-predict log bits n t (calc_inst_id inst) (is_taken inst target) w h in
      let held = predict_times_two_bit n t b b1 p1 trained in
      let asked' = subst (λ q. predict q b1 inst target false ≡ some (r, p2, b2)) held asked in
      let got = (beside-some _ p2 _ r b2 (sym (two_bit_eq t' b1 false) ∙ asked')).1 in
      resolve-right b1 b2 inst target (is_taken inst target) r
        (subst (λ d. resolve b1 inst target false (is_taken inst target) d ≡ some (r, b2)) same got)
