-- ===== src/BPred/Pure.antt =====
-- A prediction without update: what it changes is at most the order of one set of the target buffer.
use sesc_src.Common.{
  ℕ, ◌≡◌, refl, ap, inl, inr, Bool-cases, Bool, true, false, Option, none, some, if◌then◌else◌,
  Option-cases, arith,
}
use sesc_src.BPred.Types.{
  PredType, correct_prediction, no_prediction, no_btb_prediction, miss_prediction, Inst,
  calc_inst_id, access,
}
use sesc_src.BPred.Ras.{Ras, predict_ras}
use sesc_src.BPred.Btb.{Btb, predict_btb, resolve}
use sesc_src.ScTable.Counters
use sesc_src.BPred.TwoLevel.{mix, TwoLevel, direction_two_level}
use sesc_src.BPred.Tournament.{Tournament, choose, vote, direction_hybrid, direction_a21264}
use sesc_src.BPred.Skew.{Skew, direction_skew}
use sesc_src.BPred.Yags.{Yags, Side, search_side, direction_yags}
use sesc_src.BPred.Predictor.{
  Predictor, oracle, always_taken, never_taken, static_guess, two_bit, two_level, hybrid, a21264,
  skewed, yags, is_taken, direction, beside, conditional, table_predict, predict, BPredictor,
  is_no_prediction, predict_branch,
}
use mathlib.Core.Path.{subst}
use sesc_src.BPred.Lookup.{SameLines, predict_btb-SameLines, SameLines-refl, resolve-SameLines}

vote-pure : (t : Tournament) (g l m : ℕ) (taken : Bool) → (vote t g l m taken false).1 ≡ t
unfolding vote access choose
vote-pure t g l m taken = refl

search_side-pure :
    (s : Side) (a b c : ℕ) (choice taken : Bool) → (search_side s a b c choice taken false).1 ≡ s
unfolding search_side access
search_side-pure s a b c choice taken = ground arith

two_level-pure :
    (t : TwoLevel) (iid : ℕ) (taken : Bool) → (direction_two_level t iid taken false).1 ≡ t
unfolding direction_two_level access
two_level-pure t iid taken = refl

hybrid-pure :
    (t : Tournament) (inst : Inst) (taken : Bool) → (direction_hybrid t inst taken false).1 ≡ t
unfolding direction_hybrid vote access choose
hybrid-pure t inst taken = refl

a21264-pure :
    (t t' : Tournament) (inst : Inst) (taken d : Bool)
    → direction_a21264 t inst taken false ≡ some (d, t')
    → t' ≡ t
unfolding direction_a21264 vote access choose
a21264-pure t t' inst taken d e = cc

skew-pure : (s : Skew) (iid : ℕ) (taken : Bool) → (direction_skew s iid taken false).1 ≡ s
unfolding direction_skew
skew-pure s iid taken = refl

if_pure :
    {A B : Type 0} (c : Bool) (x y : A × B) (z : B) → x.1 ≡ z → y.1 ≡ z → (if c then x else y).1 ≡ z
if_pure true x y z ex ey = ex
if_pure false x y z ex ey = ey

yags-pure : (y : Yags) (iid : ℕ) (taken : Bool) → (direction_yags y iid taken false).1 ≡ y
unfolding direction_yags access search_side
yags-pure y iid taken =
    let index_hist = mix y.history_size y.history_mask y.ghr iid in
    if_pure (Counters.predict y.table iid) _ _ y
      (ap (λ s. record y { not_taken_side = s })
        (search_side-pure y.not_taken_side index_hist iid iid true taken))
      (ap (λ s. record y { taken_side = s })
        (search_side-pure y.taken_side index_hist iid index_hist false taken))

direction-pure :
    (p p' : Predictor) (inst : Inst) (target : ℕ) (d : Bool)
    → direction p inst target false ≡ some (d, p')
    → p' ≡ p
unfolding direction access
direction-pure oracle p' inst target d e = cc
direction-pure always_taken p' inst target d e = cc
direction-pure never_taken p' inst target d e = cc
direction-pure static_guess p' inst target d e = cc
direction-pure (two_bit t) p' inst target d e = cc
direction-pure (two_level t) p' inst target d e =
    let pure = two_level-pure t (calc_inst_id inst) (is_taken inst target) in cc
direction-pure (hybrid t) p' inst target d e =
    let pure = hybrid-pure t inst (is_taken inst target) in cc
direction-pure (a21264 t) p' inst target d e =
    ground (arith, a21264-pure t _ inst (is_taken inst target) _)
direction-pure (skewed t) p' inst target d e =
    let pure = skew-pure t (calc_inst_id inst) (is_taken inst target) in cc
direction-pure (yags t) p' inst target d e =
    let pure = yags-pure t (calc_inst_id inst) (is_taken inst target) in cc

-- What an answer leaves behind
abbrev Kept : ℕ → Predictor → Btb → Option (PredType × Predictor × Btb) → Type 0
Kept addr p b none = Unit {0}
Kept addr p b (some (r, p', b')) = (p' ≡ p) × SameLines addr b b'

beside-Kept :
    (addr : ℕ) (p : Predictor) (b : Btb) (r : Option (PredType × Btb))
    → ((d : PredType) (b' : Btb) → r ≡ some (d, b') → SameLines addr b b')
    → Kept addr p b (beside p r)
beside-Kept addr p b none f = tt
beside-Kept addr p b (some (d, b')) f = (refl, f d b' refl)

if_Kept :
    (addr : ℕ) (b : Btb) (x y : Option (PredType × Predictor × Btb)) (p : Predictor) (c : Bool)
    → Kept addr p b x
    → Kept addr p b y
    → Kept addr p b (if c then x else y)
if_Kept addr b x y p true kx ky = kx
if_Kept addr b x y p false kx ky = ky

module _ (b : Btb) (inst : Inst) (target : ℕ) where
  beside_btb-Kept :
      (p : Predictor) → Kept inst.addr p b (beside p (predict_btb b inst target false))
  beside_btb-Kept p =
      beside-Kept inst.addr p b (predict_btb b inst target false)
        λ d b'. predict_btb-SameLines b b' inst target d

  resolve-Kept :
      (p : Predictor) (r : Option (Bool × Predictor))
      → ((d : Bool) (p' : Predictor) → r ≡ some (d, p') → p' ≡ p)
      → Kept inst.addr p b (elim r [
        | none ↦ none
        | some (ptaken, p') ↦ beside p' (resolve b inst target false (is_taken inst target) ptaken)
      ])
  resolve-Kept p none f = tt
  resolve-Kept p (some (ptaken, p')) f =
      subst
        (λ q.
          Kept inst.addr q b
            (beside p' (resolve b inst target false (is_taken inst target) ptaken)))
        (f ptaken p' refl)
        (beside-Kept inst.addr p' b (resolve b inst target false (is_taken inst target) ptaken)
          λ d b'. resolve-SameLines b b' inst target (is_taken inst target) ptaken d)

  conditional-Kept : (p : Predictor) → Kept inst.addr p b (conditional p b inst target false)
  unfolding conditional
  conditional-Kept p =
      resolve-Kept p (direction p inst target false) λ d p'. direction-pure p p' inst target d

  table_predict-Kept : (p : Predictor) → Kept inst.addr p b (table_predict p b inst target false)
  unfolding table_predict
  table_predict-Kept p =
      if_Kept inst.addr b _ _ p inst.is_branch_taken (beside_btb-Kept p) (conditional-Kept p)

  predict-Kept : (p : Predictor) → Kept inst.addr p b (predict p b inst target false)
  unfolding predict
  predict-Kept oracle =
      if_Kept inst.addr b _ _ oracle (is_taken inst target) (beside_btb-Kept oracle)
        (refl, SameLines-refl inst.addr b)
  predict-Kept always_taken =
      if_Kept inst.addr b _ _ always_taken (is_taken inst target) (beside_btb-Kept always_taken)
        (refl, SameLines-refl inst.addr b)
  predict-Kept never_taken = (refl, SameLines-refl inst.addr b)
  predict-Kept static_guess = conditional-Kept static_guess
  predict-Kept (two_bit t) = table_predict-Kept (two_bit t)
  predict-Kept (two_level t) = table_predict-Kept (two_level t)
  predict-Kept (hybrid t) = table_predict-Kept (hybrid t)
  predict-Kept (a21264 t) = table_predict-Kept (a21264 t)
  predict-Kept (skewed s) = table_predict-Kept (skewed s)
  predict-Kept (yags y) = table_predict-Kept (yags y)

predict_ras-pure :
    (r r' : Ras) (inst : Inst) (target : ℕ) (d : PredType)
    → predict_ras r inst target false ≡ some (d, r')
    → r' ≡ r
unfolding predict_ras
predict_ras-pure r r' inst target d e = ground arith

-- The stack and the predictor as they were, and the lines of the buffer
abbrev KeptAll : ℕ → BPredictor → Option (PredType × BPredictor) → Type 0
KeptAll addr s none = Unit {0}
KeptAll addr s (some (r, s')) = (s'.ras ≡ s.ras) × (s'.pred ≡ s.pred) × SameLines addr s.btb s'.btb

predictor-KeptAll :
    (addr : ℕ) (s : BPredictor) (ras : Ras) (o : Option (PredType × Predictor × Btb))
    → ras ≡ s.ras
    → Kept addr s.pred s.btb o
    → KeptAll addr s (elim o [
      | none ↦ none
      | some (r', pred, btb) ↦ some (r', record { ras = ras; pred = pred; btb = btb })
    ])
predictor-KeptAll addr s ras none same k = tt
predictor-KeptAll addr s ras (some (r', pred, btb)) same (k, l) = (same, k, l)

stack-KeptAll :
    (addr : ℕ) (s : BPredictor) (d : PredType) (ras : Ras) (o : Option (PredType × BPredictor))
    → ras ≡ s.ras
    → KeptAll addr s o
    → KeptAll addr s (if is_no_prediction d then o else some (d, record s { ras = ras }))
stack-KeptAll addr s correct_prediction ras o same k = (same, refl, SameLines-refl addr s.btb)
stack-KeptAll addr s no_prediction ras o same k = k
stack-KeptAll addr s no_btb_prediction ras o same k = (same, refl, SameLines-refl addr s.btb)
stack-KeptAll addr s miss_prediction ras o same k = (same, refl, SameLines-refl addr s.btb)

predict_branch-KeptAll :
    (s : BPredictor) (inst : Inst) (target : ℕ)
    → KeptAll inst.addr s (predict_branch s inst target false)
unfolding predict_branch
predict_branch-KeptAll s inst target = elim (Bool-cases inst.is_branch) [
  | inr not_branch ↦ rw (not_branch, predict_branch) tt
  | inl branch ↦ elim (Option-cases (predict_ras s.ras inst target false)) [
    | inl e ↦ rw (branch, e, predict_branch) tt
    | inr ((d, ras), e) ↦
        let same = predict_ras-pure s.ras ras inst target d e in
        let k = predict-Kept s.btb inst target s.pred in
        rw (branch, e, predict_branch)
          (stack-KeptAll inst.addr s d ras _ same (predictor-KeptAll inst.addr s ras _ same k))
  ]
]

-- An answer of `BPredictor::predict` without update, whatever it is: the return address stack and the
-- predictor with all its tables and histories are the same. A perfect target buffer stays one; a
-- cache of targets keeps every line, its shape, its replacement policy and counter, and the order of
-- all sets but that of the branch's address, where at most one line comes to the front and the lines
-- before it move back by one.
pub predict_branch-pure :
    (s s' : BPredictor) (inst : Inst) (target : ℕ) (r : PredType)
    → predict_branch s inst target false ≡ some (r, s')
    → (s'.ras ≡ s.ras) × (s'.pred ≡ s.pred) × SameLines inst.addr s.btb s'.btb
predict_branch-pure s s' inst target r e =
    subst (KeptAll inst.addr s) e (predict_branch-KeptAll s inst target)
