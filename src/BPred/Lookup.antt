-- ===== src/BPred/Lookup.antt =====
-- The target buffer in a prediction without update: at most the order of one set changes.
use sesc_src.Common.{
  ℕ, ◌≡◌, ◌≢◌, sym, inl, inr, Bool-cases, Bool, true, false, none, some, if◌then◌else◌, arith,
}
use sesc_src.Cache.Geometry.{calc_tag, calc_index4tag}
use sesc_src.Cache.Core
use sesc_src.Cache.Payload.{IsOneTurned, unturned, find_line-IsOneTurned}
use sesc_src.BPred.Types.{PredType, correct_prediction, Inst, differ}
use sesc_src.BPred.Btb.{BtbCache, btb_ops, Btb, read_target, predict_btb, resolve}
use mathlib.Core.Path.{subst}

-- The buffer for an address: a cache of targets keeps all its lines, its shape and its policy, and
-- has the order of the lines of one set changed at most, by a line that comes to the front.
abbrev pub SameLines : ℕ → Btb → Btb → Type 0
SameLines addr none none = Unit {0}
SameLines addr none (some c) = ⊥
SameLines addr (some c) none = ⊥
SameLines addr (some c) (some c') =
    IsOneTurned btb_ops c (calc_index4tag c.geometry (calc_tag c.geometry addr)) c'

read_target-next :
    (c c' : BtbCache) (key target : ℕ) (r : PredType)
    → read_target c key target ≡ some (r, some c')
    → c' ≡ (Core.find_line btb_ops c key).1
unfolding read_target
read_target-next c c' key target r e = ground arith

read_target-cache :
    (c : BtbCache) (key target : ℕ) (r : PredType) → read_target c key target ≢ some (r, none)
unfolding read_target
read_target-cache c key target r e = ground arith

pub predict_btb-SameLines :
    (b b' : Btb) (inst : Inst) (target : ℕ) (r : PredType)
    → predict_btb b inst target false ≡ some (r, b')
    → SameLines inst.addr b b'
unfolding predict_btb
predict_btb-SameLines none none inst target r e = tt
predict_btb-SameLines none (some c') inst target r e = ground arith
predict_btb-SameLines (some c) none inst target r e =
    absurd (ground (arith, read_target-cache c inst.addr target r))
predict_btb-SameLines (some c) (some c') inst target r e =
    subst (IsOneTurned btb_ops c (calc_index4tag c.geometry (calc_tag c.geometry inst.addr)))
      (sym (read_target-next c c' inst.addr target r (ground arith)))
      (find_line-IsOneTurned btb_ops c inst.addr)

pub SameLines-refl : (addr : ℕ) (b : Btb) → SameLines addr b b
SameLines-refl addr none = tt
SameLines-refl addr (some c) =
    unturned btb_ops c (calc_index4tag c.geometry (calc_tag c.geometry addr))

if_SameLines :
    (b b' : Btb) (inst : Inst) (target : ℕ) (ptaken : Bool) (r : PredType)
    → (if ptaken then predict_btb b inst target false else some (correct_prediction, b))
      ≡ some (r, b')
    → SameLines inst.addr b b'
if_SameLines b b' inst target true r e = predict_btb-SameLines b b' inst target r e
if_SameLines b b' inst target false r e =
    subst (SameLines inst.addr b) (ground arith) (SameLines-refl inst.addr b)

pub resolve-SameLines :
    (b b' : Btb) (inst : Inst) (target : ℕ) (taken ptaken : Bool) (r : PredType)
    → resolve b inst target false taken ptaken ≡ some (r, b')
    → SameLines inst.addr b b'
unfolding resolve
resolve-SameLines b b' inst target taken ptaken r e = elim (Bool-cases (differ taken ptaken)) [
  | inl d ↦ subst (SameLines inst.addr b) (ground arith) (SameLines-refl inst.addr b)
  | inr d ↦ if_SameLines b b' inst target ptaken r (ground arith)
]
