-- ===== src/BPred/Target.antt =====
-- The branch target buffer gives back the target that it stored last, and its lines stay in place.
use sesc_src.Common.{ℕ, ◌≡◌, ◌≢◌, refl, sym, ◌∙◌, ap, true, false, some, ◌==◌, if◌then◌else◌, arith}
use sesc_src.Common.Arrays.{update, update_self}
use sesc_src.Cache.Line.{StateGeneric, generic_ops-IsLawful}
use sesc_src.Cache.Geometry.{calc_tag}
use sesc_src.Cache.Core
use sesc_src.Cache.Core.{Cache}
use sesc_src.Cache.Sound.{assoc_pos}
use sesc_src.Cache.WellFormed.{IsWellFormed}
use sesc_src.Cache.Lookup.{IsCreated}
use sesc_src.Cache.RoundTrip.{fill_line-KeepsShape, find_line-fill_line}
use sesc_src.Cache.Unlocked.{fill_line-some}
use sesc_src.Cache.Payload.{find_line-mem, find_line-tag, find_line-tags}
use sesc_src.BPred.Types.{PredType, correct_prediction, no_btb_prediction, Inst}
use sesc_src.BPred.Btb.{BtbCache, btb_ops, Btb, set_inst, fill_target, read_target, predict_btb}

pub record IsBuffer (c : BtbCache) : Type 0 where
  pub formed : IsWellFormed btb_ops c
  pub created : IsCreated btb_ops c

fill_target_eq :
    (c : BtbCache) (key oracle line : ℕ)
    → (Core.fill_line btb_ops c key).0 ≡ some line
    → calc_tag c.geometry key ≢ 0
    → fill_target c key oracle
      ≡ some (
        ((Core.fill_line btb_ops c key).1.mem line).payload,
        set_inst (Core.fill_line btb_ops c key).1 line oracle,
      )
unfolding fill_target
fill_target_eq c key oracle line got nz = ground arith

read_target_eq :
    (c : BtbCache) (key oracle line : ℕ) (mem : ℕ → StateGeneric ℕ)
    → (Core.find_line btb_ops c key).0 ≡ some line
    → (Core.find_line btb_ops c key).1.mem ≡ mem
    → (mem line).payload ≡ oracle
    → (mem line).tag ≢ 0
    → read_target c key oracle ≡ some (correct_prediction, some (Core.find_line btb_ops c key).1)
unfolding read_target
read_target_eq c key oracle line mem found kept stored nz =
    let held = ap (λ (m : ℕ → StateGeneric ℕ). (m line).payload) kept ∙ stored in
    let named : ((Core.find_line btb_ops c key).1.mem line).tag ≢ 0 =
      λ e. nz (sym (ap (λ (m : ℕ → StateGeneric ℕ). (m line).tag) kept) ∙ e) in
    ground arith

stored_then_read :
    (c c' : BtbCache) (b'' : Btb) (inst : Inst) (target old : ℕ)
    → inst.next_inst_id ≢ target
    → fill_target c inst.addr target ≡ some (old, c')
    → read_target c' inst.addr target ≡ some (correct_prediction, b'')
    → (r : PredType) × (b' : Btb) × (b'' : Btb) × (predict_btb (some c) inst target true
        ≡ some (r, b'))
      × (predict_btb b' inst target false ≡ some (correct_prediction, b''))
unfolding predict_btb
stored_then_read c c' b'' inst target old ne filled read = (
  if old == target then correct_prediction else no_btb_prediction,
  some c',
  b'',
  ground arith,
  ground arith,
)

module _ (c : BtbCache) (v : IsBuffer c) where
  -- A line is always found for a target.
  pub fill_target-some :
      (key oracle : ℕ)
      → calc_tag c.geometry key ≢ 0
      → (line : ℕ) × ((Core.fill_line btb_ops c key).0 ≡ some line)
        × (fill_target c key oracle
            ≡ some (
              ((Core.fill_line btb_ops c key).1.mem line).payload,
              set_inst (Core.fill_line btb_ops c key).1 line oracle,
            ))
  fill_target-some key oracle nz =
      let (line, got) = fill_line-some btb_ops (λ s. refl) c key (assoc_pos v.formed.sound) in
      (line, got, fill_target_eq c key oracle line got nz)

  -- The target that was stored under an address is read back under it.
  read_target-stored :
      (key oracle line : ℕ)
      → calc_tag c.geometry key ≢ 0
      → (Core.fill_line btb_ops c key).0 ≡ some line
      → (b : Btb) × (read_target (set_inst (Core.fill_line btb_ops c key).1 line oracle) key oracle
          ≡ some (correct_prediction, b))
  read_target-stored key oracle line nz got =
      let c' = (Core.fill_line btb_ops c key).1 in
      let mem' = update c'.mem line (record (c'.mem line) { payload = oracle }) in
      let found =
        find_line-tags btb_ops c' mem' (λ i. ground arith) key
        ∙ find_line-fill_line btb_ops generic_ops-IsLawful c key line v.created v.formed nz got in
      let kept = find_line-mem btb_ops (set_inst c' line oracle) key in
      let stored : (update c'.mem line (record (c'.mem line) { payload = oracle }) line).payload
          ≡ oracle =
        ap (λ s. s.payload) (update_self c'.mem line (record (c'.mem line) { payload = oracle })) in
      let (shape, kind) =
        fill_line-KeepsShape btb_ops generic_ops-IsLawful c key v.created v.formed in
      let named : (mem' line).tag ≢ 0 = λ e. nz (
        sym (
          find_line-tag btb_ops (set_inst c' line oracle) key line found
          ∙ ap (λ g. calc_tag g key) shape)
        ∙ e) in
      (
        some (Core.find_line btb_ops (set_inst c' line oracle) key).1,
        read_target_eq (set_inst c' line oracle) key oracle line mem' found kept stored named,
      )

  -- For a buffer that meets the invariant of its cache, and a branch whose address has a tag other
  -- than 0: after `predict` with update of a taken branch, `predict` of the branch without update
  -- returns that the same target is correct.
  pub predict_btb-predict_btb :
      (inst : Inst) (target : ℕ)
      → calc_tag c.geometry inst.addr ≢ 0
      → inst.next_inst_id ≢ target
      → (r : PredType) × (b' : Btb) × (b'' : Btb) × (predict_btb (some c) inst target true
          ≡ some (r, b'))
        × (predict_btb b' inst target false ≡ some (correct_prediction, b''))
  predict_btb-predict_btb inst target nz ne =
      let (line, got, filled) = fill_target-some inst.addr target nz in
      let (b'', read) = read_target-stored inst.addr target line nz got in
      stored_then_read c (set_inst (Core.fill_line btb_ops c inst.addr).1 line target) b'' inst
        target ((Core.fill_line btb_ops c inst.addr).1.mem line).payload ne filled read
