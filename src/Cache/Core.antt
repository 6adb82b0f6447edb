-- ===== src/Cache/Core.antt =====
-- libsuc/CacheCore.cpp and CacheCore.h: `CacheAssoc`, `CacheDM`, and the part of `CacheGeneric`
-- that calls them. A pointer to a line is its index in `mem`; a null pointer is `none`. The
-- assertions of these functions are left out: that a line found is valid, that an invalid line is not
-- locked, and that the line given up is free. The model is what a build without them does; a client
-- whose own assertions matter, as BPred/Btb, states those that it relies on.
use sesc_src.Common.{
  ℕ, zero, suc, ◌+◌, ◌-◌, ◌%◌, ◌^◌, bit_and, ◌≡◌, refl, ◌⊎◌, inl, inr, Bool, true, false, not, ◌&&◌,
  Option, none, some, ◌==◌, if◌then◌else◌,
}
use sesc_src.Common.Arrays.{update}
use sesc_src.Cache.Line.{LineOps}
use sesc_src.Cache.Geometry.{Geometry, calc_tag, calc_index4tag, calc_addr4tag}
use sesc_src.Cache.Order.{move_front}

pub data ReplacementPolicy : Type 0 where
  lru random : ReplacementPolicy

-- The class that `create` chose.
pub data Organisation : Type 0 where
  cache_dm cache_assoc : Organisation

pub Organisation-cases : (o : Organisation) → (o ≡ cache_dm) ⊎ (o ≡ cache_assoc)
Organisation-cases cache_dm = inl refl
Organisation-cases cache_assoc = inr refl

pub record Cache (S : Type 0) : Type 0 where
  pub geometry : Geometry
  pub organisation : Organisation
  pub mem : ℕ → S
  pub content : ℕ → ℕ
  pub irand : ℕ
  pub policy : ReplacementPolicy

-- The constructors of both classes: every line initialised and invalidated, in its own place.
-- `create` takes `CacheDM` when `assoc == 1`.
unfoldable pub create : {S : Type 0} → LineOps S → Geometry → ReplacementPolicy → S → Cache S
create ops g policy initialized = record {
  geometry = g;
  organisation = if g.assoc == 1 then cache_dm else cache_assoc;
  mem = λ _. ops.invalidate initialized;
  content = λ i. i;
  irand = 0;
  policy = policy;
}

module _ {S : Type 0} (ops : LineOps S) where
  -- `(*l)->getTag()` for the pointer `l` into `content`
  abbrev pub tag_at : Cache S → ℕ → ℕ
  tag_at c l = ops.get_tag (c.mem (c.content l))

  abbrev pub valid_at : Cache S → ℕ → Bool
  valid_at c l = ops.is_valid (c.mem (c.content l))

  abbrev pub locked_at : Cache S → ℕ → Bool
  locked_at c l = ops.is_locked (c.mem (c.content l))

  -- `while(l < setEnd)` of `findLineTag`; the first argument counts the rounds left.
  unfoldable pub find_hit : Cache S → ℕ → ℕ → ℕ → Option ℕ
  find_hit c tag zero l = none
  find_hit c tag (suc n) l = if tag_at c l == tag then some l else find_hit c tag n (l + 1)

  -- The body of `findLineTag` from `theSet = first`, with the rounds that the loop makes at most.
  unfoldable pub find_in_set : Cache S → ℕ → ℕ → ℕ → Option ℕ × Cache S
  find_in_set c tag first rounds =
      if tag_at c first == tag
      then (some (c.content first), c)
      else elim (find_hit c tag rounds (first + 1)) [
        | none ↦ (none, c)
        | some l ↦ (some (c.content l), record c { content = move_front c.content first l })
      ]

  -- `CacheAssoc::findLineTag`
  unfoldable pub find_line_tag_assoc : Cache S → ℕ → Option ℕ × Cache S
  unfolding find_in_set
  find_line_tag_assoc c tag =
      find_in_set c tag (calc_index4tag c.geometry tag) (c.geometry.assoc - 1)

  -- `CacheDM::findLineTag`
  unfoldable pub find_line_tag_dm : Cache S → ℕ → Option ℕ × Cache S
  find_line_tag_dm c tag =
      let line = c.content (calc_index4tag c.geometry tag) in
      if ops.get_tag (c.mem line) == tag then (some line, c) else (none, c)

  -- The body of the backward loop of `findLine2Replace` for `lineFree`, at a way that is no hit.
  abbrev pub next_free : Cache S → ℕ → Option ℕ → Option ℕ
  next_free c l (some k) = if not (valid_at c l) then some l else some k
  next_free c l none =
      if not (valid_at c l) then some l else if not (locked_at c l) then some l else none

  -- `while(l >= theSet)` of `findLine2Replace`: `lineHit` and `lineFree`.
  unfoldable pub scan_set : Cache S → ℕ → ℕ → ℕ → Option ℕ → Option ℕ × Option ℕ
  scan_set c tag first zero free = (none, free)
  scan_set c tag first (suc n) free =
      let rest = scan_set c tag first n (next_free c (first + n) free) in
      if tag_at c (first + n) == tag then (some (first + n), free) else rest

  -- `irand = (irand + 1) & maskAssoc` on a `ushort`
  abbrev pub next_irand : Cache S → ℕ
  next_irand c = bit_and (c.irand + 1) c.geometry.mask_assoc % 2 ^ 16

  -- The choice between `lineFree` and the replacement policy: a way, and the new `irand`.
  unfoldable pub choose : Cache S → ℕ → Bool → Option ℕ → Option (ℕ × ℕ)
  choose c first false none = none
  choose c first true none = elim c.policy [
    | random ↦ some (first + c.irand, next_irand c)
    | lru ↦ some (first + c.geometry.assoc - 1, c.irand)
  ]
  choose c first false (some l) = some (l, c.irand)
  choose c first true (some l) = elim c.policy [
    | random ↦ if valid_at c l then some (first + c.irand, next_irand c) else some (l, c.irand)
    | lru ↦ some (l, c.irand)
  ]

  -- The end of `findLine2Replace`: the chosen way moves to the front unless it is there.
  unfoldable pub take_way : Cache S → ℕ → ℕ × ℕ → Option ℕ × Cache S
  take_way c first (l, irand) =
      if l == first
      then (some (c.content l), record c { irand = irand })
      else (some (c.content l), record c { content = move_front c.content first l; irand = irand })

  abbrev pub after_scan : Cache S → ℕ → Bool → Option ℕ × Option ℕ → Option ℕ × Cache S
  after_scan c first ignore_locked (some l, free) = (some (c.content l), c)
  after_scan c first ignore_locked (none, free) = elim (choose c first ignore_locked free) [
    | none ↦ (none, c)
    | some way ↦ take_way c first way
  ]

  -- `CacheAssoc::findLine2Replace`
  unfoldable pub find_line2replace_assoc : Cache S → ℕ → Bool → Option ℕ × Cache S
  find_line2replace_assoc c addr ignore_locked =
      let tag = calc_tag c.geometry addr in
      let first = calc_index4tag c.geometry tag in
      if tag_at c first == tag
      then (some (c.content first), c)
      else after_scan c first ignore_locked (scan_set c tag first c.geometry.assoc none)

  -- `CacheDM::findLine2Replace`
  unfoldable pub find_line2replace_dm : Cache S → ℕ → Bool → Option ℕ × Cache S
  find_line2replace_dm c addr ignore_locked =
      let tag = calc_tag c.geometry addr in
      let line = c.content (calc_index4tag c.geometry tag) in
      if ignore_locked
      then (some line, c)
      else if ops.get_tag (c.mem line) == tag
      then (some line, c)
      else if ops.is_locked (c.mem line)
      then (none, c)
      else (some line, c)

  -- The virtual calls.
  unfoldable pub find_line_tag : Cache S → ℕ → Option ℕ × Cache S
  find_line_tag c tag = elim c.organisation [
    | cache_dm ↦ find_line_tag_dm c tag
    | cache_assoc ↦ find_line_tag_assoc c tag
  ]

  unfoldable pub find_line2replace : Cache S → ℕ → Bool → Option ℕ × Cache S
  find_line2replace c addr ignore_locked = elim c.organisation [
    | cache_dm ↦ find_line2replace_dm c addr ignore_locked
    | cache_assoc ↦ find_line2replace_assoc c addr ignore_locked
  ]

  -- `findLine`; `readLine` and `writeLine` are the same but for the energy counters.
  unfoldable pub find_line : Cache S → ℕ → Option ℕ × Cache S
  find_line c addr = find_line_tag c (calc_tag c.geometry addr)

  abbrev pub set_tag_of : Cache S → ℕ → ℕ → Cache S
  set_tag_of c line tag = record c { mem = update c.mem line (ops.set_tag tag (c.mem line)) }

  abbrev pub fill_found : ℕ → Option ℕ × Cache S → Option ℕ × Cache S
  fill_found tag (none, c) = (none, c)
  fill_found tag (some line, c) = (some line, set_tag_of c line tag)

  -- `fillLine(addr)`
  unfoldable pub fill_line : Cache S → ℕ → Option ℕ × Cache S
  fill_line c addr = fill_found (calc_tag c.geometry addr) (find_line2replace c addr false)

  -- `rplcAddr` of `fillLine(addr, rplcAddr, ignoreLocked)`: the address of the line displaced, or 0.
  abbrev pub replaced_addr : ℕ → Option ℕ × Cache S → ℕ
  replaced_addr tag (none, c) = 0
  replaced_addr tag (some line, c) =
      let s = c.mem line in
      if ops.is_valid s && not (ops.get_tag s == tag)
      then calc_addr4tag c.geometry (ops.get_tag s)
      else 0

  unfoldable pub fill_line_rplc : Cache S → ℕ → Bool → Option ℕ × ℕ × Cache S
  fill_line_rplc c addr ignore_locked =
      let tag = calc_tag c.geometry addr in
      let found = find_line2replace c addr ignore_locked in
      let (l, c') = fill_found tag found in (l, replaced_addr tag found, c')
