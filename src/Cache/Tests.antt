-- ===== src/Cache/Tests.antt =====
-- Runs of the cache, and each theorem at a concrete cache: two sets of two ways, lines of 4 bytes.
use sesc_src.Common.{
  ℕ, ◌-◌, ◌*◌, ◌^◌, ◌≡◌, refl, true, false, some, ◌∷◌, [], ◌==◌, if◌then◌else◌, arith,
}
use sesc_src.Cache.Line.{LineOps, StateGeneric, generic_ops, generic_ops-IsLawful}
use sesc_src.Cache.Geometry.{
  Geometry, log2i, derive, make_geometry, calc_tag, calc_set4tag, calc_index4set, calc_index4tag,
  calc_addr4tag,
}
use sesc_src.Cache.Order.{shift, move_front}
use sesc_src.Cache.Core
use sesc_src.Cache.Core.{Cache, lru, random, create}
use sesc_src.Cache.Sound.{IsSound}
use sesc_src.Cache.Ways.{ways}
use sesc_src.Cache.Find.{find_line_tag_assoc-mru, IsMruStep}
use sesc_src.Cache.Replace.{
  IsReplacement, IsForcedReplacement, IsMiss, find_line2replace_assoc-IsReplacement,
  find_line2replace_assoc-IsForced,
}
use sesc_src.Cache.WellFormed.{IsWellFormed}
use sesc_src.Cache.Lookup.{IsCreated}
use sesc_src.Cache.Init.{make_geometry-IsSound, create-IsWellFormed}
use sesc_src.Cache.RoundTrip.{fill_line-IsWellFormed, find_line-fill_line}

program : Unit {0}
unfolding log2i make_geometry derive calc_tag calc_set4tag calc_index4set calc_index4tag
    calc_addr4tag shift move_front create Core.find_line_tag_assoc Core.find_line_tag_dm
    Core.scan_set Core.choose Core.take_way Core.find_hit Core.find_line2replace_assoc
    Core.find_line2replace_dm Core.find_line_tag Core.find_line2replace Core.find_line
    Core.fill_line Core.fill_line_rplc ways
program = tt

abbrev ops : LineOps (StateGeneric ℕ)
ops = generic_ops

make_geometry-IsSound_example :
    (g : Geometry) × (make_geometry (2 ^ 1 * 2 ^ 1 * 2 ^ 2) (2 ^ 1) (2 ^ 2) 1 ≡ some g)
    × IsSound g
    × (g.sets ≡ 2 ^ 1)
    × (g.assoc ≡ 2 ^ 1)
    × (g.log2_assoc ≡ 1)
    × (g.log2_addr_ls ≡ 2)
    × (g.mask_sets ≡ 2 ^ 1 - 1)
    × (g.mask_assoc ≡ 2 ^ 1 - 1)
    × (g.num_lines ≡ 2 ^ 1 * 2 ^ 1)
make_geometry-IsSound_example =
    make_geometry-IsSound 1 1 2 1 2 (omega arith) (omega arith) (omega arith) refl (omega arith)

abbrev small : Geometry
small = record {
  size = 16;
  line_size = 4;
  addr_unit = 1;
  assoc = 2;
  log2_assoc = 1;
  log2_addr_ls = 2;
  mask_assoc = 1;
  sets = 2;
  mask_sets = 1;
  num_lines = 4;
}

make_geometry-small : make_geometry 16 2 4 1 ≡ some small
unfolding program
make_geometry-small = refl

small-IsSound : IsSound small
small-IsSound = record {
  log2_sets = 1;
  sets_eq = refl;
  mask_eq = refl;
  assoc_eq = refl;
  lines_eq = refl;
  small = omega arith;
}

abbrev blank : StateGeneric ℕ
blank = record { tag = 7; payload = 0 }

abbrev fresh : Cache (StateGeneric ℕ)
fresh = create ops small lru blank

fresh-IsWellFormed : IsWellFormed ops fresh × IsCreated ops fresh
fresh-IsWellFormed = create-IsWellFormed ops small lru blank small-IsSound refl

-- Addresses 0x10 and 0x18 fill the two ways of set 0; a read of 0x10 then puts it in front, so
-- that 0x20 displaces 0x18.
abbrev two : Cache (StateGeneric ℕ)
two = (Core.fill_line ops (Core.fill_line ops fresh 0x10).1 0x18).1

fill_twice : (ways two.content 0 2 ≡ 1 ∷ 0 ∷ []) × ((Core.find_line ops two 0x10).0 ≡ some 0)
unfolding program
fill_twice = (refl, refl)

displaces_oldest :
    ((Core.fill_line_rplc ops (Core.find_line ops two 0x10).1 0x20 false).0 ≡ some 1)
    × ((Core.fill_line_rplc ops (Core.find_line ops two 0x10).1 0x20 false).1 ≡ 0x18)
unfolding program
displaces_oldest = (refl, refl)

fill_line-IsWellFormed_example : IsWellFormed ops (Core.fill_line ops fresh 0x10).1
unfolding program
fill_line-IsWellFormed_example =
    fill_line-IsWellFormed ops generic_ops-IsLawful fresh 0x10 fresh-IsWellFormed.1
      fresh-IsWellFormed.0 (omega arith)

find_line-fill_line_example : (Core.find_line ops (Core.fill_line ops fresh 0x10).1 0x10).0 ≡ some 0
unfolding program
find_line-fill_line_example =
    find_line-fill_line ops generic_ops-IsLawful fresh 0x10 0 fresh-IsWellFormed.1
      fresh-IsWellFormed.0 (omega arith) refl

find_line_tag_assoc-mru_example :
    IsMruStep ops two 4 (calc_index4tag small 4) 1 (Core.find_line_tag_assoc ops two 4)
unfolding program
find_line_tag_assoc-mru_example = find_line_tag_assoc-mru ops two 4 1 refl

-- Tags 4 and 6 stand in set 0.
abbrev stored : Cache (StateGeneric ℕ)
stored = record {
  geometry = small;
  organisation = Core.cache_assoc;
  mem = λ n. record { tag = if n == 0 then 4 else (if n == 1 then 6 else 0); payload = 0 };
  content = λ i. i;
  irand = 0;
  policy = lru;
}

stored-IsMiss : IsMiss ops stored 0x20 1 refl
unfolding program
stored-IsMiss j p q = ground arith

find_line2replace_assoc-IsReplacement_example :
    IsReplacement ops stored 0x20 1 refl (Core.find_line2replace_assoc ops stored 0x20 false)
find_line2replace_assoc-IsReplacement_example =
    find_line2replace_assoc-IsReplacement ops stored 0x20 1 refl stored-IsMiss

-- With all ways valid, RANDOM takes way 1 and goes round to way 0.
abbrev turn : Cache (StateGeneric ℕ)
turn = record stored { policy = random; irand = 1 }

turn-IsMiss : IsMiss ops turn 0x20 1 refl
unfolding program
turn-IsMiss j p q = ground arith

find_line2replace_assoc-IsForced_example :
    IsForcedReplacement ops turn 0x20 1 refl (Core.find_line2replace_assoc ops turn 0x20 true)
find_line2replace_assoc-IsForced_example =
    find_line2replace_assoc-IsForced ops turn 0x20 1 refl 1 refl (omega arith) refl (omega arith)
      turn-IsMiss

random_turns :
    ((Core.find_line2replace_assoc ops turn 0x20 true).0 ≡ some 1)
    × ((Core.find_line2replace_assoc ops turn 0x20 true).1.irand ≡ 0)
unfolding program
random_turns = (refl, refl)
