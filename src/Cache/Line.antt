-- ===== src/Cache/Line.antt =====
-- libsuc/CacheCore.h: what `CacheGeneric` asks of the `State` class of its lines, and the class
-- `StateGeneric`, which gives it. `setTag` is what it does in a build without assertions: its
-- `I(a)`, that the tag is not 0, is stated where a client needs it.
use sesc_src.Common.{ℕ, Bool, false, not, ◌==◌, ◌≡◌, refl}

-- The members that the cache calls on a line. A state class overrides some of them.
pub record LineOps (S : Type 0) : Type 0 where
  pub get_tag : S → ℕ
  pub set_tag : ℕ → S → S
  pub is_valid : S → Bool
  pub is_locked : S → Bool
  pub invalidate : S → S

-- `getTag` reads what `setTag` wrote.
pub record IsLawful {S : Type 0} (ops : LineOps S) : Type 0 where
  pub get_tag-set_tag : (t : ℕ) (s : S) → ops.get_tag (ops.set_tag t s) ≡ t

-- `StateGeneric`, with the payload that a subclass adds (`inst` of a BTB entry).
pub record StateGeneric (P : Type 0) : Type 0 where
  pub tag : ℕ
  pub payload : P

module _ {P : Type 0} where
  -- A tag of 0 stands for "no line": `isValid` returns the tag, `invalidate` is `clearTag`.
  abbrev pub generic_ops : LineOps (StateGeneric P)
  generic_ops = record {
    get_tag = λ s. s.tag;
    set_tag = λ t s. record s { tag = t };
    is_valid = λ s. not (s.tag == 0);
    is_locked = λ s. false;
    invalidate = λ s. record s { tag = 0 };
  }

  pub generic_ops-IsLawful : IsLawful generic_ops
  generic_ops-IsLawful = record { get_tag-set_tag = λ t s. refl }
