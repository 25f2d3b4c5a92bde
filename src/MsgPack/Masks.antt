-- ===== src/MsgPack/Masks.antt =====
-- The type bytes: masks as arithmetic, and what `read_typed` does at each fixed type.
use async.Base.{
  ℕ, ◌+◌, ◌-◌, ◌*◌, ◌/◌, ◌%◌, ◌^◌, ◌≤◌, ◌<◌, ◌≡◌, refl, ◌∙◌, bit_and, ◌==◌, ==_iff, arith,
  holds_below, holds_below-elim,
}
use async.Data.{DataNode, int}
use async.MsgPack.Reader.{Reader, pure}
use async.MsgPack.Read.{sign_extend, read_map, read_array, read_str, read_typed}

-- `b & 0xf0` drops the low four bits of a byte.
pub mask_f0 : (b : ℕ) → b < 256 → bit_and b 0xf0 ≡ b / 16 * 16
unfolding holds_below
mask_f0 b h = (==_iff _ _).0 (holds_below-elim (λ x. bit_and x 0xf0 == x / 16 * 16) 256 refl b h)

pub mask_e0 : (b : ℕ) → b < 256 → bit_and b 0xe0 ≡ b / 32 * 32
unfolding holds_below
mask_e0 b h = (==_iff _ _).0 (holds_below-elim (λ x. bit_and x 0xe0 == x / 32 * 32) 256 refl b h)

pub mask_0f : (b : ℕ) → b < 256 → bit_and b 0x0f ≡ b % 16
unfolding holds_below
mask_0f b h = (==_iff _ _).0 (holds_below-elim (λ x. bit_and x 0x0f == x % 16) 256 refl b h)

pub mask_1f : (b : ℕ) → b < 256 → bit_and b 0x1f ≡ b % 32
unfolding holds_below
mask_1f b h = (==_iff _ _).0 (holds_below-elim (λ x. bit_and x 0x1f == x % 32) 256 refl b h)

module _ (rec : Reader DataNode) (max_elements : ℕ) where
  pub read_typed-fixint : (n : ℕ) → n < 128 → read_typed rec max_elements n ≡ pure (int n)
  unfolding read_typed
  read_typed-fixint n h = ground arith

  pub read_typed-negative_fixint :
      (b : ℕ) → 0xe0 ≤ b → b < 256 → read_typed rec max_elements b ≡ pure (int (b + 2 ^ 64 - 256))
  unfolding read_typed sign_extend
  read_typed-negative_fixint b l h = ground arith

  pub read_typed-fixmap :
      (n : ℕ) → n < 16 → read_typed rec max_elements (128 + n) ≡ read_map rec max_elements n
  unfolding read_typed
  read_typed-fixmap n h =
      let whole : bit_and (128 + n) 0x0f ≡ n = mask_0f (128 + n) (omega arith) ∙ omega arith in
      ground (arith, mask_f0 (128 + n), whole)

  pub read_typed-fixarray :
      (n : ℕ) → n < 16 → read_typed rec max_elements (144 + n) ≡ read_array rec max_elements n
  unfolding read_typed
  read_typed-fixarray n h =
      let whole : bit_and (144 + n) 0x0f ≡ n = mask_0f (144 + n) (omega arith) ∙ omega arith in
      ground (arith, mask_f0 (144 + n), whole)

  pub read_typed-fixstr :
      (n : ℕ) → n < 32 → read_typed rec max_elements (160 + n) ≡ read_str rec max_elements n
  unfolding read_typed
  read_typed-fixstr n h =
      let whole : bit_and (160 + n) 0x1f ≡ n = mask_1f (160 + n) (omega arith) ∙ omega arith in
      ground (arith, mask_f0 (160 + n), mask_e0 (160 + n), whole)
