-- ===== src/MsgPack/Keys.antt =====
-- The first byte of a written key shows the kind of the map.
use async.Base.{
  ℕ, ◌+◌, ◌^◌, ◌<◌, ◌≡◌, [], ◌∷◌, ◌++◌, Bytes, arith, length, true, false, Bool-cases, inl, inr,
  leb,
}
use async.MsgPack.Write.{write_u8, write_msgpack_str, write_msgpack_int}
use async.MsgPack.Reader.{Reader, ◌>>=◌, ◌>>◌, require, peek_u8}
use async.MsgPack.Read.{has_int_keys, has_str_keys}
use async.MsgPack.Masks.{mask_e0}
use async.MsgPack.Sized.{require-enough}
use async.MsgPack.Scalars.{tag_a0}

abbrev pub first : Bytes → ℕ
first [] = 0
first (b ∷ r) = b

-- Peeking at an input that is not empty.
pub peek-first {ℓ} :
    {A : Type ℓ} (k : ℕ → Reader A) (s : Bytes)
    → 0 < length s
    → (require 1 >> (peek_u8 >>= k)) s ≡ k (first s) s
unfolding peek_u8
peek-first k [] h = absurd (omega arith)
peek-first k (b ∷ r) h = rw (require-enough 1 (b ∷ r) (omega arith))

pub has_int_keys-int :
    (v : ℕ) (r : Bytes)
    → v < 2 ^ 64
    → (0 < length (write_msgpack_int v ++ r))
      × (has_int_keys (first (write_msgpack_int v ++ r)) ≡ true)
unfolding has_int_keys write_msgpack_int write_u8
has_int_keys-int v r h = ground arith

pub has_str_keys-str :
    (s r : Bytes)
    → (0 < length (write_msgpack_str s ++ r))
      × (has_int_keys (first (write_msgpack_str s ++ r)) ≡ false)
      × (has_str_keys (first (write_msgpack_str s ++ r)) ≡ true)
unfolding has_int_keys has_str_keys write_msgpack_str write_u8
has_str_keys-str s r = elim (Bool-cases (leb (length s) 31)) [
  | inl a ↦ rw (a, tag_a0 (length s) (ground arith)) (ground (arith, mask_e0 (160 + length s)))
  | inr a ↦ ground arith
]
