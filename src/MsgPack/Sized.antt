-- ===== src/MsgPack/Sized.antt =====
-- A number that was written in 1, 2, 4 or 8 bytes is read back behind its guard.
use async.Base.{
  ℕ, suc, ◌+◌, ◌*◌, ◌/◌, ◌%◌, ◌^◌, ◌≤◌, ◌<◌, ◌≡◌, ap, ◌∙◌, ◌∷◌, ◌++◌, Bytes, bit_or, bit_or-shift,
  length, arith, length-append, take-length-append, drop-length-append, true, leb, le→leb,
  append_assoc,
}
use async.Data.{DataNode, string, binary}
use async.MsgPack.Write.{write_u8, write_u16, write_u32, write_u64}
use async.MsgPack.Reader.{
  ok, Reader, ◌>>=◌, ◌>>◌, has, require, read_u8, read_u16, read_u32, read_u64, read_bytes,
}
use async.MsgPack.Read.{read_str, read_bin, read_typed, read_node}

pub require-enough : (n : ℕ) (r : Bytes) → n ≤ length r → require n r ≡ ok tt r
unfolding require has
require-enough n r h = ground arith

pub read_u8-write_u8 : (v : ℕ) (r : Bytes) → v < 256 → read_u8 (write_u8 v ++ r) ≡ ok v r
unfolding read_u8 write_u8
read_u8-write_u8 v r h = ap (λ n. ok n r) (omega arith)

pub read_u16-write_u16 : (v : ℕ) (r : Bytes) → v < 2 ^ 16 → read_u16 (write_u16 v ++ r) ≡ ok v r
unfolding read_u16 write_u16
read_u16-write_u16 v r h =
    ap (λ n. ok n r) (bit_or-shift 8 (v / 2 ^ 8 % 256) (v % 256) (omega arith) ∙ omega arith)

pub join_bytes :
    (a b c d : ℕ)
    → b < 256
    → c < 256
    → d < 256
    → bit_or (bit_or (bit_or (a * 2 ^ 24) (b * 2 ^ 16)) (c * 2 ^ 8)) d
      ≡ a * 2 ^ 24 + b * 2 ^ 16 + c * 2 ^ 8 + d
join_bytes a b c d hb hc hd =
    let first = bit_or-shift 24 a (b * 2 ^ 16) (omega arith) in
    let second = bit_or-shift 16 (a * 256 + b) (c * 2 ^ 8) (omega arith) in
    let third = bit_or-shift 8 (a * 2 ^ 16 + b * 256 + c) d (omega arith) in
    rw first (
      ap (λ t. bit_or (bit_or t (c * 2 ^ 8)) d) (omega arith)
      ∙ ap (λ t. bit_or t d) (second ∙ omega arith)
      ∙ third
      ∙ omega arith)

pub read_u32-write_u32 : (v : ℕ) (r : Bytes) → v < 2 ^ 32 → read_u32 (write_u32 v ++ r) ≡ ok v r
unfolding read_u32 write_u32
read_u32-write_u32 v r h =
    ap (λ n. ok n r)
      (join_bytes (v / 2 ^ 24 % 256) (v / 2 ^ 16 % 256) (v / 2 ^ 8 % 256) (v % 256) (omega arith)
          (omega arith) (omega arith)
        ∙ omega arith)

pub read_u64-write_u64 : (v : ℕ) (r : Bytes) → v < 2 ^ 64 → read_u64 (write_u64 v ++ r) ≡ ok v r
unfolding read_u64 write_u64
read_u64-write_u64 v r h =
    let hi = v / 2 ^ 32 % 2 ^ 32 in
    let lo = v % 2 ^ 32 in
    rw
      (
        append_assoc,
        read_u32-write_u32 hi (write_u32 lo ++ r) (omega arith),
        read_u32-write_u32 lo r (omega arith),
      )
      (ap (λ n. ok n r) (bit_or-shift 32 hi lo (omega arith) ∙ omega arith))

-- The same behind `if (!r.has(n)) return nullptr`, with what follows the read.
module _ {ℓ} {A : Type ℓ} (k : ℕ → Reader A) (v : ℕ) (r : Bytes) where
  pub sized8 : v < 256 → (require 1 >> (read_u8 >>= k)) (write_u8 v ++ r) ≡ k v r
  unfolding write_u8
  sized8 h = rw (require-enough 1 (write_u8 v ++ r) (omega arith), read_u8-write_u8 v r h)

  pub sized16 : v < 2 ^ 16 → (require 2 >> (read_u16 >>= k)) (write_u16 v ++ r) ≡ k v r
  unfolding write_u16
  sized16 h = rw (require-enough 2 (write_u16 v ++ r) (omega arith), read_u16-write_u16 v r h)

  pub sized32 : v < 2 ^ 32 → (require 4 >> (read_u32 >>= k)) (write_u32 v ++ r) ≡ k v r
  unfolding write_u32
  sized32 h = rw (require-enough 4 (write_u32 v ++ r) (omega arith), read_u32-write_u32 v r h)

  pub sized64 : v < 2 ^ 64 → (require 8 >> (read_u64 >>= k)) (write_u64 v ++ r) ≡ k v r
  unfolding write_u64 write_u32
  sized64 h = rw (require-enough 8 (write_u64 v ++ r) (omega arith), read_u64-write_u64 v r h)

module _ (rec : Reader DataNode) (max_elements : ℕ) (s r : Bytes) where
  read_bytes-append : read_bytes (length s) (s ++ r) ≡ ok s r
  unfolding read_bytes
  read_bytes-append =
      let fits : leb (length s) (length (s ++ r)) ≡ true =
        le→leb _ _ (omega (arith, length-append s r)) in
      rw (fits, take-length-append s r, drop-length-append s r)

  enough : length s ≤ length (s ++ r)
  enough = omega (arith, length-append s r)

  pub read_str-append :
      (n : ℕ) → n ≡ length s → read_str rec max_elements n (s ++ r) ≡ ok (string s) r
  unfolding read_str
  read_str-append n e = rw e (rw (require-enough _ _ enough, read_bytes-append))

  pub read_bin-append :
      (n : ℕ) → n ≡ length s → read_bin rec max_elements n (s ++ r) ≡ ok (binary s) r
  unfolding read_bin
  read_bin-append n e = rw e (rw (require-enough _ _ enough, read_bytes-append))

-- One level of `read_node`.
pub read_node_step :
    (max_elements d b : ℕ) (r : Bytes)
    → read_node max_elements (suc d) (b ∷ r)
      ≡ read_typed (read_node max_elements d) max_elements b r
unfolding read_node read_u8
read_node_step max_elements d b r = rw (require-enough 1 (b ∷ r) (omega arith))
