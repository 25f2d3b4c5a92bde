-- ===== src/MsgPack/Sound/Typed.antt =====
-- What follows a type byte: each case of the switch stays inside the input.
use async.Base.{ℕ, suc, ◌^◌, ◌<◌, ◌≡◌, refl, true, false, Bytes, arith, leb, ◌==◌, bit_and, ◌&&◌}
use async.Data.{DataNode, null, bool, int, float}
use async.MsgPack.Reader.{
  Outcome, ok, Reader, ◌>>=◌, ◌>>◌, require, read_u8, read_u16, read_u32, read_u64,
}
use async.MsgPack.Read.{
  widen_f32, read_map, read_array, read_str, read_bin, read_tagged, read_typed,
}
use async.MsgPack.Encodable.{canon, levels, IsEncodable}
use async.MsgPack.Insert.{IsParsed}
use async.MsgPack.Masks.{mask_0f, mask_1f}
use async.MsgPack.Ensures.{
  Ensures, holds, refused, IsBytes, Left, Ensures-if, Ensures-weaken, guarded_u8, guarded_u16,
  guarded_u32, guarded_u64,
}
use async.MsgPack.Sound.Containers.{
  ReadsValue, Above, read_array-Ensures, read_map-Ensures, read_str-Ensures, read_bin-Ensures,
}
use async.MsgPack.Sound.Widen.{widen_f32-lt, sign_extend-lt}

module _ (m d : ℕ) (rec : Reader DataNode)
    (sound : (r : Bytes) → IsBytes r → ReadsValue m d rec r) where
  abbrev pub Result : Bytes → DataNode → Bytes → Type 0
  Result r = Above m d rec sound r

  constant :
      (v : DataNode) (r : Bytes) → IsBytes r → IsParsed m (suc d) v → Ensures (Result r) (ok v r)
  constant v r w p = holds (p, (w, omega arith))

  pub later :
      (o : Outcome DataNode) (r r₁ : Bytes)
      → Left r r₁
      → Ensures (Result r₁) o
      → Ensures (Result r) o
  later o r r₁ h e = Ensures-weaken e λ v r' (p, w). (p, (w.0, omega arith))

  -- A number behind the type byte.
  module _ (k : ℕ → Reader DataNode) (r : Bytes) (w : IsBytes r) where
    abbrev Follows : ℕ → Type 0
    Follows bound = (n : ℕ) (r₁ : Bytes) → IsBytes r₁ → n < bound → Ensures (Result r₁) (k n r₁)

    then_u8 : Follows 256 → Ensures (Result r) ((require 1 >> (read_u8 >>= k)) r)
    then_u8 next = guarded_u8 k r w λ n r₁ l h. later (k n r₁) r r₁ h (next n r₁ h.0 l)

    then_u16 : Follows (2 ^ 16) → Ensures (Result r) ((require 2 >> (read_u16 >>= k)) r)
    then_u16 next = guarded_u16 k r w λ n r₁ l h. later (k n r₁) r r₁ h (next n r₁ h.0 l)

    then_u32 : Follows (2 ^ 32) → Ensures (Result r) ((require 4 >> (read_u32 >>= k)) r)
    then_u32 next = guarded_u32 k r w λ n r₁ l h. later (k n r₁) r r₁ h (next n r₁ h.0 l)

    then_u64 : Follows (2 ^ 64) → Ensures (Result r) ((require 8 >> (read_u64 >>= k)) r)
    then_u64 next = guarded_u64 k r w λ n r₁ l h. later (k n r₁) r r₁ h (next n r₁ h.0 l)

  scalar :
      (v : DataNode) (r : Bytes)
      → IsBytes r
      → IsEncodable m v
      → levels v ≡ 1
      → canon v ≡ v
      → Ensures (Result r) (ok v r)
  scalar v r w e l c =
      constant v r w (record { encodable = e; nesting = omega arith; canonical = c })

  a_bin : (n : ℕ) (r : Bytes) → IsBytes r → n < 2 ^ 32 → Ensures (Result r) (read_bin rec m n r)
  a_bin = read_bin-Ensures m d rec sound

  a_str : (n : ℕ) (r : Bytes) → IsBytes r → n < 2 ^ 32 → Ensures (Result r) (read_str rec m n r)
  a_str = read_str-Ensures m d rec sound

  an_array :
      (n : ℕ) (r : Bytes) → IsBytes r → n < 2 ^ 32 → Ensures (Result r) (read_array rec m n r)
  an_array = read_array-Ensures m d rec sound

  a_map : (n : ℕ) (r : Bytes) → IsBytes r → n < 2 ^ 32 → Ensures (Result r) (read_map rec m n r)
  a_map = read_map-Ensures m d rec sound

  an_int : (n : ℕ) (r : Bytes) → IsBytes r → n < 2 ^ 64 → Ensures (Result r) (ok (int n) r)
  unfolding levels canon IsEncodable
  an_int n r w h = scalar (int n) r w h refl refl

  a_float : (n : ℕ) (r : Bytes) → IsBytes r → n < 2 ^ 64 → Ensures (Result r) (ok (float n) r)
  unfolding levels canon IsEncodable
  a_float n r w h = scalar (float n) r w h refl refl

  read_tagged-Ensures : (b : ℕ) (r : Bytes) → IsBytes r → Ensures (Result r) (read_tagged rec m b r)
  unfolding read_tagged levels canon IsEncodable
  read_tagged-Ensures b r w =
      Ensures-if (b == 0xc0) _ _ r (λ _. scalar null r w tt refl refl)
        λ _.
          Ensures-if (b == 0xc1) _ _ r (λ _. refused)
            λ _.
              Ensures-if (b == 0xc2) _ _ r (λ _. scalar (bool false) r w tt refl refl)
                λ _.
                  Ensures-if (b == 0xc3) _ _ r (λ _. scalar (bool true) r w tt refl refl)
                    λ _.
                      Ensures-if (b == 0xc4) _ _ r
                        (λ _. then_u8 _ r w λ n r₁ w₁ l. a_bin n r₁ w₁ (omega arith))
                        λ _.
                          Ensures-if (b == 0xc5) _ _ r
                            (λ _. then_u16 _ r w λ n r₁ w₁ l. a_bin n r₁ w₁ (omega arith))
                            λ _.
                              Ensures-if (b == 0xc6) _ _ r (λ _. then_u32 _ r w a_bin)
                                λ _.
                                  Ensures-if (leb 0xc7 b && leb b 0xc9) _ _ r (λ _. refused)
                                    λ _.
                                      Ensures-if (b == 0xca) _ _ r
                                        (λ _. then_u32 _ r w λ n r₁ w₁ l.
                                          a_float (widen_f32 n) r₁ w₁ (widen_f32-lt n l))
                                        λ _.
                                          Ensures-if (b == 0xcb) _ _ r (λ _. then_u64 _ r w a_float)
                                            λ _.
                                              Ensures-if (b == 0xcc) _ _ r
                                                (λ _.
                                                  then_u8 _ r w
                                                    λ n r₁ w₁ l. an_int n r₁ w₁ (omega arith))
                                                λ _.
                                                  Ensures-if (b == 0xcd) _ _ r
                                                    (λ _.
                                                      then_u16 _ r w
                                                        λ n r₁ w₁ l. an_int n r₁ w₁ (omega arith))
                                                    λ _.
                                                      Ensures-if (b == 0xce) _ _ r
                                                        (λ _.
                                                          then_u32 _ r w λ n r₁ w₁ l.
                                                            an_int n r₁ w₁ (omega arith))
                                                        λ _.
                                                          Ensures-if (b == 0xcf) _ _ r
                                                            (λ _. then_u64 _ r w an_int)
                                                            λ _.
                                                            Ensures-if (b == 0xd0) _ _ r
                                                            (λ _. then_u8 _ r w λ n r₁ w₁ l.
                                                            an_int _ r₁ w₁ (
                                                            sign_extend-lt (2 ^ 7) n (omega arith)
                                                            l))
                                                            λ _.
                                                            Ensures-if (b == 0xd1) _ _ r
                                                            (λ _. then_u16 _ r w λ n r₁ w₁ l.
                                                            an_int _ r₁ w₁ (
                                                            sign_extend-lt (2 ^ 15) n (omega arith)
                                                            l))
                                                            λ _.
                                                            Ensures-if (b == 0xd2) _ _ r
                                                            (λ _. then_u32 _ r w λ n r₁ w₁ l.
                                                            an_int _ r₁ w₁ (
                                                            sign_extend-lt (2 ^ 31) n (omega arith)
                                                            l))
                                                            λ _.
                                                            Ensures-if (b == 0xd3) _ _ r
                                                            (λ _. then_u64 _ r w an_int)
                                                            λ _.
                                                            Ensures-if (leb 0xd4 b && leb b 0xd8) _
                                                            _ r (λ _. refused)
                                                            λ _.
                                                            Ensures-if (b == 0xd9) _ _ r
                                                            (λ _. then_u8 _ r w λ n r₁ w₁ l.
                                                            a_str n r₁ w₁ (omega arith))
                                                            λ _.
                                                            Ensures-if (b == 0xda) _ _ r
                                                            (λ _. then_u16 _ r w λ n r₁ w₁ l.
                                                            a_str n r₁ w₁ (omega arith))
                                                            λ _.
                                                            Ensures-if (b == 0xdb) _ _ r
                                                            (λ _. then_u32 _ r w a_str)
                                                            λ _.
                                                            Ensures-if (b == 0xdc) _ _ r
                                                            (λ _. then_u16 _ r w λ n r₁ w₁ l.
                                                            an_array n r₁ w₁ (omega arith))
                                                            λ _.
                                                            Ensures-if (b == 0xdd) _ _ r
                                                            (λ _. then_u32 _ r w an_array)
                                                            λ _.
                                                            Ensures-if (b == 0xde) _ _ r
                                                            (λ _. then_u16 _ r w λ n r₁ w₁ l.
                                                            a_map n r₁ w₁ (omega arith))
                                                            λ _.
                                                            Ensures-if (b == 0xdf) _ _ r
                                                            (λ _. then_u32 _ r w a_map) λ _. refused

  pub read_typed-Ensures :
      (b : ℕ) (r : Bytes) → b < 256 → IsBytes r → Ensures (Result r) (read_typed rec m b r)
  unfolding read_typed
  read_typed-Ensures b r h w =
      Ensures-if (leb b 0x7f) _ _ r (λ _. an_int b r w (omega arith))
        λ _.
          Ensures-if (leb 0xe0 b) _ _ r
            (λ _. an_int _ r w (sign_extend-lt (2 ^ 7) b (omega arith) h))
            λ _.
              Ensures-if (bit_and b 0xf0 == 0x80) _ _ r
                (λ _. a_map _ r w (omega (arith, mask_0f b h)))
                λ _.
                  Ensures-if (bit_and b 0xf0 == 0x90) _ _ r
                    (λ _. an_array _ r w (omega (arith, mask_0f b h)))
                    λ _.
                      Ensures-if (bit_and b 0xe0 == 0xa0) _ _ r
                        (λ _. a_str _ r w (omega (arith, mask_1f b h)))
                        λ _. read_tagged-Ensures b r w
