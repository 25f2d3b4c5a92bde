-- ===== src/MsgPack/Sound/Widen.antt =====
-- Widening a `float` and extending a sign give words of 64 bits.
use async.Base.{
  ℕ, zero, suc, ◌-◌, ◌*◌, ◌%◌, ◌^◌, ◌≤◌, ◌<◌, ◌≡◌, refl, ap, arith, leb, Bool-cases, inl, inr,
}
use native.Mathlib.Nat.{pow-suc}
use async.MsgPack.Read.{sign_extend, highest_bit, widen_f32}

two_pow_split : (t : ℕ) → t ≤ 52 → 2 ^ t * 2 ^ (52 - t) ≡ 2 ^ 52
two_pow_split zero h = refl
two_pow_split (suc t) h =
    let e : 52 - t ≡ suc (52 - suc t) = omega arith in
    let half : 2 ^ (52 - t) ≡ 2 ^ (52 - suc t) * 2 = rw e (pow-suc 2 (52 - suc t)) in
    omega (
      arith,
      ap (λ (x : ℕ). x * 2 ^ (52 - suc t)) (pow-suc 2 t),
      ap (λ (x : ℕ). 2 ^ t * x) half,
      two_pow_split t (omega arith),
    )

highest_bit-le : (k m : ℕ) → highest_bit k m ≤ k
unfolding highest_bit
highest_bit-le zero m = omega arith
highest_bit-le (suc k) m = ground (arith, highest_bit-le k m)

highest_bit-lt : (k m : ℕ) → m < 2 ^ suc k → m < 2 ^ suc (highest_bit k m)
unfolding highest_bit
highest_bit-lt zero m h = h
highest_bit-lt (suc k) m h = elim (Bool-cases (leb (2 ^ suc k) m)) [
  | inl a ↦ rw a h
  | inr a ↦ rw a (highest_bit-lt k m (ground arith))
]

mul_mono : (a b y : ℕ) → a ≤ b → a * y ≤ b * y
mul_mono a b y h = grind arith

subnormal-lt :
    (m : ℕ) → m < 2 ^ 23 → (m - 2 ^ highest_bit 22 m) * 2 ^ (52 - highest_bit 22 m) ≤ 2 ^ 52
subnormal-lt m h =
    let t = highest_bit 22 m in
    let below : m - 2 ^ t ≤ 2 ^ t = omega (arith, highest_bit-lt 22 m h, pow-suc 2 t) in
    omega (
      arith,
      mul_mono (m - 2 ^ t) (2 ^ t) (2 ^ (52 - t)) below,
      two_pow_split t (omega (arith, highest_bit-le 22 m)),
    )

pub widen_f32-lt : (w : ℕ) → w < 2 ^ 32 → widen_f32 w < 2 ^ 64
unfolding widen_f32
widen_f32-lt w h =
    ground (arith, subnormal-lt (w % 2 ^ 23) (omega arith), highest_bit-le 22 (w % 2 ^ 23))

pub sign_extend-lt : (half v : ℕ) → half ≤ 2 ^ 63 → v < 2 * half → sign_extend half v < 2 ^ 64
unfolding sign_extend
sign_extend-lt half v h l = ground arith
