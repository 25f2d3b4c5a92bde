-- ===== src/Base/Words.antt =====
-- `|` and `&` on words: a table for one byte, and `|` of disjoint bits as a sum.
use Prim.Native.Nat.{
  ℕ, zero, suc, ◌+◌, ◌-◌, ◌*◌, ◌/◌, ◌%◌, ◌^◌, ◌≤◌, ◌<◌, max, bit_or, digits, bit_or-bitwise,
}
use mathlib.Core.Path.{◌≡◌, refl, ap, sym, ◌∙◌}
use mathlib.Core.Bool.{Bool, true, ◌&&◌}
use native.Mathlib.Omega.{arith}
use native.Mathlib.Nat.{pow-suc}

-- A property of every number below a bound, checked by evaluation.
unfoldable pub holds_below : (ℕ → Bool) → ℕ → Bool
holds_below p zero = true
holds_below p (suc bound) = holds_below p bound && p bound

pub holds_below-elim :
    (p : ℕ → Bool) (bound : ℕ) → holds_below p bound ≡ true → (x : ℕ) → x < bound → p x ≡ true
unfolding holds_below
holds_below-elim p zero every x small = absurd (omega arith)
holds_below-elim p (suc bound) every x small =
    ground (arith, holds_below-elim p bound (ground arith) x)

-- The recursion over the bits that `bit_or` stands for, with its fuel.
abbrev or_upto : (fuel a b : ℕ) → ℕ
or_upto fuel a b = digits (λ rest. rest) max fuel a b

one_spare : (fuel a b : ℕ) → a ≤ fuel → or_upto (suc fuel) a b ≡ or_upto fuel a b
one_spare zero zero b h = refl
one_spare (suc fuel) zero b h = refl
one_spare zero (suc a) b h = absurd (omega arith)
one_spare (suc fuel) (suc a) b h =
    let parts = one_spare fuel (suc a / 2) (b / 2) (omega arith) in
    ap (λ t. t * 2 + max (suc a % 2) (b % 2)) parts

abbrev raise : ℕ → ℕ → ℕ
raise zero n = n
raise (suc k) n = suc (raise k n)

raise-eq-add : (k n : ℕ) → raise k n ≡ k + n
raise-eq-add zero n = omega arith
raise-eq-add (suc k) n = omega (arith, raise-eq-add k n)

all_spare : (k fuel a b : ℕ) → a ≤ fuel → or_upto (raise k fuel) a b ≡ or_upto fuel a b
all_spare zero fuel a b h = refl
all_spare (suc k) fuel a b h =
    one_spare (raise k fuel) a b (omega (arith, raise-eq-add k fuel)) ∙ all_spare k fuel a b h

-- Fuel that suffices gives what the operation gives.
or_upto-bit_or : (fuel a b : ℕ) → a ≤ fuel → or_upto fuel a b ≡ bit_or a b
or_upto-bit_or fuel zero b h = from_zero fuel ∙ sym (bit_or-bitwise zero b)
  where
    from_zero : (n : ℕ) → or_upto n zero b ≡ b
    from_zero zero = refl
    from_zero (suc n) = refl
or_upto-bit_or fuel (suc a) b h =
    let split : raise (fuel - suc a) (suc a) ≡ fuel =
      raise-eq-add (fuel - suc a) (suc a) ∙ omega arith in
    ap (λ n. or_upto n (suc a) b) (sym split)
    ∙ all_spare (fuel - suc a) (suc a) (suc a) b (omega arith)
    ∙ sym (bit_or-bitwise (suc a) b)

-- The lowest bit of `a | b`, and the rest.
bit_or_halves : (a b : ℕ) → max (a % 2) (b % 2) + bit_or (a / 2) (b / 2) * 2 ≡ bit_or a b
bit_or_halves zero b =
    omega (arith, bit_or-bitwise zero b, ap (λ t. t * 2) (bit_or-bitwise zero (b / 2)))
bit_or_halves (suc a) b = omega (
  arith,
  bit_or-bitwise (suc a) b,
  ap (λ t. t * 2) (or_upto-bit_or a (suc a / 2) (b / 2) (omega arith)),
)

-- No bits on the right, by halving as long as the bound allows.
bit_or-zero_upto : (bound a : ℕ) → a ≤ bound → bit_or a 0 ≡ a
bit_or-zero_upto bound zero h = bit_or-bitwise zero zero
bit_or-zero_upto zero (suc a) h = absurd (omega arith)
bit_or-zero_upto (suc bound) (suc a) h =
    omega (arith, bit_or_halves (suc a) zero, bit_or-zero_upto bound (suc a / 2) (omega arith))

bit_or-zero : (a : ℕ) → bit_or a 0 ≡ a
bit_or-zero a = bit_or-zero_upto a a (omega arith)

-- `(hi << k) | lo` is a sum where `lo` fits into the k low bits.
pub bit_or-shift : (k hi lo : ℕ) → lo < 2 ^ k → bit_or (hi * 2 ^ k) lo ≡ hi * 2 ^ k + lo
bit_or-shift zero hi lo h =
    let e : lo ≡ 0 = omega arith in rw e (bit_or-zero (hi * 2 ^ 0) ∙ omega arith)
bit_or-shift (suc k) hi lo h =
    let wide : hi * 2 ^ suc k ≡ hi * 2 ^ k * 2 =
      omega (arith, ap (λ (t : ℕ). hi * t) (pow-suc 2 k)) in
    let half : hi * 2 ^ suc k / 2 ≡ hi * 2 ^ k = omega arith in
    omega (
      arith,
      pow-suc 2 k,
      bit_or_halves (hi * 2 ^ suc k) lo,
      ap (λ t. bit_or t (lo / 2)) half,
      bit_or-shift k hi (lo / 2) (omega (arith, pow-suc 2 k)),
    )
