-- ===== src/MsgPack/Ensures.antt =====
-- Postconditions of a reader: it stays inside its input, and `P` holds of what it returns.
use async.Base.{
  ℕ, ◌+◌, ◌^◌, ◌≤◌, ◌<◌, ◌≡◌, ◌≢◌, refl, subst, Bool, true, false, if◌then◌else◌, [], ◌∷◌, Bytes,
  bit_or-shift, All, All-drop, length, length-take, length-drop, arith, leb, le→leb, Bool-cases,
  inl, inr,
}
use async.MsgPack.Reader.{
  Outcome, ok, rejected, overrun, Reader, and_then, ◌>>=◌, ◌>>◌, has, require, read_u8, peek_u8,
  read_u16, read_u32, read_u64, read_bytes,
}
use async.MsgPack.Sized.{join_bytes}

pub data Ensures {ℓ κ} {A : Type ℓ} (P : A → Bytes → Type κ) : Outcome A → Type (ℓ ⊔ κ) where
  holds : {a : A} {r : Bytes} → P a r → Ensures P (ok a r)
  refused : Ensures P rejected

abbrev pub IsBytes : Bytes → Type 0
IsBytes = All (λ b. b < 256)

-- The input that is left of `r`.
abbrev pub Left : Bytes → Bytes → Type 0
Left r r' = IsBytes r' × (length r' ≤ length r)

module _ {ℓ κ} {A : Type ℓ} {P : A → Bytes → Type κ} where
  pub Ensures-ok : {o : Outcome A} (a : A) (r : Bytes) → Ensures P o → o ≡ ok a r → P a r
  Ensures-ok a r (holds {a = a'} {r = r'} p) e = subst (λ o. Holds o) e p
    where
      Holds : Outcome A → Type κ
      Holds (ok a r) = P a r
      Holds _ = Unit
  Ensures-ok a r refused e = cc

  pub Ensures-ne-overrun : {o : Outcome A} → Ensures P o → o ≢ overrun
  Ensures-ne-overrun (holds p) = cc
  Ensures-ne-overrun refused = cc

  pub Ensures-weaken {κ'} :
      {Q : A → Bytes → Type κ'} {o : Outcome A}
      → Ensures P o
      → ((a : A) (r : Bytes) → P a r → Q a r)
      → Ensures Q o
  Ensures-weaken (holds {a = a} {r = r} p) f = holds (f a r p)
  Ensures-weaken refused f = refused

  pub Ensures-if :
      (b : Bool) (f g : Reader A) (r : Bytes)
      → (b ≡ true → Ensures P (f r))
      → (b ≡ false → Ensures P (g r))
      → Ensures P ((if b then f else g) r)
  Ensures-if true f g r hx hy = hx refl
  Ensures-if false f g r hx hy = hy refl

  pub Ensures-bind {ℓ' κ'} :
      {B : Type ℓ'} {Q : B → Bytes → Type κ'} {o : Outcome A} {k : A → Reader B}
      → Ensures P o
      → ((a : A) (r : Bytes) → P a r → Ensures Q (k a r))
      → Ensures Q (and_then o k)
  Ensures-bind (holds {a = a} {r = r} p) next = next a r p
  Ensures-bind refused next = refused

-- Behind its guard a reader may use that the bytes are there.
pub guarded {ℓ κ} :
    {A : Type ℓ} {P : A → Bytes → Type κ} (n : ℕ) (k : Reader A) (r : Bytes)
    → (n ≤ length r → Ensures P (k r))
    → Ensures P ((require n >> k) r)
unfolding require has
guarded n k r next = elim (Bool-cases (leb n (length r))) [
  | inl a ↦ rw a (next (ground arith))
  | inr a ↦ rw a refused
]

read_u8-Ensures :
    (r : Bytes) → IsBytes r → 1 ≤ length r → Ensures (λ v r'. (v < 256) × Left r r') (read_u8 r)
unfolding read_u8
read_u8-Ensures [] w h = absurd (omega arith)
read_u8-Ensures (b ∷ r) w h = holds (w.0, (w.1, omega arith))

peek_u8-Ensures :
    (r : Bytes) → IsBytes r → 1 ≤ length r → Ensures (λ v r'. (v < 256) × (r' ≡ r)) (peek_u8 r)
unfolding peek_u8
peek_u8-Ensures [] w h = absurd (omega arith)
peek_u8-Ensures (b ∷ r) w h = holds (w.0, refl)

read_u16-Ensures :
    (r : Bytes) → IsBytes r → 2 ≤ length r → Ensures (λ v r'. (v < 2 ^ 16) × Left r r') (read_u16 r)
unfolding read_u16
read_u16-Ensures [] w h = absurd (omega arith)
read_u16-Ensures (a ∷ []) w h = absurd (omega arith)
read_u16-Ensures (a ∷ b ∷ r) (ha, (hb, w)) h =
    holds (rw (bit_or-shift 8 a b (omega arith)) (omega arith), (w, omega arith))

-- `read_u32` takes four bytes.
read_u32-length :
    (r : Bytes)
    → IsBytes r
    → 4 ≤ length r
    → Ensures (λ v r'. (v < 2 ^ 32) × Left r r' × (length r ≡ length r' + 4)) (read_u32 r)
unfolding read_u32
read_u32-length [] w h = absurd (omega arith)
read_u32-length (a ∷ []) w h = absurd (omega arith)
read_u32-length (a ∷ b ∷ []) w h = absurd (omega arith)
read_u32-length (a ∷ b ∷ c ∷ []) w h = absurd (omega arith)
read_u32-length (a ∷ b ∷ c ∷ d ∷ r) (ha, (hb, (hc, (hd, w)))) h =
    holds (rw (join_bytes a b c d hb hc hd) (omega arith), (w, omega arith), omega arith)

read_u32-Ensures :
    (r : Bytes) → IsBytes r → 4 ≤ length r → Ensures (λ v r'. (v < 2 ^ 32) × Left r r') (read_u32 r)
read_u32-Ensures r w h = Ensures-weaken (read_u32-length r w h) λ v r' (p, q, e). (p, q)

read_u64-Ensures :
    (r : Bytes) → IsBytes r → 8 ≤ length r → Ensures (λ v r'. (v < 2 ^ 64) × Left r r') (read_u64 r)
unfolding read_u64
read_u64-Ensures r w h = Ensures-bind (read_u32-length r w (omega arith)) λ hi r₁ (p, q, e).
    Ensures-bind (read_u32-length r₁ q.0 (omega arith))
      λ lo r₂ (p', q', e'). holds (rw (bit_or-shift 32 hi lo p') (omega arith), (q'.0, omega arith))

pub read_bytes-Ensures :
    (n : ℕ) (r : Bytes)
    → IsBytes r
    → n ≤ length r
    → Ensures (λ s r'. (length s ≡ n) × Left r r') (read_bytes n r)
unfolding read_bytes
read_bytes-Ensures n r w h =
    rw (le→leb n (length r) h)
      (holds (length-take n r h, (All-drop _ n r w, omega (arith, length-drop n r))))

-- What follows the read of a number below a bound.
abbrev pub Next {ℓ κ} :
    {A : Type ℓ} → (A → Bytes → Type κ) → (ℕ → Reader A) → Bytes → ℕ → Type (ℓ ⊔ κ)
Next P k r bound = (v : ℕ) (r' : Bytes) → v < bound → Left r r' → Ensures P (k v r')

-- A guarded read of a number, and what follows it.
module _ {ℓ κ} {A : Type ℓ} {P : A → Bytes → Type κ} (k : ℕ → Reader A) (r : Bytes)
    (w : IsBytes r) where
  pub guarded_u8 : Next P k r 256 → Ensures P ((require 1 >> (read_u8 >>= k)) r)
  guarded_u8 next =
      guarded 1 _ r λ h. Ensures-bind (read_u8-Ensures r w h) λ v r₁ (p, q). next v r₁ p q

  pub guarded_u16 : Next P k r (2 ^ 16) → Ensures P ((require 2 >> (read_u16 >>= k)) r)
  guarded_u16 next =
      guarded 2 _ r λ h. Ensures-bind (read_u16-Ensures r w h) λ v r₁ (p, q). next v r₁ p q

  pub guarded_u32 : Next P k r (2 ^ 32) → Ensures P ((require 4 >> (read_u32 >>= k)) r)
  guarded_u32 next =
      guarded 4 _ r λ h. Ensures-bind (read_u32-Ensures r w h) λ v r₁ (p, q). next v r₁ p q

  pub guarded_u64 : Next P k r (2 ^ 64) → Ensures P ((require 8 >> (read_u64 >>= k)) r)
  guarded_u64 next =
      guarded 8 _ r λ h. Ensures-bind (read_u64-Ensures r w h) λ v r₁ (p, q). next v r₁ p q

  pub guarded_peek :
      ((v : ℕ) → v < 256 → Ensures P (k v r)) → Ensures P ((require 1 >> (peek_u8 >>= k)) r)
  guarded_peek next =
      guarded 1 _ r λ h. Ensures-bind (peek_u8-Ensures r w h) λ v r₁ (p, e). rw e (next v p)
