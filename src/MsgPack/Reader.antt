-- ===== src/MsgPack/Reader.antt =====
-- src/msgpack/msgpack_parse.cpp: `struct Reader`. The state is the input from `pos` on. A read past
-- the end of the input is `overrun`; the code has no such value, it is undefined behaviour there.
use async.Base.{ℕ, ◌*◌, ◌^◌, Bool, [], ◌∷◌, Bytes, bit_or, leb, if◌then◌else◌, length, take, drop}

-- `rejected` is a `nullptr` result.
pub data Outcome {ℓ} (A : Type ℓ) : Type ℓ where
  ok : A → Bytes → Outcome A
  rejected overrun : Outcome A

abbrev pub Reader {ℓ} : Type ℓ → Type ℓ
Reader A = Bytes → Outcome A

abbrev pub pure {ℓ} : {A : Type ℓ} → A → Reader A
pure a = ok a

abbrev pub reject {ℓ} : {A : Type ℓ} → Reader A
reject r = rejected

module _ {ℓ κ} {A : Type ℓ} {B : Type κ} where
  abbrev pub and_then : Outcome A → (A → Reader B) → Outcome B
  and_then (ok a r) k = k a r
  and_then rejected k = rejected
  and_then overrun k = overrun

  infixl 5 ◌>>=◌ ◌>>◌
  abbrev pub ◌>>=◌ : Reader A → (A → Reader B) → Reader B
  m >>= k = λ r. and_then (m r) k

  abbrev pub ◌>>◌ : Reader A → Reader B → Reader B
  m >> k = m >>= λ _. k

-- `has`, and the guard `if (!r.has(n)) return nullptr`.
unfoldable pub has : ℕ → Bytes → Bool
has n r = leb n (length r)

unfoldable pub require : ℕ → Reader (Unit {0})
unfolding has
require n r = if has n r then ok tt r else rejected

unfoldable pub read_u8 : Reader ℕ
read_u8 [] = overrun
read_u8 (b ∷ r) = ok b r

-- `r.data[r.pos]`, which leaves the position alone.
unfoldable pub peek_u8 : Reader ℕ
peek_u8 [] = overrun
peek_u8 (b ∷ r) = ok b (b ∷ r)

unfoldable pub read_u16 : Reader ℕ
read_u16 (a ∷ b ∷ r) = ok (bit_or (a * 2 ^ 8) b) r
read_u16 _ = overrun

unfoldable pub read_u32 : Reader ℕ
read_u32 (a ∷ b ∷ c ∷ d ∷ r) =
    ok (bit_or (bit_or (bit_or (a * 2 ^ 24) (b * 2 ^ 16)) (c * 2 ^ 8)) d) r
read_u32 _ = overrun

unfoldable pub read_u64 : Reader ℕ
unfolding read_u32
read_u64 = do hi ← read_u32; lo ← read_u32; pure (bit_or (hi * 2 ^ 32) lo)

unfoldable pub read_bytes : ℕ → Reader Bytes
read_bytes n r = if leb n (length r) then ok (take n r) (drop n r) else overrun
