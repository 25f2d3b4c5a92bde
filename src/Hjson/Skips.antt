-- ===== src/Hjson/Skips.antt =====
-- What is skipped between the parts of a text leaves a tail of it.
use async.Base.{
  ℕ, zero, suc, ◌≤◌, Bool, true, false, [], ◌∷◌, Option, none, some, ◌>>=◌, ltb, ◌==◌,
  if◌then◌else◌, Bytes, length, All, arith,
}
use async.Hjson.Scan.{skip_ws_scalar, find_newline_scalar, find_char_scalar}
use async.Hjson.Reader.{
  Reader, at, rest, pass, step, pass_line, closes, pass_block, after_slash, after_ws, skip_ws_upto,
  returned, skip_ws, peek, skip_separator,
}
use async.Hjson.Returns.{Returns, skip_ws_upto-Returns}

-- The reader stands at a tail of `s`, and `P` holds of what it has yet to read.
pub record Left (P : ℕ → Type 0) (s : Bytes) (r : Reader) : Type 0 where
  pub good : All P (rest r)
  pub short : length (rest r) ≤ length s

module _ {P : ℕ → Type 0} where
  pub Left-here : {s b : Bytes} → All P s → Left P s (at b s)
  Left-here p = record { good = p; short = omega arith }

  pub Left-after : {s : Bytes} {r r1 : Reader} → Left P s r → Left P (rest r) r1 → Left P s r1
  Left-after h k = record { good = k.good; short = omega (arith, h.short, k.short) }

  pub Left-later : {c : ℕ} {s : Bytes} {r : Reader} → Left P s r → Left P (c ∷ s) r
  Left-later h = record { good = h.good; short = omega (arith, h.short) }

  pub Left-if :
      {s : Bytes} (t : Bool) {r r1 : Reader}
      → Left P s r
      → Left P s r1
      → Left P s (if t then r else r1)
  Left-if true h k = h
  Left-if false h k = k

  pub Left-pass : (n : ℕ) (b s : Bytes) → All P s → Left P s (pass n b s)
  unfolding pass
  Left-pass zero b s p = Left-here p
  Left-pass (suc n) b [] p = Left-here p
  Left-pass (suc n) b (c ∷ s) p = Left-later (Left-pass n (c ∷ b) s p.1)

  pub Left-step : (r : Reader) → All P (rest r) → Left P (rest r) (step r)
  Left-step (at b []) p = Left-here p
  Left-step (at b (c ∷ s)) p = Left-later (Left-here p.1)

  pub Left-pass_line : (r : Reader) → All P (rest r) → Left P (rest r) (pass_line r)
  unfolding pass_line
  Left-pass_line (at b s) p =
      let line = Left-pass (find_newline_scalar s) b s p in
      Left-after line (Left-step (pass (find_newline_scalar s) b s) line.good)

-- The same of a loop that returns.
module _ (P : ℕ → Type 0) where
  abbrev LeftIf : Bytes → Option Reader → Type 0
  LeftIf s none = Unit
  LeftIf s (some r) = Left P s r

  LeftIf-if :
      (s : Bytes) (t : Bool) (o p : Option Reader)
      → LeftIf s o
      → LeftIf s p
      → LeftIf s (if t then o else p)
  LeftIf-if s true o p h k = h
  LeftIf-if s false o p h k = k

  LeftIf-after :
      (s : Bytes) (r : Reader) (o : Option Reader) → Left P s r → LeftIf (rest r) o → LeftIf s o
  LeftIf-after s r none h k = tt
  LeftIf-after s r (some r1) h k = Left-after h k

  LeftIf-later : (c : ℕ) (s : Bytes) (o : Option Reader) → LeftIf s o → LeftIf (c ∷ s) o
  LeftIf-later c s none h = tt
  LeftIf-later c s (some r) h = Left-later h

  LeftIf-pass_block : (fuel : ℕ) (r : Reader) → All P (rest r) → LeftIf (rest r) (pass_block fuel r)
  unfolding pass_block
  LeftIf-pass_block zero r p = tt
  LeftIf-pass_block (suc fuel) (at b s) p =
      let star : Reader = pass (find_char_scalar s 42) b s in
      let found = Left-pass (find_char_scalar s 42) b s p in
      let one = Left-after found (Left-step star found.good) in
      let two = Left-after one (Left-step (step star) one.good) in
      let more =
        LeftIf-after s (step star) (pass_block fuel (step star)) one
          (LeftIf-pass_block fuel (step star) one.good) in
      LeftIf-if s (ltb 1 (length s)) _ _ (LeftIf-if s (closes (rest star)) _ _ two more)
        (Left-here p)

  module _ (again : Reader → Option Reader)
      (again-LeftIf : (r : Reader) → All P (rest r) → LeftIf (rest r) (again r)) where
    LeftIf-bind : (s : Bytes) (o : Option Reader) → LeftIf s o → LeftIf s (o >>= again)
    LeftIf-bind s none h = tt
    LeftIf-bind s (some r) h = LeftIf-after s r (again r) h (again-LeftIf r h.good)

    LeftIf-line : (r : Reader) → All P (rest r) → LeftIf (rest r) (again (pass_line r))
    LeftIf-line r p =
        let line = Left-pass_line r p in
        LeftIf-after (rest r) (pass_line r) (again (pass_line r)) line (again-LeftIf _ line.good)

    LeftIf-after_slash :
        (c : ℕ) (b s : Bytes) → All P (c ∷ s) → LeftIf (c ∷ s) (after_slash again c b s)
    LeftIf-after_slash c b [] p = Left-here p
    LeftIf-after_slash c b (d ∷ s) p =
        LeftIf-if (c ∷ d ∷ s) (d == 47) _ _
          (LeftIf-later c (d ∷ s) _ (LeftIf-later d s _ (LeftIf-line (at (d ∷ c ∷ b) s) p.1.1)))
          (LeftIf-if (c ∷ d ∷ s) (d == 42) _ _
            (LeftIf-later c (d ∷ s) _ (
              LeftIf-later d s _ (
                LeftIf-bind s (pass_block (suc (length s)) (at (d ∷ c ∷ b) s))
                  (LeftIf-pass_block (suc (length s)) (at (d ∷ c ∷ b) s) p.1.1))))
            (Left-here p))

    LeftIf-after_ws : (r : Reader) → All P (rest r) → LeftIf (rest r) (after_ws again r)
    LeftIf-after_ws (at b []) p = Left-here p
    LeftIf-after_ws (at b (c ∷ s)) p =
        LeftIf-if (c ∷ s) (c == 35) _ _ (LeftIf-later c s _ (LeftIf-line (at (c ∷ b) s) p.1))
          (LeftIf-if (c ∷ s) (c == 47) _ _ (LeftIf-after_slash c b s p) (Left-here p))

  LeftIf-skip_ws_upto :
      (fuel : ℕ) (r : Reader) → All P (rest r) → LeftIf (rest r) (skip_ws_upto fuel r)
  unfolding skip_ws_upto
  LeftIf-skip_ws_upto zero r p = tt
  LeftIf-skip_ws_upto (suc fuel) (at b s) p =
      let space = Left-pass (skip_ws_scalar s) b s p in
      LeftIf-after s (pass (skip_ws_scalar s) b s) _ space (
        LeftIf-after_ws (λ r. skip_ws_upto fuel r) (LeftIf-skip_ws_upto fuel)
          (pass (skip_ws_scalar s) b s) space.good)

  Left-returned :
      (s : Bytes) (o : Option Reader) (h : Returns o) → LeftIf s o → Left P s (returned o h)
  Left-returned s none h k = absurd h
  Left-returned s (some r) h k = k

module _ {P : ℕ → Type 0} where
  pub Left-skip_ws : (r : Reader) → All P (rest r) → Left P (rest r) (skip_ws r)
  unfolding skip_ws
  Left-skip_ws r p =
      Left-returned P (rest r) _ (skip_ws_upto-Returns r)
        (LeftIf-skip_ws_upto P (suc (length (rest r))) r p)

  pub Left-skip_separator : (r : Reader) → All P (rest r) → Left P (rest r) (skip_separator r)
  unfolding skip_separator
  Left-skip_separator r p =
      let space = Left-skip_ws r p in
      let comma = Left-after space (Left-step (skip_ws r) space.good) in
      Left-if (peek (skip_ws r) == b',')
        (Left-after comma (Left-skip_ws (step (skip_ws r)) comma.good)) space
