-- ===== src/Hjson/Returns.antt =====
-- The loops that pass white space and comments come to an end.
use async.Base.{
  ℕ, zero, suc, ◌-◌, ◌≤◌, ◌<◌, ◌≡◌, ◌≢◌, refl, subst, Bool, true, false, [], ◌∷◌, Option, none,
  some, ◌>>=◌, ltb, ◌==◌, if◌then◌else◌, Bytes, length, arith,
}
use async.Hjson.Scan.{skip_ws_scalar, find_newline_scalar, find_char_scalar}
use async.Hjson.Comments.{
  Reader, at, rest, pass, step, pass_line, closes, pass_block, after_slash, after_ws, skip_ws_upto,
}

-- The loop does not run out of fuel.
abbrev pub Returns : Option Reader → Type 0
Returns none = ⊥
Returns (some r) = Unit

-- Not more than `n` characters are left to read.
abbrev Leaves : ℕ → Option Reader → Type 0
Leaves n none = ⊥
Leaves n (some r) = length (rest r) ≤ n

Leaves-Returns : (n : ℕ) (o : Option Reader) → Leaves n o → Returns o
Leaves-Returns n none h = h
Leaves-Returns n (some r) h = tt

Leaves-if :
    (n : ℕ) (t : Bool) (o p : Option Reader)
    → (t ≡ true → Leaves n o)
    → (t ≡ false → Leaves n p)
    → Leaves n (if t then o else p)
Leaves-if n true o p h k = h refl
Leaves-if n false o p h k = k refl

Leaves-later : (n m : ℕ) (o : Option Reader) → n ≤ m → Leaves n o → Leaves m o
Leaves-later n m none h k = k
Leaves-later n m (some r) h k = omega (arith, h, k)

pub pass_shorter : (n : ℕ) (b s : Bytes) → length (rest (pass n b s)) ≤ length s
unfolding pass
pass_shorter zero b s = omega arith
pass_shorter (suc n) b [] = omega arith
pass_shorter (suc n) b (c ∷ s) = omega (arith, pass_shorter n (c ∷ b) s)

step_shorter : (r : Reader) → length (rest (step r)) ≤ length (rest r)
step_shorter (at b []) = omega arith
step_shorter (at b (c ∷ s)) = omega arith

-- `pos++` passes a character where there is one.
step_shorter_by : (r : Reader) (n : ℕ) → length (rest r) ≤ suc n → length (rest (step r)) ≤ n
step_shorter_by (at b []) n h = omega arith
step_shorter_by (at b (c ∷ s)) n h = omega arith

pass_line_shorter : (r : Reader) → length (rest (pass_line r)) ≤ length (rest r)
unfolding pass_line
pass_line_shorter (at b s) = omega (
  arith,
  step_shorter (pass (find_newline_scalar s) b s),
  pass_shorter (find_newline_scalar s) b s,
)

pass_block-Leaves :
    (fuel : ℕ) (r : Reader) → length (rest r) < fuel → Leaves (length (rest r)) (pass_block fuel r)
unfolding pass_block
pass_block-Leaves zero r h = absurd (omega arith)
pass_block-Leaves (suc fuel) (at b s) h =
    let star : Reader = pass (find_char_scalar s 42) b s in
    let near = pass_shorter (find_char_scalar s 42) b s in
    Leaves-if (length s) (ltb 1 (length s)) _ _
      (λ more.
        Leaves-if (length s) (closes (rest star)) _ _
          (λ e. omega (arith, step_shorter (step star), step_shorter star, near))
          (λ e.
            let long : 1 < length s = ground arith in
            let fewer = step_shorter_by star (length s - 1) (omega (arith, near, long)) in
            Leaves-later (length (rest (step star))) (length s) _ (omega (arith, fewer))
              (pass_block-Leaves fuel (step star) (omega (arith, fewer, long, h)))))
      (λ e. omega arith)

module _ (again : Reader → Option Reader) (n : ℕ)
    (ends : (r : Reader) → length (rest r) < n → Leaves (length (rest r)) (again r)) where
  block_ends : (o : Option Reader) (m : ℕ) → m < n → Leaves m o → Leaves m (o >>= again)
  block_ends none m h k = k
  block_ends (some r) m h k =
      Leaves-later (length (rest r)) m (again r) k (ends r (omega (arith, h, k)))

  line_ends : (r : Reader) → length (rest r) < n → Leaves (length (rest r)) (again (pass_line r))
  line_ends r h =
      let less = pass_line_shorter r in
      Leaves-later (length (rest (pass_line r))) (length (rest r)) (again (pass_line r)) less
        (ends (pass_line r) (omega (arith, less, h)))

  after_slash-Leaves :
      (c : ℕ) (b s : Bytes) → length s ≤ n → Leaves (suc (length s)) (after_slash again c b s)
  after_slash-Leaves c b [] h = omega arith
  after_slash-Leaves c b (d ∷ s) h =
      Leaves-if (suc (suc (length s))) (d == 47) _ _
        (λ e.
          Leaves-later (length s) (suc (suc (length s))) _ (omega arith)
            (line_ends (at (d ∷ c ∷ b) s) (omega arith)))
        (λ e.
          Leaves-if (suc (suc (length s))) (d == 42) _ _
            (λ k. Leaves-later (length s) (suc (suc (length s))) _ (omega arith) (
              block_ends (pass_block (suc (length s)) (at (d ∷ c ∷ b) s)) (length s) (omega arith)
                (pass_block-Leaves (suc (length s)) (at (d ∷ c ∷ b) s) (omega arith))))
            (λ k. omega arith))

  after_ws-Leaves : (r : Reader) → length (rest r) ≤ n → Leaves (length (rest r)) (after_ws again r)
  after_ws-Leaves (at b []) h = omega arith
  after_ws-Leaves (at b (c ∷ s)) h =
      Leaves-if (suc (length s)) (c == 35) _ _
        (λ e.
          Leaves-later (length s) (suc (length s)) _ (omega arith)
            (line_ends (at (c ∷ b) s) (omega arith)))
        (λ e.
          Leaves-if (suc (length s)) (c == 47) _ _ (λ k. after_slash-Leaves c b s (omega arith))
            (λ k. omega arith))

skip_ws_upto-Leaves :
    (fuel : ℕ) (r : Reader)
    → length (rest r) < fuel
    → Leaves (length (rest r)) (skip_ws_upto fuel r)
unfolding skip_ws_upto
skip_ws_upto-Leaves zero r h = absurd (omega arith)
skip_ws_upto-Leaves (suc fuel) (at b s) h =
    let near = pass_shorter (skip_ws_scalar s) b s in
    Leaves-later (length (rest (pass (skip_ws_scalar s) b s))) (length s) _ near (
      after_ws-Leaves (λ r. skip_ws_upto fuel r) fuel (λ r k. skip_ws_upto-Leaves fuel r k)
        (pass (skip_ws_scalar s) b s) (omega (arith, near, h)))

-- With one round more than characters, the loop of `skip_ws` and those inside it come to an end.
pub skip_ws_upto-Returns : (r : Reader) → Returns (skip_ws_upto (suc (length (rest r))) r)
skip_ws_upto-Returns r =
    Leaves-Returns (length (rest r)) _ (skip_ws_upto-Leaves (suc (length (rest r))) r (omega arith))

pub skip_ws_upto-ne_none : (r : Reader) → skip_ws_upto (suc (length (rest r))) r ≢ none
skip_ws_upto-ne_none r e = subst Returns e (skip_ws_upto-Returns r)
