-- ===== src/Hjson/Comments.antt =====
-- src/hjson/hjson_parse.cpp: `Reader`, and the loops that pass white space and comments. A reader is
-- the text in front of `pos`, the last character first, and the text behind it. `g_scan` holds the
-- scalar scanners, or the others, which give the same.
use async.Base.{
  ℕ, zero, suc, Bool, ◌&&◌, [], ◌∷◌, Option, none, some, ◌>>=◌, ltb, ◌==◌, if◌then◌else◌, Bytes,
  length,
}
use async.Hjson.Scan.{skip_ws_scalar, find_newline_scalar, find_char_scalar}

pub data Reader : Type 0 where
  at : (before rest : Bytes) → Reader

abbrev pub rest : Reader → Bytes
rest (at b s) = s

-- `pos` moves on by so many characters.
unfoldable pub pass : ℕ → (before rest : Bytes) → Reader
pass zero b s = at b s
pass (suc n) b [] = at b []
pass (suc n) b (c ∷ s) = pass n (c ∷ b) s

-- `if (pos < len) pos++`
abbrev pub step : Reader → Reader
step (at b []) = at b []
step (at b (c ∷ s)) = at (c ∷ b) s

-- `peek_at` of a text.
abbrev pub char_at : ℕ → Bytes → ℕ
char_at i [] = 0
char_at zero (c ∷ s) = c
char_at (suc i) (c ∷ s) = char_at i s

abbrev pub peek : Reader → ℕ
peek (at b s) = char_at 0 s

-- A comment up to the end of its line.
unfoldable pub pass_line : Reader → Reader
unfolding find_newline_scalar pass
pass_line (at b s) = step (pass (find_newline_scalar s) b s)

-- The two characters that end a comment.
abbrev pub closes : Bytes → Bool
closes s = (char_at 0 s == 42) && (char_at 1 s == 47)

-- The loop that looks for the end of the other kind of comment; `none` when the fuel ran out.
unfoldable pub pass_block : (fuel : ℕ) → Reader → Option Reader
unfolding find_char_scalar pass
pass_block zero r = none
pass_block (suc fuel) (at b s) =
    let star : Reader = pass (find_char_scalar s 42) b s in
    let more : Option Reader = pass_block fuel (step star) in
    if ltb 1 (length s)
    then (if closes (rest star) then some (step (step star)) else more)
    else some (at b s)

-- One round of the loop of `skip_ws`, with `again` for the next.
module _ (again : Reader → Option Reader) where
  abbrev pub after_slash : (c : ℕ) (before rest : Bytes) → Option Reader
  after_slash c b [] = some (at b (c ∷ []))
  after_slash c b (d ∷ s) =
      if d == 47
      then again (pass_line (at (d ∷ c ∷ b) s))
      else if d == 42
      then pass_block (suc (length s)) (at (d ∷ c ∷ b) s) >>= again
      else some (at b (c ∷ d ∷ s))

  abbrev pub after_ws : Reader → Option Reader
  after_ws (at b []) = some (at b [])
  after_ws (at b (c ∷ s)) =
      if c == 35
      then again (pass_line (at (c ∷ b) s))
      else if c == 47
      then after_slash c b s
      else some (at b (c ∷ s))

-- The loop of `skip_ws`, on fuel: `none` when it ran out.
unfoldable pub skip_ws_upto : (fuel : ℕ) → Reader → Option Reader
unfolding skip_ws_scalar pass pass_line pass_block
skip_ws_upto zero r = none
skip_ws_upto (suc fuel) (at b s) = after_ws (λ r. skip_ws_upto fuel r) (pass (skip_ws_scalar s) b s)
