-- ===== src/Hjson/Blocks.antt =====
-- The scanners with registers find what the scalar ones find, and read only memory that is there.
use async.Base.{
  ℕ, zero, suc, ◌+◌, ◌*◌, ◌/◌, ◌%◌, ◌≤◌, ◌<◌, ◌≡◌, inl, inr, refl, ap, sym, ◌∙◌, Bool, true, false,
  not, [], ◌∷◌, ◌++◌, Option, some, ltb, ◌==◌, if◌then◌else◌, arith, Bytes, length, take, drop,
  length-append, length-take, Bool-cases,
}
use async.Hjson.Scan.{
  is_ws, is_nl, is_special, count_until, skip_ws_scalar, find_quote_or_special_scalar,
  find_newline_scalar, find_char_scalar,
}
use async.Hjson.Avx2.{
  load, movemask, hjson_ctz, at_most, block, scan_blocks, skip_ws_avx2, find_quote_or_special_avx2,
  find_newline_avx2, find_char_avx2,
}

module _ (stop : ℕ → Bool) where
  count_until-bound : (s : Bytes) → count_until stop s ≤ length s
  unfolding count_until
  count_until-bound [] = omega arith
  count_until-bound (c ∷ s) = ground (arith, count_until-bound s)

  -- An empty mask: the register has no character to stop at.
  movemask-zero : (v : Bytes) → movemask stop v ≡ 0 → count_until stop v ≡ length v
  unfolding count_until movemask
  movemask-zero [] h = refl
  movemask-zero (c ∷ v) h = ground (arith, movemask-zero v)

  -- Another mask: its lowest bit is the first character to stop at.
  hjson_ctz-movemask :
      (fuel : ℕ) (v : Bytes)
      → length v ≤ fuel
      → (movemask stop v == 0) ≡ false
      → (hjson_ctz fuel (movemask stop v) ≡ count_until stop v) × (count_until stop v < length v)
  unfolding count_until movemask hjson_ctz
  hjson_ctz-movemask fuel [] short h = cc
  hjson_ctz-movemask zero (c ∷ v) short h = absurd (omega arith)
  hjson_ctz-movemask (suc fuel) (c ∷ v) short h =
      split (stop c) (hjson_ctz-movemask fuel v (omega arith)) h
    where
      split :
          (b : Bool)
          → ((movemask stop v == 0) ≡ false
              → (hjson_ctz fuel (movemask stop v) ≡ count_until stop v)
                × (count_until stop v < length v))
          → (((if b then 1 else 0) + 2 * movemask stop v) == 0) ≡ false
          → ((if ((if b then 1 else 0) + 2 * movemask stop v) % 2 == 1
                then 0
                else suc (hjson_ctz fuel (((if b then 1 else 0) + 2 * movemask stop v) / 2)))
              ≡ (if b then 0 else suc (count_until stop v)))
            × ((if b then 0 else suc (count_until stop v)) < suc (length v))
      split true e k = let even : (1 + 2 * movemask stop v) % 2 ≡ 1 = omega arith in ground arith
      split false e k =
          let ih = e (ground arith) in
          let half : (0 + 2 * movemask stop v) / 2 ≡ movemask stop v = omega arith in
          let even : (0 + 2 * movemask stop v) % 2 ≡ 0 = omega arith in
          rw (half, even, ih.0) (refl, omega (arith, ih.1))

  -- A prefix with the character to stop at: the count does not depend on what comes behind.
  count_until-take_found :
      (i n : ℕ) (s p : Bytes)
      → count_until stop (take n (s ++ p)) < n
      → at_most (i + count_until stop (take n (s ++ p))) (i + length s) ≡ i + count_until stop s
  unfolding count_until
  count_until-take_found i zero s p h = absurd (omega arith)
  count_until-take_found i (suc n) [] p h = ground arith
  count_until-take_found i (suc n) (c ∷ s) p h =
      split (stop c) (count_until stop (take n (s ++ p))) (count_until stop s) h
        (count_until-take_found (suc i) n s p)
    where
      split :
          (b : Bool) (x y : ℕ)
          → (if b then 0 else suc x) < suc n
          → (x < n → at_most (suc i + x) (suc i + length s) ≡ suc i + y)
          → at_most (i + (if b then 0 else suc x)) (i + suc (length s))
            ≡ i + (if b then 0 else suc y)
      split true x y k ih = ground arith
      split false x y k ih = ground (arith, ih (omega arith))

  -- A prefix without it.
  count_until-take_none :
      (n : ℕ) (s p : Bytes)
      → n ≤ length s
      → count_until stop (take n (s ++ p)) ≡ n
      → (count_until stop s ≡ n + count_until stop (drop n s)) × (drop n (s ++ p) ≡ drop n s ++ p)
  unfolding count_until
  count_until-take_none zero s p h e = (omega arith, refl)
  count_until-take_none (suc n) [] p h e = absurd (omega arith)
  count_until-take_none (suc n) (c ∷ s) p h e = ground (arith, count_until-take_none n s p)

  count_until-take_all :
      (n : ℕ) (s p : Bytes)
      → length s < n
      → count_until stop (take n (s ++ p)) ≡ length (take n (s ++ p))
      → count_until stop s ≡ length s
  unfolding count_until
  count_until-take_all zero s p h e = absurd (omega arith)
  count_until-take_all (suc n) [] p h e = refl
  count_until-take_all (suc n) (c ∷ s) p h e = ground (arith, count_until-take_all n s p)

  -- One round with a register that is there.
  block-load :
      (i len : ℕ) (v : Bytes) (next : Option ℕ) (found : ℕ)
      → length v ≡ 32
      → (count_until stop v < 32 → at_most (i + count_until stop v) len ≡ found)
      → (count_until stop v ≡ 32 → next ≡ some found)
      → block stop i len (some v) next ≡ some found
  block-load i len v next found wide here there = elim (Bool-cases (movemask stop v == 0)) [
    | inl e ↦ rw e (there (movemask-zero v (ground arith) ∙ wide))
    | inr e ↦
        let low = hjson_ctz-movemask 32 v (omega (arith, wide)) e in
        rw (e, low.0, here (omega (arith, wide, low.1))) refl
  ]

  load-append : (s p : Bytes) → 32 ≤ length p → load (s ++ p) ≡ some (take 32 (s ++ p))
  load-append s p h = ground (arith, length-append s p)

  -- Past the end of the text.
  scan_blocks-end :
      (fuel i len : ℕ) (m : Bytes) → 0 < fuel → len ≤ i → scan_blocks stop fuel i len m ≡ some len
  unfolding scan_blocks
  scan_blocks-end zero i len m h k = absurd (omega arith)
  scan_blocks-end (suc fuel) i len m h k = ground arith

  length-drop_add : (n : ℕ) (s : Bytes) → n ≤ length s → n + length (drop n s) ≡ length s
  length-drop_add zero s h = omega arith
  length-drop_add (suc n) [] h = omega arith
  length-drop_add (suc n) (c ∷ s) h = omega (arith, length-drop_add n s)

  -- The loop counts as the scalar scanner does, and no load leaves the memory.
  scan_blocks_lem :
      (fuel i : ℕ) (s p : Bytes)
      → length s + 32 ≤ 32 * fuel
      → 32 ≤ length p
      → scan_blocks stop fuel i (i + length s) (s ++ p) ≡ some (i + count_until stop s)
  unfolding scan_blocks
  scan_blocks_lem zero i s p h k = absurd (omega arith)
  scan_blocks_lem (suc fuel) i s p h k = round (λ j t small. scan_blocks_lem fuel j t p small k)
    where
      lanes : length (take 32 (s ++ p)) ≡ 32
      lanes = length-take 32 (s ++ p) (omega (arith, length-append s p))

      after :
          ((j : ℕ) (t : Bytes)
            → length t + 32 ≤ 32 * fuel
            → scan_blocks stop fuel j (j + length t) (t ++ p) ≡ some (j + count_until stop t))
          → 0 < length s
          → count_until stop (take 32 (s ++ p)) ≡ 32
          → scan_blocks stop fuel (i + 32) (i + length s) (drop 32 (s ++ p))
            ≡ some (i + count_until stop s)
      after ih pos e = elim (Bool-cases (ltb (length s) 32)) [
        | inl short ↦ rw (count_until-take_all 32 s p (ground arith) (e ∙ sym lanes)) (
            scan_blocks-end fuel (i + 32) (i + length s) (drop 32 (s ++ p)) (omega arith)
              (ground arith))
        | inr long ↦
            let low : 32 ≤ length s = ground arith in
            let more = count_until-take_none 32 s p low e in
            let rest = length-drop_add 32 s low in
            let len : i + 32 + length (drop 32 s) ≡ i + length s = omega (arith, rest) in
            let found : i + 32 + count_until stop (drop 32 s) ≡ i + count_until stop s =
              omega (arith, more.0) in
            rw (sym len, more.1, sym found) (ih (i + 32) (drop 32 s) (omega (arith, rest)))
      ]

      round :
          ((j : ℕ) (t : Bytes)
            → length t + 32 ≤ 32 * fuel
            → scan_blocks stop fuel j (j + length t) (t ++ p) ≡ some (j + count_until stop t))
          → scan_blocks stop (suc fuel) i (i + length s) (s ++ p) ≡ some (i + count_until stop s)
      round ih = elim (Bool-cases (ltb i (i + length s))) [
        | inl e ↦
            rw (e, load-append s p k)
              (block-load i (i + length s) (take 32 (s ++ p))
                (scan_blocks stop fuel (i + 32) (i + length s) (drop 32 (s ++ p)))
                (i + count_until stop s) lanes (count_until-take_found i 32 s p)
                (after ih (ground arith)))
        | inr e ↦ rw e (ap (λ n. some (i + n)) (ground (arith, count_until-bound s)))
      ]

-- Each of the four scanners with 32-byte registers gives the position that its scalar counterpart
-- gives, and loads only from the text and the bytes behind it, when at least 32 bytes are behind it.
pub scan_blocks_agree :
    (text behind : Bytes) (quote target : ℕ)
    → 32 ≤ length behind
    → (skip_ws_avx2 text behind ≡ some (skip_ws_scalar text))
      × (find_quote_or_special_avx2 text behind quote
          ≡ some (find_quote_or_special_scalar text quote))
      × (find_newline_avx2 text behind ≡ some (find_newline_scalar text))
      × (find_char_avx2 text behind target ≡ some (find_char_scalar text target))
unfolding skip_ws_avx2 find_quote_or_special_avx2 find_newline_avx2 find_char_avx2 skip_ws_scalar
    find_quote_or_special_scalar find_newline_scalar find_char_scalar
scan_blocks_agree text behind quote target h =
    (agree (λ c. not (is_ws c)), agree (is_special quote), agree is_nl, agree (λ c. c == target))
  where
    agree :
        (stop : ℕ → Bool)
        → scan_blocks stop (suc (length text)) 0 (length text) (text ++ behind)
          ≡ some (count_until stop text)
    agree stop =
        let len : length text ≡ 0 + length text = omega arith in
        ap (λ n. scan_blocks stop (suc (length text)) 0 n (text ++ behind)) len
        ∙ scan_blocks_lem stop (suc (length text)) 0 text behind (omega arith) h
        ∙ ap some (omega arith)
