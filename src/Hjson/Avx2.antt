-- ===== src/Hjson/Avx2.antt =====
-- src/hjson/hjson_parse.cpp: the scanners that look at 32 characters at a time. A register is the list
-- of its 32 bytes; `_mm256_movemask_epi8` gives bit i for the byte i.
use async.Base.{
  ℕ, zero, suc, ◌+◌, ◌*◌, ◌/◌, ◌%◌, Bool, not, [], ◌∷◌, ◌++◌, Option, none, some, ltb, ◌==◌,
  if◌then◌else◌, Bytes, length, take, drop,
}
use async.Hjson.Scan.{is_ws, is_special, is_nl}

-- `_mm256_loadu_si256`: none where the 32 bytes are not all in memory.
abbrev pub load : Bytes → Option Bytes
load memory = if ltb (length memory) 32 then none else some (take 32 memory)

-- The comparisons of a register, joined by `or`, as a mask.
unfoldable pub movemask : (ℕ → Bool) → Bytes → ℕ
movemask test [] = 0
movemask test (c ∷ s) = (if test c then 1 else 0) + 2 * movemask test s

-- `hjson_ctz`: the number of zero bits below the lowest set one.
unfoldable pub hjson_ctz : (fuel mask : ℕ) → ℕ
hjson_ctz zero mask = 0
hjson_ctz (suc fuel) mask =
    let rest = hjson_ctz fuel (mask / 2) in if mask % 2 == 1 then 0 else suc rest

abbrev pub at_most : (pos len : ℕ) → ℕ
at_most pos len = if ltb pos len then pos else len

-- One round: what is left of the memory at `buf + i`; none where a load leaves the memory. The mask is
-- that of the characters to stop at, which `skip_ws_avx2` has as `~mask`.
abbrev pub block : (stop : ℕ → Bool) → (i len : ℕ) → Option Bytes → (next : Option ℕ) → Option ℕ
block stop i len none next = none
block stop i len (some v) next =
    if movemask stop v == 0 then next else some (at_most (i + hjson_ctz 32 (movemask stop v)) len)

-- The loop that all four scanners have.
unfoldable pub scan_blocks : (stop : ℕ → Bool) → (fuel : ℕ) → (i len : ℕ) → Bytes → Option ℕ
unfolding movemask hjson_ctz
scan_blocks stop zero i len memory = none
scan_blocks stop (suc fuel) i len memory =
    let next = scan_blocks stop fuel (i + 32) len (drop 32 memory) in
    let here = block stop i len (load memory) next in if ltb i len then here else some len

-- A text in the memory that `HjsonParse` allocates for it, the bytes behind it included; the loop
-- takes fewer rounds than the text has characters.
unfoldable pub skip_ws_avx2 : (text behind : Bytes) → Option ℕ
unfolding scan_blocks
skip_ws_avx2 text behind =
    scan_blocks (λ c. not (is_ws c)) (suc (length text)) 0 (length text) (text ++ behind)

unfoldable pub find_quote_or_special_avx2 : (text behind : Bytes) → (quote : ℕ) → Option ℕ
unfolding scan_blocks
find_quote_or_special_avx2 text behind quote =
    scan_blocks (is_special quote) (suc (length text)) 0 (length text) (text ++ behind)

unfoldable pub find_newline_avx2 : (text behind : Bytes) → Option ℕ
unfolding scan_blocks
find_newline_avx2 text behind =
    scan_blocks is_nl (suc (length text)) 0 (length text) (text ++ behind)

unfoldable pub find_char_avx2 : (text behind : Bytes) → (target : ℕ) → Option ℕ
unfolding scan_blocks
find_char_avx2 text behind target =
    scan_blocks (λ c. c == target) (suc (length text)) 0 (length text) (text ++ behind)
