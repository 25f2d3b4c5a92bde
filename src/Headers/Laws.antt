-- ===== src/Headers/Laws.antt =====
-- What the header map finds after a change, and what the lines of a request hold.
use async.Base.{
  ◌≡◌, refl, false, List, [], ◌∷◌, ◌++◌, Option, none, some, ◌==◌, if◌then◌else◌, arith, Bool-cases,
  inl, inr, Bytes, All,
}
use async.Base.Tables.{is_some}
use async.Nodes.{c_str}
use async.Headers.{
  is_crlf, strip_crlf, key_less, HeaderMap, set_header, find_header, header_line, lines_of,
  default_lines, build_header_slist,
}
use async.Headers.Keys.{same_key, key_less-order, key_less_trans, same_key-less}

-- A header that is set is found under every spelling of its name, and all others are as before.
pub find_header-set_header :
    (key j value : Bytes) (m : HeaderMap)
    → find_header j (set_header key value m)
      ≡ (if same_key key j then some value else find_header j m)
unfolding find_header set_header
find_header-set_header key j value [] = ground (arith, key_less-order key j)
find_header-set_header key j value ((k, w) ∷ m) = elim (Bool-cases (key_less key k)) [
  | inl e ↦ rw e (ground (arith, key_less-order key j, key_less_trans j key k))
  | inr e ↦ rw e (elim (Bool-cases (key_less k key)) [
    | inl f ↦ rw f (
        ground (
          arith,
          key_less-order key j,
          key_less_trans j k key,
          find_header-set_header key j value m,
          key_less-order j k,
          same_key-less j k key,
        ))
    | inr f ↦
        rw f (ground (arith, key_less-order key j, key_less-order key k, same_key-less key k j))
  ])
]

-- No CR and no LF.
abbrev pub IsOneLine : Bytes → Type 0
IsOneLine = All (λ c. is_crlf c ≡ false)

IsOneLine-strip_crlf : (s : Bytes) → IsOneLine (strip_crlf s)
unfolding strip_crlf
IsOneLine-strip_crlf [] = tt
IsOneLine-strip_crlf (c ∷ s) = elim (Bool-cases (is_crlf c)) [
  | inl e ↦ rw e (IsOneLine-strip_crlf s)
  | inr e ↦ rw e (e, IsOneLine-strip_crlf s)
]

IsOneLine-append : (s t : Bytes) → IsOneLine s → IsOneLine t → IsOneLine (s ++ t)
IsOneLine-append [] t h k = k
IsOneLine-append (c ∷ s) t h k = (h.0, IsOneLine-append s t h.1 k)

IsOneLine-c_str : (s : Bytes) → IsOneLine s → IsOneLine (c_str s)
unfolding c_str
IsOneLine-c_str [] h = tt
IsOneLine-c_str (c ∷ s) h = elim (Bool-cases (c == 0)) [
  | inl e ↦ rw e tt
  | inr e ↦ rw e (h.0, IsOneLine-c_str s h.1)
]

IsOneLine-header_line : (key value : Bytes) → IsOneLine (header_line key value)
unfolding header_line
IsOneLine-header_line key value = IsOneLine-c_str _ (
    IsOneLine-append (strip_crlf key) _ (IsOneLine-strip_crlf key)
      (refl, (refl, IsOneLine-strip_crlf value)))

are_lines : (m : HeaderMap) → All IsOneLine (lines_of m)
unfolding lines_of
are_lines [] = tt
are_lines ((k, v) ∷ m) = (IsOneLine-header_line k v, are_lines m)

are_default_lines : (headers m : HeaderMap) → All IsOneLine (default_lines headers m)
unfolding default_lines
are_default_lines headers [] = tt
are_default_lines headers ((k, v) ∷ m) = elim (Bool-cases (is_some (find_header k headers))) [
  | inl e ↦ rw e (are_default_lines headers m)
  | inr e ↦ rw e (IsOneLine-header_line k v, are_default_lines headers m)
]

All-append : (s t : List Bytes) → All IsOneLine s → All IsOneLine t → All IsOneLine (s ++ t)
All-append [] t h k = k
All-append (l ∷ s) t h k = (h.0, All-append s t h.1 k)

-- Whatever the headers hold, no line of a request holds a line break: a header cannot smuggle in
-- another one.
pub build_header_slist-IsOneLine :
    (headers : HeaderMap) (defaults : Option HeaderMap)
    → All IsOneLine (build_header_slist headers defaults)
unfolding build_header_slist
build_header_slist-IsOneLine headers none = are_lines headers
build_header_slist-IsOneLine headers (some defaults) =
    All-append (lines_of headers) (default_lines headers defaults) (are_lines headers)
      (are_default_lines headers defaults)
