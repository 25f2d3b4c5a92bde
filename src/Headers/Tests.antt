-- ===== src/Headers/Tests.antt =====
-- Headers of a small request, and the theorems at concrete maps.
use async.Base.{◌≡◌, refl, [], ◌∷◌, none, some, if◌then◌else◌, All}
use async.Nodes.{c_str}
use async.Headers.{
  HeaderMap, set_header, find_header, key_less, header_line, lines_of, default_lines,
  build_header_slist, strip_crlf,
}
use async.Headers.Sorted.{IsSorted, remove_header_lem}
use async.Headers.{remove_header}
use async.Headers.Keys.{same_key}
use async.Headers.Laws.{find_header-set_header, IsOneLine, build_header_slist-IsOneLine}

-- "Ab" and "c", with a line break in the value of the second.
abbrev some_headers : HeaderMap
some_headers = (b'A' ∷ b'b' ∷ [], b'1' ∷ []) ∷ (b'c' ∷ [], b'2' ∷ 13 ∷ 10 ∷ b'x' ∷ []) ∷ []

-- "aB" overwrites "Ab" and keeps its spelling.
overwritten :
    set_header (b'a' ∷ b'B' ∷ []) (b'3' ∷ []) some_headers
    ≡ (b'A' ∷ b'b' ∷ [], b'3' ∷ []) ∷ (b'c' ∷ [], b'2' ∷ 13 ∷ 10 ∷ b'x' ∷ []) ∷ []
unfolding set_header key_less
overwritten = refl

-- A default is used only where the request has no such header.
with_defaults :
    build_header_slist some_headers (some ((b'C' ∷ [], b'9' ∷ []) ∷ (b'd' ∷ [], []) ∷ []))
    ≡ (b'A' ∷ b'b' ∷ b':' ∷ 32 ∷ b'1' ∷ [])
      ∷ (b'c' ∷ b':' ∷ 32 ∷ b'2' ∷ b'x' ∷ [])
      ∷ (b'd' ∷ b':' ∷ 32 ∷ [])
      ∷ []
unfolding build_header_slist lines_of default_lines header_line strip_crlf c_str find_header
    key_less
with_defaults = refl

find_header-set_header_example :
    find_header (b'A' ∷ b'B' ∷ []) (set_header (b'a' ∷ b'b' ∷ []) (b'3' ∷ []) some_headers) ≡ (
      if same_key (b'a' ∷ b'b' ∷ []) (b'A' ∷ b'B' ∷ [])
      then some (b'3' ∷ [])
      else find_header (b'A' ∷ b'B' ∷ []) some_headers)
find_header-set_header_example =
    find_header-set_header (b'a' ∷ b'b' ∷ []) (b'A' ∷ b'B' ∷ []) (b'3' ∷ []) some_headers

build_header_slist-IsOneLine_example :
    All IsOneLine (build_header_slist some_headers (some ((b'd' ∷ [], 10 ∷ []) ∷ [])))
build_header_slist-IsOneLine_example =
    build_header_slist-IsOneLine some_headers (some ((b'd' ∷ [], 10 ∷ []) ∷ []))

remove_header_example :
    IsSorted (set_header (b'b' ∷ []) [] some_headers)
    × IsSorted (remove_header (b'b' ∷ []) some_headers)
    × (find_header (b'C' ∷ []) (remove_header (b'b' ∷ []) some_headers)
        ≡ (if same_key (b'b' ∷ []) (b'C' ∷ []) then none else find_header (b'C' ∷ []) some_headers))
unfolding key_less
remove_header_example =
    remove_header_lem (b'b' ∷ []) (b'C' ∷ []) [] some_headers ((refl, tt), (tt, tt))
