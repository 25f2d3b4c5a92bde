-- ===== src/Headers.antt =====
-- src/header_map.h, and the header functions of src/http_request.cpp and src/ws_connection.cpp: a
-- `std::map` is the list of its entries in the order of its comparator. The locks around the map
-- serialize the calls. `tolower` is that of the C locale.
pub mod Keys
pub mod Laws
pub mod Sorted
mod Tests
use async.Base.{
  ℕ, ◌+◌, Bool, true, false, not, ◌&&◌, ◌||◌, List, [], ◌∷◌, ◌++◌, Option, none, some, ltb, leb,
  ◌==◌, if◌then◌else◌, Bytes,
}
use async.Base.Tables.{is_some}
use async.Nodes.{c_str}

-- Whether the character is CR or LF.
abbrev pub is_crlf : ℕ → Bool
is_crlf c = (c == 13) || (c == 10)

unfoldable pub strip_crlf : Bytes → Bytes
strip_crlf [] = []
strip_crlf (c ∷ s) = if is_crlf c then strip_crlf s else c ∷ strip_crlf s

abbrev pub to_lower : ℕ → ℕ
to_lower c = if leb 65 c && leb c 90 then c + 32 else c

-- `HeaderCaseInsensitive`: whether a key comes before another.
unfoldable pub key_less : Bytes → Bytes → Bool
key_less s [] = false
key_less [] (d ∷ t) = true
key_less (c ∷ s) (d ∷ t) =
    if ltb (to_lower c) (to_lower d)
    then true
    else if ltb (to_lower d) (to_lower c)
    then false
    else key_less s t

abbrev pub HeaderMap : Type 0
HeaderMap = List (Bytes × Bytes)

-- `headers_[key] = value`: a key that is there keeps its spelling.
unfoldable pub set_header : (key value : Bytes) → HeaderMap → HeaderMap
set_header key value [] = (key, value) ∷ []
set_header key value ((k, v) ∷ m) =
    if key_less key k
    then (key, value) ∷ (k, v) ∷ m
    else if key_less k key
    then (k, v) ∷ set_header key value m
    else (k, value) ∷ m

unfoldable pub remove_header : (key : Bytes) → HeaderMap → HeaderMap
remove_header key [] = []
remove_header key ((k, v) ∷ m) =
    if key_less key k
    then (k, v) ∷ m
    else if key_less k key
    then (k, v) ∷ remove_header key m
    else m

abbrev pub clear_headers : HeaderMap → HeaderMap
clear_headers m = []

-- `find`
unfoldable pub find_header : (key : Bytes) → HeaderMap → Option Bytes
find_header key [] = none
find_header key ((k, v) ∷ m) =
    if key_less key k then none else if key_less k key then find_header key m else some v

-- What `curl_slist_append` copies: the line up to the first NUL.
unfoldable pub header_line : (key value : Bytes) → Bytes
unfolding strip_crlf c_str
header_line key value = c_str (strip_crlf key ++ (b':' ∷ 32 ∷ strip_crlf value))

unfoldable pub lines_of : HeaderMap → List Bytes
lines_of [] = []
lines_of ((k, v) ∷ m) = header_line k v ∷ lines_of m

unfoldable pub default_lines : (headers defaults : HeaderMap) → List Bytes
default_lines headers [] = []
default_lines headers ((k, v) ∷ m) =
    if is_some (find_header k headers)
    then default_lines headers m
    else header_line k v ∷ default_lines headers m

-- `BuildHeaderSlist`: the lines of the new list.
unfoldable pub build_header_slist :
    (headers : HeaderMap) → (defaults : Option HeaderMap) → List Bytes
unfolding lines_of default_lines
build_header_slist headers none = lines_of headers
build_header_slist headers (some defaults) = lines_of headers ++ default_lines headers defaults
