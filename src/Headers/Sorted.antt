-- ===== src/Headers/Sorted.antt =====
-- The header map stays in the order of its comparator.
use async.Base.{
  ◌≡◌, refl, sym, ◌∙◌, true, [], ◌∷◌, none, if◌then◌else◌, arith, Bool-cases, inl, inr, Bytes,
}
use async.Headers.{key_less, HeaderMap, set_header, remove_header, find_header}
use async.Headers.Keys.{same_key, key_less-order, key_less_trans, same_key-less}

-- Every key of the map comes after the given one.
abbrev pub IsBefore : Bytes → HeaderMap → Type 0
IsBefore key [] = Unit
IsBefore key ((k, v) ∷ m) = (key_less key k ≡ true) × IsBefore key m

abbrev pub IsSorted : HeaderMap → Type 0
IsSorted [] = Unit
IsSorted ((k, v) ∷ m) = IsBefore k m × IsSorted m

IsBefore-less : (a b : Bytes) (m : HeaderMap) → key_less a b ≡ true → IsBefore b m → IsBefore a m
IsBefore-less a b [] h k = tt
IsBefore-less a b ((c, v) ∷ m) h k = (key_less_trans a b c h k.0, IsBefore-less a b m h k.1)

IsBefore-set_header :
    (a key value : Bytes) (m : HeaderMap)
    → key_less a key ≡ true
    → IsBefore a m
    → IsBefore a (set_header key value m)
unfolding set_header
IsBefore-set_header a key value [] h k = (h, tt)
IsBefore-set_header a key value ((c, v) ∷ m) h k = elim (Bool-cases (key_less key c)) [
  | inl e ↦ rw e (h, k)
  | inr e ↦ rw e (elim (Bool-cases (key_less c key)) [
    | inl f ↦ rw f (k.0, IsBefore-set_header a key value m h k.1)
    | inr f ↦ rw f k
  ])
]

IsSorted-set_header :
    (key value : Bytes) (m : HeaderMap) → IsSorted m → IsSorted (set_header key value m)
unfolding set_header
IsSorted-set_header key value [] h = (tt, tt)
IsSorted-set_header key value ((c, v) ∷ m) h = elim (Bool-cases (key_less key c)) [
  | inl e ↦ rw e ((e, IsBefore-less key c m e h.0), h)
  | inr e ↦ rw e (elim (Bool-cases (key_less c key)) [
    | inl f ↦ rw f (IsBefore-set_header c key value m f h.0, IsSorted-set_header key value m h.1)
    | inr f ↦ rw f h
  ])
]

IsBefore-remove_header :
    (a key : Bytes) (m : HeaderMap) → IsBefore a m → IsBefore a (remove_header key m)
unfolding remove_header
IsBefore-remove_header a key [] k = tt
IsBefore-remove_header a key ((c, v) ∷ m) k = elim (Bool-cases (key_less key c)) [
  | inl e ↦ rw e k
  | inr e ↦ rw e (elim (Bool-cases (key_less c key)) [
    | inl f ↦ rw f (k.0, IsBefore-remove_header a key m k.1)
    | inr f ↦ rw f k.1
  ])
]

IsSorted-remove_header : (key : Bytes) (m : HeaderMap) → IsSorted m → IsSorted (remove_header key m)
unfolding remove_header
IsSorted-remove_header key [] h = tt
IsSorted-remove_header key ((c, v) ∷ m) h = elim (Bool-cases (key_less key c)) [
  | inl e ↦ rw e h
  | inr e ↦ rw e (elim (Bool-cases (key_less c key)) [
    | inl f ↦ rw f (IsBefore-remove_header c key m h.0, IsSorted-remove_header key m h.1)
    | inr f ↦ rw f h.1
  ])
]

find_header-before : (j : Bytes) (m : HeaderMap) → IsBefore j m → find_header j m ≡ none
unfolding find_header
find_header-before j [] h = refl
find_header-before j ((c, v) ∷ m) h = rw h.0

IsBefore-same : (a b : Bytes) (m : HeaderMap) → same_key a b ≡ true → IsBefore a m → IsBefore b m
IsBefore-same a b [] h k = tt
IsBefore-same a b ((c, v) ∷ m) h k =
    (sym (same_key-less a b c h).0 ∙ k.0, IsBefore-same a b m h k.1)

find-removed :
    (key j : Bytes) (m : HeaderMap)
    → IsSorted m
    → find_header j (remove_header key m) ≡ (if same_key key j then none else find_header j m)
unfolding find_header remove_header
find-removed key j [] h = ground arith
find-removed key j ((k, w) ∷ m) h = elim (Bool-cases (key_less key k)) [
  | inl e ↦ rw e (ground (arith, key_less-order key j, same_key-less key j k))
  | inr e ↦ rw e (elim (Bool-cases (key_less k key)) [
    | inl f ↦ rw f (
        ground (
          arith,
          key_less-order key j,
          key_less_trans j k key,
          find-removed key j m h.1,
          key_less-order j k,
          same_key-less j k key,
          key_less_trans k key j,
          same_key-less key j k,
        ))
    | inr f ↦ rw f (elim (Bool-cases (same_key key j)) [
      | inl g ↦
          let kept : same_key k key ≡ true = key_less-order k key ∙ rw (e, f) in
          rw g (find_header-before j m (IsBefore-same key j m g (IsBefore-same k key m kept h.0)))
      | inr g ↦ rw g (elim (Bool-cases (key_less j k)) [
        | inl l ↦ rw l (find_header-before j m (IsBefore-less j k m l h.0))
        | inr l ↦ rw l (elim (Bool-cases (key_less k j)) [
          | inl r ↦ rw r
          | inr r ↦
              absurd
                (ground (arith, key_less-order key j, same_key-less key k j, key_less-order key k))
        ])
      ])
    ])
  ])
]

-- Setting and removing a header keep the map in the order of the comparator, and a header that is
-- removed is found under no spelling of its name, with all others as before.
pub remove_header_lem :
    (key j value : Bytes) (m : HeaderMap)
    → IsSorted m
    → IsSorted (set_header key value m)
      × IsSorted (remove_header key m)
      × (find_header j (remove_header key m) ≡ (if same_key key j then none else find_header j m))
remove_header_lem key j value m h =
    (IsSorted-set_header key value m h, IsSorted-remove_header key m h, find-removed key j m h)
