-- ===== src/Headers/Keys.antt =====
-- The comparator of the header map is a total order of the keys up to the case of their letters.
use async.Base.{◌≡◌, refl, Bool, true, false, not, ◌&&◌, [], ◌∷◌, ◌==◌, arith, Bytes}
use async.Headers.{to_lower, key_less}

-- Whether two keys differ at most in the case of letters.
unfoldable pub same_key : Bytes → Bytes → Bool
same_key [] [] = true
same_key (c ∷ s) (d ∷ t) = (to_lower c == to_lower d) && same_key s t
same_key _ _ = false

pub key_less-order : (a b : Bytes) → same_key a b ≡ (not (key_less a b) && not (key_less b a))
unfolding same_key key_less
key_less-order [] [] = refl
key_less-order [] (d ∷ t) = refl
key_less-order (c ∷ s) [] = refl
key_less-order (c ∷ s) (d ∷ t) = ground (arith, key_less-order s t)

pub key_less_asym : (a b : Bytes) → key_less a b ≡ true → key_less b a ≡ false
unfolding key_less
key_less_asym a [] h = cc h
key_less_asym [] (d ∷ t) h = refl
key_less_asym (c ∷ s) (d ∷ t) h = ground (arith, key_less_asym s t)

pub key_less_trans :
    (a b c : Bytes) → key_less a b ≡ true → key_less b c ≡ true → key_less a c ≡ true
unfolding key_less
key_less_trans a [] c h k = cc h
key_less_trans a (e ∷ t) [] h k = cc k
key_less_trans [] (e ∷ t) (f ∷ u) h k = refl
key_less_trans (d ∷ s) (e ∷ t) (f ∷ u) h k = ground (arith, key_less_trans s t u)

-- A key that is the same as another stands where it stands.
pub same_key-less :
    (a b c : Bytes)
    → same_key a b ≡ true
    → (key_less a c ≡ key_less b c) × (key_less c a ≡ key_less c b)
unfolding key_less same_key
same_key-less [] [] c h = (refl, refl)
same_key-less [] (e ∷ t) c h = (cc h, cc h)
same_key-less (d ∷ s) [] c h = (cc h, cc h)
same_key-less (d ∷ s) (e ∷ t) [] h = (refl, refl)
same_key-less (d ∷ s) (e ∷ t) (f ∷ u) h =
    (ground (arith, same_key-less s t u), ground (arith, same_key-less s t u))
