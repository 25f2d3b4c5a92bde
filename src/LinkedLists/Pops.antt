-- ===== src/LinkedLists/Pops.antt =====
-- `PopFront` and `PopBack`.
use async.Base.{
  ℕ, ◌≡◌, refl, sym, ap, subst, ◌∙◌, true, false, List, [], ◌∷◌, some, ◌==◌, arith, Bool-cases, inl,
  inr,
}
use async.Base.Tables.{find, member}
use async.LinkedLists.{LinkedList, sentinel, is_empty, pop_front, pop_back}
use async.LinkedLists.Ring.{Linked, Apart, other}
use async.LinkedLists.Entries.{
  Sequence, value_of, has_id, without, Entries, some-some, apart_keys, swap, Entries-has_id,
}
use async.LinkedLists.Holds.{Holds}
use async.LinkedLists.Pushes.{StandsFor}
use async.LinkedLists.Removes.{without-absent, found, take_node_lem}

-- The sequence without its first, or its last, entry, and the value of that.
unfoldable pub front_popped : Sequence → Sequence × ℕ
front_popped [] = ([], 0)
front_popped ((i, v) ∷ l) = (l, v)

unfoldable pub back_popped : Sequence → Sequence × ℕ
back_popped [] = ([], 0)
back_popped ((i, v) ∷ []) = ([], v)
back_popped (p ∷ q ∷ l) = let rest = back_popped (q ∷ l) in (p ∷ rest.0, rest.1)

-- The address of the last node.
abbrev pub final : ℕ → List ℕ → ℕ
final p [] = p
final p (a ∷ ns) = final a ns

pub Linked-final :
    (nx pv : List (ℕ × ℕ)) (p : ℕ) (ns : List ℕ) (q : ℕ)
    → Linked nx pv p ns q
    → find q pv ≡ some (final p ns)
Linked-final nx pv p [] q h = h.1
Linked-final nx pv p (a ∷ ns) q h = Linked-final nx pv a ns q h.2

module _ (it vt nt : List (ℕ × ℕ)) where
  -- The first node has an id that no other has.
  pub first_apart :
      (a : ℕ) (ns : List ℕ) (i v : ℕ) (l : Sequence)
      → Entries it vt nt (a ∷ ns) ((i, v) ∷ l)
      → member a ns ≡ false
      → has_id i l ≡ false
  first_apart a ns i v l h out = elim (Bool-cases (has_id i l)) [
    | inl k ↦
        let (x, f, m) = Entries-has_id it vt nt i ns l h.3 k in
        let same : x ≡ a = some-some f h.2 in
        absurd (cc (sym out ∙ subst (λ y. member y ns ≡ true) same m))
    | inr k ↦ k
  ]

  pub Entries-last :
      (a : ℕ) (ns : List ℕ) (l : Sequence)
      → Entries it vt nt (a ∷ ns) l
      → Apart (a ∷ ns)
      → (i : ℕ) × (find (final a ns) it ≡ some i)
        × (find i nt ≡ some (final a ns))
        × (member (final a ns) (a ∷ ns) ≡ true)
        × (without i l ≡ (back_popped l).0)
        × (value_of i l ≡ (back_popped l).1)
  unfolding member without value_of back_popped
  Entries-last a [] ((i, v) ∷ []) h apart = (i, h.0, h.2, ground arith, ground arith, ground arith)
  Entries-last a [] ((i, v) ∷ p ∷ l) h apart = elim h.3 [ ]
  Entries-last a ns [] h apart = elim h [ ]
  Entries-last a (b ∷ ns) ((j, w) ∷ []) h apart = elim h.3 [ ]
  Entries-last a (b ∷ ns) ((j, w) ∷ (k, u) ∷ l) h apart =
      let (i, e, f, m, g, n) = Entries-last b ns ((k, u) ∷ l) h.3 apart.1 in
      let ne : (j == i) ≡ false =
        apart_keys i j (final b ns) a nt f h.2
          (swap (final b ns) a (other (final b ns) a (b ∷ ns) m apart.0)) in
      (i, e, f, ground (arith, m), rw ne (ap (λ t. (j, w) ∷ t) g), rw ne n)

-- `nodes_` is empty exactly when the ring is.
nodes-empty : (s : LinkedList) → Holds s [] [] → is_empty s.nodes ≡ true
unfolding find member
nodes-empty s h = none_there s.nodes h.only
  where
    none_there :
        (t : List (ℕ × ℕ))
        → ((i a : ℕ) → find i t ≡ some a → (member a [] ≡ true) × (find a s.id ≡ some i))
        → is_empty t ≡ true
    none_there [] only = refl
    none_there ((i, a) ∷ t) only = cc (only i a (ground arith)).0

nodes-full :
    (s : LinkedList) (a : ℕ) (ns : List ℕ) (i v : ℕ) (l : Sequence)
    → Holds s (a ∷ ns) ((i, v) ∷ l)
    → is_empty s.nodes ≡ false
unfolding find
nodes-full s a ns i v l h = filled s.nodes h.entries.2
  where
    filled : (t : List (ℕ × ℕ)) → find i t ≡ some a → is_empty t ≡ false
    filled [] e = cc e
    filled (p ∷ t) e = refl

pub pop_front-StandsFor :
    (s : LinkedList) (l : Sequence)
    → StandsFor s l
    → (s1 : LinkedList) × (pop_front s ≡ some (s1, (front_popped l).1))
      × StandsFor s1 (front_popped l).0
unfolding pop_front front_popped without value_of member
pop_front-StandsFor s [] ([], h) = (s, rw (pop_front, nodes-empty s h) refl, ([], h))
pop_front-StandsFor s ((i, v) ∷ l) ([], h) = elim h.entries [ ]
pop_front-StandsFor s [] (a ∷ ns, h) = elim h.entries [ ]
pop_front-StandsFor s ((i, v) ∷ l) (a ∷ ns, h) =
    let (s1, taken, removed, k) =
      take_node_lem s (a ∷ ns) ((i, v) ∷ l) h a i (ground arith) h.entries.0 h.entries.2
        (h.entries.1 ∙ ground arith) in
    let alone =
      without-absent i l (first_apart s.id s.value s.nodes a ns i v l h.entries h.ring.1.1.0) in
    let same : (i == i) ≡ true = ground arith in
    (
      s1,
      rw (pop_front, nodes-full s a ns i v l h, h.ring.0.0)
          (taken ∙ ap (λ y. some (s1, y)) (rw same refl)),
      subst (λ y. StandsFor s1 y) (rw same alone.0) k,
    )

pub pop_back-StandsFor :
    (s : LinkedList) (l : Sequence)
    → StandsFor s l
    → (s1 : LinkedList) × (pop_back s ≡ some (s1, (back_popped l).1))
      × StandsFor s1 (back_popped l).0
unfolding pop_back back_popped
pop_back-StandsFor s [] ([], h) = (s, rw (pop_back, nodes-empty s h) refl, ([], h))
pop_back-StandsFor s ((i, v) ∷ l) ([], h) = elim h.entries [ ]
pop_back-StandsFor s [] (a ∷ ns, h) = elim h.entries [ ]
pop_back-StandsFor s ((j, w) ∷ l) (a ∷ ns, h) =
    let (i, e, f, m, g, n) =
      Entries-last s.id s.value s.nodes a ns ((j, w) ∷ l) h.entries h.ring.1.1 in
    let known = found i (final a ns) s (a ∷ ns) ((j, w) ∷ l) h f in
    let (s1, taken, removed, k) =
      take_node_lem s (a ∷ ns) ((j, w) ∷ l) h (final a ns) i m e f known.2 in
    let last : find sentinel s.prev ≡ some (final a ns) =
      Linked-final s.next s.prev sentinel (a ∷ ns) sentinel h.ring.0 in
    (
      s1,
      rw (pop_back, nodes-full s a ns j w l h, last) (taken ∙ ap (λ y. some (s1, y)) n),
      subst (λ y. StandsFor s1 y) g k,
    )
