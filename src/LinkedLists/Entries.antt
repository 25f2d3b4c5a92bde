-- ===== src/LinkedLists/Entries.antt =====
-- The ids and values of the nodes, as a list of pairs, and the map that finds a node by its id.
use async.Base.{
  ℕ, ◌≡◌, ◌⊎◌, refl, sym, subst, ◌∙◌, Bool, true, false, ◌||◌, List, [], ◌∷◌, ◌++◌, Option, none,
  some, ◌==◌, if◌then◌else◌, arith, Bool-cases, inl, inr,
}
use async.Base.Tables.{find, put, erase, member, remove, find-erase}
use async.LinkedLists.Ring.{find-other, some-injective}
use async.LinkedLists.Steps.{snoc}

-- The list of a client: ids with their values, in order.
abbrev pub Sequence : Type 0
Sequence = List (ℕ × ℕ)

-- The value under an id, 0 for none.
unfoldable pub value_of : ℕ → Sequence → ℕ
value_of i [] = 0
value_of i ((j, v) ∷ l) = if j == i then v else value_of i l

unfoldable pub has_id : ℕ → Sequence → Bool
has_id i [] = false
has_id i ((j, v) ∷ l) = (j == i) || has_id i l

unfoldable pub without : ℕ → Sequence → Sequence
without i [] = []
without i ((j, v) ∷ l) = let rest = without i l in if j == i then rest else (j, v) ∷ rest

-- The nodes have these ids and values, and each is found by its id.
abbrev pub Entries : (id value nodes : List (ℕ × ℕ)) → List ℕ → Sequence → Type 0
Entries it vt nt [] [] = Unit
Entries it vt nt (a ∷ ns) ((i, v) ∷ l) =
    (find a it ≡ some i) × (find a vt ≡ some v) × (find i nt ≡ some a) × Entries it vt nt ns l
Entries it vt nt _ _ = ⊥

pub some-some : {a b : ℕ} {o : Option ℕ} → o ≡ some a → o ≡ some b → a ≡ b
some-some e f = some-injective (sym e ∙ f)

-- A key of one entry is not a key of another.
pub apart_keys :
    (i j x a : ℕ) (t : List (ℕ × ℕ))
    → find i t ≡ some x
    → find j t ≡ some a
    → (a == x) ≡ false
    → (j == i) ≡ false
apart_keys i j x a t e f ne = elim (Bool-cases (j == i)) [
  | inl same ↦
      let eq : j ≡ i = ground arith in
      let clash : a ≡ x = some-some (subst (λ y. find y t ≡ some a) eq f) e in ground arith
  | inr k ↦ k
]

pub find-erased :
    (k j : ℕ) (t : List (ℕ × ℕ)) {o : Option ℕ}
    → (k == j) ≡ false
    → find j t ≡ o
    → find j (erase k t) ≡ o
find-erased k j t ne e = find-erase k j t ∙ rw ne e

pub swap : (a b : ℕ) → (a == b) ≡ false → (b == a) ≡ false
swap a b h = ground arith

module _ (it vt nt : List (ℕ × ℕ)) where
  -- A new node, under an id that was not in use.
  pub Entries-new :
      (x i v : ℕ) (ns : List ℕ) (l : Sequence)
      → member x ns ≡ false
      → find i nt ≡ none
      → Entries it vt nt ns l
      → Entries (put x i it) (put x v vt) (put i x nt) ns l
  unfolding member
  Entries-new x i v [] [] out idle h = tt
  Entries-new x i v (a ∷ ns) ((j, w) ∷ l) out idle h = (
    find-other x a i it (ground arith) h.0,
    find-other x a v vt (ground arith) h.1,
    find-other i j x nt (new_key (Bool-cases (i == j))) h.2,
    Entries-new x i v ns l (ground arith) idle h.3,
  )
    where
      new_key : ((i == j) ≡ true) ⊎ ((i == j) ≡ false) → (i == j) ≡ false
      new_key (inl e) =
          let same : j ≡ i = ground arith in
          let clash : none ≡ some a = sym idle ∙ subst (λ y. find y nt ≡ some a) same h.2 in
          cc clash
      new_key (inr e) = e
  Entries-new x i v [] (e ∷ l) out idle h = elim h [ ]
  Entries-new x i v (a ∷ ns) [] out idle h = elim h [ ]

  pub Entries-snoc :
      (x i v : ℕ) (ns : List ℕ) (l : Sequence)
      → find x it ≡ some i
      → find x vt ≡ some v
      → find i nt ≡ some x
      → Entries it vt nt ns l
      → Entries it vt nt (snoc ns x) (l ++ ((i, v) ∷ []))
  Entries-snoc x i v [] [] e f g h = (e, f, g, tt)
  Entries-snoc x i v (a ∷ ns) ((j, w) ∷ l) e f g h =
      (h.0, h.1, h.2, Entries-snoc x i v ns l e f g h.3)
  Entries-snoc x i v [] (p ∷ l) e f g h = elim h [ ]
  Entries-snoc x i v (a ∷ ns) [] e f g h = elim h [ ]

  -- What is known of a node.
  pub Entries-member :
      (x : ℕ) (ns : List ℕ) (l : Sequence)
      → Entries it vt nt ns l
      → member x ns ≡ true
      → (i : ℕ) × (find x it ≡ some i)
        × (find i nt ≡ some x)
        × (find x vt ≡ some (value_of i l))
        × (has_id i l ≡ true)
  unfolding member value_of has_id
  Entries-member x [] [] h here = cc here
  Entries-member x (a ∷ ns) ((j, w) ∷ l) h here = elim (Bool-cases (a == x)) [
    | inl e ↦
        let same : a ≡ x = ground arith in
        (
          j,
          subst (λ y. find y it ≡ some j) same h.0,
          subst (λ y. find j nt ≡ some y) same h.2,
          subst (λ y. find y vt ≡ some (if j == j then w else value_of j l)) same
              (h.1 ∙ ground arith),
          ground arith,
        )
    | inr e ↦
        let (i, f, g, k, m) = Entries-member x ns l h.3 (ground arith) in
        let ne = apart_keys i j x a nt g h.2 e in (i, f, g, k ∙ rw ne refl, ground arith)
  ]
  Entries-member x [] (e ∷ l) h here = elim h [ ]
  Entries-member x (a ∷ ns) [] h here = elim h [ ]

  -- An id of the list belongs to a node.
  pub Entries-has_id :
      (i : ℕ) (ns : List ℕ) (l : Sequence)
      → Entries it vt nt ns l
      → has_id i l ≡ true
      → (x : ℕ) × (find i nt ≡ some x) × (member x ns ≡ true)
  unfolding member has_id
  Entries-has_id i [] [] h here = cc here
  Entries-has_id i (a ∷ ns) ((j, w) ∷ l) h here = elim (Bool-cases (j == i)) [
    | inl e ↦
        let same : j ≡ i = ground arith in
        (a, subst (λ y. find y nt ≡ some a) same h.2, ground arith)
    | inr e ↦ let (x, f, m) = Entries-has_id i ns l h.3 (ground arith) in (x, f, ground arith)
  ]
  Entries-has_id i [] (e ∷ l) h here = elim h [ ]
  Entries-has_id i (a ∷ ns) [] h here = elim h [ ]

  -- The list without a node.
  pub Entries-remove :
      (x i : ℕ) (ns : List ℕ) (l : Sequence)
      → find x it ≡ some i
      → find i nt ≡ some x
      → Entries it vt nt ns l
      → Entries it vt nt (remove x ns) (without i l)
  unfolding remove without
  Entries-remove x i [] [] e f h = tt
  Entries-remove x i (a ∷ ns) ((j, w) ∷ l) e f h = elim (Bool-cases (a == x)) [
    | inl first ↦
        let same : a ≡ x = ground arith in
        let key : j ≡ i = some-some (subst (λ y. find y it ≡ some j) same h.0) e in
        let drop : (j == i) ≡ true = ground arith in
        rw (first, drop) (Entries-remove x i ns l e f h.3)
    | inr ne ↦
        rw (ne, apart_keys i j x a nt f h.2 ne) (h.0, h.1, h.2, Entries-remove x i ns l e f h.3)
  ]
  Entries-remove x i [] (p ∷ l) e f h = elim h [ ]
  Entries-remove x i (a ∷ ns) [] e f h = elim h [ ]

  -- A node that is not of the list is deleted.
  pub Entries-erase :
      (x i : ℕ) (ns : List ℕ) (l : Sequence)
      → member x ns ≡ false
      → find i nt ≡ some x
      → Entries it vt nt ns l
      → Entries (erase x it) (erase x vt) (erase i nt) ns l
  unfolding member
  Entries-erase x i [] [] out f h = tt
  Entries-erase x i (a ∷ ns) ((j, w) ∷ l) out f h =
      let ne : (a == x) ≡ false = ground arith in
      (
        find-erased x a it (swap a x ne) h.0,
        find-erased x a vt (swap a x ne) h.1,
        find-erased i j nt (swap j i (apart_keys i j x a nt f h.2 ne)) h.2,
        Entries-erase x i ns l (ground arith) f h.3,
      )
  Entries-erase x i [] (p ∷ l) out f h = elim h [ ]
  Entries-erase x i (a ∷ ns) [] out f h = elim h [ ]
