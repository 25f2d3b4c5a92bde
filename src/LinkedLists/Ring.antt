-- ===== src/LinkedLists/Ring.antt =====
-- A ring of nodes as the list of their addresses: what `InsertBefore` and `Unlink` do to it.
use async.Base.{
  ℕ, ◌≡◌, refl, sym, subst, ◌∙◌, true, false, ◌||◌, List, [], ◌∷◌, ◌++◌, Option, some, ◌==◌, arith,
  Bool-cases, inl, inr,
}
use async.Base.Tables.{find, put, member, remove, find-put}

-- From p over the nodes of the list to q, in both directions.
abbrev pub Linked : (next prev : List (ℕ × ℕ)) → (p : ℕ) → List ℕ → (q : ℕ) → Type 0
Linked nx pv p [] q = (find p nx ≡ some q) × (find q pv ≡ some p)
Linked nx pv p (a ∷ ns) q = (find p nx ≡ some a) × (find a pv ≡ some p) × Linked nx pv a ns q

abbrev pub Apart : List ℕ → Type 0
Apart [] = Unit
Apart (a ∷ ns) = (member a ns ≡ false) × Apart ns

pub some-injective : {a b : ℕ} → some a ≡ some b → a ≡ b
some-injective e = cc e

pub find-other :
    (k j v : ℕ) (t : List (ℕ × ℕ)) {o : Option ℕ}
    → (k == j) ≡ false
    → find j t ≡ o
    → find j (put k v t) ≡ o
find-other k j v t ne e = find-put k j v t ∙ rw ne e

pub find-same : (k v : ℕ) (t : List (ℕ × ℕ)) → find k (put k v t) ≡ some v
find-same k v t = find-put k k v t ∙ ground arith

-- A field of another node changes.
pub Linked-put_next :
    (nx pv : List (ℕ × ℕ)) (x v p : ℕ) (ns : List ℕ) (q : ℕ)
    → member x (p ∷ ns) ≡ false
    → Linked nx pv p ns q
    → Linked (put x v nx) pv p ns q
unfolding member
Linked-put_next nx pv x v p [] q out h = (find-other x p v _ (ground arith) h.0, h.1)
Linked-put_next nx pv x v p (a ∷ ns) q out h = (
  find-other x p v _ (ground arith) h.0,
  h.1,
  Linked-put_next nx pv x v a ns q (ground arith) h.2,
)

pub Linked-put_prev :
    (nx pv : List (ℕ × ℕ)) (x v p : ℕ) (ns : List ℕ) (q : ℕ)
    → member x ns ≡ false
    → (x == q) ≡ false
    → Linked nx pv p ns q
    → Linked nx (put x v pv) p ns q
unfolding member
Linked-put_prev nx pv x v p [] q out ne h = (h.0, find-other x q v _ ne h.1)
Linked-put_prev nx pv x v p (a ∷ ns) q out ne h = (
  h.0,
  find-other x a v _ (ground arith) h.1,
  Linked-put_prev nx pv x v a ns q (ground arith) ne h.2,
)

-- The neighbours of a node.
pub next-in :
    (nx pv : List (ℕ × ℕ)) (x p : ℕ) (ns : List ℕ) (q : ℕ)
    → Linked nx pv p ns q
    → member x (p ∷ ns) ≡ true
    → (r : ℕ) × (find x nx ≡ some r) × ((member r ns || (r == q)) ≡ true)
unfolding member
next-in nx pv x p [] q h here =
    (q, subst (λ y. find y nx ≡ some q) (ground arith) h.0, ground arith)
next-in nx pv x p (a ∷ ns) q h here = elim (Bool-cases (p == x)) [
  | inl e ↦ (a, subst (λ y. find y nx ≡ some a) (ground arith) h.0, ground arith)
  | inr e ↦ let (r, f, m) = next-in nx pv x a ns q h.2 (ground arith) in (r, f, ground arith)
]

pub prev-in :
    (nx pv : List (ℕ × ℕ)) (x p : ℕ) (ns : List ℕ) (q : ℕ)
    → Linked nx pv p ns q
    → (member x ns || (x == q)) ≡ true
    → (l : ℕ) × (find x pv ≡ some l) × (member l (p ∷ ns) ≡ true)
unfolding member
prev-in nx pv x p [] q h here =
    (p, subst (λ y. find y pv ≡ some p) (ground arith) h.1, ground arith)
prev-in nx pv x p (a ∷ ns) q h here = elim (Bool-cases (a == x)) [
  | inl e ↦ (p, subst (λ y. find y pv ≡ some p) (ground arith) h.1, ground arith)
  | inr e ↦ let (l, f, m) = prev-in nx pv x a ns q h.2 (ground arith) in (l, f, ground arith)
]

-- The new node in front.
pub Linked-front :
    (nx pv : List (ℕ × ℕ)) (x c : ℕ) (ns : List ℕ) (pos : ℕ)
    → Apart (c ∷ ns)
    → member x (c ∷ ns) ≡ false
    → find c nx ≡ some pos
    → Linked nx pv c ns c
    → Linked (put c x (put x pos nx)) (put pos x (put x c pv)) c (x ∷ ns) c
unfolding member
Linked-front nx pv x c [] pos apart out e h =
    let same : pos ≡ c = some-injective (sym e ∙ h.0) in
    subst (λ y. Linked (put c x (put x y nx)) (put y x (put x c pv)) c (x ∷ []) c) (sym same)
      (
        find-same c x (put x c nx),
        find-other c x x (put x c pv) (ground arith) (find-same x c pv),
        (
          find-other c x x (put x c nx) (ground arith) (find-same x c nx),
          find-same c x (put x c pv),
        ),
      )
Linked-front nx pv x c (a ∷ ns) pos apart out e h =
    let same : pos ≡ a = some-injective (sym e ∙ h.0) in
    subst (λ y. Linked (put c x (put x y nx)) (put y x (put x c pv)) c (x ∷ a ∷ ns) c) (sym same)
      (
        find-same c x (put x a nx),
        find-other a x x (put x c pv) (ground arith) (find-same x c pv),
        (
          find-other c x x (put x a nx) (ground arith) (find-same x a nx),
          find-same a x (put x c pv),
          Linked-put_next (put x a nx) (put a x (put x c pv)) c x a ns c apart.0 (
              Linked-put_next nx (put a x (put x c pv)) x a a ns c (ground arith) (
                Linked-put_prev nx (put x c pv) a x a ns c apart.1.0 (ground arith)
                  (Linked-put_prev nx pv x c a ns c (ground arith) (ground arith) h.2))),
        ),
      )

-- The new node at the end.
pub Linked-back :
    (nx pv : List (ℕ × ℕ)) (x p : ℕ) (ns : List ℕ) (q l : ℕ)
    → Apart (p ∷ ns)
    → member x (p ∷ ns) ≡ false
    → (x == q) ≡ false
    → member q ns ≡ false
    → find q pv ≡ some l
    → Linked nx pv p ns q
    → Linked (put l x (put x q nx)) (put q x (put x l pv)) p (ns ++ (x ∷ [])) q
unfolding member
Linked-back nx pv x p [] q l apart out ne ring e h =
    let same : l ≡ p = some-injective (sym e ∙ h.1) in
    subst (λ y. Linked (put y x (put x q nx)) (put q x (put x y pv)) p (x ∷ []) q) (sym same)
      (
        find-same p x (put x q nx),
        find-other q x x (put x p pv) (ground arith) (find-same x p pv),
        (
          find-other p x x (put x q nx) (ground arith) (find-same x q nx),
          find-same q x (put x p pv),
        ),
      )
Linked-back nx pv x p (a ∷ ns) q l apart out ne ring e h =
    let (l1, f, m) = prev-in nx pv q a ns q h.2 (ground arith) in
    let same : l1 ≡ l = some-injective (sym f ∙ e) in
    let inside : member l (a ∷ ns) ≡ true = subst (λ y. member y (a ∷ ns) ≡ true) same m in
    (
      find-other l p x (put x q nx) (ground (arith, inside, apart.0))
          (find-other x p q nx (ground arith) h.0),
      find-other q a x (put x l pv) (ground arith) (find-other x a l pv (ground arith) h.1),
      Linked-back nx pv x a ns q l apart.1 (ground arith) ne (ground arith) e h.2,
    )

-- A member is not what no member is.
pub other : (x y : ℕ) (ns : List ℕ) → member x ns ≡ true → member y ns ≡ false → (x == y) ≡ false
unfolding member
other x y [] h k = cc h
other x y (a ∷ ns) h k = ground (arith, other x y ns)

other_or :
    (x y q : ℕ) (ns : List ℕ)
    → (member x ns || (x == q)) ≡ true
    → member y ns ≡ false
    → (q == y) ≡ false
    → (x == y) ≡ false
other_or x y q ns h k ne = elim (Bool-cases (member x ns)) [
  | inl e ↦ other x y ns e k
  | inr e ↦ ground arith
]

pub remove-out : (x : ℕ) (ns : List ℕ) → member x ns ≡ false → remove x ns ≡ ns
unfolding member remove
remove-out x [] out = refl
remove-out x (a ∷ ns) out = rw (not_first, remove-out x ns (ground arith)) refl
  where
    not_first : (a == x) ≡ false
    not_first = ground arith

-- The first node leaves the ring.
Linked-tail :
    (nx pv : List (ℕ × ℕ)) (a p : ℕ) (ns : List ℕ) (q r : ℕ)
    → Apart (p ∷ a ∷ ns)
    → member q (a ∷ ns) ≡ false
    → find a nx ≡ some r
    → Linked nx pv p (a ∷ ns) q
    → Linked (put p r nx) (put r p pv) p ns q
unfolding member
Linked-tail nx pv a p [] q r apart ring f h =
    let same : r ≡ q = some-injective (sym f ∙ h.2.0) in
    subst (λ y. Linked (put p y nx) (put y p pv) p [] q) (sym same)
      (find-same p q nx, find-same q p pv)
Linked-tail nx pv a p (b ∷ ns) q r apart ring f h =
    let same : r ≡ b = some-injective (sym f ∙ h.2.0) in
    subst (λ y. Linked (put p y nx) (put y p pv) p (b ∷ ns) q) (sym same)
      (
        find-same p b nx,
        find-same b p pv,
        Linked-put_next nx (put b p pv) p b b ns q (ground (arith, apart.0))
            (Linked-put_prev nx pv b p b ns q apart.1.1.0 (ground arith) h.2.2),
      )

-- A node leaves the ring, between `l` and `r`.
pub Linked-remove :
    (nx pv : List (ℕ × ℕ)) (x p : ℕ) (ns : List ℕ) (q l r : ℕ)
    → Apart (p ∷ ns)
    → member q ns ≡ false
    → member x ns ≡ true
    → find x pv ≡ some l
    → find x nx ≡ some r
    → Linked nx pv p ns q
    → Linked (put l r nx) (put r l pv) p (remove x ns) q
unfolding member remove
Linked-remove nx pv x p [] q l r apart ring here e f h = cc here
Linked-remove nx pv x p (a ∷ ns) q l r apart ring here e f h = elim (Bool-cases (a == x)) [
  | inl first ↦
      let same : a ≡ x = ground arith in
      let gone : remove x ns ≡ ns =
        remove-out x ns (subst (λ y. member y ns ≡ false) same apart.1.0) in
      let front : l ≡ p = some-injective (sym e ∙ subst (λ y. find y pv ≡ some p) same h.1) in
      rw (first, gone)
        (subst (λ y. Linked (put y r nx) (put r y pv) p ns q) (sym front)
          (Linked-tail nx pv a p ns q r apart ring (subst (λ y. find y nx ≡ some r) (sym same) f)
            h))
  | inr later ↦
      let (l1, e1, m1) = prev-in nx pv x a ns q h.2 (ground arith) in
      let (r1, f1, n1) = next-in nx pv x a ns q h.2 (ground arith) in
      let same_l : l1 ≡ l = some-injective (sym e1 ∙ e) in
      let same_r : r1 ≡ r = some-injective (sym f1 ∙ f) in
      let left : member l (a ∷ ns) ≡ true = subst (λ y. member y (a ∷ ns) ≡ true) same_l m1 in
      let right : (member r ns || (r == q)) ≡ true =
        subst (λ y. (member y ns || (y == q)) ≡ true) same_r n1 in
      rw later (
        find-other l p r nx (other l p (a ∷ ns) left apart.0) h.0,
        find-other r a l pv (ground (arith, other_or r a q ns right apart.1.0 (ground arith))) h.1,
        Linked-remove nx pv x a ns q l r apart.1 (ground arith) (ground arith) e f h.2,
      )
]
