-- ===== src/LinkedLists/Steps.antt =====
-- What `InsertBefore` and `Unlink` write, where the nodes that they touch are there.
use async.Base.{
  ℕ, ◌≡◌, refl, subst, ◌∙◌, true, false, ◌||◌, List, [], ◌∷◌, ◌++◌, some, ◌==◌, arith, Bool-cases,
  inl, inr,
}
use async.Base.Tables.{find, put, member, remove, find-put, member-remove}
use async.LinkedLists.{LinkedList, sentinel, store, insert_before, unlink}
use async.LinkedLists.Ring.{Linked, Apart, find-other, Linked-front, Linked-back, Linked-remove}

pub store-found :
    (a v : ℕ) (t : List (ℕ × ℕ)) {u : ℕ} → find a t ≡ some u → store a v t ≡ some (put a v t)
unfolding store
store-found a v t e = rw e refl

-- A cell that is there is there after another one was written.
pub find-kept :
    (k j v : ℕ) (t : List (ℕ × ℕ)) {u : ℕ}
    → find j t ≡ some u
    → (w : ℕ) × (find j (put k v t) ≡ some w)
find-kept k j v t {u} e = elim (Bool-cases (k == j)) [
  | inl same ↦ (v, find-put k j v t ∙ rw same refl)
  | inr ne ↦ (u, find-other k j v t ne e)
]

abbrev pub inserted : (pos x l : ℕ) → LinkedList → LinkedList
inserted pos x l s = record s {
  prev = put pos x (put x l s.prev);
  next = put l x (put x pos s.next);
}

pub insert_before_lem :
    (pos x l : ℕ) (s : LinkedList) {u w y : ℕ}
    → find pos s.prev ≡ some l
    → find l s.next ≡ some y
    → find x s.prev ≡ some u
    → find x s.next ≡ some w
    → (x == pos) ≡ false
    → insert_before pos x s ≡ some (inserted pos x l s)
unfolding insert_before
insert_before_lem pos x l s e f g h ne =
    let kept = find-other x pos l s.prev ne e in
    rw
      (
        e,
        store-found x l s.prev g,
        store-found x pos s.next h,
        kept,
        store-found l x (put x pos s.next) (find-kept x l pos s.next f).1,
      )
      refl

abbrev pub unlinked : (l r : ℕ) → LinkedList → LinkedList
unlinked l r s = record s { prev = put r l s.prev; next = put l r s.next }

pub unlink_lem :
    (x l r : ℕ) (s : LinkedList) {u w : ℕ}
    → find x s.prev ≡ some l
    → find x s.next ≡ some r
    → find l s.next ≡ some u
    → find r s.prev ≡ some w
    → unlink x s ≡ some (unlinked l r s)
unfolding unlink
unlink_lem x l r s e f g h =
    rw (e, f, store-found l r s.next g, still, store-found r l s.prev h) refl
  where
    still : find x (put l r s.next) ≡ some r
    still = elim (Bool-cases (l == x)) [
      | inl same ↦ find-put l x r s.next ∙ rw same refl
      | inr ne ↦ find-other l x r s.next ne f
    ]

-- The nodes of a list, in the order of the ring.
abbrev pub IsRing : LinkedList → List ℕ → Type 0
IsRing s ns = Linked s.next s.prev sentinel ns sentinel × Apart (sentinel ∷ ns)

abbrev pub snoc : List ℕ → ℕ → List ℕ
snoc ns x = ns ++ (x ∷ [])

pub member-snoc : (x a : ℕ) (ns : List ℕ) → member a (snoc ns x) ≡ (member a ns || (x == a))
unfolding member
member-snoc x a [] = ground arith
member-snoc x a (b ∷ ns) = ground (arith, member-snoc x a ns)

pub Apart-snoc : (x : ℕ) (ns : List ℕ) → Apart ns → member x ns ≡ false → Apart (snoc ns x)
unfolding member
Apart-snoc x [] h out = (refl, tt)
Apart-snoc x (a ∷ ns) h out =
    (ground (arith, member-snoc x a ns, h.0), Apart-snoc x ns h.1 (ground arith))

Apart-remove : (x : ℕ) (ns : List ℕ) → Apart ns → Apart (remove x ns)
unfolding member remove
Apart-remove x [] h = tt
Apart-remove x (a ∷ ns) h = elim (Bool-cases (a == x)) [
  | inl e ↦ rw e (Apart-remove x ns h.1)
  | inr e ↦ rw e (ground (arith, member-remove x a ns, h.0), Apart-remove x ns h.1)
]

-- The first node after p.
pub first_of :
    (nx pv : List (ℕ × ℕ)) (p : ℕ) (ns : List ℕ) (q : ℕ)
    → Linked nx pv p ns q
    → (a : ℕ) × (find p nx ≡ some a) × (find a pv ≡ some p) × ((member a ns || (a == q)) ≡ true)
unfolding member
first_of nx pv p [] q h = (q, h.0, h.1, ground arith)
first_of nx pv p (a ∷ ns) q h = (a, h.0, h.1, ground arith)

-- The last one before q.
pub last_of :
    (nx pv : List (ℕ × ℕ)) (p : ℕ) (ns : List ℕ) (q : ℕ)
    → Linked nx pv p ns q
    → (l : ℕ) × (find q pv ≡ some l) × (find l nx ≡ some q) × (member l (p ∷ ns) ≡ true)
unfolding member
last_of nx pv p [] q h = (p, h.1, h.0, ground arith)
last_of nx pv p (a ∷ ns) q h =
    let (l, e, f, m) = last_of nx pv a ns q h.2 in (l, e, f, ground arith)

-- The neighbours of a node name each other.
pub between :
    (nx pv : List (ℕ × ℕ)) (x p : ℕ) (ns : List ℕ) (q : ℕ)
    → Linked nx pv p ns q
    → member x ns ≡ true
    → (l : ℕ) × (r : ℕ) × (find x pv ≡ some l)
      × (find x nx ≡ some r)
      × (find l nx ≡ some x)
      × (find r pv ≡ some x)
unfolding member
between nx pv x p [] q h here = cc here
between nx pv x p (a ∷ ns) q h here = elim (Bool-cases (a == x)) [
  | inl e ↦
      let same : a ≡ x = ground arith in
      let (r, f, g, m) = first_of nx pv a ns q h.2 in
      (
        p,
        r,
        subst (λ y. find y pv ≡ some p) same h.1,
        subst (λ y. find y nx ≡ some r) same f,
        subst (λ y. find p nx ≡ some y) same h.0,
        subst (λ y. find r pv ≡ some y) same g,
      )
  | inr e ↦ between nx pv x a ns q h.2 (ground arith)
]

module _ (x : ℕ) (ns : List ℕ) (s : LinkedList) (ring : IsRing s ns) where
  apart_from :
      (pos : ℕ)
      → (member pos ns || (pos == sentinel)) ≡ true
      → member x (sentinel ∷ ns) ≡ false
      → (x == pos) ≡ false
  unfolding member
  apart_from pos m out = elim (Bool-cases (x == pos)) [
    | inl e ↦
        let same : pos ≡ x = ground arith in
        let back : (member x ns || (x == sentinel)) ≡ true =
          subst (λ y. (member y ns || (y == sentinel)) ≡ true) same m in
        ground arith
    | inr e ↦ e
  ]

  -- A node that is there but not in the ring comes to its front.
  pub insert_front_lem :
      {u w : ℕ}
      → member x (sentinel ∷ ns) ≡ false
      → find x s.prev ≡ some u
      → find x s.next ≡ some w
      → (pos : ℕ) × (find sentinel s.next ≡ some pos)
        × (insert_before pos x s ≡ some (inserted pos x sentinel s))
        × IsRing (inserted pos x sentinel s) (x ∷ ns)
  unfolding member
  insert_front_lem out g h =
      let (pos, e, f, m) = first_of s.next s.prev sentinel ns sentinel ring.0 in
      (
        pos,
        e,
        insert_before_lem pos x sentinel s f e g h (apart_from pos m out),
        (
          Linked-front s.next s.prev x sentinel ns pos ring.1 out e ring.0,
          (ground (arith, ring.1.0), (ground arith, ring.1.1)),
        ),
      )

  pub insert_back_lem :
      {u w : ℕ}
      → member x (sentinel ∷ ns) ≡ false
      → find x s.prev ≡ some u
      → find x s.next ≡ some w
      → (l : ℕ) × (find sentinel s.prev ≡ some l)
        × (insert_before sentinel x s ≡ some (inserted sentinel x l s))
        × IsRing (inserted sentinel x l s) (snoc ns x)
  unfolding member
  insert_back_lem out g h =
      let (l, e, f, m) = last_of s.next s.prev sentinel ns sentinel ring.0 in
      (
        l,
        e,
        insert_before_lem sentinel x l s e f g h (ground arith),
        (
          Linked-back s.next s.prev x sentinel ns sentinel l ring.1 out (ground arith) ring.1.0 e
              ring.0,
          (
            ground (arith, member-snoc x sentinel ns, ring.1.0),
            Apart-snoc x ns ring.1.1 (ground arith),
          ),
        ),
      )

  pub unlink_ring_lem :
      member x ns ≡ true
      → (l : ℕ) × (r : ℕ) × (unlink x s ≡ some (unlinked l r s))
        × IsRing (unlinked l r s) (remove x ns)
  unlink_ring_lem here =
      let (l, r, e, f, g, k) = between s.next s.prev x sentinel ns sentinel ring.0 here in
      (
        l,
        r,
        unlink_lem x l r s e f g k,
        (
          Linked-remove s.next s.prev x sentinel ns sentinel l r ring.1 ring.1.0 here e f ring.0,
          (ground (arith, member-remove x sentinel ns, ring.1.0), Apart-remove x ns ring.1.1),
        ),
      )
