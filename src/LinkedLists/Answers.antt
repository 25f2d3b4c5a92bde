-- ===== src/LinkedLists/Answers.antt =====
-- What the functions that look at a list answer.
use async.Base.{
  ℕ, ◌≡◌, refl, sym, ap, subst, true, false, List, [], ◌∷◌, some, ◌>>=◌, ◌==◌, if◌then◌else◌, arith,
  Bool-cases, Option-cases, inl, inr,
}
use async.Base.Tables.{find, put, member}
use async.LinkedLists.{LinkedList, sentinel, find_node}
use async.LinkedLists.Ring.{Linked, Apart, find-same, find-other}
use async.LinkedLists.Steps.{store-found}
use async.LinkedLists.Entries.{Sequence, value_of, has_id, Entries, some-some, apart_keys, swap}
use async.LinkedLists.Pushes.{StandsFor}
use async.LinkedLists.Removes.{without-absent, absent, found}
use async.LinkedLists.Queries.{
  get_value, set_value, id_or_zero, first_id, last_id, next_node, prev_node,
}

-- The id at the front, 0 for none, and at the back.
unfoldable pub front_id : Sequence → ℕ
front_id [] = 0
front_id ((i, v) ∷ l) = i

unfoldable pub back_id : (before : ℕ) → Sequence → ℕ
back_id before [] = before
back_id before ((i, v) ∷ l) = back_id i l

-- The id behind an id, and the one in front of it.
unfoldable pub behind : ℕ → Sequence → ℕ
unfolding front_id
behind i [] = 0
behind i ((j, v) ∷ l) = if j == i then front_id l else behind i l

unfoldable pub ahead : (before : ℕ) → ℕ → Sequence → ℕ
ahead before i [] = 0
ahead before i ((j, v) ∷ l) = if j == i then before else ahead j i l

unfoldable pub with_value : (i v : ℕ) → Sequence → Sequence
with_value i v [] = []
with_value i v ((j, w) ∷ l) =
    let rest = with_value i v l in if j == i then (j, v) ∷ l else (j, w) ∷ rest

module _ (s : LinkedList) where
  id_of_node : (a i : ℕ) → (a == sentinel) ≡ false → find a s.id ≡ some i → id_or_zero a s ≡ some i
  unfolding id_or_zero
  id_of_node a i ne e = rw ne e

  id_of_sentinel : (a : ℕ) → a ≡ sentinel → id_or_zero a s ≡ some 0
  unfolding id_or_zero
  id_of_sentinel a e = rw e refl

  -- From p, whose id is `before`, to the end of the ring.
  first_answer :
      (p : ℕ) (ns : List ℕ) (l : Sequence)
      → Linked s.next s.prev p ns sentinel
      → Entries s.id s.value s.nodes ns l
      → member sentinel ns ≡ false
      → (find p s.next >>= (λ a. id_or_zero a s)) ≡ some (front_id l)
  unfolding member front_id
  first_answer p [] [] h k out = rw h.0 (id_of_sentinel sentinel refl)
  first_answer p (a ∷ ns) ((i, v) ∷ l) h k out = rw h.0 (id_of_node a i (ground arith) k.0)
  first_answer p [] (e ∷ l) h k out = elim k [ ]
  first_answer p (a ∷ ns) [] h k out = elim k [ ]

  last_answer :
      (before p : ℕ) (ns : List ℕ) (l : Sequence)
      → Linked s.next s.prev p ns sentinel
      → Entries s.id s.value s.nodes ns l
      → member sentinel ns ≡ false
      → id_or_zero p s ≡ some before
      → (find sentinel s.prev >>= (λ a. id_or_zero a s)) ≡ some (back_id before l)
  unfolding member back_id
  last_answer before p [] [] h k out e = rw h.1 e
  last_answer before p (a ∷ ns) ((i, v) ∷ l) h k out e =
      last_answer i a ns l h.2 k.3 (ground arith) (id_of_node a i (ground arith) k.0)
  last_answer before p [] (q ∷ l) h k out e = elim k [ ]
  last_answer before p (a ∷ ns) [] h k out e = elim k [ ]

  module _ (x i : ℕ) (e : find x s.id ≡ some i) (f : find i s.nodes ≡ some x) where
    next_answer :
        (p : ℕ) (ns : List ℕ) (l : Sequence)
        → Linked s.next s.prev p ns sentinel
        → Entries s.id s.value s.nodes ns l
        → member sentinel ns ≡ false
        → member x ns ≡ true
        → (find x s.next >>= (λ a. id_or_zero a s)) ≡ some (behind i l)
    unfolding member behind
    next_answer p [] l h k out here = cc here
    next_answer p (a ∷ ns) [] h k out here = elim k [ ]
    next_answer p (a ∷ ns) ((j, v) ∷ l) h k out here = elim (Bool-cases (a == x)) [
      | inl first ↦
          let same : a ≡ x = ground arith in
          let key : (j == i) ≡ true =
            hit j (some-some (subst (λ y. find y s.id ≡ some j) same k.0) e) in
          rw key (
            subst (λ y. (find y s.next >>= (λ b. id_or_zero b s)) ≡ some (front_id l)) same
              (first_answer a ns l h.2 k.3 (ground arith)))
      | inr ne ↦
          rw (apart_keys i j x a s.nodes f k.2 ne)
            (next_answer a ns l h.2 k.3 (ground arith) (ground arith))
    ]
      where
        hit : (m : ℕ) → m ≡ i → (m == i) ≡ true
        hit m q = ground arith

    prev_answer :
        (before p : ℕ) (ns : List ℕ) (l : Sequence)
        → Linked s.next s.prev p ns sentinel
        → Entries s.id s.value s.nodes ns l
        → member sentinel ns ≡ false
        → member x ns ≡ true
        → id_or_zero p s ≡ some before
        → (find x s.prev >>= (λ a. id_or_zero a s)) ≡ some (ahead before i l)
    unfolding member ahead
    prev_answer before p [] l h k out here g = cc here
    prev_answer before p (a ∷ ns) [] h k out here g = elim k [ ]
    prev_answer before p (a ∷ ns) ((j, v) ∷ l) h k out here g = elim (Bool-cases (a == x)) [
      | inl first ↦
          let same : a ≡ x = ground arith in
          let key : (j == i) ≡ true =
            hit j (some-some (subst (λ y. find y s.id ≡ some j) same k.0) e) in
          rw (key, subst (λ y. find y s.prev ≡ some p) same h.1) g
      | inr ne ↦ rw (apart_keys i j x a s.nodes f k.2 ne) (
          prev_answer j a ns l h.2 k.3 (ground arith) (ground arith)
            (id_of_node a j (ground arith) k.0))
    ]
      where
        hit : (m : ℕ) → m ≡ i → (m == i) ≡ true
        hit m q = ground arith

-- An id that is not there has no neighbours.
behind-absent : (i : ℕ) (l : Sequence) → has_id i l ≡ false → behind i l ≡ 0
unfolding has_id behind
behind-absent i [] h = refl
behind-absent i ((j, v) ∷ l) h = ground (arith, behind-absent i l)

ahead-absent : (i before : ℕ) (l : Sequence) → has_id i l ≡ false → ahead before i l ≡ 0
unfolding has_id ahead
ahead-absent i before [] h = refl
ahead-absent i before ((j, v) ∷ l) h = ground (arith, ahead-absent i j l)

-- A list in memory answers as the sequence that it stands for: the value of an id, the first and the
-- last id, and the id behind and in front of another one; 0 where there is none.
pub answers_lem :
    (i : ℕ) (s : LinkedList) (l : Sequence)
    → StandsFor s l
    → (get_value i s ≡ some (value_of i l))
      × (first_id s ≡ some (front_id l))
      × (last_id s ≡ some (back_id 0 l))
      × (next_node i s ≡ some (behind i l))
      × (prev_node i s ≡ some (ahead 0 i l))
unfolding get_value first_id last_id next_node prev_node find_node
answers_lem i s l (ns, h) = (
  elim (Option-cases (find i s.nodes)) [
    | inl e ↦ rw (e, (without-absent i l (absent i s ns l h e)).1) refl
    | inr (x, f) ↦ rw f (found i x s ns l h f).2
  ],
  first_answer s sentinel ns l h.ring.0 h.entries h.ring.1.0,
  last_answer s 0 sentinel ns l h.ring.0 h.entries h.ring.1.0 (id_of_sentinel s sentinel refl),
  elim (Option-cases (find i s.nodes)) [
    | inl e ↦ rw (e, behind-absent i l (absent i s ns l h e)) refl
    | inr (x, f) ↦
        let known = found i x s ns l h f in
        rw f (next_answer s x i known.1 f sentinel ns l h.ring.0 h.entries h.ring.1.0 known.0)
  ],
  elim (Option-cases (find i s.nodes)) [
    | inl e ↦ rw (e, ahead-absent i 0 l (absent i s ns l h e)) refl
    | inr (x, f) ↦
        let known = found i x s ns l h f in
        rw f (
          prev_answer s x i known.1 f 0 sentinel ns l h.ring.0 h.entries h.ring.1.0 known.0
            (id_of_sentinel s sentinel refl))
  ],
)

module _ (it vt nt : List (ℕ × ℕ)) (x i v : ℕ) (e : find x it ≡ some i)
    (f : find i nt ≡ some x) where
  -- The value of a node outside changes nothing.
  Entries-value_out :
      (ns : List ℕ) (l : Sequence)
      → member x ns ≡ false
      → Entries it vt nt ns l
      → Entries it (put x v vt) nt ns l
  unfolding member
  Entries-value_out [] [] out h = tt
  Entries-value_out (a ∷ ns) ((j, w) ∷ l) out h =
      (h.0, find-other x a v vt (ground arith) h.1, h.2, Entries-value_out ns l (ground arith) h.3)
  Entries-value_out [] (p ∷ l) out h = elim h [ ]
  Entries-value_out (a ∷ ns) [] out h = elim h [ ]

  Entries-value :
      (ns : List ℕ) (l : Sequence)
      → Apart ns
      → member x ns ≡ true
      → Entries it vt nt ns l
      → Entries it (put x v vt) nt ns (with_value i v l)
  unfolding member with_value
  Entries-value [] l apart here h = cc here
  Entries-value (a ∷ ns) [] apart here h = elim h [ ]
  Entries-value (a ∷ ns) ((j, w) ∷ l) apart here h = elim (Bool-cases (a == x)) [
    | inl first ↦
        let same : a ≡ x = ground arith in
        let key : j ≡ i = some-some (subst (λ y. find y it ≡ some j) same h.0) e in
        let hit : (j == i) ≡ true = ground arith in
        let out : member x ns ≡ false = subst (λ y. member y ns ≡ false) same apart.0 in
        rw hit (
          h.0,
          subst (λ y. find y (put x v vt) ≡ some v) (sym same) (find-same x v vt),
          h.2,
          Entries-value_out ns l out h.3,
        )
    | inr ne ↦ rw (apart_keys i j x a nt f h.2 ne) (
      h.0,
      find-other x a v vt (swap a x ne) h.1,
      h.2,
      Entries-value ns l apart.1 (ground arith) h.3,
    )
  ]

with_value-absent : (i v : ℕ) (l : Sequence) → has_id i l ≡ false → with_value i v l ≡ l
unfolding has_id with_value
with_value-absent i v [] h = refl
with_value-absent i v ((j, w) ∷ l) h =
    let ne : (j == i) ≡ false = ground arith in
    rw ne (ap (λ t. (j, w) ∷ t) (with_value-absent i v l (ground arith)))

pub set_value-StandsFor :
    (i v : ℕ) (s : LinkedList) (l : Sequence)
    → StandsFor s l
    → (s1 : LinkedList) × (set_value i v s ≡ some s1) × StandsFor s1 (with_value i v l)
unfolding set_value find_node
set_value-StandsFor i v s l there = elim (Option-cases (find i s.nodes)) [
  | inl e ↦ (s, rw e refl, rw (with_value-absent i v l (absent i s there.0 l there.1 e)) there)
  | inr (x, f) ↦
      let known = found i x s there.0 l there.1 f in
      let h = there.1 in
      (
        record s { value = put x v s.value },
        rw (f, store-found x v s.value known.2) refl,
        (
          there.0,
          record {
            ring = h.ring;
            entries =
                Entries-value s.id s.value s.nodes x i v known.1 f there.0 l h.ring.1.1 known.0
                  h.entries;
            only = h.only;
            low = h.low;
            used = h.used;
            idle = h.idle;
            free_apart = h.free_apart;
            started = h.started;
          },
        ),
      )
]
