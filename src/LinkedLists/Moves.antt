-- ===== src/LinkedLists/Moves.antt =====
-- `MoveToFront` and `MoveToBack`.
use async.Base.{
  ℕ, ◌≡◌, refl, sym, ap, subst, ◌∙◌, Bool, true, false, ◌||◌, List, [], ◌∷◌, ◌++◌, Option, some,
  ◌>>=◌, ◌==◌, if◌then◌else◌, arith, Bool-cases, Option-cases, inl, inr,
}
use async.Base.Tables.{find, member, remove, member-remove}
use async.LinkedLists.{
  LinkedList, sentinel, insert_before, unlink, find_node, move_to_front, move_to_back,
}
use async.LinkedLists.Ring.{Apart, other}
use async.LinkedLists.Steps.{
  IsRing, snoc, member-snoc, inserted, unlinked, find-kept, between, first_of, last_of,
  insert_front_lem, insert_back_lem, unlink_ring_lem,
}
use async.LinkedLists.Entries.{
  Sequence, value_of, has_id, without, Entries, some-some, apart_keys, swap, Entries-snoc,
  Entries-remove,
}
use async.LinkedLists.Holds.{Holds}
use async.LinkedLists.Pushes.{StandsFor}
use async.LinkedLists.Removes.{inside, without-absent, absent, found}
use async.LinkedLists.Pops.{final, Linked-final, first_apart, Entries-last}

-- An entry at the front, or at the back; an id that is not there changes nothing.
unfoldable pub moved_front : ℕ → Sequence → Sequence
unfolding has_id value_of without
moved_front i l = if has_id i l then (i, value_of i l) ∷ without i l else l

unfoldable pub moved_back : ℕ → Sequence → Sequence
unfolding has_id value_of without
moved_back i l = if has_id i l then without i l ++ ((i, value_of i l) ∷ []) else l

-- Other links between the same nodes.
Holds-relinked :
    (s : LinkedList) (ns : List ℕ) (l : Sequence)
    → Holds s ns l
    → (pv nx : List (ℕ × ℕ)) (ms : List ℕ) (l1 : Sequence)
    → IsRing (record s { prev = pv; next = nx }) ms
    → Entries s.id s.value s.nodes ms l1
    → ((a : ℕ) → member a ms ≡ member a ns)
    → Holds (record s { prev = pv; next = nx }) ms l1
unfolding member
Holds-relinked s ns l h pv nx ms l1 ring entries members = record {
  ring = ring;
  entries = entries;
  only = λ i a e. (members a ∙ (h.only i a e).0, (h.only i a e).1);
  low = λ a e. h.low a (ground (arith, members a));
  used = h.used;
  idle = h.idle;
  free_apart = h.free_apart;
  started = h.started;
}

module _ (s : LinkedList) (ns : List ℕ) (l : Sequence) (h : Holds s ns l) (x i : ℕ)
    (here : member x ns ≡ true) (e : find x s.id ≡ some i) (f : find i s.nodes ≡ some x)
    (g : find x s.value ≡ some (value_of i l)) where
  rest : Entries s.id s.value s.nodes (remove x ns) (without i l)
  rest = Entries-remove s.id s.value s.nodes x i ns l e f h.entries

  gone : member x (sentinel ∷ remove x ns) ≡ false
  unfolding member
  gone = ground (arith, inside s ns l h x i here e f, member-remove x x ns)

  again : (a : ℕ) → (member a (remove x ns) || (x == a)) ≡ member a ns
  again a = elim (Bool-cases (x == a)) [
    | inl k ↦
        let same : x ≡ a = ground arith in
        let there : member a ns ≡ true = subst (λ y. member y ns ≡ true) same here in
        rw (member-remove x a ns, k) (sym there)
    | inr k ↦ rw (member-remove x a ns, k) (ground arith)
  ]

  to_front :
      (s1 : LinkedList) × ((unlink x s
          >>= (λ apart. find sentinel apart.next >>= (λ pos. insert_before pos x apart)))
        ≡ some s1)
      × StandsFor s1 ((i, value_of i l) ∷ without i l)
  unfolding member
  to_front =
      let (left, right, k, ring) = unlink_ring_lem x ns s h.ring here in
      let (l0, r0, p, q, m, n) = between s.next s.prev x sentinel ns sentinel h.ring.0 here in
      let back = find-kept right x left s.prev p in
      let forth = find-kept left x right s.next q in
      let (pos, t, u, ring1) =
        insert_front_lem x (remove x ns) (unlinked left right s) ring gone back.1 forth.1 in
      (
        inserted pos x sentinel (unlinked left right s),
        rw (k, t, u) refl,
        (
          x ∷ remove x ns,
          Holds-relinked s ns l h _ _ (x ∷ remove x ns) ((i, value_of i l) ∷ without i l) ring1
              (e, g, f, rest) (λ a. ground (arith, again a)),
        ),
      )

  to_back :
      (s1 : LinkedList) × ((unlink x s >>= (λ apart. insert_before sentinel x apart)) ≡ some s1)
      × StandsFor s1 (without i l ++ ((i, value_of i l) ∷ []))
  unfolding member
  to_back =
      let (left, right, k, ring) = unlink_ring_lem x ns s h.ring here in
      let (l0, r0, p, q, m, n) = between s.next s.prev x sentinel ns sentinel h.ring.0 here in
      let back = find-kept right x left s.prev p in
      let forth = find-kept left x right s.next q in
      let (last, t, u, ring1) =
        insert_back_lem x (remove x ns) (unlinked left right s) ring gone back.1 forth.1 in
      (
        inserted sentinel x last (unlinked left right s),
        rw (k, u) refl,
        (
          snoc (remove x ns) x,
          Holds-relinked s ns l h _ _ (snoc (remove x ns) x)
              (without i l ++ ((i, value_of i l) ∷ [])) ring1
              (Entries-snoc s.id s.value s.nodes x i (value_of i l) (remove x ns) (without i l) e g
                f rest)
              (λ a. member-snoc x a (remove x ns) ∙ again a),
        ),
      )

-- The first node is at the front.
stays_front :
    (s : LinkedList) (ns : List ℕ) (l : Sequence) (x i : ℕ)
    → Holds s ns l
    → member x ns ≡ true
    → find sentinel s.next ≡ some x
    → find x s.id ≡ some i
    → ◌≡◌ {A = Sequence} ((i, value_of i l) ∷ without i l) l
unfolding member without value_of
stays_front s [] l x i h here t e = cc here
stays_front s (a ∷ ns) [] x i h here t e = elim h.entries [ ]
stays_front s (a ∷ ns) ((j, v) ∷ l) x i h here t e =
    let same : a ≡ x = some-some h.ring.0.0 t in
    let key : j ≡ i = some-some (subst (λ y. find y s.id ≡ some j) same h.entries.0) e in
    let alone =
      without-absent j l (first_apart s.id s.value s.nodes a ns j v l h.entries h.ring.1.1.0) in
    let again : (j == j) ≡ true = ground arith in
    subst
      (λ y.
        ◌≡◌ {A = Sequence}
          ((y, if j == y then v else value_of y l)
            ∷ (if j == y then without y l else (j, v) ∷ without y l))
          ((j, v) ∷ l))
      key (rw (again, alone.0) refl)

-- The last one is at the back.
Entries-stays :
    (it vt nt : List (ℕ × ℕ)) (a : ℕ) (ns : List ℕ) (l : Sequence) (i : ℕ)
    → Entries it vt nt (a ∷ ns) l
    → Apart (a ∷ ns)
    → find (final a ns) it ≡ some i
    → find i nt ≡ some (final a ns)
    → without i l ++ ((i, value_of i l) ∷ []) ≡ l
unfolding member without value_of
Entries-stays it vt nt a ns [] i h apart e f = elim h [ ]
Entries-stays it vt nt a [] ((j, v) ∷ []) i h apart e f =
    let key : j ≡ i = some-some h.0 e in
    subst
      (λ y.
        ◌≡◌ {A = Sequence}
          ((if j == y then [] else (j, v) ∷ []) ++ ((y, if j == y then v else 0) ∷ []))
          ((j, v) ∷ []))
      key (ground arith)
Entries-stays it vt nt a [] ((j, v) ∷ p ∷ l) i h apart e f = elim h.3 [ ]
Entries-stays it vt nt a (b ∷ ns) ((j, w) ∷ l) i h apart e f =
    let (k, e1, f1, m, g, n) = Entries-last it vt nt b ns l h.3 apart.1 in
    let ne =
      apart_keys i j (final b ns) a nt f h.2
        (swap (final b ns) a (other (final b ns) a (b ∷ ns) m apart.0)) in
    rw ne (ap (λ t. (j, w) ∷ t) (Entries-stays it vt nt b ns l i h.3 apart.1 e f))

stays_back :
    (s : LinkedList) (ns : List ℕ) (l : Sequence) (x i : ℕ)
    → Holds s ns l
    → member x ns ≡ true
    → find sentinel s.prev ≡ some x
    → find x s.id ≡ some i
    → find i s.nodes ≡ some x
    → without i l ++ ((i, value_of i l) ∷ []) ≡ l
unfolding member
stays_back s [] l x i h here t e f = cc here
stays_back s (a ∷ ns) l x i h here t e f =
    let last : find sentinel s.prev ≡ some (final a ns) =
      Linked-final s.next s.prev sentinel (a ∷ ns) sentinel h.ring.0 in
    let same : x ≡ final a ns = some-some t last in
    Entries-stays s.id s.value s.nodes a ns l i h.entries h.ring.1.1
      (subst (λ y. find y s.id ≡ some i) same e) (f ∙ ap some same)

branch_true : (b : Bool) (o p : Option LinkedList) → b ≡ true → elim b [ true ↦ o | false ↦ p ] ≡ o
branch_true true o p e = refl
branch_true false o p e = cc e

branch_false :
    (b : Bool) (o p : Option LinkedList) → b ≡ false → elim b [ true ↦ o | false ↦ p ] ≡ p
branch_false false o p e = refl
branch_false true o p e = cc e

pub move_to_front-StandsFor :
    (i : ℕ) (s : LinkedList) (l : Sequence)
    → StandsFor s l
    → (s1 : LinkedList) × (move_to_front i s ≡ some s1) × StandsFor s1 (moved_front i l)
unfolding move_to_front find_node moved_front
move_to_front-StandsFor i s l there = elim (Option-cases (find i s.nodes)) [
  | inl e ↦ (s, rw e refl, rw (absent i s there.0 l there.1 e) there)
  | inr (x, f) ↦
      let known = found i x s there.0 l there.1 f in
      let (first, t, u, w) = first_of s.next s.prev sentinel there.0 sentinel there.1.ring.0 in
      elim (Bool-cases (x == first)) [
        | inl same ↦
            let key : first ≡ x = ground arith in
            let stays = stays_front s there.0 l x i there.1 known.0 (t ∙ ap some key) known.1 in
            (
              s,
              rw (move_to_front, f, t) (branch_true (x == first) (some s) _ same),
              rw (known.3, stays) there,
            )
        | inr ne ↦
            let (s1, k, after) = to_front s there.0 l there.1 x i known.0 known.1 f known.2 in
            (
              s1,
              rw (move_to_front, f, t) (branch_false (x == first) (some s) _ ne ∙ k),
              rw known.3 after,
            )
      ]
]

pub move_to_back-StandsFor :
    (i : ℕ) (s : LinkedList) (l : Sequence)
    → StandsFor s l
    → (s1 : LinkedList) × (move_to_back i s ≡ some s1) × StandsFor s1 (moved_back i l)
unfolding move_to_back find_node moved_back
move_to_back-StandsFor i s l there = elim (Option-cases (find i s.nodes)) [
  | inl e ↦ (s, rw e refl, rw (absent i s there.0 l there.1 e) there)
  | inr (x, f) ↦
      let known = found i x s there.0 l there.1 f in
      let (last, t, u, w) = last_of s.next s.prev sentinel there.0 sentinel there.1.ring.0 in
      elim (Bool-cases (x == last)) [
        | inl same ↦
            let key : last ≡ x = ground arith in
            let stays = stays_back s there.0 l x i there.1 known.0 (t ∙ ap some key) known.1 f in
            (
              s,
              rw (move_to_back, f, t) (branch_true (x == last) (some s) _ same),
              rw (known.3, stays) there,
            )
        | inr ne ↦
            let (s1, k, after) = to_back s there.0 l there.1 x i known.0 known.1 f known.2 in
            (
              s1,
              rw (move_to_back, f, t) (branch_false (x == last) (some s) _ ne ∙ k),
              rw known.3 after,
            )
      ]
]
