-- ===== src/LinkedLists/Removes.antt =====
-- `Remove`, and what the pops have in common with it.
use async.Base.{
  ℕ, ◌<◌, ◌≡◌, refl, sym, ap, subst, ◌∙◌, true, false, List, [], ◌∷◌, none, some, ◌==◌, arith,
  Bool-cases, Option-cases, inl, inr,
}
use async.Base.Tables.{find, put, erase, member, remove, find-erase, member-remove}
use async.LinkedLists.{
  LinkedList, sentinel, forget, delete, take_node, find_node, remove_found, remove_node,
}
use async.LinkedLists.Ring.{Linked}
use async.LinkedLists.Steps.{IsRing, member-snoc, Apart-snoc, unlinked, unlink_ring_lem}
use async.LinkedLists.Entries.{
  Sequence, value_of, has_id, without, some-some, find-erased, Entries-member, Entries-has_id,
  Entries-remove, Entries-erase,
}
use async.LinkedLists.Holds.{Holds}
use async.LinkedLists.Pushes.{StandsFor}

-- A node outside is deleted.
pub Linked-erase :
    (nx pv : List (ℕ × ℕ)) (x p : ℕ) (ns : List ℕ) (q : ℕ)
    → member x (p ∷ ns) ≡ false
    → (x == q) ≡ false
    → Linked nx pv p ns q
    → Linked (erase x nx) (erase x pv) p ns q
unfolding member
Linked-erase nx pv x p [] q out ne h =
    (find-erased x p nx (ground arith) h.0, find-erased x q pv ne h.1)
Linked-erase nx pv x p (a ∷ ns) q out ne h = (
  find-erased x p nx (ground arith) h.0,
  find-erased x a pv (ground arith) h.1,
  Linked-erase nx pv x a ns q (ground arith) ne h.2,
)

erase-miss :
    (k j : ℕ) (t : List (ℕ × ℕ)) {a : ℕ}
    → find j (erase k t) ≡ some a
    → ((k == j) ≡ false) × (find j t ≡ some a)
erase-miss k j t {a} e = elim (Bool-cases (k == j)) [
  | inl same ↦
      let gone : find j (erase k t) ≡ none = find-erase k j t ∙ rw same refl in
      absurd (cc (sym gone ∙ e))
  | inr ne ↦ (ne, sym (find-erase k j t ∙ rw ne refl) ∙ e)
]

module _ (s : LinkedList) (ns : List ℕ) (l : Sequence) (h : Holds s ns l) (x i : ℕ)
    (here : member x ns ≡ true) (e : find x s.id ≡ some i) (f : find i s.nodes ≡ some x) where
  abbrev gone : (left right : ℕ) → LinkedList
  gone left right = delete x (forget i (unlinked left right s))

  pub inside : (x == sentinel) ≡ false
  unfolding member
  inside = elim (Bool-cases (x == sentinel)) [
    | inl k ↦
        let same : x ≡ sentinel = ground arith in
        absurd (cc (sym h.ring.1.0 ∙ subst (λ y. member y ns ≡ true) same here))
    | inr k ↦ k
  ]

  not_gone : (j a : ℕ) → (i == j) ≡ false → find a s.id ≡ some j → (x == a) ≡ false
  not_gone j a ne g = elim (Bool-cases (x == a)) [
    | inl k ↦
        let same : a ≡ x = ground arith in
        let clash : i ≡ j = some-some e (subst (λ y. find y s.id ≡ some j) same g) in ground arith
    | inr k ↦ k
  ]

  not_idle : member i s.free_ids ≡ false
  not_idle = elim (Bool-cases (member i s.free_ids)) [
    | inl k ↦ absurd (cc (sym (h.idle i k).0 ∙ f))
    | inr k ↦ k
  ]

  Holds-gone :
      (left right : ℕ)
      → IsRing (unlinked left right s) (remove x ns)
      → Holds (gone left right) (remove x ns) (without i l)
  unfolding forget delete member
  Holds-gone left right ring = record {
    ring = (
      Linked-erase (put left right s.next) (put right left s.prev) x sentinel (remove x ns) sentinel
          (ground (arith, inside, member-remove x x ns)) inside ring.0,
      ring.1,
    );
    entries =
        Entries-erase s.id s.value s.nodes x i (remove x ns) (without i l)
          (member-remove x x ns ∙ ground arith) f
          (Entries-remove s.id s.value s.nodes x i ns l e f h.entries);
    only = λ j a k.
        let old = erase-miss i j s.nodes k in
        let facts = h.only j a old.1 in
        let ne = not_gone j a old.0 facts.1 in
        (member-remove x a ns ∙ rw ne facts.0, find-erased x a s.id ne facts.1);
    low = λ a k. h.low a (ground (arith, member-remove x a ns));
    used = λ j a k. h.used j a (erase-miss i j s.nodes k).1;
    idle = λ j k. elim (Bool-cases (i == j)) [
      | inl same ↦
          let key : i ≡ j = ground arith in
          subst (λ y. (find y (erase i s.nodes) ≡ none) × (0 < y) × (y < s.next_id)) key
            (find-erase i i s.nodes ∙ ground arith, (h.used i x f).0, (h.used i x f).1)
      | inr ne ↦
          let facts = h.idle j (ground (arith, member-snoc i j s.free_ids)) in
          (find-erased i j s.nodes ne facts.0, facts.1, facts.2)
    ];
    free_apart = Apart-snoc i s.free_ids h.free_apart not_idle;
    started = h.started;
  }

  pub take_node_lem :
      find x s.value ≡ some (value_of i l)
      → (s1 : LinkedList) × (take_node x s ≡ some (s1, value_of i l))
        × (remove_found i (some x) s ≡ some (s1, value_of i l))
        × StandsFor s1 (without i l)
  unfolding take_node
  take_node_lem g =
      let (left, right, k, ring) = unlink_ring_lem x ns s h.ring here in
      (
        gone left right,
        rw (g, k, e) refl,
        rw (g, k) refl,
        (remove x ns, Holds-gone left right ring),
      )

-- An id that is not there.
pub without-absent :
    (i : ℕ) (l : Sequence) → has_id i l ≡ false → (without i l ≡ l) × (value_of i l ≡ 0)
unfolding has_id without value_of
without-absent i [] h = (refl, refl)
without-absent i ((j, v) ∷ l) h =
    let rest = without-absent i l (ground arith) in
    let ne : (j == i) ≡ false = ground arith in rw (ne, rest.0) (refl, rest.1)

pub absent :
    (i : ℕ) (s : LinkedList) (ns : List ℕ) (l : Sequence)
    → Holds s ns l
    → find i s.nodes ≡ none
    → has_id i l ≡ false
absent i s ns l h e = elim (Bool-cases (has_id i l)) [
  | inl k ↦
      let (x, f, m) = Entries-has_id s.id s.value s.nodes i ns l h.entries k in
      absurd (cc (sym e ∙ f))
  | inr k ↦ k
]

-- What `FindNode` finds.
pub found :
    (i x : ℕ) (s : LinkedList) (ns : List ℕ) (l : Sequence)
    → Holds s ns l
    → find i s.nodes ≡ some x
    → (member x ns ≡ true)
      × (find x s.id ≡ some i)
      × (find x s.value ≡ some (value_of i l))
      × (has_id i l ≡ true)
found i x s ns l h f =
    let known = h.only i x f in
    let (j, e, g, k, m) = Entries-member s.id s.value s.nodes x ns l h.entries known.0 in
    let same : j ≡ i = some-some e known.1 in
    (
      known.0,
      known.1,
      subst (λ y. find x s.value ≡ some (value_of y l)) same k,
      subst (λ y. has_id y l ≡ true) same m,
    )

pub remove_node-StandsFor :
    (i : ℕ) (s : LinkedList) (l : Sequence)
    → StandsFor s l
    → (s1 : LinkedList) × (remove_node i s ≡ some (s1, value_of i l)) × StandsFor s1 (without i l)
unfolding remove_node find_node
remove_node-StandsFor i s l there = elim (Option-cases (find i s.nodes)) [
  | inl e ↦
      let out = without-absent i l (absent i s there.0 l there.1 e) in
      (s, rw (e, out.1) refl, subst (λ y. StandsFor s y) (sym out.0) there)
  | inr (x, f) ↦
      let known = found i x s there.0 l there.1 f in
      let (s1, taken, removed, k) =
        take_node_lem s there.0 l there.1 x i known.0 known.1 f known.2 in
      (s1, ap (λ o. remove_found i o s) f ∙ removed, k)
]
