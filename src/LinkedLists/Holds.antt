-- ===== src/LinkedLists/Holds.antt =====
-- A list in memory that stands for a sequence of ids with values, and what keeps it.
use async.Base.{
  ℕ, suc, ◌-◌, ◌^◌, ◌<◌, ◌≤◌, ◌≡◌, refl, sym, ap, subst, ◌∙◌, Bool, true, false, ◌||◌, List, [],
  ◌∷◌, Option, none, some, ◌==◌, arith, Bool-cases, inl, inr,
}
use async.Base.Tables.{find, put, member, find-put}
use async.LinkedLists.{LinkedList, sentinel, linked_list, take_id, new_id}
use async.LinkedLists.Ring.{Apart, find-same, find-other}
use async.LinkedLists.Steps.{IsRing}
use async.LinkedLists.Entries.{Sequence, Entries, some-some}

-- `ns` are the addresses of the nodes, in order.
pub record Holds (s : LinkedList) (ns : List ℕ) (l : Sequence) : Type 0 where
  pub ring : IsRing s ns
  pub entries : Entries s.id s.value s.nodes ns l
  pub only : (i a : ℕ) → find i s.nodes ≡ some a → (member a ns ≡ true) × (find a s.id ≡ some i)
  pub low : (a : ℕ) → member a (sentinel ∷ ns) ≡ true → a < s.fresh
  pub used : (i a : ℕ) → find i s.nodes ≡ some a → (0 < i) × (i < s.next_id)
  pub idle :
      (i : ℕ) → member i s.free_ids ≡ true → (find i s.nodes ≡ none) × (0 < i) × (i < s.next_id)
  pub free_apart : Apart s.free_ids
  pub started : 0 < s.next_id

pub linked_list-Holds : Holds linked_list [] []
unfolding find member
linked_list-Holds = record {
  ring = ((refl, refl), (refl, tt));
  entries = tt;
  only = λ i a e. cc e;
  low = λ a e. ground arith;
  used = λ i a e. cc e;
  idle = λ i e. cc e;
  free_apart = tt;
  started = omega arith;
}

put-hit :
    (i j x : ℕ) (t : List (ℕ × ℕ)) {a : ℕ} → (i == j) ≡ true → find j (put i x t) ≡ some a → x ≡ a
put-hit i j x t same e = some-some (find-put i j x t ∙ rw same refl) e

put-miss :
    (i j x : ℕ) (t : List (ℕ × ℕ)) {a : ℕ}
    → (i == j) ≡ false
    → find j (put i x t) ≡ some a
    → find j t ≡ some a
put-miss i j x t ne e = sym (find-put i j x t ∙ rw ne refl) ∙ e

-- An id that can be given to a node.
pub record IsNew (s : LinkedList) (i : ℕ) : Type 0 where
  pub unused : find i s.nodes ≡ none
  pub positive : 0 < i
  pub below : i < s.next_id
  pub not_free : member i s.free_ids ≡ false

module _ (s : LinkedList) (ns : List ℕ) (l : Sequence) (h : Holds s ns l) where
  unused_above : (o : Option ℕ) → find s.next_id s.nodes ≡ o → o ≡ none
  unused_above none e = refl
  unused_above (some a) e = absurd (omega (arith, (h.used s.next_id a e).1))

  not_idle : (b : Bool) → member s.next_id s.free_ids ≡ b → b ≡ false
  not_idle false e = refl
  not_idle true e = absurd (omega (arith, (h.idle s.next_id e).2))

  pub new_id-step : s.next_id < 2 ^ 32 - 1 → (new_id s).0.next_id ≤ suc s.next_id
  unfolding new_id
  new_id-step room = counted s.free_ids
    where
      counted : (free : List ℕ) → (take_id free s).0.next_id ≤ suc s.next_id
      counted (i ∷ rest) = omega arith
      counted [] = ground (arith, h.started)

  -- `NextId`
  pub new_id-Holds :
      s.next_id < 2 ^ 32 - 1 → Holds (new_id s).0 ns l × IsNew (new_id s).0 (new_id s).1
  unfolding new_id member
  new_id-Holds room =
      named s.free_ids h.free_apart h.idle (not_idle (member s.next_id s.free_ids) refl)
    where
      nonzero : (s.next_id == 0) ≡ false
      nonzero = ground (arith, h.started)

      named :
          (free : List ℕ)
          → Apart free
          → ((i : ℕ) → member i free ≡ true → (find i s.nodes ≡ none) × (0 < i) × (i < s.next_id))
          → member s.next_id s.free_ids ≡ false
          → Holds (take_id free s).0 ns l × IsNew (take_id free s).0 (take_id free s).1
      named (i ∷ rest) apart idle out =
          let facts = idle i (ground arith) in
          (
            record {
              ring = h.ring;
              entries = h.entries;
              only = h.only;
              low = h.low;
              used = h.used;
              idle = λ j e. idle j (ground arith);
              free_apart = apart.1;
              started = h.started;
            },
            record { unused = facts.0; positive = facts.1; below = facts.2; not_free = apart.0 },
          )
      named [] apart idle out = rw nonzero (
        record {
          ring = h.ring;
          entries = h.entries;
          only = h.only;
          low = h.low;
          used = λ i a e. ((h.used i a e).0, omega (arith, (h.used i a e).1));
          idle = λ i e. ((h.idle i e).0, (h.idle i e).1, omega (arith, (h.idle i e).2));
          free_apart = h.free_apart;
          started = omega arith;
        },
        record {
          unused = unused_above (find s.next_id s.nodes) refl;
          positive = h.started;
          below = omega arith;
          not_free = out;
        },
      )

  -- The next address.
  pub outside : member s.fresh (sentinel ∷ ns) ≡ false
  outside = elim (Bool-cases (member s.fresh (sentinel ∷ ns))) [
    | inl e ↦ absurd (omega (arith, h.low s.fresh e))
    | inr e ↦ e
  ]

  -- A node at the next address, under a new id, with links that put it into the ring.
  module _ (i v : ℕ) (new : IsNew s i) (pv nx : List (ℕ × ℕ)) (ms : List ℕ) (l1 : Sequence) where
    abbrev pub registered : LinkedList
    registered = record s {
      value = put s.fresh v s.value;
      prev = pv;
      next = nx;
      id = put s.fresh i s.id;
      fresh = suc s.fresh;
      nodes = put i s.fresh s.nodes;
    }

    new_apart : (j : ℕ) → member j s.free_ids ≡ true → (i == j) ≡ false
    new_apart j e = elim (Bool-cases (i == j)) [
      | inl same ↦
          let key : j ≡ i = ground arith in
          let clash : member i s.free_ids ≡ true = subst (λ y. member y s.free_ids ≡ true) key e in
          absurd (cc (sym new.not_free ∙ clash))
      | inr ne ↦ ne
    ]

    pub Holds-registered :
        IsRing registered ms
        → Entries registered.id registered.value registered.nodes ms l1
        → ((a : ℕ) → member a ms ≡ (member a ns || (s.fresh == a)))
        → Holds registered ms l1
    unfolding member
    Holds-registered ring entries members = record {
      ring = ring;
      entries = entries;
      only = λ j a e. elim (Bool-cases (i == j)) [
        | inl same ↦
            let here : s.fresh ≡ a = put-hit i j s.fresh s.nodes same e in
            let key : i ≡ j = ground arith in
            (
              subst (λ y. member y ms ≡ true) here (members s.fresh ∙ ground arith),
              subst (λ y. find y (put s.fresh i s.id) ≡ some j) here
                  (find-same s.fresh i s.id ∙ ap some key),
            )
        | inr ne ↦
            let old = h.only j a (put-miss i j s.fresh s.nodes ne e) in
            (
              members a ∙ rw old.0 refl,
              find-other s.fresh a i s.id (ground (arith, h.low a (ground (arith, old.0)))) old.1,
            )
      ];
      low = λ a e. elim (Bool-cases (s.fresh == a)) [
        | inl eq ↦ ground arith
        | inr ne ↦ omega (arith, h.low a (ground (arith, members a, e)))
      ];
      used = λ j a e. elim (Bool-cases (i == j)) [
        | inl same ↦
            let key : i ≡ j = ground arith in
            subst (λ y. (0 < y) × (y < s.next_id)) key (new.positive, new.below)
        | inr ne ↦ h.used j a (put-miss i j s.fresh s.nodes ne e)
      ];
      idle = λ j e.
          let facts = h.idle j e in
          (find-other i j s.fresh s.nodes (new_apart j e) facts.0, facts.1, facts.2);
      free_apart = h.free_apart;
      started = h.started;
    }
