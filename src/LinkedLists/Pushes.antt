-- ===== src/LinkedLists/Pushes.antt =====
-- `PushFront` and `PushBack`.
use async.Base.{
  ℕ, suc, ◌-◌, ◌^◌, ◌<◌, ◌≤◌, ◌≡◌, refl, sym, subst, ◌∙◌, false, List, [], ◌∷◌, ◌++◌, some, arith,
  Bool-cases, inl, inr,
}
use async.Base.Tables.{find, put, member}
use async.LinkedLists.{
  LinkedList, sentinel, new_id, new_node, insert_before, register, push_front, push_back,
}
use async.LinkedLists.Ring.{find-same, Linked-put_next, Linked-put_prev}
use async.LinkedLists.Steps.{IsRing, snoc, member-snoc, inserted, insert_front_lem, insert_back_lem}
use async.LinkedLists.Entries.{Sequence, has_id, Entries, Entries-new, Entries-snoc, Entries-has_id}
use async.LinkedLists.Holds.{Holds, IsNew, new_id-Holds, new_id-step, outside, Holds-registered}

-- Somewhere in memory, the list stands for the sequence.
abbrev pub StandsFor : LinkedList → Sequence → Type 0
StandsFor s l = (ns : List ℕ) × Holds s ns l

module _ (v : ℕ) (s : LinkedList) (ns : List ℕ) (l : Sequence) (h : Holds s ns l) (i : ℕ)
    (new : IsNew s i) where
  made : LinkedList
  unfolding new_node
  made = (new_node v i s).0

  out : member s.fresh (sentinel ∷ ns) ≡ false
  out = outside s ns l h

  made-IsRing : IsRing made ns
  unfolding made new_node member
  made-IsRing = (
    Linked-put_next s.next (put s.fresh 0 s.prev) s.fresh 0 sentinel ns sentinel out (
        Linked-put_prev s.next s.prev s.fresh 0 sentinel ns sentinel (ground (arith, out))
          (ground (arith, out)) h.ring.0),
    h.ring.1,
  )

  not_there : has_id i l ≡ false
  not_there = elim (Bool-cases (has_id i l)) [
    | inl e ↦
        let (x, f, m) = Entries-has_id s.id s.value s.nodes i ns l h.entries e in
        absurd (cc (sym new.unused ∙ f))
    | inr e ↦ e
  ]

  entries : Entries (put s.fresh i s.id) (put s.fresh v s.value) (put i s.fresh s.nodes) ns l
  unfolding member
  entries =
      Entries-new s.id s.value s.nodes s.fresh i v ns l (ground (arith, out)) new.unused h.entries

  front_linked :
      (linked : LinkedList) × (pos : ℕ) × (find sentinel made.next ≡ some pos)
      × (insert_before pos s.fresh made ≡ some linked)
      × StandsFor (register i s.fresh linked) ((i, v) ∷ l)
  unfolding made new_node register member
  front_linked =
      let (pos, e, f, ring) =
        insert_front_lem s.fresh ns made made-IsRing out (find-same s.fresh 0 s.prev)
          (find-same s.fresh 0 s.next) in
      (
        inserted pos s.fresh sentinel made,
        pos,
        e,
        f,
        (
          s.fresh ∷ ns,
          Holds-registered s ns l h i v new _ _ (s.fresh ∷ ns) ((i, v) ∷ l) ring
              (
                find-same s.fresh i s.id,
                find-same s.fresh v s.value,
                find-same i s.fresh s.nodes,
                entries,
              )
              (λ a. ground arith),
        ),
      )

  back_linked :
      (linked : LinkedList) × (insert_before sentinel s.fresh made ≡ some linked)
      × StandsFor (register i s.fresh linked) (l ++ ((i, v) ∷ []))
      × ((register i s.fresh linked).next_id ≡ s.next_id)
  unfolding made new_node register member
  back_linked =
      let (last, e, f, ring) =
        insert_back_lem s.fresh ns made made-IsRing out (find-same s.fresh 0 s.prev)
          (find-same s.fresh 0 s.next) in
      (
        inserted sentinel s.fresh last made,
        f,
        (
          snoc ns s.fresh,
          Holds-registered s ns l h i v new _ _ (snoc ns s.fresh) (l ++ ((i, v) ∷ [])) ring
              (Entries-snoc _ _ _ s.fresh i v ns l (find-same s.fresh i s.id)
                (find-same s.fresh v s.value) (find-same i s.fresh s.nodes) entries)
              (λ a. member-snoc s.fresh a ns),
        ),
        refl,
      )

module _ (v : ℕ) (s : LinkedList) (l : Sequence) (holds : StandsFor s l)
    (room : s.next_id < 2 ^ 32 - 1) where
  facts : Holds (new_id s).0 holds.0 l × IsNew (new_id s).0 (new_id s).1
  facts = new_id-Holds s holds.0 l holds.1 room

  pub push_front-StandsFor :
      (s1 : LinkedList) × (i : ℕ) × (push_front v s ≡ some (s1, i))
      × (has_id i l ≡ false)
      × (0 < i)
      × StandsFor s1 ((i, v) ∷ l)
  unfolding push_front made new_node
  push_front-StandsFor =
      let (linked, pos, e, f, k) =
        front_linked v (new_id s).0 holds.0 l facts.0 (new_id s).1 facts.1 in
      (
        register (new_id s).1 (new_id s).0.fresh linked,
        (new_id s).1,
        rw (e, f) refl,
        not_there v (new_id s).0 holds.0 l facts.0 (new_id s).1 facts.1,
        facts.1.positive,
        k,
      )

  pub push_back-StandsFor :
      (s1 : LinkedList) × (i : ℕ) × (push_back v s ≡ some (s1, i))
      × (has_id i l ≡ false)
      × (0 < i)
      × StandsFor s1 (l ++ ((i, v) ∷ []))
      × (s1.next_id ≤ suc s.next_id)
  unfolding push_back made new_node
  push_back-StandsFor =
      let (linked, f, k, kept) =
        back_linked v (new_id s).0 holds.0 l facts.0 (new_id s).1 facts.1 in
      (
        register (new_id s).1 (new_id s).0.fresh linked,
        (new_id s).1,
        rw f refl,
        not_there v (new_id s).0 holds.0 l facts.0 (new_id s).1 facts.1,
        facts.1.positive,
        k,
        subst (λ n. n ≤ suc s.next_id) (sym kept) (new_id-step s holds.0 l holds.1 room),
      )
