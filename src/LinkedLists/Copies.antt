-- ===== src/LinkedLists/Copies.antt =====
-- `Clear` and `DeepCopy`.
use async.Base.{
  ℕ, zero, suc, ◌+◌, ◌-◌, ◌^◌, ◌<◌, ◌≤◌, ◌≡◌, refl, sym, ap, subst, ◌∙◌, false, List, [], ◌∷◌, ◌++◌,
  append_assoc, append-nil, Option, none, some, true, ◌==◌, arith, length, Bool-cases, inl, inr,
}
use async.Base.Tables.{find, put, erase, member, find-erase, find-put}
use async.LinkedLists.{LinkedList, sentinel, linked_list, delete}
use async.LinkedLists.Ring.{Linked, Apart, find-same, some-injective}
use async.LinkedLists.Steps.{store-found, first_of, last_of}
use async.LinkedLists.Entries.{Sequence, Entries, find-erased, Entries-erase}
use async.LinkedLists.Holds.{linked_list-Holds}
use async.LinkedLists.Pushes.{StandsFor, push_back-StandsFor}
use async.LinkedLists.Queries.{delete_all, clear, copy_all, deep_copy_list}

-- A key that is there makes the table longer than without it.
erase-short : (k : ℕ) (t : List (ℕ × ℕ)) → length (erase k t) ≤ length t
unfolding erase
erase-short k [] = omega arith
erase-short k ((j, w) ∷ t) = ground (arith, erase-short k t)

erase-shorter :
    (k : ℕ) (t : List (ℕ × ℕ)) {a : ℕ} → find k t ≡ some a → length (erase k t) < length t
unfolding erase find
erase-shorter k [] e = cc e
erase-shorter k ((j, w) ∷ t) e = elim (Bool-cases (j == k)) [
  | inl same ↦ rw same (omega (arith, erase-short k t))
  | inr ne ↦ rw ne (omega (arith, erase-shorter k t (rw ne at e)))
]

-- There are no more nodes than ids in `nodes_`.
nodes-enough :
    (it vt nt : List (ℕ × ℕ)) (ns : List ℕ) (l : Sequence)
    → Apart ns
    → Entries it vt nt ns l
    → length ns ≤ length nt
nodes-enough it vt nt [] l apart h = omega arith
nodes-enough it vt nt (a ∷ ns) [] apart h = elim h [ ]
nodes-enough it vt nt (a ∷ ns) ((i, v) ∷ l) apart h =
    let fewer =
      nodes-enough (erase a it) (erase a vt) (erase i nt) ns l apart.1
        (Entries-erase it vt nt a i ns l apart.0 h.2 h.3) in
    omega (arith, fewer, erase-shorter i nt h.2)

-- No field of a node is in memory.
abbrev pub IsGone : LinkedList → ℕ → Type 0
IsGone s a =
    (find a s.value ≡ none) × (find a s.prev ≡ none) × (find a s.next ≡ none) × (find a s.id ≡ none)

abbrev pub NoneLeft : LinkedList → Option ℕ → Type 0
NoneLeft s none = Unit
NoneLeft s (some a) = IsGone s a

erase-gone : (k x : ℕ) (t : List (ℕ × ℕ)) → find x t ≡ none → find x (erase k t) ≡ none
erase-gone k x t e = find-erase k x t ∙ ground arith

erase-itself : (k : ℕ) (t : List (ℕ × ℕ)) → find k (erase k t) ≡ none
erase-itself k t = find-erase k k t ∙ ground arith

delete-IsGone : (a x : ℕ) (s : LinkedList) → IsGone s x → IsGone (delete a s) x
unfolding delete
delete-IsGone a x s h = (
  erase-gone a x s.value h.0,
  erase-gone a x s.prev h.1,
  erase-gone a x s.next h.2,
  erase-gone a x s.id h.3,
)

delete-itself : (a : ℕ) (s : LinkedList) → IsGone (delete a s) a
unfolding delete
delete-itself a s =
    (erase-itself a s.value, erase-itself a s.prev, erase-itself a s.next, erase-itself a s.id)

-- What the loop of `Clear` does to the nodes, and what it leaves alone.
record IsBare (ns : List ℕ) (s s1 : LinkedList) : Type 0 where
  pub gone : (x : ℕ) → member x ns ≡ true → IsGone s1 x
  pub stays_gone : (x : ℕ) → IsGone s x → IsGone s1 x
  pub next_there : (u : ℕ) × (find sentinel s1.next ≡ some u)
  pub prev_there : (u : ℕ) × (find sentinel s1.prev ≡ some u)
  pub same_fresh : s1.fresh ≡ s.fresh
  pub same_id : s1.next_id ≡ s.next_id

-- The pointers `next`, from a node over the list to the sentinel.
abbrev Chain : (next : List (ℕ × ℕ)) → (node : ℕ) → List ℕ → Type 0
Chain nx node [] = node ≡ sentinel
Chain nx node (a ∷ ns) = (node ≡ a) × ((right : ℕ) × (find a nx ≡ some right) × Chain nx right ns)

Linked-Chain :
    (nx pv : List (ℕ × ℕ)) (p : ℕ) (ns : List ℕ) (node : ℕ)
    → Linked nx pv p ns sentinel
    → find p nx ≡ some node
    → Chain nx node ns
Linked-Chain nx pv p [] node h e = some-injective (sym e ∙ h.0)
Linked-Chain nx pv p (a ∷ ns) node h e =
    let (right, f, g, m) = first_of nx pv a ns sentinel h.2 in
    (some-injective (sym e ∙ h.0), (right, f, Linked-Chain nx pv a ns right h.2 f))

Chain-erase :
    (nx : List (ℕ × ℕ)) (x node : ℕ) (ns : List ℕ)
    → member x ns ≡ false
    → Chain nx node ns
    → Chain (erase x nx) node ns
unfolding member
Chain-erase nx x node [] out h = h
Chain-erase nx x node (a ∷ ns) out (e, (right, f, k)) =
    (e, (right, find-erased x a nx (ground arith) f, Chain-erase nx x right ns (ground arith) k))

sentinel-other : (a : ℕ) (ns : List ℕ) → member sentinel (a ∷ ns) ≡ false → (a == sentinel) ≡ false
unfolding member
sentinel-other a ns h = ground arith

delete_all_lem :
    (fuel : ℕ) (ns : List ℕ) (s : LinkedList) (node u w : ℕ)
    → Chain s.next node ns
    → Apart ns
    → member sentinel ns ≡ false
    → length ns < fuel
    → find sentinel s.next ≡ some u
    → find sentinel s.prev ≡ some w
    → (s1 : LinkedList) × (delete_all fuel node s ≡ some s1) × IsBare ns s s1
unfolding delete_all delete member
delete_all_lem zero ns s node u w h apart out enough f g = absurd (omega arith)
delete_all_lem (suc fuel) [] s node u w h apart out enough f g = (
  s,
  subst (λ y. delete_all (suc fuel) y s ≡ some s) (sym h) refl,
  record {
    gone = λ x e. cc e;
    stays_gone = λ x g. g;
    next_there = (u, f);
    prev_there = (w, g);
    same_fresh = refl;
    same_id = refl;
  },
)
delete_all_lem (suc fuel) (a ∷ ns) s node u w (e, (right, k, h)) apart out enough f g =
    let ne = sentinel-other a ns out in
    let (s1, run, bare) =
      delete_all_lem fuel ns (delete a s) right u w (Chain-erase s.next a right ns apart.0 h)
        apart.1 (ground arith) (omega arith) (find-erased a sentinel s.next ne f)
        (find-erased a sentinel s.prev ne g) in
    (
      s1,
      subst (λ y. delete_all (suc fuel) y s ≡ some s1) (sym e) (rw (delete_all, ne, k) run),
      record {
        gone = λ x here. elim (Bool-cases (a == x)) [
          | inl y ↦
              let same : a ≡ x = ground arith in
              bare.stays_gone x (subst (λ z. IsGone (delete a s) z) same (delete-itself a s))
          | inr n ↦ bare.gone x (ground (arith, here, n))
        ];
        stays_gone = λ x g. bare.stays_gone x (delete-IsGone a x s g);
        next_there = bare.next_there;
        prev_there = bare.prev_there;
        same_fresh = bare.same_fresh;
        same_id = bare.same_id;
      },
    )

put_gone :
    (k x w : ℕ) (t : List (ℕ × ℕ)) → (k == x) ≡ false → find x t ≡ none → find x (put k w t) ≡ none
put_gone k x w t ne e = find-put k x w t ∙ rw ne e

sentinel_apart :
    (ns : List ℕ) (a : ℕ)
    → member sentinel ns ≡ false
    → member a ns ≡ true
    → (sentinel == a) ≡ false
unfolding member
sentinel_apart [] a out h = cc h
sentinel_apart (b ∷ ns) a out h = elim (Bool-cases (b == a)) [
  | inl y ↦ ground arith
  | inr n ↦ sentinel_apart ns a (ground arith) (ground arith)
]

-- `Clear` deletes every node and leaves the empty list.
clear_lem :
    (s : LinkedList) (l : Sequence)
    → StandsFor s l
    → (s1 : LinkedList) × (clear s ≡ some s1)
      × StandsFor s1 []
      × ((i : ℕ) → NoneLeft s1 (find i s.nodes))
unfolding clear find put member
clear_lem s l (ns, h) =
    let (node, e, f, m) = first_of s.next s.prev sentinel ns sentinel h.ring.0 in
    let (last, e1, f1, m1) = last_of s.next s.prev sentinel ns sentinel h.ring.0 in
    let room = nodes-enough s.id s.value s.nodes ns l h.ring.1.1 h.entries in
    let (bare, run, b) =
      delete_all_lem (suc (length s.nodes)) ns s node node last
        (Linked-Chain s.next s.prev sentinel ns node h.ring.0 e) h.ring.1.1 h.ring.1.0
        (omega (arith, room)) e e1 in
    let done : LinkedList = record bare {
      next = put sentinel sentinel bare.next;
      prev = put sentinel sentinel bare.prev;
      nodes = [];
      free_ids = [];
    } in
    (
      done,
      rw
          (
            e,
            run,
            store-found sentinel sentinel bare.next b.next_there.1,
            store-found sentinel sentinel bare.prev b.prev_there.1,
          )
          refl,
      (
        [],
        record {
          ring = (
            (find-same sentinel sentinel bare.next, find-same sentinel sentinel bare.prev),
            (refl, tt),
          );
          entries = tt;
          only = λ i a k. cc k;
          low = λ a k. subst (λ n. a < n) (sym b.same_fresh) (h.low a (ground arith));
          used = λ i a k. cc k;
          idle = λ i k. cc k;
          free_apart = tt;
          started = subst (λ n. 0 < n) (sym b.same_id) h.started;
        },
      ),
      (λ i. none_left done (find i s.nodes) (λ a k.
          let mine = (h.only i a k).0 in
          let other = sentinel_apart ns a h.ring.1.0 mine in
          let out = b.gone a mine in
          (
            out.0,
            put_gone sentinel a sentinel bare.prev other out.1,
            put_gone sentinel a sentinel bare.next other out.2,
            out.3,
          ))),
    )
  where
    none_left :
        (s1 : LinkedList) (o : Option ℕ) → ((a : ℕ) → o ≡ some a → IsGone s1 a) → NoneLeft s1 o
    none_left s1 none k = tt
    none_left s1 (some a) k = k a refl

-- The values in order, which are what a copy keeps; its ids are new.
unfoldable pub values : Sequence → List ℕ
values [] = []
values ((i, v) ∷ l) = v ∷ values l

values-append : (l m : Sequence) → values (l ++ m) ≡ values l ++ values m
unfolding values
values-append [] m = refl
values-append ((i, v) ∷ l) m = ap (λ t. v ∷ t) (values-append l m)

copy_all_lem :
    (fuel : ℕ) (ns : List ℕ) (l : Sequence) (s : LinkedList) (cur : ℕ) (copy : LinkedList)
    (m : Sequence)
    → Chain s.next cur ns
    → Entries s.id s.value s.nodes ns l
    → member sentinel ns ≡ false
    → length ns < fuel
    → StandsFor copy m
    → copy.next_id + length ns < 2 ^ 32 - 1
    → (c : LinkedList) × (k : Sequence) × (copy_all fuel cur s copy ≡ some c)
      × StandsFor c k
      × (values k ≡ values m ++ values l)
unfolding copy_all member values
copy_all_lem zero ns l s cur copy m h en out enough there room = absurd (omega arith)
copy_all_lem (suc fuel) [] [] s cur copy m h en out enough there room = (
  copy,
  m,
  subst (λ y. copy_all (suc fuel) y s copy ≡ some copy) (sym h) refl,
  there,
  sym (append-nil (values m)),
)
copy_all_lem (suc fuel) [] (p ∷ l) s cur copy m h en out enough there room = elim en [ ]
copy_all_lem (suc fuel) (a ∷ ns) [] s cur copy m h en out enough there room = elim en [ ]
copy_all_lem (suc fuel) (a ∷ ns) ((j, v) ∷ l) s cur copy m (e, (right, f, h)) en out enough there
      room =
    let (c1, i, pushed, new, pos, there1, step) =
      push_back-StandsFor v copy m there (omega (arith, room)) in
    let (c, k, run, there2, same) =
      copy_all_lem fuel ns l s right c1 (m ++ ((i, v) ∷ [])) h en.3 (ground arith) (omega arith)
        there1 (omega (arith, step, room)) in
    (
      c,
      k,
      subst (λ y. copy_all (suc fuel) y s copy ≡ some c) (sym e)
          (rw (copy_all, sentinel-other a ns out, en.1, pushed, f) run),
      there2,
      same
          ∙ ap (λ t. t ++ values l) (values-append m ((i, v) ∷ []))
          ∙ append_assoc (values m) (v ∷ []) (values l),
    )

-- `Clear` gives the empty list and leaves no node of the old one in memory, under whatever id it was;
-- `DeepCopy` gives a list with the same values in the same order, where there are ids enough. Both come
-- to an end.
pub clear-deep_copy_list :
    (s : LinkedList) (l : Sequence)
    → StandsFor s l
    → length s.nodes < 2 ^ 32 - 2
    → ((s1 : LinkedList) × (clear s ≡ some s1)
        × StandsFor s1 []
        × ((i : ℕ) → NoneLeft s1 (find i s.nodes)))
      × ((c : LinkedList) × (m : Sequence) × (deep_copy_list s ≡ some c)
          × StandsFor c m
          × (values m ≡ values l))
unfolding deep_copy_list values
clear-deep_copy_list s l (ns, h) few =
    let (node, e, f, m) = first_of s.next s.prev sentinel ns sentinel h.ring.0 in
    let room = nodes-enough s.id s.value s.nodes ns l h.ring.1.1 h.entries in
    let (c, k, run, there, same) =
      copy_all_lem (suc (length s.nodes)) ns l s node linked_list []
        (Linked-Chain s.next s.prev sentinel ns node h.ring.0 e) h.entries h.ring.1.0
        (omega (arith, room)) ([], linked_list-Holds) (omega (arith, room, few)) in
    (clear_lem s l (ns, h), (c, k, rw e run, there, same))
