-- ===== src/LinkedLists/Refine.antt =====
-- Every operation that changes a list does what it promises to the sequence that the list stands for.
use async.Base.{ℕ, ◌-◌, ◌^◌, ◌<◌, ◌≡◌, refl, false, [], ◌∷◌, ◌++◌, Option, some, ◌>>=◌}
use async.LinkedLists.{
  LinkedList, push_front, push_back, pop_front, pop_back, remove_node, move_to_front, move_to_back,
}
use async.LinkedLists.Queries.{set_value}
use async.LinkedLists.Entries.{Sequence, value_of, has_id, without}
use async.LinkedLists.Pushes.{StandsFor, push_front-StandsFor, push_back-StandsFor}
use async.LinkedLists.Removes.{remove_node-StandsFor}
use async.LinkedLists.Pops.{front_popped, back_popped, pop_front-StandsFor, pop_back-StandsFor}
use async.LinkedLists.Moves.{
  moved_front, moved_back, move_to_front-StandsFor, move_to_back-StandsFor,
}
use async.LinkedLists.Answers.{with_value, set_value-StandsFor}

-- The calls of a client.
pub data Operation : Type 0 where
  to_front to_back : (v : ℕ) → Operation
  from_front from_back : Operation
  take_out move_front move_back : (i : ℕ) → Operation
  assign : (i v : ℕ) → Operation

abbrev with_zero : Option LinkedList → Option (LinkedList × ℕ)
with_zero o = o >>= (λ s. some (s, 0))

-- The list afterwards, and what the call returns, 0 for nothing.
unfoldable pub apply : Operation → LinkedList → Option (LinkedList × ℕ)
unfolding push_front push_back pop_front pop_back remove_node move_to_front move_to_back set_value
apply (to_front v) s = push_front v s
apply (to_back v) s = push_back v s
apply from_front s = pop_front s
apply from_back s = pop_back s
apply (take_out i) s = remove_node i s
apply (move_front i) s = with_zero (move_to_front i s)
apply (move_back i) s = with_zero (move_to_back i s)
apply (assign i v) s = with_zero (set_value i v s)

-- What a call may do to the sequence `l`: it becomes `l1`, and the result is `r`. A new entry has an id
-- of its own.
unfoldable pub Promises : Operation → Sequence → (l1 : Sequence) → (r : ℕ) → Type 0
Promises (to_front v) l l1 r = (has_id r l ≡ false) × (0 < r) × (l1 ≡ (r, v) ∷ l)
Promises (to_back v) l l1 r = (has_id r l ≡ false) × (0 < r) × (l1 ≡ l ++ ((r, v) ∷ []))
Promises from_front l l1 r = (l1 ≡ (front_popped l).0) × (r ≡ (front_popped l).1)
Promises from_back l l1 r = (l1 ≡ (back_popped l).0) × (r ≡ (back_popped l).1)
Promises (take_out i) l l1 r = (l1 ≡ without i l) × (r ≡ value_of i l)
Promises (move_front i) l l1 r = (l1 ≡ moved_front i l) × (r ≡ 0)
Promises (move_back i) l l1 r = (l1 ≡ moved_back i l) × (r ≡ 0)
Promises (assign i v) l l1 r = (l1 ≡ with_value i v l) × (r ≡ 0)

-- A list that stands for a sequence, with ids left to give out, goes through every call without
-- reading or writing a node that is not there; it stands for a sequence again, which is the one that
-- the call promises, with the promised result.
pub apply-StandsFor :
    (op : Operation) (s : LinkedList) (l : Sequence)
    → StandsFor s l
    → s.next_id < 2 ^ 32 - 1
    → (s1 : LinkedList) × (r : ℕ) × (l1 : Sequence) × (apply op s ≡ some (s1, r))
      × Promises op l l1 r
      × StandsFor s1 l1
unfolding apply Promises
apply-StandsFor (to_front v) s l h room =
    let (s1, i, e, out, pos, k) = push_front-StandsFor v s l h room in
    (s1, i, (i, v) ∷ l, e, (out, pos, refl), k)
apply-StandsFor (to_back v) s l h room =
    let (s1, i, e, out, pos, k, step) = push_back-StandsFor v s l h room in
    (s1, i, l ++ ((i, v) ∷ []), e, (out, pos, refl), k)
apply-StandsFor from_front s l h room =
    let (s1, e, k) = pop_front-StandsFor s l h in
    (s1, (front_popped l).1, (front_popped l).0, e, (refl, refl), k)
apply-StandsFor from_back s l h room =
    let (s1, e, k) = pop_back-StandsFor s l h in
    (s1, (back_popped l).1, (back_popped l).0, e, (refl, refl), k)
apply-StandsFor (take_out i) s l h room =
    let (s1, e, k) = remove_node-StandsFor i s l h in
    (s1, value_of i l, without i l, e, (refl, refl), k)
apply-StandsFor (move_front i) s l h room =
    let (s1, e, k) = move_to_front-StandsFor i s l h in
    (s1, 0, moved_front i l, rw e refl, (refl, refl), k)
apply-StandsFor (move_back i) s l h room =
    let (s1, e, k) = move_to_back-StandsFor i s l h in
    (s1, 0, moved_back i l, rw e refl, (refl, refl), k)
apply-StandsFor (assign i v) s l h room =
    let (s1, e, k) = set_value-StandsFor i v s l h in
    (s1, 0, with_value i v l, rw e refl, (refl, refl), k)
