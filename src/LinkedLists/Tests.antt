-- ===== src/LinkedLists/Tests.antt =====
-- Runs on concrete lists, and the theorems there.
use async.Base.{ℕ, ◌≡◌, refl, [], ◌∷◌, Option, some, ◌>>=◌, arith}
use async.Base.Tables.{find, member}
use async.LinkedLists.{LinkedList, linked_list, push_front, push_back, pop_front, move_to_front}
use async.LinkedLists.Entries.{Sequence, value_of}
use async.LinkedLists.Pushes.{StandsFor}
use async.LinkedLists.Queries.{
  get_value, first_id, last_id, next_node, prev_node, size, clear, deep_copy_list,
}
use async.LinkedLists.Answers.{front_id, back_id, behind, ahead, answers_lem}
use async.LinkedLists.Refine.{move_front, apply, Promises, apply-StandsFor}
use async.LinkedLists.Copies.{NoneLeft, values, clear-deep_copy_list}

-- 9, then 7 in front of it, then 8 behind; the first one is taken, and the last one comes to the front.
abbrev run : Option (LinkedList × ℕ)
run = push_back 9 linked_list >>= (λ a. push_front 7 a.0 >>= (λ b.
    push_back 8 b.0
    >>= (λ c. pop_front c.0 >>= (λ d. move_to_front 3 d.0 >>= (λ s. some (s, d.1))))))

run_value : (run >>= (λ r. some r.1)) ≡ some 7
unfolding push_back push_front pop_front move_to_front
run_value = refl

run_first : (run >>= (λ r. first_id r.0)) ≡ some 3
unfolding push_back push_front pop_front move_to_front first_id
run_first = refl

run_next : (run >>= (λ r. next_node 3 r.0)) ≡ some 1
unfolding push_back push_front pop_front move_to_front next_node
run_next = refl

-- The id of the node that was taken is given out again.
run_reuse : (run >>= (λ r. push_back 5 r.0 >>= (λ p. some p.1))) ≡ some 2
unfolding push_back push_front pop_front move_to_front
run_reuse = refl

size_after : (run >>= (λ r. push_back 5 r.0 >>= (λ p. some (size p.0)))) ≡ some 3
unfolding push_back push_front pop_front move_to_front size
size_after = refl

-- Two nodes, at 2 and 3.
abbrev two : LinkedList
two = record {
  value = (1, 0) ∷ (2, 7) ∷ (3, 9) ∷ [];
  prev = (1, 3) ∷ (2, 1) ∷ (3, 2) ∷ [];
  next = (1, 2) ∷ (2, 3) ∷ (3, 1) ∷ [];
  id = (1, 0) ∷ (2, 1) ∷ (3, 2) ∷ [];
  fresh = 4;
  next_id = 3;
  free_ids = [];
  nodes = (1, 2) ∷ (2, 3) ∷ [];
}

abbrev two_entries : Sequence
two_entries = (1, 7) ∷ (2, 9) ∷ []

two-pushed : push_back 7 linked_list >>= (λ a. push_back 9 a.0 >>= (λ b. some b.0)) ≡ some two
unfolding push_back
two-pushed = refl

two-StandsFor : StandsFor two two_entries
unfolding find member
two-StandsFor = (
  2 ∷ 3 ∷ [],
  record {
    ring = ((refl, refl, (refl, refl, (refl, refl))), (refl, (refl, (refl, tt))));
    entries = (refl, refl, refl, (refl, refl, refl, tt));
    only = λ i a e. ground arith;
    low = λ a e. ground arith;
    used = λ i a e. ground arith;
    idle = λ i e. cc e;
    free_apart = tt;
    started = omega arith;
  },
)

apply-StandsFor_example :
    (s1 : LinkedList) × (r : ℕ) × (l1 : Sequence) × (apply (move_front 2) two ≡ some (s1, r))
    × Promises (move_front 2) two_entries l1 r
    × StandsFor s1 l1
apply-StandsFor_example = apply-StandsFor (move_front 2) two two_entries two-StandsFor (omega arith)

answers_example :
    (get_value 2 two ≡ some (value_of 2 two_entries))
    × (first_id two ≡ some (front_id two_entries))
    × (last_id two ≡ some (back_id 0 two_entries))
    × (next_node 2 two ≡ some (behind 2 two_entries))
    × (prev_node 2 two ≡ some (ahead 0 2 two_entries))
answers_example = answers_lem 2 two two_entries two-StandsFor

clear-deep_copy_list_example :
    ((s1 : LinkedList) × (clear two ≡ some s1)
      × StandsFor s1 []
      × ((i : ℕ) → NoneLeft s1 (find i two.nodes)))
    × ((c : LinkedList) × (m : Sequence) × (deep_copy_list two ≡ some c)
        × StandsFor c m
        × (values m ≡ values two_entries))
clear-deep_copy_list_example = clear-deep_copy_list two two_entries two-StandsFor (omega arith)
