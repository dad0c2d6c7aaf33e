-- ===== src/Queue/Tests.antt =====
-- Runs of the priority queue, and the theorems at concrete queues.
use go_fw.Prelude.{
  ℕ, ◌+◌, ◌%◌, ◌^◌, ◌<◌, ◌≡◌, refl, true, false, none, some, List, [], ◌∷◌, map, Perm, arith,
}
use go_fw.Prelude.Int.{pos, negsuc}
use go_fw.Queue.{Element, Heap, before, push, pop, peek, remove, new_priority_queue}
use go_fw.Queue.Array.{at, size}
use go_fw.Queue.Cut.{IsValid}
use go_fw.Queue.Taking.{Taken}
use go_fw.Queue.Laws.{new_priority_queue-IsValid, push_correct, pop_correct, remove_correct}

abbrev one : Heap ℕ
one = (push new_priority_queue 0 0 10 (pos 5)).0

abbrev two : Heap ℕ
two = (push one 1 1 20 (negsuc 2)).0

abbrev three : Heap ℕ
three = (push two 2 2 30 (pos 5)).0

first_two : map (λ x. x.value) three.elements ≡ 20 ∷ 10 ∷ 30 ∷ []
unfolding push new_priority_queue before
first_two = refl

drained : Heap ℕ → List ℕ
drained h = elim (pop h) [
  | none ↦ []
  | some (x, g) ↦ x.value ∷ (elim (pop g) [ none ↦ [] | some (y, _) ↦ y.value ∷ [] ])
]

pop_runs : drained three ≡ 20 ∷ 10 ∷ []
unfolding push pop new_priority_queue before drained
pop_runs = refl

empty_fresh : (a : ℕ) → (new_priority_queue {V = ℕ}).heap a ≡ false
unfolding new_priority_queue
empty_fresh a = refl

one-IsValid : IsValid one
one-IsValid =
    (push_correct new_priority_queue 0 0 10 (pos 5) new_priority_queue-IsValid (empty_fresh 0)).0

one_fresh : one.heap 1 ≡ false
unfolding push new_priority_queue
one_fresh = refl

two-IsValid : IsValid two
two-IsValid = (push_correct one 1 1 20 (negsuc 2) one-IsValid one_fresh).0

two-size : 0 < size two
unfolding push new_priority_queue before
two-size = omega arith

push_correct_example :
    IsValid two
    × Perm two.elements ((push one 1 1 20 (negsuc 2)).1 ∷ one.elements)
    × (two.heap 1 ≡ true)
    × ((push one 1 1 20 (negsuc 2)).1
        ≡ record { address = 1; value = 20; priority = negsuc 2; seq = (1 + 1) % 2 ^ 64 })
    × ((push one 1 1 20 (negsuc 2)).2 ≡ (push one 1 1 20 (negsuc 2)).1.seq)
push_correct_example = push_correct one 1 1 20 (negsuc 2) one-IsValid one_fresh

pop_correct_example :
    (e : Element ℕ) × (g : Heap ℕ) × (pop two ≡ some (e, g))
    × (peek two ≡ some e)
    × Taken two e g
    × ((i : ℕ) (x : Element ℕ) → at two i ≡ some x → before x e ≡ false)
pop_correct_example = pop_correct two two-IsValid two-size

abbrev first_item : Element ℕ
first_item = (push new_priority_queue 0 0 10 (pos 5)).1

held : two.heap first_item.address ≡ true
unfolding push new_priority_queue before
held = refl

remove_correct_example :
    (e : Element ℕ) × (g : Heap ℕ) × (remove two first_item ≡ some (g, true))
    × (e.address ≡ first_item.address)
    × Taken two e g
remove_correct_example = remove_correct two first_item two-IsValid held
