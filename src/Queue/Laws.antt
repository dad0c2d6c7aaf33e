-- ===== src/Queue/Laws.antt =====
-- What the operations of the priority queue do.
use mathlib.Core.List.Perm
use go_fw.Prelude.{
  ℕ, suc, ◌+◌, ◌-◌, ◌∙◌, ap, ◌%◌, ◌^◌, ◌<◌, ◌≡◌, refl, true, false, Bool, Perm, ◌∷◌, some, none,
  arith,
}
use go_fw.Prelude.Int.{ℤ}
use go_fw.Queue.{
  Element, Heap, before, entry_before, swap_entries, cut_at, heap_append, heap_push, push, pop,
  peek, remove, new_priority_queue,
}
use go_fw.Queue.Order.{root_least}
use go_fw.Queue.Array.{at, size, get_elem?-lt, at_empty, lt_of_get_elem?}
use go_fw.Queue.Sift.{up_restores}
use go_fw.Queue.Cut.{
  IsValid, size-append, append-perm, append-owned, append-IsIndexed, append-UpInv,
}
use go_fw.Queue.Taking.{Taken, pop_root, remove_place}

module _ {V : Type 0} where
  -- The empty queue is valid.
  pub new_priority_queue-IsValid : IsValid (new_priority_queue {V = V})
  unfolding new_priority_queue
  new_priority_queue-IsValid = record {
    ordered = λ c p q. absurd (omega arith);
    indexed = record { placed = λ i e q. absurd cc; found = λ a q. absurd cc };
  }

  heap_push_correct :
      (h : Heap V) (e : Element V)
      → IsValid h
      → h.heap e.address ≡ false
      → IsValid (heap_push h e)
        × Perm (heap_push h e).elements (e ∷ h.elements)
        × ((heap_push h e).heap e.address ≡ true)
  unfolding heap_push
  heap_push_correct h e v fresh =
      let h' = heap_append h e in
      let z : size h' ≡ suc (size h) = size-append h e in
      let z' : size h' - 1 ≡ size h = omega (arith, z) in
      let s =
        up_restores (size h') (size h') h' (size h' - 1) (omega arith) (omega arith)
          (rw (z', z) (append-UpInv h e v.ordered)) in
      (
        record {
          ordered = rw s.1.sized s.0;
          indexed = s.1.indexed (append-IsIndexed h e v.indexed fresh);
        },
        Perm.trans s.1.same (append-perm h e),
        ap (λ (f : ℕ → Bool). f e.address) s.1.owner ∙ append-owned h e,
      )

  -- Push of an element at an address that the heap does not own keeps the heap valid, adds exactly
  -- that element, which the heap then owns, and returns it, with the next sequence number.
  pub push_correct :
      (h : Heap V) (address sequence : ℕ) (x : V) (priority : ℤ)
      → IsValid h
      → h.heap address ≡ false
      → let r = push h address sequence x priority in
        IsValid r.0
        × Perm r.0.elements (r.1 ∷ h.elements)
        × (r.0.heap address ≡ true)
        × (r.1 ≡ record {
          address = address;
          value = x;
          priority = priority;
          seq = (sequence + 1) % 2 ^ 64;
        })
        × (r.2 ≡ r.1.seq)
  unfolding push
  push_correct h address sequence x priority v fresh =
      let e : Element V = record {
        address = address;
        value = x;
        priority = priority;
        seq = (sequence + 1) % 2 ^ 64;
      } in
      let (valid, same, owned) = heap_push_correct h e v fresh in (valid, same, owned, refl, refl)

  root_before :
      (h : Heap V)
      → IsValid h
      → (e : Element V) → at h 0 ≡ some e
      → (i : ℕ) (x : Element V) → at h i ≡ some x
      → before x e ≡ false
  unfolding entry_before
  root_before h v e root i x here =
      let least = root_least (size h) (at h) i v.ordered (lt_of_get_elem? h.elements i x here) in
      ground arith

  -- `Pop` takes out an element that no other one precedes: by priority, and by the order of
  -- insertion between equal priorities. `Peek` shows that element before.
  pub pop_correct :
      (h : Heap V)
      → IsValid h
      → 0 < size h
      → (e : Element V) × (g : Heap V) × (pop h ≡ some (e, g))
        × (peek h ≡ some e)
        × Taken h e g
        × ((i : ℕ) (x : Element V) → at h i ≡ some x → before x e ≡ false)
  unfolding peek
  pop_correct h v p =
      let (e, root) = get_elem?-lt h.elements 0 p in
      let (g, q, t) = pop_root h v (size h - 1) (omega arith) e root in
      (e, g, q, root, t, λ i x s. root_before h v e root i x s)

  -- `Pop` on an empty queue panics.
  pub pop_empty : (h : Heap V) → size h ≡ 0 → pop h ≡ none
  unfolding pop
  pop_empty h z =
      let nothing : (k : ℕ) → at h k ≡ none = λ k. at_empty h.elements k z in
      rw (z, nothing 0, swap_entries, cut_at) (rw (z, nothing 0))

  -- `Remove` takes out the element at the address it is given, and nothing else.
  pub remove_correct :
      (h : Heap V) (item : Element V)
      → IsValid h
      → h.heap item.address ≡ true
      → (e : Element V) × (g : Heap V) × (remove h item ≡ some (g, true))
        × (e.address ≡ item.address)
        × Taken h e g
  unfolding remove
  remove_correct h item v owned =
      let (i, e, placed, here, same) = v.indexed.found item.address owned in
      let inside = lt_of_get_elem? h.elements i e here in
      let (g, q, t) = remove_place h v (size h - 1) (omega arith) i e here in
      (e, g, rw (owned, placed, q), same, t)

  -- An element that was removed, or that is another queue's, is refused, and the queue stays.
  pub remove_absent :
      (h : Heap V) (item : Element V)
      → h.heap item.address ≡ false
      → remove h item ≡ some (h, false)
  unfolding remove
  remove_absent h item e = rw e
