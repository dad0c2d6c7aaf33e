-- ===== src/Queue.antt =====
-- queue/priority_queue.go and queue/priority_queue_heap.go: a priority queue over Go's
-- container/heap. A queue holds pointers to its elements. The fields of an element that never
-- change stand in `Element`, beside its address; the two fields that the heap writes, `index` and
-- `heap`, are kept by address, so that a caller's pointer sees the writes. `heap a` says that the
-- field `heap` of the element at `a` is this heap. The package variable `sequence` and the address
-- that an allocation returns are arguments of `push`.
pub mod Order
pub mod Array
pub mod Sift
pub mod Indexed
pub mod Cut
pub mod Taking
pub mod Laws
pub mod Tests
use go_fw.Prelude.{
  ℕ, zero, suc, ◌+◌, ◌-◌, ◌*◌, ◌/◌, ◌%◌, ◌^◌, Bool, true, false, ◌&&◌, not, Option, none, some,
  List, [], ◌∷◌, ◌++◌, ltb, leb, ◌==◌, if◌then◌else◌, length, get_elem?, set, take, update,
}
use go_fw.Prelude.Int.{ℤ, pos, negsuc, ltb_ℤ, eqb_ℤ}

pub record Element (V : Type 0) : Type 0 where
  pub address : ℕ
  pub value : V
  pub priority : ℤ
  pub seq : ℕ

pub record Heap (V : Type 0) : Type 0 where
  pub elements : List (Element V)
  pub index : ℕ → ℤ
  pub heap : ℕ → Bool

module _ {V : Type 0} where
  unfoldable pub before : Element V → Element V → Bool
  before x y =
      if not (eqb_ℤ x.priority y.priority) then ltb_ℤ x.priority y.priority else ltb x.seq y.seq

  -- An index out of range panics in Go; here it reads as an entry after all others. The loops
  -- below stay in range.
  pub entry_before : Option (Element V) → Option (Element V) → Bool
  entry_before (some x) (some y) = before x y
  entry_before (some x) none = true
  entry_before none y = false

  unfoldable pub less : Heap V → ℕ → ℕ → Bool
  unfolding entry_before
  less h i j = entry_before (get_elem? h.elements i) (get_elem? h.elements j)

  pub swap_entries : Heap V → ℕ → ℕ → Option (Element V) → Option (Element V) → Heap V
  swap_entries h i j (some x) (some y) = record {
    elements = set (set h.elements i y) j x;
    index = update (update h.index y.address (pos i)) x.address (pos j);
    heap = h.heap;
  }
  swap_entries h i j (some x) none = h
  swap_entries h i j none y = h

  unfoldable pub swap : Heap V → ℕ → ℕ → Heap V
  unfolding swap_entries
  swap h i j = swap_entries h i j (get_elem? h.elements i) (get_elem? h.elements j)

  pub heap_append : Heap V → Element V → Heap V
  heap_append h e = record {
    elements = h.elements ++ e ∷ [];
    index = update h.index e.address (pos (length h.elements));
    heap = update h.heap e.address true;
  }

  pub cut_at : Heap V → ℕ → Option (Element V) → Option (Element V × Heap V)
  cut_at h n none = none
  cut_at h n (some x) = some (
    x,
    record {
      elements = take n h.elements;
      index = update h.index x.address (negsuc 0);
      heap = update h.heap x.address false;
    },
  )

  -- `none` is the panic on an empty heap.
  pub heap_cut : Heap V → Option (Element V × Heap V)
  unfolding cut_at
  heap_cut h = cut_at h (length h.elements - 1) (get_elem? h.elements (length h.elements - 1))

  unfoldable pub peek : Heap V → Option (Element V)
  peek h = get_elem? h.elements 0

  -- container/heap. The index halves in each round of `up`, and grows in each round of `down`.
  unfoldable pub up : ℕ → Heap V → ℕ → Heap V
  unfolding less swap
  up zero h j = h
  up (suc fuel) h j =
      let i = (j - 1) / 2 in
      let rest = up fuel (swap h i j) i in
      if i == j then h else if not (less h j i) then h else rest

  abbrev pub smaller_child : Heap V → ℕ → ℕ → ℕ
  smaller_child h i n = let j = 2 * i + 1 in if ltb (j + 1) n && less h (j + 1) j then j + 1 else j

  unfoldable pub down_loop : ℕ → Heap V → ℕ → ℕ → Heap V × ℕ
  unfolding less swap
  down_loop zero h i n = (h, i)
  down_loop (suc fuel) h i n =
      let j = smaller_child h i n in
      let rest = down_loop fuel (swap h i j) j n in
      if leb n (2 * i + 1) then (h, i) else if not (less h j i) then (h, i) else rest

  unfoldable pub down : Heap V → ℕ → ℕ → Heap V × Bool
  unfolding down_loop
  down h i n = let (h', i') = down_loop (suc n) h i n in (h', ltb i i')

  unfoldable pub heap_push : Heap V → Element V → Heap V
  unfolding heap_append up
  heap_push h e = let h' = heap_append h e in up (length h'.elements) h' (length h'.elements - 1)

  unfoldable pub heap_pop : Heap V → Option (Element V × Heap V)
  unfolding heap_cut swap down
  heap_pop h = let n = length h.elements - 1 in heap_cut (down (swap h 0 n) 0 n).0

  -- The part of `Remove` before its last call.
  unfoldable pub sink : Heap V → ℕ → Heap V
  unfolding swap down up
  sink h i =
      let n = length h.elements - 1 in
      let (h', moved) = down (swap h i n) i n in
      if n == i then h else if moved then h' else up (suc i) h' i

  unfoldable pub heap_remove : Heap V → ℕ → Option (Element V × Heap V)
  unfolding heap_cut sink
  heap_remove h i = heap_cut (sink h i)

  unfoldable pub new_priority_queue : Heap V
  new_priority_queue = record { elements = []; index = λ _. pos 0; heap = λ _. false }

  -- The result holds the new value of `sequence`, a uint64.
  unfoldable pub push : Heap V → ℕ → ℕ → V → ℤ → Heap V × Element V × ℕ
  unfolding heap_push
  push h address sequence x priority =
      let sequence' = (sequence + 1) % 2 ^ 64 in
      let item : Element V = record {
        address = address;
        value = x;
        priority = priority;
        seq = sequence';
      } in
      (heap_push h item, item, sequence')

  unfoldable pub pop : Heap V → Option (Element V × Heap V)
  unfolding heap_pop
  pop h = heap_pop h

  abbrev pub and_true : Option (Element V × Heap V) → Option (Heap V × Bool)
  and_true none = none
  and_true (some (_, h)) = some (h, true)

  abbrev pub remove_at : Heap V → ℤ → Option (Heap V × Bool)
  remove_at h (negsuc _) = some (h, false)
  remove_at h (pos i) = and_true (heap_remove h i)

  -- `none` is the panic on an index out of range.
  unfoldable pub remove : Heap V → Element V → Option (Heap V × Bool)
  unfolding heap_remove
  remove h item =
      if not (h.heap item.address) then some (h, false) else remove_at h (h.index item.address)

  unfoldable pub len : Heap V → ℕ
  len h = length h.elements
