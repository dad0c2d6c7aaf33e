-- ===== src/Queue/Indexed.antt =====
-- The fields `index` and `heap` of the elements, and what the moves of a heap keep.
use mathlib.Core.List.Perm
use go_fw.Prelude.{ℕ, ◌<◌, ◌≤◌, ◌≡◌, refl, ◌∙◌, true, Perm, some, arith, ◌==◌, if◌then◌else◌}
use go_fw.Prelude.Int.{pos}
use go_fw.Queue.{Element, Heap, swap, swap_entries}
use go_fw.Queue.Array.{
  at, size, get_elem?-lt, lt_of_get_elem?, size-swap, at-swap, swap_lem, swap-perm,
}

module _ {V : Type 0} where
  -- Each element of the heap knows its place, and only those belong to the heap.
  pub record IsIndexed (h : Heap V) : Type 0 where
    pub placed :
        (i : ℕ) (e : Element V)
        → at h i ≡ some e
        → (h.index e.address ≡ pos i) × (h.heap e.address ≡ true)
    pub found :
        (a : ℕ)
        → h.heap a ≡ true
        → (i : ℕ) × (e : Element V) × (h.index a ≡ pos i) × (at h i ≡ some e) × (e.address ≡ a)

  module _ (h : Heap V) (v : IsIndexed h) (i j : ℕ) (x y : Element V) (ex : at h i ≡ some x)
      (ey : at h j ≡ some y) where
    swap-placed :
        (k : ℕ) (e : Element V)
        → at (swap h i j) k ≡ some e
        → ((swap h i j).index e.address ≡ pos k) × ((swap h i j).heap e.address ≡ true)
    swap-placed k e q =
        let pi = lt_of_get_elem? h.elements i x ex in
        let pj = lt_of_get_elem? h.elements j y ey in
        rw (swap_lem h i j x y ex ey) (
          unfold swap_entries in
          ground (arith, at-swap h i j pi pj k, v.placed i x, v.placed j y, v.placed k e))

    swap-moved :
        (a k : ℕ) (e : Element V)
        → h.index a ≡ pos k
        → at h k ≡ some e
        → e.address ≡ a
        → (k' : ℕ) × (e : Element V) × ((swap h i j).index a ≡ pos k')
          × (at (swap h i j) k' ≡ some e)
          × (e.address ≡ a)
    swap-moved a k e r s t =
        let pi = lt_of_get_elem? h.elements i x ex in
        let pj = lt_of_get_elem? h.elements j y ey in
        let k' = if k == i then j else if k == j then i else k in
        (
          k',
          e,
          rw (swap_lem h i j x y ex ey)
              (unfold swap_entries in ground (arith, v.placed i x, v.placed j y, v.placed k e)),
          ground (arith, at-swap h i j pi pj k'),
          t,
        )

    swap-found :
        (a : ℕ)
        → (swap h i j).heap a ≡ true
        → (k : ℕ) × (e : Element V) × ((swap h i j).index a ≡ pos k)
          × (at (swap h i j) k ≡ some e)
          × (e.address ≡ a)
    unfolding swap_entries
    swap-found a q =
        let (k, e, r, s, t) = v.found a (rw (swap_lem h i j x y ex ey) at q) in
        swap-moved a k e r s t

    pub swap-IsIndexed : IsIndexed (swap h i j)
    swap-IsIndexed = record { placed = swap-placed; found = swap-found }

  -- `g` holds the elements of `h`, those from `n` on where they were.
  pub record Moves (n : ℕ) (h g : Heap V) : Type 0 where
    pub same : Perm g.elements h.elements
    pub sized : size g ≡ size h
    pub kept : (k : ℕ) → n ≤ k → at g k ≡ at h k
    pub indexed : IsIndexed h → IsIndexed g
    pub owner : g.heap ≡ h.heap

  pub Moves-refl : (n : ℕ) (h : Heap V) → Moves n h h
  Moves-refl n h = record {
    same = Perm.refl _;
    sized = refl;
    kept = λ k p. refl;
    indexed = λ v. v;
    owner = refl;
  }

  pub Moves-trans : (n : ℕ) {f g h : Heap V} → Moves n f g → Moves n g h → Moves n f h
  Moves-trans n a b = record {
    same = Perm.trans b.same a.same;
    sized = b.sized ∙ a.sized;
    kept = λ k p. b.kept k p ∙ a.kept k p;
    indexed = λ v. b.indexed (a.indexed v);
    owner = b.owner ∙ a.owner;
  }

  pub Moves-mono : {n : ℕ} (m : ℕ) {h g : Heap V} → n ≤ m → Moves n h g → Moves m h g
  Moves-mono m p a = record {
    same = a.same;
    sized = a.sized;
    kept = λ k q. a.kept k (omega arith);
    indexed = a.indexed;
    owner = a.owner;
  }

  pub Moves-swap :
      (n : ℕ) (h : Heap V) (i j : ℕ) → i < n → j < n → n ≤ size h → Moves n h (swap h i j)
  unfolding swap_entries
  Moves-swap n h i j p q r =
      let (x, ex) = get_elem?-lt h.elements i (omega arith) in
      let (y, ey) = get_elem?-lt h.elements j (omega arith) in
      record {
        same = rw (swap_lem h i j x y ex ey) (swap-perm h.elements i j x y ex ey);
        sized = size-swap h i j;
        kept = λ k s. ground (arith, at-swap h i j (omega arith) (omega arith) k);
        indexed = λ v. swap-IsIndexed h v i j x y ex ey;
        owner = rw (swap_lem h i j x y ex ey) refl;
      }
