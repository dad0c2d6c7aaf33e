-- ===== src/Queue/Sift.antt =====
-- `up` and `down` restore the heap order, and only move elements.
use go_fw.Prelude.{
  ℕ, zero, suc, ◌+◌, ◌*◌, ◌<◌, ◌≤◌, ◌≡◌, refl, ◌≢◌, ◌⊎◌, inl, inr, Bool-cases, true, Option, arith,
  leb, ◌==◌, if◌then◌else◌,
}
use go_fw.Queue.{Element, Heap, less, entry_before, swap, up, down_loop, smaller_child}
use go_fw.Queue.Order.{Le, Le_of_before, Le-trans, Le-refl, parent, IsHeap, UpInv, DownInv, HoleInv}
use go_fw.Queue.Array.{at, size, size-swap, at-swap}
use go_fw.Queue.Indexed.{Moves, Moves-refl, Moves-trans, Moves-swap}

module _ {V : Type 0} where
  -- `g` is `f` with the entries at `i` and `j` exchanged.
  abbrev IsSwap : (ℕ → Option (Element V)) → (ℕ → Option (Element V)) → ℕ → ℕ → Type 0
  IsSwap f g i j = (k : ℕ) → g k ≡ (if k == i then f j else if k == j then f i else f k)

  swap-UpInv :
      (n : ℕ) (f g : ℕ → Option (Element V)) (j : ℕ)
      → UpInv n f j
      → parent j ≢ j
      → entry_before (f j) (f (parent j)) ≡ true
      → IsSwap f g (parent j) j
      → UpInv n g (parent j)
  swap-UpInv n f g j v e below s = record {
    inside = omega arith;
    edges = λ c p q r.
        let below' = Le_of_before (f j) (f (parent j)) below in
        ground (
          arith,
          s c,
          s (parent c),
          v.edges c p q,
          v.bridged c p q,
          Le-trans (f j) (f (parent j)) (f c) below',
        );
    bridged = λ c p q r t. ground (
      arith,
      s c,
      s (parent (parent j)),
      v.edges c p q,
      v.edges (parent j),
      Le-trans (f (parent (parent j))) (f (parent j)) (f c),
    );
  }

  pub up_restores :
      (k n : ℕ) (h : Heap V) (j : ℕ)
      → n ≤ size h
      → j < k
      → UpInv n (at h) j
      → IsHeap n (at (up k h j)) × Moves n h (up k h j)
  unfolding up
  up_restores zero n h j z p v = absurd (omega arith)
  up_restores (suc k) n h j z p v = elim (Bool-cases (parent j == j)) [
    | inl e ↦ rw e (λ c q r. v.edges c q r (ground arith), Moves-refl n h)
    | inr e ↦ rw e (elim (Bool-cases (less h j (parent j))) [
      | inr ge ↦ rw ge ((λ c q r. ground (arith, v.edges c q r)), Moves-refl n h)
      | inl lt ↦ rw lt (
          let i = parent j in
          let inside = v.inside in
          let pi : i < size h = omega arith in
          let next =
            up_restores k n (swap h i j) i (omega (arith, size-swap h i j)) (ground arith) (
              swap-UpInv n (at h) (at (swap h i j)) j v (ground arith) lt
                (at-swap h i j pi (omega arith))) in
          (next.0, Moves-trans n (Moves-swap n h i j (omega arith) inside (omega arith)) next.1))
    ])
  ]

  -- `j` is a child of `i` that is not after the other.
  record IsSmallerChild (n : ℕ) (f : ℕ → Option (Element V)) (i j : ℕ) : Type 0 where
    inside : j < n
    child : (j ≡ 2 * i + 1) ⊎ (j ≡ 2 * i + 2)
    least : (c : ℕ) → 0 < c → c < n → parent c ≡ i → Le (f j) (f c)

  smaller_child_lem :
      (n : ℕ) (h : Heap V) (i : ℕ) → 2 * i + 1 < n → IsSmallerChild n (at h) i (smaller_child h i n)
  unfolding less
  smaller_child_lem n h i p = record {
    inside = ground arith;
    child = ground arith;
    least = λ c q r s.
        let l = 2 * i + 1 in
        ground
          (arith, Le-refl (at h l), Le-refl (at h (l + 1)), Le_of_before (at h (l + 1)) (at h l));
  }

  -- Where the smaller child is not before its parent, the edges below are in order.
  settled :
      (n : ℕ) (f : ℕ → Option (Element V)) (i j : ℕ)
      → ((c : ℕ) → 0 < c → c < n → parent c ≢ i → Le (f (parent c)) (f c))
      → IsSmallerChild n f i j
      → Le (f i) (f j)
      → IsHeap n f
  settled n f i j edges m ge c q r =
      ground (arith, edges c q r, m.least c q r, Le-trans (f i) (f j) (f c))

  swap-DownInv :
      (n : ℕ) (f g : ℕ → Option (Element V)) (i j : ℕ)
      → HoleInv n f i
      → IsSmallerChild n f i j
      → Le (f j) (f i)
      → IsSwap f g i j
      → DownInv n g j
  swap-DownInv n f g i j v m below s = record {
    edges = λ c p q r.
        ground (arith, s c, s (parent c), v.edges c p q, v.bridged j, v.bridged c, m.least c p q);
    bridged = λ c p q r t. ground (arith, s c, s (parent j), v.edges c p q);
  }

  DownInv-HoleInv : {n : ℕ} {f : ℕ → Option (Element V)} {i : ℕ} → DownInv n f i → HoleInv n f i
  DownInv-HoleInv v = record { edges = λ c p q r s. v.edges c p q s; bridged = v.bridged }

  pub down_restores :
      (k n : ℕ) (h : Heap V) (i : ℕ)
      → n ≤ size h
      → n < k + i
      → DownInv n (at h) i
      → IsHeap n (at (down_loop k h i n).0) × Moves n h (down_loop k h i n).0
  unfolding down_loop
  down_restores zero n h i z p v = (λ c q r. v.edges c q r (omega arith), Moves-refl n h)
  down_restores (suc k) n h i z p v = elim (Bool-cases (leb n (2 * i + 1))) [
    | inl e ↦ rw e (λ c q r. v.edges c q r (ground arith), Moves-refl n h)
    | inr e ↦
        let j = smaller_child h i n in
        let m = smaller_child_lem n h i (ground arith) in
        rw e (elim (Bool-cases (less h (smaller_child h i n) i)) [
          | inr ge ↦ rw ge (settled n (at h) i j v.edges m ge, Moves-refl n h)
          | inl lt ↦ rw lt (
              let inside = m.inside in
              let child = m.child in
              let next =
                down_restores k n (swap h i j) j (omega (arith, size-swap h i j)) (omega arith) (
                  swap-DownInv n (at h) (at (swap h i j)) i j (DownInv-HoleInv v) m
                    (Le_of_before (at h j) (at h i) lt)
                    (at-swap h i j (omega arith) (omega arith))) in
              (next.0, Moves-trans n (Moves-swap n h i j (omega arith) inside z) next.1))
        ])
  ]

  down_loop_ge : (k n : ℕ) (h : Heap V) (i : ℕ) → i ≤ (down_loop k h i n).1
  unfolding down_loop
  down_loop_ge zero n h i = omega arith
  down_loop_ge (suc k) n h i =
      let j = smaller_child h i n in ground (arith, down_loop_ge k n (swap h i j) j)

  -- What `down` leaves of a heap whose entry at `i` was replaced: a heap, or, if nothing moved, a
  -- heap but for the edge above `i`.
  abbrev pub Sunk : ℕ → Heap V → ℕ → Heap V × ℕ → Type 0
  Sunk n h i (h', i') =
      Moves n h h' × (((i' ≡ i) × UpInv n (at h') i) ⊎ ((i < i') × IsHeap n (at h')))

  HoleInv-UpInv :
      (n : ℕ) (f : ℕ → Option (Element V)) (i : ℕ)
      → i < n
      → HoleInv n f i
      → ((c : ℕ) → 0 < c → c < n → parent c ≡ i → Le (f i) (f c))
      → UpInv n f i
  HoleInv-UpInv n f i p v below = record {
    inside = p;
    edges = λ c q r s. ground (arith, below c q r, v.edges c q r s);
    bridged = v.bridged;
  }

  pub down_loop-Sunk :
      (k n : ℕ) (h : Heap V) (i : ℕ)
      → n ≤ size h
      → i < n
      → n < suc k + i
      → HoleInv n (at h) i
      → Sunk n h i (down_loop (suc k) h i n)
  unfolding down_loop
  down_loop-Sunk k n h i z p q v = elim (Bool-cases (leb n (2 * i + 1))) [
    | inl e ↦ rw e (
      Moves-refl n h,
      inl (refl, HoleInv-UpInv n (at h) i p v (λ c r s t. absurd (ground arith))),
    )
    | inr e ↦
        let j = smaller_child h i n in
        let m = smaller_child_lem n h i (ground arith) in
        rw e (elim (Bool-cases (less h (smaller_child h i n) i)) [
          | inr ge ↦ rw ge (
            Moves-refl n h,
            inl (
              refl,
              HoleInv-UpInv n (at h) i p v
                  (λ c r s t. Le-trans (at h i) (at h j) (at h c) ge (m.least c r s t)),
            ),
          )
          | inl lt ↦ rw lt (
              let inside = m.inside in
              let child = m.child in
              let next =
                down_restores k n (swap h i j) j (omega (arith, size-swap h i j)) (omega arith) (
                  swap-DownInv n (at h) (at (swap h i j)) i j v m
                    (Le_of_before (at h j) (at h i) lt)
                    (at-swap h i j (omega arith) (omega arith))) in
              (
                Moves-trans n (Moves-swap n h i j (omega arith) inside z) next.1,
                inr (omega (arith, down_loop_ge k n (swap h i j) j), next.0),
              ))
        ])
  ]
