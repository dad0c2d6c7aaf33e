-- ===== src/Queue/Taking.antt =====
-- How an element is taken out of the queue: it is swapped with the last one, which then goes to its
-- place, and the array is cut.
use mathlib.Core.List.Perm
use go_fw.Prelude.{
  ℕ, suc, ◌-◌, ◌/◌, ◌∙◌, ◌≤◌, ◌<◌, ◌≡◌, refl, inl, inr, Bool-cases, true, false, Perm, ◌∷◌, some,
  arith, ◌==◌, ==_iff, ltb, if◌then◌else◌,
}
use go_fw.Prelude.Int.{negsuc}
use go_fw.Queue.{Element, Heap, heap_cut, swap, up, down_loop, sink, heap_remove, pop}
use go_fw.Queue.Order.{Le-trans, IsHeap, DownInv, HoleInv}
use go_fw.Queue.Array.{at, size, lt_of_get_elem?, size-swap, at-swap}
use go_fw.Queue.Indexed.{Moves, Moves-trans, Moves-swap, Moves-refl, Moves-mono}
use go_fw.Queue.Sift.{Sunk, up_restores, down_restores, down_loop-Sunk}
use go_fw.Queue.Cut.{IsValid, cut, heap_cut_lem, cut-perm, cut-IsValid}

module _ {V : Type 0} where
  -- What a call that takes one element out of `h` leaves.
  pub record Taken (h : Heap V) (e : Element V) (g : Heap V) : Type 0 where
    pub valid : IsValid g
    pub same : Perm (e ∷ g.elements) h.elements
    pub gone : g.heap e.address ≡ false
    pub unplaced : g.index e.address ≡ negsuc 0

  -- The operations with the loops and the last step shut.
  pop_lem :
      (h : Heap V) → let n = size h - 1 in pop h ≡ heap_cut (down_loop (suc n) (swap h 0 n) 0 n).0
  unfolding pop
  pop_lem h = refl

  sink_lem :
      (h : Heap V) (i : ℕ)
      → let n = size h - 1 in
        let r = down_loop (suc n) (swap h i n) i n in
        sink h i ≡ (if n == i then h else if ltb i r.1 then r.0 else up (suc i) r.0 i)
  unfolding sink
  sink_lem h i = refl

  heap_remove_lem : (h : Heap V) (i : ℕ) → heap_remove h i ≡ heap_cut (sink h i)
  unfolding heap_remove
  heap_remove_lem h i = refl

  module _ (h : Heap V) (v : IsValid h) (n : ℕ) (sized : size h ≡ suc n) where
    lifted-DownInv : DownInv n (at (swap h 0 n)) 0
    lifted-DownInv = record {
      edges = λ c p q r. ground (
        arith,
        at-swap h 0 n (omega arith) (omega arith) c,
        at-swap h 0 n (omega arith) (omega arith) ((c - 1) / 2),
        v.ordered c p,
      );
      bridged = λ c p q r s. absurd (omega arith);
    }

    cut-Taken :
        (k : ℕ) (g : Heap V) (x : Element V)
        → Moves k h g
        → IsHeap n (at g)
        → at g n ≡ some x
        → (g' : Heap V) × (heap_cut g ≡ some (x, g')) × Taken h x g'
    cut-Taken k g x m o last =
        let z : size g ≡ suc n = m.sized ∙ sized in
        (
          cut g n x z last,
          heap_cut_lem g n x z last,
          record {
            valid = cut-IsValid g n x z last o (m.indexed v.indexed);
            same = Perm.trans (cut-perm g n x z last) m.same;
            gone = ground arith;
            unplaced = ground arith;
          },
        )

    pub pop_root :
        (x : Element V) → at h 0 ≡ some x → (g : Heap V) × (pop h ≡ some (x, g)) × Taken h x g
    pop_root x root =
        let z : size h - 1 ≡ n = omega arith in
        let at' = at-swap h 0 n (omega arith) (omega arith) in
        let s =
          down_restores (suc n) n (swap h 0 n) 0 (omega (arith, size-swap h 0 n)) (omega arith)
            lifted-DownInv in
        let moved =
          Moves-trans (suc n) (Moves-swap (suc n) h 0 n (omega arith) (omega arith) (omega arith))
            (Moves-mono (suc n) (omega arith) s.1) in
        let (g, e, t) =
          cut-Taken (suc n) (down_loop (suc n) (swap h 0 n) 0 n).0 x moved s.0
            (s.1.kept n (omega arith) ∙ ground (arith, at' n)) in
        let shape : pop h ≡ heap_cut (down_loop (suc n) (swap h 0 n) 0 n).0 = rw (pop_lem h, z) in
        (g, shape ∙ e, t)

    hole : (i : ℕ) → i < n → HoleInv n (at (swap h i n)) i
    hole i p =
        let at' = at-swap h i n (omega arith) (omega arith) in
        record {
          edges = λ c q r s t. ground (arith, at' c, at' ((c - 1) / 2), v.ordered c q);
          bridged = λ c q r s t. ground (
            arith,
            at' c,
            at' ((i - 1) / 2),
            v.ordered c q,
            v.ordered i t,
            Le-trans (at h ((i - 1) / 2)) (at h i) (at h c),
          );
        }

    -- What `down` leaves of the hole, `up` mends.
    mend :
        (i : ℕ) (x : Element V) (g : Heap V) (r : Heap V × ℕ)
        → Moves (suc n) h g
        → at g n ≡ some x
        → Sunk n g i r
        → IsHeap n (at (if ltb i r.1 then r.0 else up (suc i) r.0 i))
          × Moves (suc n) h (if ltb i r.1 then r.0 else up (suc i) r.0 i)
          × (at (if ltb i r.1 then r.0 else up (suc i) r.0 i) n ≡ some x)
    mend i x g (g', i') m last (m', inr (p, o)) =
        let e : ltb i i' ≡ true = ground arith in
        rw e (
          o,
          Moves-trans (suc n) m (Moves-mono (suc n) (omega arith) m'),
          m'.kept n (omega arith) ∙ last,
        )
    mend i x g (g', i') m last (m', inl (p, u)) =
        let e : ltb i i' ≡ false = ground arith in
        let z : n ≤ size g' = omega (arith, m.sized, m'.sized, sized) in
        let s = up_restores (suc i) n g' i z (omega arith) u in
        rw e (
          s.0,
          Moves-trans (suc n) m (Moves-mono (suc n) (omega arith) (Moves-trans n m' s.1)),
          s.1.kept n (omega arith) ∙ m'.kept n (omega arith) ∙ last,
        )

    sink_restores :
        (i : ℕ) (x : Element V)
        → at h i ≡ some x
        → IsHeap n (at (sink h i)) × Moves (suc n) h (sink h i) × (at (sink h i) n ≡ some x)
    sink_restores i x here =
        let z : size h - 1 ≡ n = omega arith in
        let inside = lt_of_get_elem? h.elements i x here in
        rw (sink_lem h i, z)
          (elim (Bool-cases (n == i)) [
            | inl e ↦
                let e' : n ≡ i = (==_iff n i).0 e in
                rw e (λ c p q. v.ordered c p (omega arith), Moves-refl (suc n) h, rw e' here)
            | inr e ↦
                let p : i < n = ground arith in
                rw e (
                  mend i x (swap h i n) (down_loop (suc n) (swap h i n) i n)
                    (Moves-swap (suc n) h i n (omega arith) (omega arith) (omega arith))
                    (ground (arith, at-swap h i n (omega arith) (omega arith) n))
                    (down_loop-Sunk n n (swap h i n) i (omega (arith, size-swap h i n)) p
                      (omega arith) (hole i p)))
          ])

    pub remove_place :
        (i : ℕ) (x : Element V)
        → at h i ≡ some x
        → (g : Heap V) × (heap_remove h i ≡ some (x, g)) × Taken h x g
    remove_place i x here =
        let s = sink_restores i x here in
        let (g, e, t) = cut-Taken (suc n) (sink h i) x s.1 s.0 s.2 in
        (g, heap_remove_lem h i ∙ e, t)
