-- ===== src/Queue/Cut.antt =====
-- The first and the last step of the operations: `Push` and `Pop` of the heap interface, which
-- append an element and cut the last one off.
use mathlib.Core.List.Perm
use go_fw.Prelude.{
  update, ℕ, suc, ◌-◌, ◌≡◌, false, Perm, [], ◌∷◌, ◌++◌, ◌∙◌, ◌/◌, true, inl, inr, Bool-cases, some,
  arith, ◌==◌, take, length-append, length-perm,
}
use go_fw.Prelude.Int.{negsuc}
use go_fw.Queue.{Element, Heap, heap_append, heap_cut}
use go_fw.Queue.Order.{IsHeap, UpInv}
use go_fw.Queue.Array.{
  at, size, lt_of_get_elem?, get_elem?-append_left, get_elem?-append_end, get_elem?-take,
  take-append_last, append_end-perm,
}
use go_fw.Queue.Indexed.{IsIndexed}

module _ {V : Type 0} where
  -- The elements are in heap order, and each knows its place.
  pub record IsValid (h : Heap V) : Type 0 where
    pub ordered : IsHeap (size h) (at h)
    pub indexed : IsIndexed h

  module _ (h : Heap V) (e : Element V) where
    pub size-append : size (heap_append h e) ≡ suc (size h)
    unfolding heap_append
    size-append = omega (arith, length-append h.elements (e ∷ []))

    pub append-perm : Perm (heap_append h e).elements (e ∷ h.elements)
    unfolding heap_append
    append-perm = append_end-perm h.elements e

    pub append-owned : (heap_append h e).heap e.address ≡ true
    unfolding heap_append
    append-owned = ground arith

    pub append-IsIndexed : IsIndexed h → h.heap e.address ≡ false → IsIndexed (heap_append h e)
    unfolding heap_append
    append-IsIndexed v fresh = record {
      placed = λ i x q. ground (
        arith,
        lt_of_get_elem? (h.elements ++ e ∷ []) i x q,
        length-append h.elements (e ∷ []),
        get_elem?-append_left h.elements (e ∷ []) i,
        get_elem?-append_end h.elements e,
        v.placed i x,
      );
      found = λ a q. elim (Bool-cases (a == e.address)) [
        | inl here ↦ (size h, e, rw here, get_elem?-append_end h.elements e, ground arith)
        | inr other ↦
            let (i, x, r, s, t) = v.found a (rw other at q) in
            let p = lt_of_get_elem? h.elements i x s in
            (i, x, rw other r, get_elem?-append_left h.elements (e ∷ []) i p ∙ s, t)
      ];
    }

    pub append-UpInv : IsHeap (size h) (at h) → UpInv (suc (size h)) (at (heap_append h e)) (size h)
    unfolding heap_append
    append-UpInv v = record {
      inside = omega arith;
      edges = λ c p q r. ground (
        arith,
        get_elem?-append_left h.elements (e ∷ []) c,
        get_elem?-append_left h.elements (e ∷ []) ((c - 1) / 2),
        v c p,
      );
      bridged = λ c p q r s. absurd (omega arith);
    }

  module _ (h : Heap V) (n : ℕ) (x : Element V) (sized : size h ≡ suc n)
      (last : at h n ≡ some x) where
    abbrev pub cut : Heap V
    cut = record {
      elements = take n h.elements;
      index = update h.index x.address (negsuc 0);
      heap = update h.heap x.address false;
    }

    pub heap_cut_lem : heap_cut h ≡ some (x, cut)
    unfolding heap_cut
    heap_cut_lem = let e : size h - 1 ≡ n = omega arith in rw (e, last)

    pub cut-perm : Perm (x ∷ take n h.elements) h.elements
    cut-perm =
        Perm.trans (Perm.symm (append_end-perm (take n h.elements) x))
          (rw (take-append_last n h.elements x sized last) (Perm.refl _))

    pub size-cut : size cut ≡ n
    size-cut = omega (arith, length-perm cut-perm)

    cut-IsIndexed : IsIndexed h → IsIndexed cut
    cut-IsIndexed v = record {
      placed =
          λ i e q. ground (arith, get_elem?-take n h.elements i, v.placed i e, v.placed n x last);
      found = λ a q.
          let (i, e, r, s, t) = v.found a (ground arith) in
          (
            i,
            e,
            ground arith,
            ground (arith, get_elem?-take n h.elements i, lt_of_get_elem? h.elements i e s),
            t,
          );
    }

    pub cut-IsValid : IsHeap n (at h) → IsIndexed h → IsValid cut
    cut-IsValid o v = record {
      ordered = λ c p q. ground (
        arith,
        size-cut,
        get_elem?-take n h.elements c,
        get_elem?-take n h.elements ((c - 1) / 2),
        o c p,
      );
      indexed = cut-IsIndexed v;
    }
