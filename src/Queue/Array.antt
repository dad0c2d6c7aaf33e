-- ===== src/Queue/Array.antt =====
-- Reading, swapping and cutting the slice of elements.
use mathlib.Core.List.Perm
use mathlib.Core.List.{append-nil, perm_middle}
use go_fw.Prelude.{
  ℕ, zero, suc, ◌<◌, ◌≡◌, refl, ap, ◌∙◌, inl, inr, Option-cases, List, [], ◌∷◌, ◌++◌, Perm, Option,
  none, some, arith, ltb, ◌==◌, if◌then◌else◌, length, get_elem?, set, take, length-set,
}
use go_fw.Queue.{Element, Heap, swap, swap_entries}

module _ {ℓ} {A : Type ℓ} where
  pub get_elem?-lt : (xs : List A) (i : ℕ) → i < length xs → (x : A) × (get_elem? xs i ≡ some x)
  get_elem?-lt [] i h = absurd (omega arith)
  get_elem?-lt (x ∷ xs) zero h = (x, refl)
  get_elem?-lt (x ∷ xs) (suc i) h = get_elem?-lt xs i (omega arith)

  pub lt_of_get_elem? : (xs : List A) (i : ℕ) (x : A) → get_elem? xs i ≡ some x → i < length xs
  lt_of_get_elem? [] i x h = cc
  lt_of_get_elem? (y ∷ xs) zero x h = omega arith
  lt_of_get_elem? (y ∷ xs) (suc i) x h = omega (arith, lt_of_get_elem? xs i x h)

  pub at_empty : (xs : List A) (k : ℕ) → length xs ≡ 0 → get_elem? xs k ≡ none
  at_empty [] k z = refl
  at_empty (x ∷ xs) k z = absurd (omega arith)

  pub get_elem?-set :
      (xs : List A) (i j : ℕ) (v : A)
      → i < length xs
      → get_elem? (set xs i v) j ≡ (if j == i then some v else get_elem? xs j)
  get_elem?-set [] i j v h = absurd (omega arith)
  get_elem?-set (x ∷ xs) zero zero v h = refl
  get_elem?-set (x ∷ xs) zero (suc j) v h = ground arith
  get_elem?-set (x ∷ xs) (suc i) zero v h = ground arith
  get_elem?-set (x ∷ xs) (suc i) (suc j) v h = ground (arith, get_elem?-set xs i j v)

  pub get_elem?-append_left :
      (xs ys : List A) (i : ℕ) → i < length xs → get_elem? (xs ++ ys) i ≡ get_elem? xs i
  get_elem?-append_left [] ys i h = absurd (omega arith)
  get_elem?-append_left (x ∷ xs) ys zero h = refl
  get_elem?-append_left (x ∷ xs) ys (suc i) h = get_elem?-append_left xs ys i (omega arith)

  pub get_elem?-append_end : (xs : List A) (x : A) → get_elem? (xs ++ x ∷ []) (length xs) ≡ some x
  get_elem?-append_end [] x = refl
  get_elem?-append_end (y ∷ xs) x = get_elem?-append_end xs x

  pub get_elem?-take :
      (n : ℕ) (xs : List A) (i : ℕ)
      → get_elem? (take n xs) i ≡ (if ltb i n then get_elem? xs i else none)
  get_elem?-take zero xs i = ground arith
  get_elem?-take (suc n) [] i = ground arith
  get_elem?-take (suc n) (x ∷ xs) zero = ground arith
  get_elem?-take (suc n) (x ∷ xs) (suc i) = ground (arith, get_elem?-take n xs i)

  pub take-append_last :
      (n : ℕ) (xs : List A) (x : A)
      → length xs ≡ suc n
      → get_elem? xs n ≡ some x
      → take n xs ++ x ∷ [] ≡ xs
  take-append_last n [] x h e = cc
  take-append_last zero (y ∷ []) x h e = cc
  take-append_last zero (y ∷ z ∷ xs) x h e = absurd (omega arith)
  take-append_last (suc n) (y ∷ xs) x h e = ap (◌∷◌ y) (take-append_last n xs x (omega arith) e)

  pub append_end-perm : (xs : List A) (x : A) → Perm (xs ++ x ∷ []) (x ∷ xs)
  append_end-perm xs x = rw (append-nil xs) at (perm_middle {a = x} xs [])

  -- A write trades the old entry for the new one.
  set-perm :
      (xs : List A) (i : ℕ) (x v : A) → get_elem? xs i ≡ some x → Perm (x ∷ set xs i v) (v ∷ xs)
  set-perm [] i x v h = absurd cc
  set-perm (y ∷ xs) zero x v h = let e : y ≡ x = ground arith in rw e (Perm.swap v x xs)
  set-perm (y ∷ xs) (suc i) x v h =
      Perm.trans (Perm.swap y x (set xs i v))
        (Perm.trans (Perm.cons y (set-perm xs i x v h)) (Perm.swap v y xs))

  pub swap-perm :
      (xs : List A) (i j : ℕ) (x y : A)
      → get_elem? xs i ≡ some x
      → get_elem? xs j ≡ some y
      → Perm (set (set xs i y) j x) xs
  swap-perm xs i j x y h k = Perm.cons_inv (
      Perm.trans
        (set-perm (set xs i y) j y x
          (ground (arith, get_elem?-set xs i j y, lt_of_get_elem? xs i x h)))
        (set-perm xs i x y h))

module _ {V : Type 0} where
  abbrev pub at : Heap V → ℕ → Option (Element V)
  at h = get_elem? h.elements

  abbrev pub size : Heap V → ℕ
  size h = length h.elements

  pub size-swap : (h : Heap V) (i j : ℕ) → size (swap h i j) ≡ size h
  unfolding swap
  size-swap h i j = elim (Option-cases (at h i)) [
    | inl e ↦ rw (e, swap_entries)
    | inr (x, ex) ↦ elim (Option-cases (at h j)) [
      | inl e ↦ rw (ex, e, swap_entries)
      | inr (y, ey) ↦
          rw (ex, ey, swap_entries)
            (length-set (set h.elements i y) j x ∙ length-set h.elements i y)
    ]
  ]

  -- `swap` where both indices are in range.
  pub swap_lem :
      (h : Heap V) (i j : ℕ) (x y : Element V)
      → at h i ≡ some x
      → at h j ≡ some y
      → swap h i j ≡ swap_entries h i j (some x) (some y)
  unfolding swap
  swap_lem h i j x y ex ey = rw (ex, ey)

  pub at-swap :
      (h : Heap V) (i j : ℕ)
      → i < size h
      → j < size h
      → (k : ℕ) → at (swap h i j) k ≡ (if k == i then at h j else if k == j then at h i else at h k)
  unfolding swap
  at-swap h i j p q k =
      let (x, ex) = get_elem?-lt h.elements i p in
      let (y, ey) = get_elem?-lt h.elements j q in
      ground (
        arith,
        length-set h.elements i y,
        get_elem?-set h.elements i k y,
        get_elem?-set (set h.elements i y) j k x,
      )
