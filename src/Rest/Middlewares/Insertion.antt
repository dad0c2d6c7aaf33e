-- ===== src/Rest/Middlewares/Insertion.antt =====
-- A sort for the tests, which does what the library's documents.
use mathlib.Core.Ordering.{Ordering, lt, eq, gt, swap, lt≢gt, eq≢gt}
use mathlib.Core.List.{Mem, Pairwise, mem-cons, not-mem-nil, Pairwise-cons}
use mathlib.Core.List.Perm
use mathlib.Core.Logic.{∥∥₁_elim}
use mathlib.Core.HLevel.{¬_prop}
use go_fw.Prelude.{◌≡◌, ◌⊎◌, inl, inr, refl, sym, subst, ap, ◌∙◌, List, [], ◌∷◌, Perm}
use go_fw.Rest.Middlewares.{Middleware}
use go_fw.Rest.Middlewares.Order.{IsTotal}
use go_fw.Rest.Middlewares.Sorting.{IsBefore, Sorts}

module _ (c : Middleware → Middleware → Ordering) where
  abbrev place :
      Ordering → Middleware → Middleware → List Middleware → List Middleware → List Middleware
  place gt m x xs rest = x ∷ rest
  place lt m x xs rest = m ∷ x ∷ xs
  place eq m x xs rest = m ∷ x ∷ xs

  abbrev insert : Middleware → List Middleware → List Middleware
  insert m [] = m ∷ []
  insert m (x ∷ xs) = place (c m x) m x xs (insert m xs)

  abbrev pub insertion_sort : List Middleware → List Middleware
  insertion_sort [] = []
  insertion_sort (m ∷ ms) = insert m (insertion_sort ms)

  place-perm :
      (r : Ordering) (m x : Middleware) (xs rest : List Middleware)
      → Perm rest (m ∷ xs)
      → Perm (place r m x xs rest) (m ∷ x ∷ xs)
  place-perm lt m x xs rest p = Perm.rfl
  place-perm eq m x xs rest p = Perm.rfl
  place-perm gt m x xs rest p = Perm.trans (Perm.cons x p) (Perm.swap m x xs)

  insert-perm : (m : Middleware) (xs : List Middleware) → Perm (insert m xs) (m ∷ xs)
  insert-perm m [] = Perm.rfl
  insert-perm m (x ∷ xs) = place-perm (c m x) m x xs (insert m xs) (insert-perm m xs)

  sort-perm : (ms : List Middleware) → Perm (insertion_sort ms) ms
  sort-perm [] = Perm.nil
  sort-perm (m ∷ ms) = Perm.trans (insert-perm m (insertion_sort ms)) (Perm.cons m (sort-perm ms))

  IsBefore-trans :
      (a b d : Middleware) → IsTotal c → IsBefore c a b → IsBefore c b d → IsBefore c a d
  unfolding swap
  IsBefore-trans a b d o h k e = by (c a b) refl
    where
      down : c d a ≡ lt
      down = o.swapped a d ∙ ap swap e

      by : (r : Ordering) → c a b ≡ r → ⊥
      by lt q = k (o.swapped d b ∙ ap swap (o.trans d a b down q))
      by eq q = k (o.swapped d b ∙ ap swap (sym (o.alike a b d q) ∙ down))
      by gt q = h q

  ahead :
      (m x : Middleware) (xs : List Middleware)
      → IsTotal c
      → IsBefore c m x
      → Pairwise (IsBefore c) (x ∷ xs)
      → Pairwise (IsBefore c) (m ∷ x ∷ xs)
  ahead m x xs o h p = Pairwise-cons.1 (λ z k. ∥∥₁_elim (mem-cons.0 k) ¬_prop (λ d. by z d), p)
    where
      by : (z : Middleware) → (z ≡ x) ⊎ Mem z xs → IsBefore c m z
      by z (inl e) = subst (IsBefore c m) (sym e) h
      by z (inr n) = IsBefore-trans m x z o h ((Pairwise-cons.0 p).0 z n)

  behind :
      (m x : Middleware) (xs rest : List Middleware)
      → IsTotal c
      → c m x ≡ gt
      → Pairwise (IsBefore c) (x ∷ xs)
      → Perm rest (m ∷ xs)
      → Pairwise (IsBefore c) rest
      → Pairwise (IsBefore c) (x ∷ rest)
  unfolding swap
  behind m x xs rest o h p same q =
      Pairwise-cons.1
        (λ z k. ∥∥₁_elim (mem-cons.0 ((Perm.mem_iff same).0 k)) ¬_prop (λ d. by z d), q)
    where
      by : (z : Middleware) → (z ≡ m) ⊎ Mem z xs → IsBefore c x z
      by z (inl e) = λ g. lt≢gt (sym (ap swap h) ∙ sym (o.swapped m x) ∙ ap (c x) (sym e) ∙ g)
      by z (inr n) = (Pairwise-cons.0 p).0 z n

  place-IsSorted :
      (r : Ordering) (m x : Middleware) (xs rest : List Middleware)
      → IsTotal c
      → c m x ≡ r
      → Pairwise (IsBefore c) (x ∷ xs)
      → Perm rest (m ∷ xs)
      → Pairwise (IsBefore c) rest
      → Pairwise (IsBefore c) (place r m x xs rest)
  place-IsSorted lt m x xs rest o h p same q = ahead m x xs o (λ g. lt≢gt (sym h ∙ g)) p
  place-IsSorted eq m x xs rest o h p same q = ahead m x xs o (λ g. eq≢gt (sym h ∙ g)) p
  place-IsSorted gt m x xs rest o h p same q = behind m x xs rest o h p same q

  insert-IsSorted :
      (m : Middleware) (xs : List Middleware)
      → IsTotal c
      → Pairwise (IsBefore c) xs
      → Pairwise (IsBefore c) (insert m xs)
  insert-IsSorted m [] o p = Pairwise-cons.1 (λ z k. absurd (not-mem-nil k), p)
  insert-IsSorted m (x ∷ xs) o p =
      place-IsSorted (c m x) m x xs (insert m xs) o refl p (insert-perm m xs)
        (insert-IsSorted m xs o (Pairwise-cons.0 p).1)

  sort-IsSorted : (ms : List Middleware) → IsTotal c → Pairwise (IsBefore c) (insertion_sort ms)
  sort-IsSorted [] o = Pairwise.nil
  sort-IsSorted (m ∷ ms) o = insert-IsSorted m (insertion_sort ms) o (sort-IsSorted ms o)

pub insertion_sort-Sorts : Sorts insertion_sort
insertion_sort-Sorts c ms o = (sort-perm c ms, sort-IsSorted c ms o)
