-- ===== src/Rest/Middlewares/Sorting.antt =====
-- The order of the middlewares does not depend on the order in which they are given.
use mathlib.Core.Ordering.{Ordering, lt, eq, gt, swap, gt≢lt}
use mathlib.Core.List.{
  Mem, Pairwise, mem-cons, mem-cons_self, not-mem-nil, mem-cons_of_mem, Pairwise-cons,
}
use mathlib.Core.List.Perm
use mathlib.Core.Logic.{∥∥₁_elim}
use mathlib.Core.HLevel.{¬_prop}
use go_fw.Prelude.{◌≡◌, ◌≢◌, ◌⊎◌, inl, inr, refl, sym, subst, ap, ◌∙◌, List, [], ◌∷◌, Perm}
use go_fw.Rest.Middlewares.{Middleware, compare_middlewares, new_middlewares}
use go_fw.Rest.Middlewares.Order.{IsTotal, key, compare_middlewares-IsTotal}

abbrev pub IsBefore : (Middleware → Middleware → Ordering) → Middleware → Middleware → Type 0
IsBefore c a b = c a b ≢ gt

-- What `slices.SortFunc` documents: for a comparison that is an order it gives the elements in
-- another order, none of them after a greater one.
abbrev pub Sorts :
    ((Middleware → Middleware → Ordering) → List Middleware → List Middleware) → Type 0
Sorts sort_func =
    (c : Middleware → Middleware → Ordering) (ms : List Middleware)
    → IsTotal c
    → Perm (sort_func c ms) ms × Pairwise (IsBefore c) (sort_func c ms)

both_before :
    (c : Middleware → Middleware → Ordering) (a b : Middleware)
    → IsTotal c
    → IsBefore c a b
    → IsBefore c b a
    → key a ≡ key b
unfolding swap
both_before c a b o h k = by (c a b) refl
  where
    by : (r : Ordering) → c a b ≡ r → key a ≡ key b
    by lt e = absurd (k (o.swapped a b ∙ ap swap e))
    by eq e = o.same a b e
    by gt e = absurd (h e)

IsBefore-self :
    (c : Middleware → Middleware → Ordering) (a : Middleware) → IsTotal c → IsBefore c a a
unfolding swap
IsBefore-self c a o h = absurd (gt≢lt (sym h ∙ o.swapped a a ∙ ap swap h))

-- The first of a sorted list stands before all of it.
first-IsBefore :
    (c : Middleware → Middleware → Ordering) (x z : Middleware) (xs : List Middleware)
    → IsTotal c
    → Pairwise (IsBefore c) (x ∷ xs)
    → Mem z (x ∷ xs)
    → IsBefore c x z
first-IsBefore c x z xs o p m = ∥∥₁_elim (mem-cons.0 m) ¬_prop (λ d. by d)
  where
    by : (z ≡ x) ⊎ Mem z xs → IsBefore c x z
    by (inl e) = subst (IsBefore c x) (sym e) (IsBefore-self c x o)
    by (inr k) = (Pairwise-cons.0 p).0 z k

Middleware_set : (a b : Middleware) → IsProp (a ≡ b)
Middleware_set = hlevel

-- No two middlewares of a type.
abbrev pub AreApart : List Middleware → Type 0
AreApart = Pairwise (λ a b. key a ≢ key b)

AreOne : List Middleware → Type 0
AreOne ms = (a b : Middleware) → Mem a ms → Mem b ms → key a ≡ key b → a ≡ b

cons-AreOne :
    (x a b : Middleware) (xs : List Middleware)
    → ((z : Middleware) → Mem z xs → key x ≢ key z)
    → AreOne xs
    → (a ≡ x) ⊎ Mem a xs
    → (b ≡ x) ⊎ Mem b xs
    → key a ≡ key b
    → a ≡ b
unfolding AreOne
cons-AreOne x a b xs d h (inl m) (inl n) e = m ∙ sym n
cons-AreOne x a b xs d h (inl m) (inr n) e = absurd (d b n (sym (ap key m) ∙ e))
cons-AreOne x a b xs d h (inr m) (inl n) e = absurd (d a m (sym (ap key n) ∙ sym e))
cons-AreOne x a b xs d h (inr m) (inr n) e = h a b m n e

AreApart-AreOne : (ms : List Middleware) → AreApart ms → AreOne ms
unfolding AreOne
AreApart-AreOne [] p a b m n e = absurd (not-mem-nil m)
AreApart-AreOne (x ∷ xs) p a b m n e = ∥∥₁_elim (mem-cons.0 m) (Middleware_set a b) (λ k.
    ∥∥₁_elim (mem-cons.0 n) (Middleware_set a b) (λ l.
      cons-AreOne x a b xs (Pairwise-cons.0 p).0 (AreApart-AreOne xs (Pairwise-cons.0 p).1) k l e))

unique :
    (c : Middleware → Middleware → Ordering) (xs ys : List Middleware)
    → IsTotal c
    → Pairwise (IsBefore c) xs
    → Pairwise (IsBefore c) ys
    → Perm xs ys
    → AreOne xs
    → xs ≡ ys
unfolding AreOne
unique c [] ys o p q same apart = Perm.nil-eq same
unique c (x ∷ xs) [] o p q same apart = sym (Perm.nil-eq (Perm.symm same))
unique c (x ∷ xs) (y ∷ ys) o p q same apart =
    let y_in : Mem y (x ∷ xs) = (Perm.mem_iff same).1 mem-cons_self in
    let x_in : Mem x (y ∷ ys) = (Perm.mem_iff same).0 mem-cons_self in
    let e : x ≡ y =
      apart x y mem-cons_self y_in (
        both_before c x y o (first-IsBefore c x y xs o p y_in)
          (first-IsBefore c y x ys o q x_in)) in
    let rest =
      unique c xs ys o (Pairwise-cons.0 p).1 (Pairwise-cons.0 q).1
        (Perm.cons_inv (subst (λ z. Perm (x ∷ xs) (z ∷ ys)) (sym e) same))
        (λ a b m n. apart a b (mem-cons_of_mem x m) (mem-cons_of_mem x n)) in
    cc

-- The middlewares are set up in one order, whatever the order in which they are given, as long as no
-- two of them have one type; the order is that of the priorities, then the names and packages of
-- the types.
pub new_middlewares-perm :
    (sort_func : (Middleware → Middleware → Ordering) → List Middleware → List Middleware)
    (ms ns : List Middleware)
    → Sorts sort_func
    → AreApart ms
    → Perm ms ns
    → (new_middlewares sort_func ms ≡ new_middlewares sort_func ns)
      × Pairwise (IsBefore compare_middlewares) (new_middlewares sort_func ms)
      × Perm (new_middlewares sort_func ms) ms
unfolding AreOne
new_middlewares-perm sort_func ms ns s apart same =
    let (p, sorted) = s compare_middlewares ms compare_middlewares-IsTotal in
    let (q, sorted') = s compare_middlewares ns compare_middlewares-IsTotal in
    (
      unique compare_middlewares _ _ compare_middlewares-IsTotal sorted sorted'
          (Perm.trans p (Perm.trans same (Perm.symm q)))
          (λ a b m n. AreApart-AreOne ms apart a b ((Perm.mem_iff p).0 m) ((Perm.mem_iff p).0 n)),
      sorted,
      p,
    )
