-- ===== src/Rest/Middlewares/Order.antt =====
-- The comparison of middlewares is a total order on what it compares.
use mathlib.Core.Ordering.{Ordering, lt, eq, gt, swap, then}
use go_fw.Prelude.{
  ℕ, ◌<◌, ◌≡◌, ◌⊎◌, inl, inr, refl, sym, subst, ap, ◌∙◌, Bool, true, false, Bool-cases, [], ◌∷◌,
  arith, ltb, ◌==◌,
}
use go_fw.Prelude.Int.{ℤ, pos, negsuc, ltb_ℤ, eqb_ℤ}
use go_fw.Prelude.Text.{Text, eqb_text}
use go_fw.Rest.Middlewares.{Middleware, ltb_text, level, compare_middlewares}

-- The comparison both ways, and what it says of three.
pub record IsOrder {K : Type 0} (c : K → K → Ordering) : Type 0 where
  pub swapped : (x y : K) → c y x ≡ swap (c x y)
  pub trans : (x y z : K) → c x y ≡ lt → c y z ≡ lt → c x z ≡ lt
  pub same : (x y : K) → c x y ≡ eq → x ≡ y

abbrev compare_text : Text → Text → Ordering
compare_text s t = level (ltb_text s t) (eqb_text s t) eq

abbrev compare_ℤ : ℤ → ℤ → Ordering
compare_ℤ a b = level (ltb_ℤ a b) (eqb_ℤ a b) eq

compare_ℤ-IsOrder : IsOrder compare_ℤ
unfolding swap
compare_ℤ-IsOrder = record { swapped = swapped; trans = trans; same = same }
  where
    swapped : (x y : ℤ) → compare_ℤ y x ≡ swap (compare_ℤ x y)
    swapped x y = ground arith

    trans : (x y z : ℤ) → compare_ℤ x y ≡ lt → compare_ℤ y z ≡ lt → compare_ℤ x z ≡ lt
    trans x y z h k = ground arith

    same : (x y : ℤ) → compare_ℤ x y ≡ eq → x ≡ y
    same (pos m) (pos n) h = ap pos (ground arith)
    same (pos m) (negsuc n) h = ground arith
    same (negsuc m) (pos n) h = ground arith
    same (negsuc m) (negsuc n) h = ap negsuc (ground arith)

-- A level of numbers over what comes next.
level-swap :
    (c d : ℕ) (r : Ordering) → level (ltb d c) (d == c) (swap r) ≡ swap (level (ltb c d) (c == d) r)
unfolding swap
level-swap c d r = ground arith

level-lt :
    (c d : ℕ) (r : Ordering) → level (ltb c d) (c == d) r ≡ lt → (c < d) ⊎ ((c ≡ d) × (r ≡ lt))
level-lt c d r h = ground arith

level-eq : (c d : ℕ) (r : Ordering) → level (ltb c d) (c == d) r ≡ eq → (c ≡ d) × (r ≡ eq)
level-eq c d r h = ground arith

lt-level :
    (c d : ℕ) (r : Ordering) → (c < d) ⊎ ((c ≡ d) × (r ≡ lt)) → level (ltb c d) (c == d) r ≡ lt
lt-level c d r (inl h) = ground arith
lt-level c d r (inr (h, k)) = ground arith

head_lem :
    (c d : ℕ) (s t : Text)
    → compare_text (c ∷ s) (d ∷ t) ≡ level (ltb c d) (c == d) (compare_text s t)
head_lem c d s t = elim (Bool-cases (c == d)) [
  | inl e ↦ let l : ltb c d ≡ false = ground arith in rw (e, l) refl
  | inr e ↦ rw e (elim (Bool-cases (ltb c d)) [ inl l ↦ rw l refl | inr l ↦ rw l refl ])
]

compare_text-IsOrder : IsOrder compare_text
unfolding swap
compare_text-IsOrder = record { swapped = swapped; trans = trans; same = same }
  where
    swapped : (s t : Text) → compare_text t s ≡ swap (compare_text s t)
    swapped [] [] = refl
    swapped [] (d ∷ t) = refl
    swapped (c ∷ s) [] = refl
    swapped (c ∷ s) (d ∷ t) =
        head_lem d c t s
        ∙ ap (level (ltb d c) (d == c)) (swapped s t)
        ∙ level-swap c d (compare_text s t)
        ∙ sym (ap swap (head_lem c d s t))

    trans : (s t u : Text) → compare_text s t ≡ lt → compare_text t u ≡ lt → compare_text s u ≡ lt
    trans [] [] u h k = k
    trans [] (d ∷ t) [] h k = ground arith
    trans [] (d ∷ t) (e ∷ u) h k = refl
    trans (c ∷ s) [] u h k = ground arith
    trans (c ∷ s) (d ∷ t) [] h k = ground arith
    trans (c ∷ s) (d ∷ t) (e ∷ u) h k =
        head_lem c e s u
        ∙ lt-level c e (compare_text s u)
            (elim (level-lt c d (compare_text s t) (sym (head_lem c d s t) ∙ h)) [
              | inl p ↦ elim (level-lt d e (compare_text t u) (sym (head_lem d e t u) ∙ k)) [
                | inl q ↦ inl (omega arith)
                | inr (q, z) ↦ inl (omega arith)
              ]
              | inr (p, y) ↦ elim (level-lt d e (compare_text t u) (sym (head_lem d e t u) ∙ k)) [
                | inl q ↦ inl (omega arith)
                | inr (q, z) ↦ inr (p ∙ q, trans s t u y z)
              ]
            ])

    same : (s t : Text) → compare_text s t ≡ eq → s ≡ t
    same [] [] h = refl
    same [] (d ∷ t) h = absurd cc
    same (c ∷ s) [] h = absurd cc
    same (c ∷ s) (d ∷ t) h =
        let (p, q) = level-eq c d (compare_text s t) (sym (head_lem c d s t) ∙ h) in
        let r = same s t q in cc

-- A level of one order over another is an order.
abbrev over : {K L : Type 0} → (K → K → Ordering) → (L → L → Ordering) → K × L → K × L → Ordering
over c d x y = then (c x.0 y.0) (d x.1 y.1)

then-lt : (o r : Ordering) → then o r ≡ lt → (o ≡ lt) ⊎ ((o ≡ eq) × (r ≡ lt))
unfolding then
then-lt lt r h = inl refl
then-lt eq r h = inr (refl, h)
then-lt gt r h = absurd cc

then-eq : (o r : Ordering) → then o r ≡ eq → (o ≡ eq) × (r ≡ eq)
unfolding then
then-eq lt r h = absurd cc
then-eq eq r h = (refl, h)
then-eq gt r h = absurd cc

then-swap : (o r : Ordering) → then (swap o) (swap r) ≡ swap (then o r)
unfolding then swap
then-swap lt r = refl
then-swap eq r = refl
then-swap gt r = refl

over-IsOrder :
    {K L : Type 0} {c : K → K → Ordering} {d : L → L → Ordering}
    → IsOrder c
    → IsOrder d
    → IsOrder (over c d)
unfolding then swap
over-IsOrder {K = K} {L = L} {c = c} {d = d} oc od = record {
  swapped = λ x y. rw (oc.swapped x.0 y.0, od.swapped x.1 y.1) (then-swap (c x.0 y.0) (d x.1 y.1));
  trans = λ x y z h k. elim (then-lt (c x.0 y.0) (d x.1 y.1) h) [
    | inl p ↦ rw (first x.0 y.0 z.0 p (then-lt (c y.0 z.0) (d y.1 z.1) k)) refl
    | inr (p, q) ↦
        let e : x.0 ≡ y.0 = oc.same x.0 y.0 p in
        elim (then-lt (c y.0 z.0) (d y.1 z.1) k) [
          | inl r ↦ rw (e, r) refl
          | inr (r, s) ↦ rw (e, r) (od.trans x.1 y.1 z.1 q s)
        ]
  ];
  same = λ x y h.
      let (p, q) = then-eq (c x.0 y.0) (d x.1 y.1) h in
      let e = oc.same x.0 y.0 p in let f = od.same x.1 y.1 q in cc;
}
  where
    first :
        (a b e : K) {o : Ordering}
        → c a b ≡ lt
        → (c b e ≡ lt) ⊎ ((c b e ≡ eq) × (o ≡ lt))
        → c a e ≡ lt
    first a b e p (inl q) = oc.trans a b e p q
    first a b e p (inr (q, r)) = subst (λ z. c a z ≡ lt) (oc.same b e q) p

level-then : (less same : Bool) (o : Ordering) → level less same o ≡ then (level less same eq) o
unfolding then
level-then true same o = refl
level-then false true o = refl
level-then false false o = refl

abbrev pub Key : Type 0
Key = ℤ × (Text × Text)

abbrev pub key : Middleware → Key
key m = (m.priority, (m.name, m.pkg_path))

abbrev compare_keys : Key → Key → Ordering
compare_keys = over compare_ℤ (over compare_text compare_text)

compare_keys-IsOrder : IsOrder compare_keys
compare_keys-IsOrder =
    over-IsOrder compare_ℤ-IsOrder (over-IsOrder compare_text-IsOrder compare_text-IsOrder)

compare_lem : (a b : Middleware) → compare_middlewares a b ≡ compare_keys (key a) (key b)
unfolding compare_middlewares
compare_lem a b =
    level-then (ltb_ℤ a.priority b.priority) (eqb_ℤ a.priority b.priority) _
    ∙ ap (then (compare_ℤ a.priority b.priority))
        (level-then (ltb_text a.name b.name) (eqb_text a.name b.name) _)

-- The comparison of the middlewares both ways, of three of them, and where it finds no difference:
-- their keys are the same, and they compare alike.
pub record IsTotal (c : Middleware → Middleware → Ordering) : Type 0 where
  pub swapped : (a b : Middleware) → c b a ≡ swap (c a b)
  pub trans : (a b d : Middleware) → c a b ≡ lt → c b d ≡ lt → c a d ≡ lt
  pub same : (a b : Middleware) → c a b ≡ eq → key a ≡ key b
  pub alike : (a b d : Middleware) → c a b ≡ eq → c d a ≡ c d b

pub compare_middlewares-IsTotal : IsTotal compare_middlewares
compare_middlewares-IsTotal = record {
  swapped = λ a b.
      compare_lem b a
      ∙ compare_keys-IsOrder.swapped (key a) (key b)
      ∙ sym (ap swap (compare_lem a b));
  trans = λ a b d h k.
      compare_lem a d
      ∙ compare_keys-IsOrder.trans (key a) (key b) (key d) (sym (compare_lem a b) ∙ h)
          (sym (compare_lem b d) ∙ k);
  same = same_key;
  alike = λ a b d h.
      compare_lem d a ∙ ap (compare_keys (key d)) (same_key a b h) ∙ sym (compare_lem d b);
}
  where
    same_key : (a b : Middleware) → compare_middlewares a b ≡ eq → key a ≡ key b
    same_key a b h = compare_keys-IsOrder.same (key a) (key b) (sym (compare_lem a b) ∙ h)
