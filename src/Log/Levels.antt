-- ===== src/Log/Levels.antt =====
-- The level that is found is that of the closest scope that has one.
use go_fw.Prelude.{
  some-injective, none-some, ℕ, zero, suc, ◌<◌, ◌≤◌, Returns, ◌≡◌, ◌≢◌, ◌⊎◌, inl, inr, refl, sym,
  subst, ap, ◌∙◌, Bool-cases, true, Option, none, some, Option-cases, [], ◌∷◌, arith, length,
  if◌then◌else◌,
}
use go_fw.Prelude.Int.{ℤ}
use go_fw.Prelude.Text.{Text}
use go_fw.Log.{is_separator, put_before, before_last, next_path, or_level, find_level}

-- A scope of a path is the path, or what stands before one of its separators.
pub data IsScope : Text → Text → Type 0 where
  whole : (p : Text) → IsScope p p
  ahead : (c : ℕ) (rest : Text) → is_separator c ≡ true → IsScope [] (c ∷ rest)
  under : (c : ℕ) {q p : Text} → IsScope q p → IsScope (c ∷ q) (c ∷ p)

IsScope-trans : {a b c : Text} → IsScope a b → IsScope b c → IsScope a c
IsScope-trans (whole p) k = k
IsScope-trans (ahead c rest h) (whole _) = ahead c rest h
IsScope-trans (ahead c rest h) (under _ {p = p} k) = ahead c p h
IsScope-trans (under c s) (whole _) = under c s
IsScope-trans (under c s) (under _ k) = under c (IsScope-trans s k)

-- A scope that is not the whole path is one of what stands before the last separator.
IsScope-cases :
    {q p : Text} → IsScope q p → (q ≡ p) ⊎ ((r : Text) × ((before_last p ≡ some r) × IsScope q r))
unfolding before_last
IsScope-cases (whole p) = inl refl
IsScope-cases (ahead c rest h) = elim (Option-cases (before_last rest)) [
  | inl e ↦ inr ([], (rw (e, h) refl, whole []))
  | inr (r, e) ↦ inr (c ∷ r, (rw e refl, ahead c r h))
]
IsScope-cases (under c s) = elim (IsScope-cases s) [
  | inl e ↦ inl (ap (λ t. c ∷ t) e)
  | inr (r, (e, k)) ↦ inr (c ∷ r, (rw e refl, under c k))
]

put_before-IsScope :
    (c : ℕ) (s r : Text) (o : Option Text)
    → ((t : Text) → o ≡ some t → IsScope t s × (length t < length s))
    → put_before c o ≡ some r
    → IsScope r (c ∷ s) × (length r < length (c ∷ s))
put_before-IsScope c s r (some t) h e =
    let (k, l) = h t refl in
    let same : c ∷ t ≡ r = cc in
    subst (λ x. IsScope x (c ∷ s) × (length x < length (c ∷ s))) same (under c k, omega arith)
put_before-IsScope c s r none h e = elim (Bool-cases (is_separator c)) [
  | inl b ↦
      let same : [] ≡ r =
        some-injective (subst (λ x. (if x then some [] else none) ≡ some r) b e) in
      subst (λ x. IsScope x (c ∷ s) × (length x < length (c ∷ s))) same (ahead c s b, omega arith)
  | inr b ↦ absurd (none-some r (subst (λ x. (if x then some [] else none) ≡ some r) b e))
]

before_last-IsScope : (p r : Text) → before_last p ≡ some r → IsScope r p × (length r < length p)
unfolding before_last
before_last-IsScope [] r e = absurd (none-some r e)
before_last-IsScope (c ∷ s) r e = put_before-IsScope c s r (before_last s) (before_last-IsScope s) e

length-IsScope : {q p : Text} → IsScope q p → (length p < length q) → ⊥
length-IsScope (whole p) l = omega arith
length-IsScope (ahead c rest h) l = omega arith
length-IsScope (under c s) l = length-IsScope s (omega arith)

-- The level of the longest scope that has one; if none is found no scope has one, the empty one
-- aside.
abbrev pub IsClosest : (Text → Option ℤ) → Text → Option ℤ → Type 0
IsClosest levels p none = (q : Text) → IsScope q p → q ≢ [] → levels q ≡ none
IsClosest levels p (some level) =
    (q : Text) × (IsScope q p
      × ((levels q ≡ some level)
          × ((r : Text) → IsScope r p → length q < length r → levels r ≡ none)))

or_level-IsClosest :
    (levels : Text → Option ℤ) (p : Text) (o : Option ℤ) (rest : Option (Option ℤ))
    → levels p ≡ o
    → (levels p ≡ none → Returns (IsClosest levels p) rest)
    → Returns (IsClosest levels p) (or_level o rest)
or_level-IsClosest levels p none rest e h = h e
or_level-IsClosest levels p (some level) rest e h =
    (p, (whole p, (e, λ r s l. absurd (length-IsScope s l))))

-- Without a level of its own a path has the closest one of what stands before its last separator.
other_scope :
    (levels : Text → Option ℤ) (p r q : Text)
    → levels p ≡ none
    → before_last p ≡ some r
    → IsScope q p
    → (IsScope q r → levels q ≡ none)
    → levels q ≡ none
other_scope levels p r q n e s h = elim (IsScope-cases s) [
  | inl same ↦ subst (λ x. levels x ≡ none) (sym same) n
  | inr (r', (e', k)) ↦ h (subst (IsScope q) (some-injective (sym e' ∙ e)) k)
]

lifted-IsClosest :
    (levels : Text → Option ℤ) (p r : Text) (o : Option (Option ℤ))
    → levels p ≡ none
    → before_last p ≡ some r
    → Returns (IsClosest levels r) o
    → Returns (IsClosest levels p) o
lifted-IsClosest levels p r none n e h = h
lifted-IsClosest levels p r (some none) n e h =
    λ q s d. other_scope levels p r q n e s (λ k. h q k d)
lifted-IsClosest levels p r (some (some level)) n e (q, (s, (found, longer))) = (
  q,
  (
    IsScope-trans s (before_last-IsScope p r e).0,
    (found, λ x t l. other_scope levels p r x n e t (λ k. longer x k l)),
  ),
)

alone-IsClosest :
    (levels : Text → Option ℤ) (p : Text)
    → levels p ≡ none
    → before_last p ≡ none
    → IsClosest levels p none
alone-IsClosest levels p n e q s d = elim (IsScope-cases s) [
  | inl same ↦ subst (λ x. levels x ≡ none) (sym same) n
  | inr (r, (e', k)) ↦ absurd (none-some r (sym e ∙ e'))
]

empty_lem : (levels : Text → Option ℤ) (q : Text) → IsScope q [] → q ≢ [] → levels q ≡ none
empty_lem levels q (whole p) d = absurd (d refl)

-- As many rounds as the path is long are enough for the loop of `newLogger` to end, and it finds the
-- level of the longest scope of the path that has one. It finds none only if no scope but the empty
-- one has one.
pub find_level-IsClosest :
    (fuel : ℕ) (levels : Text → Option ℤ) (p : Text)
    → length p ≤ fuel
    → Returns (IsClosest levels p) (find_level fuel levels p)
unfolding find_level
find_level-IsClosest fuel levels [] l = empty_lem levels
find_level-IsClosest zero levels (c ∷ s) l = absurd (omega arith)
find_level-IsClosest (suc fuel) levels (c ∷ s) l =
    or_level-IsClosest levels (c ∷ s) (levels (c ∷ s)) _ refl (λ n.
      elim (Option-cases (before_last (c ∷ s))) [
        | inl e ↦
            subst (λ o. Returns (IsClosest levels (c ∷ s)) (find_level fuel levels (next_path o)))
              (sym e) (alone-IsClosest levels (c ∷ s) n e)
        | inr (r, e) ↦
            let shorter = (before_last-IsScope (c ∷ s) r e).1 in
            subst (λ o. Returns (IsClosest levels (c ∷ s)) (find_level fuel levels (next_path o)))
              (sym e)
              (lifted-IsClosest levels (c ∷ s) r (find_level fuel levels r) n e
                (find_level-IsClosest fuel levels r (omega (arith, shorter, l))))
      ])
