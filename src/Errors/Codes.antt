-- ===== src/Errors/Codes.antt =====
-- `IsCode` and `AsCode` against the tree of errors.
use go_fw.Prelude.{◌≡◌, ◌↔◌, ◌⊎◌, inl, inr, refl, Bool, true, false, ◌||◌, Option, none, some}
use go_fw.Errors.{
  ErrCode, eqb_code, Error, GoError, nil_error, plain, wrapping, joined, framework, Wrapped, end,
  also, first_framework, first_of, has_code, is_code, any_code, or_else, as_code, as_any, or_search,
}

-- An error of the framework with the code is somewhere in the tree.
mutual
  pub data Holds (c : ErrCode) : GoError → Type 0 where
    at_root : (e : Error) (es : Wrapped) → eqb_code e.code c ≡ true → Holds c (framework e es)
    below : (e : Error) (es : Wrapped) → HoldsAny c es → Holds c (framework e es)
    in_wrapped : (e : GoError) → Holds c e → Holds c (wrapping e)
    in_joined : (es : Wrapped) → HoldsAny c es → Holds c (joined es)

  pub data HoldsAny (c : ErrCode) : Wrapped → Type 0 where
    at_head : (e : GoError) (es : Wrapped) → Holds c e → HoldsAny c (also e es)
    in_rest : (e : GoError) (es : Wrapped) → HoldsAny c es → HoldsAny c (also e es)

||_parts : (a b : Bool) → a || b ≡ true → (a ≡ true) ⊎ (b ≡ true)
||_parts true b h = inl refl
||_parts false b h = inr h

||_right : (a b : Bool) → b ≡ true → a || b ≡ true
||_right true b h = refl
||_right false b h = h

||_left : (a b : Bool) → a ≡ true → a || b ≡ true
||_left true b h = refl
||_left false b h = absurd cc

or_else_parts :
    (a b : Option Error) (c : ErrCode)
    → has_code (or_else a b) c ≡ true
    → (has_code a c ≡ true) ⊎ (has_code b c ≡ true)
or_else_parts none b c h = inr h
or_else_parts (some e) b c h = inl h

-- What `As` finds is in the tree.
mutual
  unfolding first_framework

  first-Holds : (e : GoError) (c : ErrCode) → has_code (first_framework e) c ≡ true → Holds c e
  first-Holds nil_error c h = absurd cc
  first-Holds (plain n) c h = absurd cc
  first-Holds (wrapping e) c h = in_wrapped e (first-Holds e c h)
  first-Holds (joined es) c h = in_joined es (first_of-HoldsAny es c h)
  first-Holds (framework e es) c h = at_root e es h

  first_of-HoldsAny : (es : Wrapped) (c : ErrCode) → has_code (first_of es) c ≡ true → HoldsAny c es
  first_of-HoldsAny end c h = absurd cc
  first_of-HoldsAny (also e es) c h = elim (or_else_parts (first_framework e) (first_of es) c h) [
    | inl p ↦ at_head e es (first-Holds e c p)
    | inr p ↦ in_rest e es (first_of-HoldsAny es c p)
  ]

mutual
  unfolding is_code

  is_code-Holds : (e : GoError) (c : ErrCode) → is_code e c ≡ true → Holds c e
  is_code-Holds nil_error c h = absurd cc
  is_code-Holds (plain n) c h = absurd cc
  is_code-Holds (wrapping e) c h = elim (||_parts _ (is_code e c) h) [
    | inl p ↦ first-Holds (wrapping e) c p
    | inr p ↦ in_wrapped e (is_code-Holds e c p)
  ]
  is_code-Holds (joined es) c h = elim (||_parts _ (any_code es c) h) [
    | inl p ↦ first-Holds (joined es) c p
    | inr p ↦ in_joined es (any_code-HoldsAny es c p)
  ]
  is_code-Holds (framework e es) c h = elim (||_parts _ (any_code es c) h) [
    | inl p ↦ at_root e es p
    | inr p ↦ below e es (any_code-HoldsAny es c p)
  ]

  any_code-HoldsAny : (es : Wrapped) (c : ErrCode) → any_code es c ≡ true → HoldsAny c es
  any_code-HoldsAny end c h = absurd cc
  any_code-HoldsAny (also e es) c h = elim (||_parts (is_code e c) (any_code es c) h) [
    | inl p ↦ at_head e es (is_code-Holds e c p)
    | inr p ↦ in_rest e es (any_code-HoldsAny es c p)
  ]

mutual
  unfolding is_code

  Holds-is_code : {c : ErrCode} {e : GoError} → Holds c e → is_code e c ≡ true
  Holds-is_code (at_root e es h) = ||_left _ _ h
  Holds-is_code {c = c} (below e es h) = ||_right (eqb_code e.code c) _ (HoldsAny-any_code h)
  Holds-is_code {c = c} (in_wrapped e h) =
      ||_right (has_code (first_framework (wrapping e)) c) _ (Holds-is_code h)
  Holds-is_code {c = c} (in_joined es h) =
      ||_right (has_code (first_framework (joined es)) c) _ (HoldsAny-any_code h)

  HoldsAny-any_code : {c : ErrCode} {es : Wrapped} → HoldsAny c es → any_code es c ≡ true
  HoldsAny-any_code (at_head e es h) = ||_left _ _ (Holds-is_code h)
  HoldsAny-any_code {c = c} (in_rest e es h) = ||_right (is_code e c) _ (HoldsAny-any_code h)

-- A search that agrees with the test, and leaves an error with the code if it succeeds.
abbrev pub IsSearch : ErrCode → Bool → Bool × Option Error → Type 0
IsSearch c b (found, target) = (found ≡ b) × (found ≡ true → has_code target c ≡ true)

or_search_lem :
    (c : ErrCode) (a b : Bool) (t : Option Error) (rest : Bool × Option Error)
    → (a ≡ true → has_code t c ≡ true)
    → IsSearch c b rest
    → IsSearch c (a || b) (or_search a t rest)
or_search_lem c true b t rest h k = (refl, h)
or_search_lem c false b t rest h k = k

IsSearch-then :
    (c : ErrCode) (a b : Bool) (one rest : Bool × Option Error)
    → IsSearch c a one
    → IsSearch c b rest
    → IsSearch c (a || b) (or_search one.0 one.1 rest)
IsSearch-then c true b (true, t) rest (p, h) k = (refl, h)
IsSearch-then c true b (false, t) rest (p, h) k = absurd cc
IsSearch-then c false b (true, t) rest (p, h) k = absurd cc
IsSearch-then c false b (false, t) rest (p, h) k = k

found_code :
    (c : ErrCode) (found target : Option Error)
    → has_code found c ≡ true
    → has_code (or_else found target) c ≡ true
found_code c none target h = absurd cc
found_code c (some e) target h = h

mutual
  unfolding is_code as_code

  as_code-IsSearch :
      (e : GoError) (c : ErrCode) (target : Option Error)
      → IsSearch c (is_code e c) (as_code e c target)
  as_code-IsSearch nil_error c target = (refl, λ h. absurd cc)
  as_code-IsSearch (plain n) c target = (refl, λ h. absurd cc)
  as_code-IsSearch (wrapping e) c target =
      or_search_lem c _ (is_code e c) _ (as_code e c _)
        (found_code c (first_framework (wrapping e)) target) (as_code-IsSearch e c _)
  as_code-IsSearch (joined es) c target =
      or_search_lem c _ (any_code es c) _ (as_any es c _)
        (found_code c (first_framework (joined es)) target) (as_any-IsSearch es c _)
  as_code-IsSearch (framework e es) c target =
      or_search_lem c _ (any_code es c) (some e) (as_any es c (some e)) (λ h. h)
        (as_any-IsSearch es c (some e))

  as_any-IsSearch :
      (es : Wrapped) (c : ErrCode) (target : Option Error)
      → IsSearch c (any_code es c) (as_any es c target)
  as_any-IsSearch end c target = (refl, λ h. absurd cc)
  as_any-IsSearch (also e es) c target =
      IsSearch-then c (is_code e c) (any_code es c) (as_code e c target) (as_any es c _)
        (as_code-IsSearch e c target) (as_any-IsSearch es c _)

-- `IsCode` says true exactly if an error of the framework with the code is somewhere in the tree of
-- wrapped errors. `AsCode` answers as `IsCode` does, whatever the target held, and if it answers true
-- the target is an error with the code.
pub codes_agree :
    (e : GoError) (c : ErrCode) (target : Option Error)
    → ((is_code e c ≡ true) ↔ Holds c e) × IsSearch c (is_code e c) (as_code e c target)
codes_agree e c target = ((is_code-Holds e c, Holds-is_code), as_code-IsSearch e c target)
