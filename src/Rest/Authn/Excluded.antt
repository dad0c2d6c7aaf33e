-- ===== src/Rest/Authn/Excluded.antt =====
-- Which paths the calls of `ExcludePrefix` and `ExcludePrefixAndMethods` exclude together.
use go_fw.Prelude.{
  some-injective, subst, Option-cases, ◌≡◌, refl, sym, ap, ◌∙◌, inl, inr, Bool, Bool-cases, true,
  false, ◌&&◌, ◌||◌, not, Option, none, some, List, [], ◌∷◌, ◌++◌, if◌then◌else◌,
}
use go_fw.Prelude.Text.{Text, eqb_text, eqb_text_iff, starts_with}
use go_fw.Rest.Authn.{
  Excludes, methods_of, set_methods, exclude_prefix, extended, exclude_prefix_and_methods,
  contains_text, takes_method, matches, is_excluded,
}

-- A call, and what it excludes by itself.
pub data Call : Type 0 where
  prefix : Text → Call
  methods : Text → List Text → Call

unfoldable pub configure : Call → Excludes → Option Excludes
unfolding exclude_prefix exclude_prefix_and_methods
configure (prefix p) es = some (exclude_prefix p es)
configure (methods p ms) es = exclude_prefix_and_methods p ms es

abbrev pub covers : (Text → Text) → Text → Text → Call → Bool
covers at path method (prefix p) = starts_with (at p) path
covers at path method (methods p ms) = starts_with (at p) path && contains_text ms method

-- The calls one after the other; `none` says that one panicked.
abbrev pub configured : List Call → Option Excludes → Option Excludes
configured cs none = none
configured [] (some es) = some es
configured (c ∷ cs) (some es) = configured cs (configure c es)

abbrev pub any_covers : (Text → Text) → Text → Text → List Call → Bool
any_covers at path method [] = false
any_covers at path method (c ∷ cs) = covers at path method c || any_covers at path method cs

-- Laws of the Booleans.
||_assoc : (a b c : Bool) → a || (b || c) ≡ (a || b) || c
||_assoc true b c = refl
||_assoc false b c = refl

||_false : (a : Bool) → a ≡ a || false
||_false true = refl
||_false false = refl

&&_true : (a : Bool) → a && true ≡ a
&&_true true = refl
&&_true false = refl

||_true : (a : Bool) → true ≡ a || true
||_true true = refl
||_true false = refl

spread : (s t x r : Bool) → (s && (t || x)) || r ≡ ((s && t) || r) || (s && x)
spread false t x true = refl
spread false t x false = refl
spread true true x r = refl
spread true false true true = refl
spread true false true false = refl
spread true false false true = refl
spread true false false false = refl

whole : (s x r : Bool) → (s && true) || r ≡ ((s && true) || r) || (s && x)
whole true x r = refl
whole false x true = refl
whole false x false = refl

contains-append :
    (xs ys : List Text) (m : Text)
    → contains_text (xs ++ ys) m ≡ contains_text xs m || contains_text ys m
contains-append [] ys m = refl
contains-append (x ∷ xs) ys m =
    ap (λ b. eqb_text x m || b) (contains-append xs ys m)
    ∙ ||_assoc (eqb_text x m) (contains_text xs m) (contains_text ys m)

-- New methods take what the old ones do and `x` more.
abbrev IsExtended : Option (List Text) → List Text → Text → Bool → Type 0
IsExtended none ms method x = takes_method ms method ≡ x
IsExtended (some ns) ms method x = takes_method ms method ≡ takes_method ns method || x

set-matches :
    (at : Text → Text) (p : Text) (ms : List Text) (es : Excludes) (path method : Text) (x : Bool)
    → IsExtended (methods_of p es) ms method x
    → matches at (set_methods p ms es) path method
      ≡ matches at es path method || (starts_with (at p) path && x)
unfolding methods_of set_methods matches
set-matches at p ms [] path method x h = rw h (sym (||_false (starts_with (at p) path && x)))
set-matches at p ms ((q, ns) ∷ es) path method x h = elim (Bool-cases (eqb_text p q)) [
  | inl e ↦
      let same : p ≡ q = (eqb_text_iff p q).0 e in
      let h' : takes_method ms method ≡ takes_method ns method || x =
        subst (λ b. IsExtended (if b then some ns else methods_of p es) ms method x) e h in
      rw (e, h', same)
        (spread (starts_with (at q) path) (takes_method ns method) x (matches at es path method))
  | inr e ↦
      let h' = subst (λ b. IsExtended (if b then some ns else methods_of p es) ms method x) e h in
      let head = starts_with (at q) path && takes_method ns method in
      rw (e, set-matches at p ms es path method x h')
        (||_assoc head (matches at es path method) (starts_with (at p) path && x))
]

-- A prefix that is excluded for all methods covers what any call on it does.
whole-matches :
    (at : Text → Text) (p : Text) (es : Excludes) (path method : Text) (x : Bool)
    → methods_of p es ≡ some []
    → matches at es path method ≡ matches at es path method || (starts_with (at p) path && x)
unfolding methods_of matches
whole-matches at p [] path method x h = absurd cc
whole-matches at p ((q, ns) ∷ es) path method x h = elim (Bool-cases (eqb_text p q)) [
  | inl e ↦
      let same : p ≡ q = (eqb_text_iff p q).0 e in
      let none_left : some ns ≡ some [] =
        subst (λ b. (if b then some ns else methods_of p es) ≡ some []) e h in
      let k : ns ≡ [] = cc in
      rw (k, same) (whole (starts_with (at q) path) x (matches at es path method))
  | inr e ↦
      let h' : methods_of p es ≡ some [] =
        subst (λ b. (if b then some ns else methods_of p es) ≡ some []) e h in
      let head = starts_with (at q) path && takes_method ns method in
      ap (λ b. head || b) (whole-matches at p es path method x h')
      ∙ ||_assoc head (matches at es path method) (starts_with (at p) path && x)
]

extended-matches :
    (at : Text → Text) (p m : Text) (ms : List Text) (es : Excludes) (path method : Text)
    (o : Option (List Text))
    → methods_of p es ≡ o
    → matches at (extended p (m ∷ ms) o es) path method
      ≡ matches at es path method || (starts_with (at p) path && contains_text (m ∷ ms) method)
extended-matches at p m ms es path method none e =
    set-matches at p (m ∷ ms) es path method _
      (subst (λ o. IsExtended o (m ∷ ms) method (contains_text (m ∷ ms) method)) (sym e) refl)
extended-matches at p m ms es path method (some []) e = whole-matches at p es path method _ e
extended-matches at p m ms es path method (some (n ∷ ns)) e =
    set-matches at p ((n ∷ ns) ++ (m ∷ ms)) es path method _ (
      subst (λ o. IsExtended o ((n ∷ ns) ++ (m ∷ ms)) method (contains_text (m ∷ ms) method))
        (sym e) (contains-append (n ∷ ns) (m ∷ ms) method))

all-IsExtended : (o : Option (List Text)) (method : Text) → IsExtended o [] method true
all-IsExtended none method = refl
all-IsExtended (some ns) method = ||_true (takes_method ns method)

configure-matches :
    (at : Text → Text) (c : Call) (es es' : Excludes) (path method : Text)
    → configure c es ≡ some es'
    → matches at es' path method ≡ matches at es path method || covers at path method c
unfolding configure
configure-matches at (prefix p) es es' path method h =
    subst
      (λ m.
        matches at m path method ≡ matches at es path method || covers at path method (prefix p))
      (some-injective h)
      (set-matches at p [] es path method true (all-IsExtended (methods_of p es) method)
        ∙ ap (λ b. matches at es path method || b) (&&_true (starts_with (at p) path)))
configure-matches at (methods p []) es es' path method h = absurd cc
configure-matches at (methods p (m ∷ ms)) es es' path method h =
    subst
      (λ x.
        matches at x path method
        ≡ matches at es path method || covers at path method (methods p (m ∷ ms)))
      (some-injective h) (extended-matches at p m ms es path method (methods_of p es) refl)

configured-none : (cs : List Call) (es : Excludes) → configured cs none ≡ some es → ⊥
configured-none [] es h = cc
configured-none (c ∷ cs) es h = cc

configured-matches :
    (at : Text → Text) (cs : List Call) (es es' : Excludes) (path method : Text)
    → configured cs (some es) ≡ some es'
    → matches at es' path method ≡ matches at es path method || any_covers at path method cs
configured-matches at [] es es' path method h =
    subst (λ m. matches at m path method ≡ matches at es path method || false) (some-injective h)
      (||_false (matches at es path method))
configured-matches at (c ∷ cs) es es' path method h = elim (Option-cases (configure c es)) [
  | inl e ↦ absurd (configured-none cs es' (subst (λ o. configured cs o ≡ some es') e h))
  | inr (es'', e) ↦
      configured-matches at cs es'' es' path method (subst (λ o. configured cs o ≡ some es') e h)
      ∙ (ap (λ b. b || any_covers at path method cs) (configure-matches at c es es'' path method e)
          ∙ sym (
              ||_assoc (matches at es path method) (covers at path method c)
                (any_covers at path method cs)))
]

-- After any calls of `ExcludePrefix` and `ExcludePrefixAndMethods`, none of which panics, a path is
-- excluded exactly if it is outside the base path or one of the calls covers it, in whatever order
-- they came and however their prefixes repeat.
pub is_excluded-configured :
    (base : Text) (at : Text → Text) (cs : List Call) (es : Excludes) (path method : Text)
    → configured cs (some []) ≡ some es
    → is_excluded base at es path method
      ≡ not (starts_with base path) || any_covers at path method cs
unfolding is_excluded matches
is_excluded-configured base at cs es path method h =
    ap (λ b. not (starts_with base path) || b) (configured-matches at cs [] es path method h)
