-- ===== src/Rest/Authn/Cached.antt =====
-- `Require` with its cache against the decision without one.
use go_fw.Prelude.{
  ◌≡◌, refl, sym, subst, ap, ◌∙◌, inl, inr, Bool, Bool-cases, ◌&&◌, Option, none, some, List, [],
  ◌∷◌, if◌then◌else◌,
}
use go_fw.Prelude.Text.{&&_parts, Text, eqb_text, eqb_text_iff}
use go_fw.Rest.Authn.{
  Excludes, is_excluded, Verdict, Request, Cache, cached, load_or_store, verdict, require,
}

-- The requests one after the other, with the cache that each leaves to the next.
unfoldable pub require_all : Text → (Text → Text) → Excludes → Cache → List Request → List Verdict
unfolding require
require_all base at es c [] = []
require_all base at es c (r ∷ rs) =
    let (c', v) = require base at es c r in v ∷ require_all base at es c' rs

-- The decision on a request by itself.
abbrev pub decided : Text → (Text → Text) → Excludes → Request → Verdict
decided base at es r = verdict (is_excluded base at es r.path r.method) r.answer

abbrev pub decided_all : Text → (Text → Text) → Excludes → List Request → List Verdict
decided_all base at es [] = []
decided_all base at es (r ∷ rs) = decided base at es r ∷ decided_all base at es rs

-- The cache has what the decision without it would be.
abbrev IsTrue : Text → (Text → Text) → Excludes → Cache → Type 0
IsTrue base at es c =
    (path method : Text) (b : Bool)
    → cached path method c ≡ some b
    → b ≡ is_excluded base at es path method

added :
    (base : Text) (at : Text → Text) (es : Excludes) (c : Cache) (p m : Text)
    → IsTrue base at es c
    → IsTrue base at es (((p, m), is_excluded base at es p m) ∷ c)
unfolding cached
added base at es c p m h path method b e =
    elim (Bool-cases (eqb_text path p && eqb_text method m)) [
      | inl t ↦
          let found : some (is_excluded base at es p m) ≡ some b =
            subst
              (λ x.
                (if x then some (is_excluded base at es p m) else cached path method c) ≡ some b)
              t e in
          let (u, v) = &&_parts (eqb_text path p) (eqb_text method m) t in
          let same_p : path ≡ p = (eqb_text_iff path p).0 u in
          let same_m : method ≡ m = (eqb_text_iff method m).0 v in
          let k : is_excluded base at es p m ≡ b = cc in rw (same_p, same_m) (sym k)
      | inr t ↦ h path method b (
          subst
            (λ x. (if x then some (is_excluded base at es p m) else cached path method c) ≡ some b)
            t e)
    ]

-- An entry more, which is true.
load_or_store-IsTrue :
    (base : Text) (at : Text → Text) (es : Excludes) (c : Cache) (p m : Text) (o : Option Bool)
    → cached p m c ≡ o
    → IsTrue base at es c
    → let r = load_or_store p m (is_excluded base at es p m) o c in
      IsTrue base at es r.0 × (r.1 ≡ is_excluded base at es p m)
load_or_store-IsTrue base at es c p m (some b) e h = (h, h p m b e)
load_or_store-IsTrue base at es c p m none e h = (added base at es c p m h, refl)

require_all-IsTrue :
    (base : Text) (at : Text → Text) (es : Excludes) (c : Cache) (rs : List Request)
    → IsTrue base at es c
    → require_all base at es c rs ≡ decided_all base at es rs
unfolding require_all require
require_all-IsTrue base at es c [] h = refl
require_all-IsTrue base at es c (r ∷ rs) h =
    let k = load_or_store-IsTrue base at es c r.path r.method (cached r.path r.method c) refl h in
    let c' =
      (load_or_store r.path r.method (is_excluded base at es r.path r.method)
        (cached r.path r.method c) c).0 in
    ap (λ b. verdict b r.answer ∷ require_all base at es c' rs) k.1
    ∙ ap (λ vs. decided base at es r ∷ vs) (require_all-IsTrue base at es c' rs k.0)

-- While the exclusions stay as they are, the cache changes no verdict: requests one after the other,
-- from an empty cache, get the verdicts that each would get without a cache.
pub require_all-decided :
    (base : Text) (at : Text → Text) (es : Excludes) (rs : List Request)
    → require_all base at es [] rs ≡ decided_all base at es rs
unfolding cached
require_all-decided base at es rs = require_all-IsTrue base at es [] rs (λ p m b e. absurd cc)
