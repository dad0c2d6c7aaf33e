-- ===== src/Rest/Authn.antt =====
-- rest/middleware/authn.go: which requests need no authentication, and what becomes of the others.
-- path.Join and the provider are arguments. Methods and paths are texts, a principal is a number.
pub mod Excluded
pub mod Cached
use go_fw.Prelude.{
  ℕ, Bool, true, false, ◌&&◌, ◌||◌, not, Option, none, some, List, [], ◌∷◌, ◌++◌, if◌then◌else◌,
}
use go_fw.Prelude.Text.{Text, eqb_text, starts_with}

-- The exclusions: the methods of each path prefix, where no methods are all of them.
abbrev pub Excludes : Type 0
Excludes = List (Text × List Text)

unfoldable pub methods_of : Text → Excludes → Option (List Text)
methods_of p [] = none
methods_of p ((q, ms) ∷ es) = if eqb_text p q then some ms else methods_of p es

-- `m.excludes[p] = ms`
unfoldable pub set_methods : Text → List Text → Excludes → Excludes
set_methods p ms [] = (p, ms) ∷ []
set_methods p ms ((q, ns) ∷ es) =
    let rest = set_methods p ms es in if eqb_text p q then (q, ms) ∷ es else (q, ns) ∷ rest

unfoldable pub exclude_prefix : Text → Excludes → Excludes
unfolding set_methods
exclude_prefix p es = set_methods p [] es

-- Of the methods that the prefix has so far.
abbrev pub extended : Text → List Text → Option (List Text) → Excludes → Excludes
extended p ms none es = set_methods p ms es
extended p ms (some []) es = es
extended p ms (some (n ∷ ns)) es = set_methods p ((n ∷ ns) ++ ms) es

-- Without a method it panics.
unfoldable pub exclude_prefix_and_methods : Text → List Text → Excludes → Option Excludes
unfolding methods_of set_methods
exclude_prefix_and_methods p [] es = none
exclude_prefix_and_methods p (m ∷ ms) es = some (extended p (m ∷ ms) (methods_of p es) es)

-- slices.Contains
abbrev pub contains_text : List Text → Text → Bool
contains_text [] m = false
contains_text (n ∷ ns) m = eqb_text n m || contains_text ns m

abbrev pub takes_method : List Text → Text → Bool
takes_method [] m = true
takes_method (n ∷ ns) m = contains_text (n ∷ ns) m

-- The loop over the exclusions; `at` is path.Join of the base path and a prefix.
unfoldable pub matches : (Text → Text) → Excludes → Text → Text → Bool
matches at [] path method = false
matches at ((p, ms) ∷ es) path method =
    starts_with (at p) path && takes_method ms method || matches at es path method

-- The function that `Require` gives to the cache.
unfoldable pub is_excluded : Text → (Text → Text) → Excludes → Text → Text → Bool
unfolding matches
is_excluded base at es path method = not (starts_with base path) || matches at es path method

-- What the provider says of a request.
pub data Answer : Type 0 where
  principal : ℕ → Answer
  invalid_token failure : Answer

-- How a request goes on: excluded, with a principal, or not at all, with a status.
pub data Verdict : Type 0 where
  excluded : Verdict
  authenticated : ℕ → Verdict
  aborted : ℕ → Verdict

abbrev pub judged : Answer → Verdict
judged (principal p) = authenticated p
judged invalid_token = aborted 401
judged failure = aborted 500

pub record Request : Type 0 where
  pub path : Text
  pub method : Text
  pub answer : Answer

-- The cache: what was found for a path and a method.
abbrev pub Cache : Type 0
Cache = List ((Text × Text) × Bool)

unfoldable pub cached : Text → Text → Cache → Option Bool
cached path method [] = none
cached path method (((p, m), b) ∷ c) =
    let rest = cached path method c in if eqb_text path p && eqb_text method m then some b else rest

abbrev pub load_or_store : Text → Text → Bool → Option Bool → Cache → Cache × Bool
load_or_store path method b none c = (((path, method), b) ∷ c, b)
load_or_store path method b (some b') c = (c, b')

abbrev pub verdict : Bool → Answer → Verdict
verdict is_excluded a = if is_excluded then excluded else judged a

-- `Require`
unfoldable pub require : Text → (Text → Text) → Excludes → Cache → Request → Cache × Verdict
unfolding is_excluded cached
require base at es c r =
    let (c', b) =
      load_or_store r.path r.method (is_excluded base at es r.path r.method)
        (cached r.path r.method c) c in
    (c', verdict b r.answer)
