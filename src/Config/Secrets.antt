-- ===== src/Config/Secrets.antt =====
-- `loadSecrets` of config/internal.go. The manager of secrets is an argument: what it has under a
-- name, with the prefix of the environment or verbatim; `none` is an error, on which the code panics.
use go_fw.Prelude.{
  ℕ, zero, suc, Bool, false, ◌&&◌, not, Option, none, some, [], ◌∷◌, ◌++◌, ◌==◌, if◌then◌else◌,
}
use go_fw.Prelude.Text.{Text, codes, eqb_text, starts_with}
use go_fw.Config.{text, other, mapping, Entries, end, entry, put}

pub record Manager : Type 0 where
  pub get_secret : Text → Option Text
  pub get_secret_verbatim : Text → Option Text

-- strings.HasSuffix(s, ">")
abbrev pub ends_angle : Text → Bool
ends_angle [] = false
ends_angle (c ∷ []) = c == b'>'
ends_angle (c ∷ d ∷ s) = ends_angle (d ∷ s)

abbrev pub drop : ℕ → Text → Text
drop n [] = []
drop zero (c ∷ s) = c ∷ s
drop (suc n) (c ∷ s) = drop n s

-- `s[:len(s)-1]`
abbrev pub drop_last : Text → Text
drop_last [] = []
drop_last (c ∷ []) = []
drop_last (c ∷ d ∷ s) = c ∷ drop_last (d ∷ s)

abbrev pub head_is : ℕ → Text → Bool
head_is c [] = false
head_is c (d ∷ s) = d == c

-- What a text asks for: nothing, the secret under its key, the one under a name of its own, or it is
-- no valid request.
pub data Request : Type 0 where
  plain own_key invalid : Request
  custom : Text → Request

unfoldable pub request : Text → Request
request v =
    if not (starts_with (codes "<secret") v && ends_angle v)
    then plain
    else if eqb_text v (codes "<secret>")
    then own_key
    else if not (head_is b':' (drop 7 v))
    then invalid
    else if eqb_text (drop_last (drop 8 v)) []
    then invalid
    else custom (drop_last (drop 8 v))

-- The map after the walk, or a panic.
pub data Outcome : Type 0 where
  loaded : Entries → Outcome
  panicked : Outcome

infixl 5 ◌>>=◌
abbrev pub ◌>>=◌ : Outcome → (Entries → Outcome) → Outcome
loaded m >>= f = f m
panicked >>= f = panicked

abbrev pub store : Text → Option Text → Entries → Outcome
store key none m = panicked
store key (some secret) m = loaded (put key (text secret) m)

abbrev pub answer : Manager → Text → Request → Entries → Outcome
answer manager key plain m = loaded m
answer manager key own_key m = store key (manager.get_secret key) m
answer manager key (custom name) m = store key (manager.get_secret_verbatim name) m
answer manager key invalid m = panicked

-- The walk over the entries that a map had before it; `m` is the map as it is by now. A secret is
-- stored under the key with the prefix of the maps around.
unfoldable pub traverse : Manager → Text → Entries → Entries → Outcome
unfolding request put
traverse manager prefix end m = loaded m
traverse manager prefix (entry k (mapping inner) es) m =
    traverse manager ((prefix ++ k) ++ codes ".") inner inner >>= λ inner'.
    traverse manager prefix es (put k (mapping inner') m)
traverse manager prefix (entry k (text v) es) m =
    answer manager (prefix ++ k) (request v) m >>= λ m'. traverse manager prefix es m'
traverse manager prefix (entry k (other n) es) m = traverse manager prefix es m

-- `is_test` is the environment's type; in a test no secret is loaded.
unfoldable pub load_secrets : Bool → Manager → Entries → Outcome
unfolding traverse
load_secrets is_test manager m = if is_test then loaded m else traverse manager [] m m
