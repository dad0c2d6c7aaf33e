-- ===== src/Config/Environment.antt =====
-- The environment of `loadConfig` in config/internal.go: the variables, and the walk that puts them
-- into the map. strings.ToLower is that of ASCII.
use go_fw.Prelude.{
  ℕ, ◌+◌, ◌≡◌, refl, Bool-cases, inl, inr, ◌&&◌, Option, none, some, List, [], ◌∷◌, ◌++◌, map, ◌==◌,
  leb, if◌then◌else◌,
}
use mathlib.Core.Option
use go_fw.Prelude.Text.{Text, codes, eqb_text, eqb_text_iff}
use go_fw.Config.{Value, text, other, mapping, Entries, end, entry, lookup}

abbrev to_lower_char : ℕ → ℕ
to_lower_char c = if leb b'A' c && leb c b'Z' then c + 32 else c

unfoldable pub to_lower : Text → Text
to_lower s = map to_lower_char s

-- strings.Cut(s, "="); `none` if there is none.
unfoldable pub cut_pair : Text → Option (Text × Text)
cut_pair [] = none
cut_pair (c ∷ s) =
    let rest = Option.map (λ (p : Text × Text). (c ∷ p.0, p.1)) (cut_pair s) in
    if c == b'=' then some ([], s) else rest

abbrev add_pair : Option (Text × Text) → List (Text × Text) → List (Text × Text)
add_pair none env = env
add_pair (some (key, v)) env = (to_lower key, v) ∷ env

-- The variables, the last of os.Environ first; a pair without `=` is skipped.
abbrev env_from : List Text → List (Text × Text) → List (Text × Text)
env_from [] env = env
env_from (s ∷ ss) env = env_from ss (add_pair (cut_pair s) env)

unfoldable pub env_map : List Text → List (Text × Text)
unfolding to_lower cut_pair
env_map ss = env_from ss []

unfoldable pub lookup_env : Text → List (Text × Text) → Option Text
lookup_env k [] = none
lookup_env k ((j, v) ∷ env) = if eqb_text k j then some v else lookup_env k env

abbrev pub or_value : Option Text → Value → Value
or_value none v = v
or_value (some s) v = text s

-- `bindEnvVars`
unfoldable pub bind_env : (Text → Option Text) → Text → Entries → Entries
unfolding to_lower
bind_env env acc end = end
bind_env env acc (entry k (mapping inner) es) =
    entry k (mapping (bind_env env ((acc ++ to_lower k) ++ codes "_") inner)) (bind_env env acc es)
bind_env env acc (entry k (text v) es) =
    entry k (or_value (env (acc ++ to_lower k)) (text v)) (bind_env env acc es)
bind_env env acc (entry k (other n) es) =
    entry k (or_value (env (acc ++ to_lower k)) (other n)) (bind_env env acc es)

-- What the value under a key becomes.
abbrev pub bound_value : (Text → Option Text) → Text → Value → Value
bound_value env key (mapping inner) = mapping (bind_env env (key ++ codes "_") inner)
bound_value env key (text v) = or_value (env key) (text v)
bound_value env key (other n) = or_value (env key) (other n)

bind-entry :
    (env : Text → Option Text) (acc k : Text) (v : Value) (es : Entries)
    → bind_env env acc (entry k v es)
      ≡ entry k (bound_value env (acc ++ to_lower k) v) (bind_env env acc es)
unfolding bind_env
bind-entry env acc k (mapping inner) es = refl
bind-entry env acc k (text v) es = refl
bind-entry env acc k (other n) es = refl

-- The walk keeps the keys of a map. A value that is no map becomes the variable of its path, if
-- there is one; a map is walked with its key, in lower case, before the path.
pub lookup-bind_env :
    (env : Text → Option Text) (acc k : Text) (es : Entries)
    → lookup k (bind_env env acc es)
      ≡ Option.map (bound_value env (acc ++ to_lower k)) (lookup k es)
unfolding lookup bind_env
lookup-bind_env env acc k end = refl
lookup-bind_env env acc k (entry j v es) = elim (Bool-cases (eqb_text k j)) [
  | inl e ↦
      let same : k ≡ j = (eqb_text_iff k j).0 e in rw (bind-entry env acc j v es, e, same) refl
  | inr e ↦ rw (bind-entry env acc j v es, e) (lookup-bind_env env acc k es)
]
