-- ===== src/Config/Loaded.antt =====
-- What the loading of secrets leaves under a key.
use go_fw.Prelude.{
  length, length-append, ◌≡◌, refl, sym, ap, ◌∙◌, ◌⊎◌, inl, inr, Bool-cases, true, false, Option,
  none, some, [], ◌++◌, arith,
}
use go_fw.Prelude.Text.{Text, codes, eqb_text, eqb_text_iff}
use go_fw.Config.{Value, text, other, mapping, Entries, end, entry, lookup, put}
use go_fw.Config.Secrets.{
  Manager, Request, plain, own_key, invalid, custom, request, Outcome, loaded, panicked, ◌>>=◌,
  store, answer, traverse, load_secrets,
}

eqb_refl : (s : Text) → eqb_text s s ≡ true
eqb_refl s = (eqb_text_iff s s).1 refl

lookup-put_self : (k : Text) (v : Value) (m : Entries) → lookup k (put k v m) ≡ some v
unfolding lookup put
lookup-put_self k v end = rw (eqb_refl k)
lookup-put_self k v (entry i w m) = elim (Bool-cases (eqb_text k i)) [
  | inl e ↦ rw (e, e) refl
  | inr e ↦ rw (e, e) (lookup-put_self k v m)
]

lookup-put_other :
    (j k : Text) (v : Value) (m : Entries)
    → eqb_text j k ≡ false
    → lookup j (put k v m) ≡ lookup j m
unfolding lookup put
lookup-put_other j k v end d = rw d
lookup-put_other j k v (entry i w m) d = elim (Bool-cases (eqb_text k i)) [
  | inl e ↦
      let same : k ≡ i = (eqb_text_iff k i).0 e in
      let d' : eqb_text j i ≡ false = rw (← same) d in rw (e, d') refl
  | inr e ↦ rw (e, lookup-put_other j k v m d) refl
]

loaded-injective : {m m' : Entries} → loaded m ≡ loaded m' → m ≡ m'
loaded-injective h = cc

bound :
    (o : Outcome) (f : Entries → Outcome) {m' : Entries}
    → (o >>= f) ≡ loaded m'
    → (m : Entries) × (o ≡ loaded m) × (f m ≡ loaded m')
bound (loaded m) f h = (m, refl, h)
bound panicked f h = absurd cc

-- No entry of the walk is stored under the key `j`.
abbrev pub IsClear : Text → Text → Entries → Type 0
IsClear prefix j end = Unit
IsClear prefix j (entry i (mapping inner) es) = (eqb_text j i ≡ false) × IsClear prefix j es
IsClear prefix j (entry i (text v) es) = (eqb_text j (prefix ++ i) ≡ false) × IsClear prefix j es
IsClear prefix j (entry i (other n) es) = IsClear prefix j es

store_keeps :
    (j key : Text) (o : Option Text) (m m' : Entries)
    → eqb_text j key ≡ false
    → store key o m ≡ loaded m'
    → lookup j m' ≡ lookup j m
store_keeps j key none m m' d h = absurd cc
store_keeps j key (some secret) m m' d h =
    let e : put key (text secret) m ≡ m' = cc in rw (← e) (lookup-put_other j key (text secret) m d)

answer_keeps :
    (manager : Manager) (j key : Text) (r : Request) (m m' : Entries)
    → eqb_text j key ≡ false
    → answer manager key r m ≡ loaded m'
    → lookup j m' ≡ lookup j m
answer_keeps manager j key plain m m' d h = let e : m ≡ m' = cc in rw e
answer_keeps manager j key own_key m m' d h = store_keeps j key _ m m' d h
answer_keeps manager j key (custom name) m m' d h = store_keeps j key _ m m' d h
answer_keeps manager j key invalid m m' d h = absurd cc

-- The walk leaves a key as it is if it stores nothing there.
traverse_keeps :
    (manager : Manager) (prefix j : Text) (es m : Entries) {m' : Entries}
    → IsClear prefix j es
    → traverse manager prefix es m ≡ loaded m'
    → lookup j m' ≡ lookup j m
unfolding traverse
traverse_keeps manager prefix j end m {m'} c h = let e : m ≡ m' = loaded-injective h in rw e
traverse_keeps manager prefix j (entry i (mapping inner) es) m (d, c) h =
    let (inner', e, f) = bound (traverse manager ((prefix ++ i) ++ codes ".") inner inner) _ h in
    traverse_keeps manager prefix j es (put i (mapping inner') m) c f
    ∙ lookup-put_other j i (mapping inner') m d
traverse_keeps manager prefix j (entry i (text v) es) m (d, c) h =
    let (m1, e, f) = bound (answer manager (prefix ++ i) (request v) m) _ h in
    traverse_keeps manager prefix j es m1 c f ∙ answer_keeps manager j (prefix ++ i) _ m m1 d e
traverse_keeps manager prefix j (entry i (other n) es) m c h =
    traverse_keeps manager prefix j es m c h

-- The text `v` stands under the key `k`, which no other entry has.
abbrev pub IsOnce : Text → Text → Entries → Type 0
IsOnce k v end = ⊥
IsOnce k v (entry i w es) =
    ((i ≡ k) × (w ≡ text v) × IsClear [] k es) ⊎ ((eqb_text k i ≡ false) × IsOnce k v es)

traverse_once :
    (manager : Manager) (k v secret : Text) (es m : Entries) {m' : Entries}
    → IsOnce k v es
    → request v ≡ own_key
    → manager.get_secret k ≡ some secret
    → traverse manager [] es m ≡ loaded m'
    → lookup k m' ≡ some (text secret)
unfolding traverse
traverse_once manager k v secret end m o r g h = absurd o
traverse_once manager k v secret (entry i (text w) es) m (inl (same, value, clear)) r g h =
    let (m1, e, f) = bound (answer manager i (request w) m) _ h in
    let v' : w ≡ v = cc in
    let stored : put k (text secret) m ≡ m1 =
      loaded-injective (sym (rw (v', r, same, g) refl) ∙ e) in
    traverse_keeps manager [] k es m1 clear f ∙ rw (← stored) (lookup-put_self k (text secret) m)
traverse_once manager k v secret (entry i (mapping inner) es) m (inl (same, value, clear)) r g h =
    absurd cc
traverse_once manager k v secret (entry i (other n) es) m (inl (same, value, clear)) r g h =
    absurd cc
traverse_once manager k v secret (entry i (text w) es) m (inr (d, o)) r g h =
    let (m1, e, f) = bound (answer manager i (request w) m) _ h in
    traverse_once manager k v secret es m1 o r g f
traverse_once manager k v secret (entry i (mapping inner) es) m (inr (d, o)) r g h =
    let (inner', e, f) = bound (traverse manager (i ++ codes ".") inner inner) _ h in
    traverse_once manager k v secret es (put i (mapping inner') m) o r g f
traverse_once manager k v secret (entry i (other n) es) m (inr (d, o)) r g h =
    traverse_once manager k v secret es m o r g h

-- Of a map that is loaded outside tests, a key at the top whose text asks for its own secret has
-- that secret afterwards, if no other entry has the key.
pub load_secrets_top :
    (manager : Manager) (k v secret : Text) (es m' : Entries)
    → IsOnce k v es
    → request v ≡ own_key
    → manager.get_secret k ≡ some secret
    → load_secrets false manager es ≡ loaded m'
    → lookup k m' ≡ some (text secret)
unfolding load_secrets
load_secrets_top manager k v secret es m' o r g h = traverse_once manager k v secret es es o r g h

eqb_text-length : (s t : Text) → eqb_text s t ≡ true → length s ≡ length t
eqb_text-length s t h = ap length ((eqb_text_iff s t).0 h)

longer : (k j : Text) → eqb_text ((k ++ codes ".") ++ j) j ≡ false
longer k j = elim (Bool-cases (eqb_text ((k ++ codes ".") ++ j) j)) [
  | inr e ↦ e
  | inl e ↦ absurd (
      omega (
        arith,
        eqb_text-length ((k ++ codes ".") ++ j) j e,
        length-append {0} (k ++ codes ".") j,
        length-append {0} k (codes "."),
      ))
]

-- The placeholder of a key inside a map is not replaced: the secret goes under a new key of the
-- inner map, the path of the old one.
pub nested_secret_stays :
    (manager : Manager) (k j secret : Text)
    → manager.get_secret ((k ++ codes ".") ++ j) ≡ some secret
    → load_secrets false manager (entry k (mapping (entry j (text (codes "<secret>")) end)) end)
      ≡ loaded (
          entry k
            (mapping
              (entry j (text (codes "<secret>")) (entry ((k ++ codes ".") ++ j) (text secret) end)))
            end)
unfolding load_secrets traverse request put
nested_secret_stays manager k j secret g = rw (g, longer k j, eqb_refl k) refl
