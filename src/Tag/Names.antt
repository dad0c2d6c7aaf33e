-- ===== src/Tag/Names.antt =====
-- Which field has a name.
use go_fw.Prelude.{
  ◌≡◌, refl, sym, ap, ◌∙◌, inl, inr, Bool-cases, Option, none, some, List, [], ◌∷◌, ◌++◌, Returns,
}
use go_fw.Prelude.Text.{Text, eqb_text, eqb_text_iff}
use go_fw.Tag.{
  Struct, Kind, end, field, embedded, of_struct, of_other, lookup, field_name, put_unless, put_new,
  put_all_new, put_field, collect, field_names,
}

-- The names of all fields in their order, with those of the embedded structs in their place.
abbrev named : Option Text → Text → List (Text × Text) → List (Text × Text)
named none v rest = rest
named (some k) v rest = (k, v) ∷ rest

abbrev mutual
  pub all_names : List Text → Struct → List (Text × Text)
  all_names ts end = []
  all_names ts (field name tags rest) = named (field_name tags ts) name (all_names ts rest)
  all_names ts (embedded k rest) = kind_names ts k ++ all_names ts rest

  pub kind_names : List Text → Kind → List (Text × Text)
  kind_names ts (of_struct s) = all_names ts s
  kind_names ts of_other = []

-- Every embedded type is a struct.
abbrev mutual
  pub AreStructs : Struct → Type 0
  AreStructs end = Unit
  AreStructs (field name tags rest) = AreStructs rest
  AreStructs (embedded k rest) = IsStruct k × AreStructs rest

  pub IsStruct : Kind → Type 0
  IsStruct (of_struct s) = AreStructs s
  IsStruct of_other = ⊥

abbrev or_next : Option Text → Option Text → Option Text
or_next none next = next
or_next (some v) next = some v

lookup_append :
    (n : Text) (m e : List (Text × Text)) → lookup n (m ++ e) ≡ or_next (lookup n m) (lookup n e)
lookup_append n [] e = refl
lookup_append n ((k, v) ∷ m) e = elim (Bool-cases (eqb_text n k)) [
  | inl h ↦ rw h refl
  | inr h ↦ rw h (lookup_append n m e)
]

or_none : (o : Option Text) → o ≡ or_next o none
or_none none = refl
or_none (some w) = refl

put_unless_lem :
    (n k v : Text) (m : List (Text × Text)) (o : Option Text)
    → lookup k m ≡ o
    → lookup n (put_unless o k v m) ≡ or_next (lookup n m) (lookup n ((k, v) ∷ []))
put_unless_lem n k v m none h = lookup_append n m ((k, v) ∷ [])
put_unless_lem n k v m (some w) h = elim (Bool-cases (eqb_text n k)) [
  | inl e ↦
      let same : lookup n m ≡ some w = ap (λ t. lookup t m) ((eqb_text_iff n k).0 e) ∙ h in
      rw same refl
  | inr e ↦ rw e (or_none (lookup n m))
]

or_next_assoc : (a b c : Option Text) → or_next (or_next a b) c ≡ or_next a (or_next b c)
or_next_assoc none b c = refl
or_next_assoc (some v) b c = refl

cons_lem :
    (n k v : Text) (m : List (Text × Text))
    → or_next (lookup n ((k, v) ∷ [])) (lookup n m) ≡ lookup n ((k, v) ∷ m)
cons_lem n k v m = elim (Bool-cases (eqb_text n k)) [ inl e ↦ rw e refl | inr e ↦ rw e refl ]

-- What a map has after a new name, and then others.
put_lem :
    (n k v : Text) (m e : List (Text × Text))
    → or_next (lookup n (put_new k v m)) (lookup n e) ≡ or_next (lookup n m) (lookup n ((k, v) ∷ e))
put_lem n k v m e =
    ap (λ o. or_next o (lookup n e)) (put_unless_lem n k v m (lookup k m) refl)
    ∙ or_next_assoc (lookup n m) (lookup n ((k, v) ∷ [])) (lookup n e)
    ∙ ap (or_next (lookup n m)) (cons_lem n k v e)

put_all_new_lem :
    (n : Text) (new m : List (Text × Text))
    → lookup n (put_all_new new m) ≡ or_next (lookup n m) (lookup n new)
put_all_new_lem n [] m = or_none (lookup n m)
put_all_new_lem n ((k, v) ∷ new) m = put_all_new_lem n new (put_new k v m) ∙ put_lem n k v m new

put_field_lem :
    (n v : Text) (o : Option Text) (m rest : List (Text × Text))
    → or_next (lookup n (put_field o v m)) (lookup n rest)
      ≡ or_next (lookup n m) (lookup n (named o v rest))
put_field_lem n v none m rest = refl
put_field_lem n v (some k) m rest = put_lem n k v m rest

-- The map `r` has the names of `m`, and then those of `new`.
abbrev Has : List (Text × Text) → List (Text × Text) → List (Text × Text) → Type 0
Has m new r = (n : Text) → lookup n r ≡ or_next (lookup n m) (lookup n new)

-- An embedded struct, between what was there and what comes.
embedded_lem :
    (m inner names rest : List (Text × Text)) (o : Option (List (Text × Text)))
    → Has [] names inner
    → Returns (Has (put_all_new inner m) rest) o
    → Returns (Has m (names ++ rest)) o
embedded_lem m inner names rest none h k = k
embedded_lem m inner names rest (some r) h k = λ n.
    k n
    ∙ ap (λ o. or_next o (lookup n rest))
        (put_all_new_lem n inner m ∙ ap (or_next (lookup n m)) (h n))
    ∙ or_next_assoc (lookup n m) (lookup n names) (lookup n rest)
    ∙ ap (or_next (lookup n m)) (sym (lookup_append n names rest))

field_lem :
    (v : Text) (k : Option Text) (m rest : List (Text × Text)) (o : Option (List (Text × Text)))
    → Returns (Has (put_field k v m) rest) o
    → Returns (Has m (named k v rest)) o
field_lem v k m rest none h = h
field_lem v k m rest (some r) h = λ n. h n ∙ put_field_lem n v k m rest

then_lem :
    (P Q : List (Text × Text) → Type 0) (o : Option (List (Text × Text)))
    (f : List (Text × Text) → Option (List (Text × Text)))
    → Returns P o
    → ((inner : List (Text × Text)) → P inner → Returns Q (f inner))
    → Returns Q (elim o [ none ↦ none | some new ↦ f new ])
then_lem P Q none f h k = absurd h
then_lem P Q (some inner) f h k = k inner h

collect-Has :
    (ts : List Text) (s : Struct) (m : List (Text × Text))
    → AreStructs s
    → Returns (Has m (all_names ts s)) (collect ts s m)
unfolding collect
collect-Has ts end m h = λ n. or_none (lookup n m)
collect-Has ts (field name tags rest) m h =
    field_lem name (field_name tags ts) m (all_names ts rest) _
      (collect-Has ts rest (put_field (field_name tags ts) name m) h)
collect-Has ts (embedded of_other rest) m (h, k) = absurd h
collect-Has ts (embedded (of_struct s) rest) m (h, k) =
    then_lem (Has [] (all_names ts s)) (Has m (all_names ts s ++ all_names ts rest))
      (collect ts s []) (λ new. collect ts rest (put_all_new new m)) (collect-Has ts s [] h)
      (λ inner g.
        embedded_lem m inner (all_names ts s) (all_names ts rest) _ g
          (collect-Has ts rest (put_all_new inner m) k))

-- If every embedded type is a struct, `fieldNames`, which `FieldNames` calls where its cache has no
-- map for the type and the tags, returns a map in which a name stands for the first of the fields
-- that have it, with those of an embedded struct in its place; the name of a field is that of the
-- first of the tags that it has.
pub field_names-lookup :
    (ts : List Text) (s : Struct)
    → AreStructs s
    → Returns (λ r. (n : Text) → lookup n r ≡ lookup n (all_names ts s)) (field_names s ts)
field_names-lookup ts s h = collect-Has ts s [] h
