-- ===== src/Tag.antt =====
-- tag/tag.go: the names that the tags of a struct give its fields. A field of a struct is an embedded
-- type, or has a name and tags, each with its text.
pub mod Names
pub mod Tests
use go_fw.Prelude.{
  Bool, true, false, ◌||◌, Option, none, some, List, [], ◌∷◌, ◌++◌, ◌==◌, if◌then◌else◌,
}
use go_fw.Prelude.Text.{Text, eqb_text}

-- The struct type of an embedded field, or another type, such as a pointer to a struct.
mutual
  pub data Struct : Type 0 where
    end : Struct
    field : Text → List (Text × Text) → Struct → Struct
    embedded : Kind → Struct → Struct

  pub data Kind : Type 0 where
    of_struct : Struct → Kind
    of_other : Kind

-- A map from text to text; the first entry for a key counts.
abbrev pub lookup : Text → List (Text × Text) → Option Text
lookup k [] = none
lookup k ((j, v) ∷ m) = if eqb_text k j then some v else lookup k m

-- The text ahead of the first comma.
unfoldable pub cut_comma : Text → Text
cut_comma [] = []
cut_comma (c ∷ s) = let rest = cut_comma s in if c == b',' then [] else c ∷ rest

-- A tag that was looked up, or the next one.
abbrev pub found_or : Option Text → Option Text → Option Text
found_or none next = next
found_or (some t) next = some (cut_comma t)

-- `FieldName`: the name, if it was found.
unfoldable pub field_name : List (Text × Text) → List Text → Option Text
field_name tags [] = none
field_name tags (t ∷ ts) = found_or (lookup t tags) (field_name tags ts)

-- `resp[name] = value`, unless the map has the name.
abbrev pub put_unless : Option Text → Text → Text → List (Text × Text) → List (Text × Text)
put_unless none k v m = m ++ ((k, v) ∷ [])
put_unless (some w) k v m = m

abbrev pub put_new : Text → Text → List (Text × Text) → List (Text × Text)
put_new k v m = put_unless (lookup k m) k v m

abbrev pub put_all_new : List (Text × Text) → List (Text × Text) → List (Text × Text)
put_all_new [] m = m
put_all_new ((k, v) ∷ new) m = put_all_new new (put_new k v m)

abbrev pub put_field : Option Text → Text → List (Text × Text) → List (Text × Text)
put_field none v m = m
put_field (some k) v m = put_new k v m

-- The loop of `fieldNames` on the map so far; `none` is the panic of NumField for a type that is not
-- a struct.
unfoldable mutual
  pub collect : List Text → Struct → List (Text × Text) → Option (List (Text × Text))
  collect ts end m = some m
  collect ts (field name tags rest) m = collect ts rest (put_field (field_name tags ts) name m)
  collect ts (embedded k rest) m = elim (collect_kind ts k) [
    | none ↦ none
    | some new ↦ collect ts rest (put_all_new new m)
  ]

  pub collect_kind : List Text → Kind → Option (List (Text × Text))
  collect_kind ts (of_struct s) = collect ts s []
  collect_kind ts of_other = none

abbrev pub field_names : Struct → List Text → Option (List (Text × Text))
field_names s ts = collect ts s []
