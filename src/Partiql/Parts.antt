-- ===== src/Partiql/Parts.antt =====
-- What a value is written as, with no builder: the texts of its parts, which commas join. A value is
-- one part, an unsupported one none, and a squashed struct the parts of its fields. `none` stands
-- for a value that the encoder cannot write, or that leaves a key without a value.
use go_fw.Prelude.{Bool, true, false, Option, none, some, List, [], ◌∷◌, ◌++◌}
use go_fw.Prelude.Text.{Text, codes}
use go_fw.Partiql.Builder.{separator, quoted, format_int, format_bool}
use go_fw.Prelude.Text.{format_uint}
use go_fw.Partiql.Value.{
  Value, invalid, unsupported, pointer, custom, custom_failed, time, int, uint, float, bool, string,
  slice, array, dictionary, struct, Items, nil, cons, Entries, none_left, entry, Fields, end, field,
  FieldUse, skipped, written, broken, no_tag, tag_of, field_name, field_use, TagValue,
}

-- The parts with what goes before each: a comma, but for the first if `sep` is false.
abbrev pub lead : Bool → List Text → Text
lead sep [] = []
lead sep (p ∷ ps) = separator sep ++ (p ++ lead true ps)

abbrev pub join : List Text → Text
join ps = lead false ps

infixl 5 ◌>>=◌
abbrev pub ◌>>=◌ : {A B : Type 0} → Option A → (A → Option B) → Option B
none >>= f = none
some a >>= f = f a

abbrev pub only : List Text → Option Text
only (p ∷ []) = some p
only _ = none

abbrev pub collection_part : Bool → List Text → Text
collection_part true ps = codes "<<" ++ (join ps ++ codes ">>")
collection_part false ps = codes "[" ++ (join ps ++ codes "]")

abbrev pub tuple_parts : Bool → List Text → List Text
tuple_parts true ps = ps
tuple_parts false ps = (codes "{" ++ (join ps ++ codes "}")) ∷ []

abbrev pub keyed : Text → Text → Text
keyed k p = (codes "'" ++ (k ++ codes "':")) ++ p

-- The parts of a field that is written.
abbrev pub field_parts : Bool → Text → List Text → Option (List Text)
field_parts true k ps = some ps
field_parts false k ps = only ps >>= λ p. some (keyed k p ∷ [])

abbrev pub used : FieldUse → Option (List Text) → Option (List Text)
used skipped ps = some []
used written ps = ps
used broken ps = none

unfoldable mutual
  pub parts : Value → List Text → TagValue → Option (List Text)
  parts invalid names tag = none
  parts unsupported names tag = some []
  parts (pointer v) names tag = parts v names tag
  parts (custom v) names tag = parts v names tag
  parts (custom_failed e) names tag = none
  parts (time v) names tag = parts v names tag
  parts (int n) names tag = some (format_int n ∷ [])
  parts (uint n) names tag = some (format_uint n ∷ [])
  parts (float s) names tag = some (s ∷ [])
  parts (bool v) names tag = some (format_bool v ∷ [])
  parts (string s) names tag = some (quoted s ∷ [])
  parts (slice is_nil xs) names tag =
      parts_items xs names >>= λ ps. some (collection_part tag.bag ps ∷ [])
  parts (array xs) names tag = parts_items xs names >>= λ ps. some (collection_part tag.bag ps ∷ [])
  parts (dictionary is_nil es) names tag =
      parts_entries es names >>= λ ps. some (tuple_parts false ps)
  parts (struct fs) names tag = parts_fields fs names >>= λ ps. some (tuple_parts tag.squash ps)

  pub parts_items : Items → List Text → Option (List Text)
  parts_items nil names = some []
  parts_items (cons v vs) names =
      parts v names no_tag >>= λ ps. parts_items vs names >>= λ qs. some (ps ++ qs)

  pub parts_entries : Entries → List Text → Option (List Text)
  parts_entries none_left names = some []
  parts_entries (entry k v es) names = (parts v names no_tag >>= field_parts false k) >>= λ ps.
      parts_entries es names >>= λ qs. some (ps ++ qs)

  pub parts_fields : Fields → List Text → Option (List Text)
  parts_fields end names = some []
  parts_fields (field info v fs) names =
      let tag = tag_of names info in
      used (field_use info tag v)
        (parts v names tag >>= field_parts tag.squash (field_name info tag))
      >>= λ ps. parts_fields fs names >>= λ qs. some (ps ++ qs)
