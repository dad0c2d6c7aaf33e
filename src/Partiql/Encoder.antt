-- ===== src/Partiql/Encoder.antt =====
-- aws/partiql/serializer.go: the encoder. `v.Interface()` of the zero reflect.Value panics.
use go_fw.Prelude.{Bool, true, false, List, [], ◌∷◌, if◌then◌else◌, ℕ, Option, none, some}
use go_fw.Prelude.Text.{Text, codes}
use go_fw.Partiql.Builder.{
  Builder, reset, write_begin_tuple, write_end_tuple, write_key, write_integer, write_uinteger,
  write_float, write_boolean, write_string, write_begin_bag, write_end_bag, write_begin_array,
  write_end_array,
}
use go_fw.Partiql.Value.{
  Value, invalid, unsupported, pointer, custom, custom_failed, time, int, uint, float, bool, string,
  slice, array, dictionary, struct, Items, nil, cons, Entries, none_left, entry, Fields, end, field,
  FieldInfo, TagValue, no_tag, FieldUse, skipped, written, broken, tag_of, field_name, field_use,
}

-- What a call leaves: the builder, the error of a value that marshals itself, or a panic.
pub data Outcome : Type 0 where
  wrote : Builder → Outcome
  failed : ℕ → Outcome
  panicked : Outcome

infixl 5 ◌>>=◌
abbrev pub ◌>>=◌ : Outcome → (Builder → Outcome) → Outcome
wrote b >>= f = f b
failed e >>= f = failed e
panicked >>= f = panicked

abbrev pub end_tuple : Bool → Builder → Outcome
end_tuple true b = wrote b
end_tuple false b = elim (write_end_tuple b) [ none ↦ panicked | some b' ↦ wrote b' ]

abbrev pub begin_tuple : Bool → Builder → Builder
begin_tuple true b = b
begin_tuple false b = write_begin_tuple b

abbrev pub begin_collection : Bool → Builder → Builder
begin_collection true b = write_begin_bag b
begin_collection false b = write_begin_array b

abbrev pub end_collection : Bool → Builder → Builder
end_collection true b = write_end_bag b
end_collection false b = write_end_array b

-- The key of a field, unless the field is squashed.
abbrev pub begin_field : FieldInfo → TagValue → Builder → Builder
begin_field info tag b = if tag.squash then b else write_key (field_name info tag) b

abbrev pub if_written : FieldUse → Builder → Outcome → Outcome
if_written skipped b out = wrote b
if_written written b out = out
if_written broken b out = panicked

unfoldable mutual
  pub marshal : Value → List Text → TagValue → Builder → Outcome
  marshal invalid names tag b = panicked
  marshal unsupported names tag b = wrote b
  marshal (pointer v) names tag b = marshal v names tag b
  marshal (custom v) names tag b = marshal v names tag b
  marshal (custom_failed e) names tag b = failed e
  marshal (time v) names tag b = marshal v names tag b
  marshal (int n) names tag b = wrote (write_integer n b)
  marshal (uint n) names tag b = wrote (write_uinteger n b)
  marshal (float s) names tag b = wrote (write_float s b)
  marshal (bool v) names tag b = wrote (write_boolean v b)
  marshal (string s) names tag b = wrote (write_string s b)
  marshal (slice is_nil xs) names tag b =
      marshal_items xs names (begin_collection tag.bag b) >>= λ b'.
      wrote (end_collection tag.bag b')
  marshal (array xs) names tag b = marshal_items xs names (begin_collection tag.bag b) >>= λ b'.
      wrote (end_collection tag.bag b')
  marshal (dictionary is_nil es) names tag b =
      marshal_entries es names (begin_tuple false b) >>= end_tuple false
  marshal (struct fs) names tag b =
      marshal_fields fs names (begin_tuple tag.squash b) >>= end_tuple tag.squash

  pub marshal_items : Items → List Text → Builder → Outcome
  marshal_items nil names b = wrote b
  marshal_items (cons v vs) names b = marshal v names no_tag b >>= λ b'. marshal_items vs names b'

  pub marshal_entries : Entries → List Text → Builder → Outcome
  marshal_entries none_left names b = wrote b
  marshal_entries (entry k v es) names b =
      marshal v names no_tag (write_key k b) >>= λ b'. marshal_entries es names b'

  pub marshal_fields : Fields → List Text → Builder → Outcome
  marshal_fields end names b = wrote b
  marshal_fields (field info v fs) names b =
      let tag = tag_of names info in
      if_written (field_use info tag v) b (marshal v names tag (begin_field info tag b)) >>= λ b'.
      marshal_fields fs names b'

-- The tag names of `NewEncoder`.
abbrev pub default_tag_names : List Text
default_tag_names = codes "partiql" ∷ codes "dynamodbav" ∷ codes "json" ∷ codes "yaml" ∷ []

-- `MarshalCollection`: the builder is reset first, and gives its text.
unfoldable pub marshal_collection : List Text → Value → Bool → Builder → Outcome
unfolding reset marshal
marshal_collection names v as_bag b = marshal v names (record no_tag { bag = as_bag }) (reset b)

-- `Marshal` of an encoder.
unfoldable pub encode : List Text → Value → Builder → Outcome
unfolding reset marshal
encode names v b = marshal v names no_tag (reset b)

-- `WithTagNames` panics without a name.
unfoldable pub with_tag_names : List Text → Option (List Text)
with_tag_names [] = none
with_tag_names (n ∷ names) = some (n ∷ names)
