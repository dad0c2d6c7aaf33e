-- ===== src/Partiql/Value.antt =====
-- The values that aws/partiql/serializer.go walks by reflection, and the field tags of
-- aws/partiql/tag.go. A value stands for what reflection sees of it.
use go_fw.Prelude.{
  ℕ, Bool, true, false, not, ◌&&◌, ◌||◌, List, [], ◌∷◌, Option, none, some, ◌==◌, if◌then◌else◌,
}
use go_fw.Prelude.Int.{ℤ}
use go_fw.Prelude.Text.{Text, codes, eqb_text, starts_with}

-- A field of a struct: `promoted` says that it is one of an embedded struct's, and `tags` are the
-- pairs of its tag.
pub record FieldInfo : Type 0 where
  pub name : Text
  pub exported : Bool
  pub promoted : Bool
  pub tags : List (Text × Text)

-- `invalid` is the zero reflect.Value, which a nil pointer or interface points to; `unsupported` a
-- channel, function, complex number or raw pointer. A `custom` value marshals itself, to another
-- value or with an error. A time comes with what the encoder's TimeMarshaler makes of it. A map
-- comes in the order in which its keys are listed; a slice or map says whether it is nil.
mutual
  pub data Value : Type 0 where
    invalid unsupported : Value
    pointer : Value → Value
    custom : Value → Value
    custom_failed : ℕ → Value
    time : Value → Value
    int : ℤ → Value
    uint : ℕ → Value
    float : Text → Value
    bool : Bool → Value
    string : Text → Value
    slice : Bool → Items → Value
    array : Items → Value
    dictionary : Bool → Entries → Value
    struct : Fields → Value

  pub data Items : Type 0 where
    nil : Items
    cons : Value → Items → Items

  pub data Entries : Type 0 where
    none_left : Entries
    entry : Text → Value → Entries → Entries

  pub data Fields : Type 0 where
    end : Fields
    field : FieldInfo → Value → Fields → Fields

pub record TagValue : Type 0 where
  pub name : Text
  pub ignore : Bool
  pub squash : Bool
  pub bag : Bool

abbrev pub no_tag : TagValue
no_tag = record { name = []; ignore = false; squash = false; bag = false }

-- strings.Cut at a comma.
unfoldable pub before_comma : Text → Text
before_comma [] = []
before_comma (c ∷ s) = if c == b',' then [] else c ∷ before_comma s

unfoldable pub after_comma : Text → Text
after_comma [] = []
after_comma (c ∷ s) = if c == b',' then s else after_comma s

-- strings.Contains
unfoldable pub contains : Text → Text → Bool
contains [] p = starts_with p []
contains (c ∷ s) p = starts_with p (c ∷ s) || contains s p

unfoldable pub parse_tag : Text → TagValue
unfolding before_comma after_comma contains
parse_tag s = record {
  name = before_comma s;
  ignore = eqb_text (before_comma s) (codes "-");
  squash = contains (after_comma s) (codes "squash");
  bag = contains (after_comma s) (codes "bag");
}

abbrev pub lookup_tag : Text → List (Text × Text) → Option Text
lookup_tag k [] = none
lookup_tag k ((j, v) ∷ rest) = if eqb_text k j then some v else lookup_tag k rest

abbrev pub tag_or : Option Text → TagValue → TagValue
tag_or none other = other
tag_or (some s) other = parse_tag s

-- The tag under the first of the encoder's names that the field has.
unfoldable pub tag_of : List Text → FieldInfo → TagValue
unfolding parse_tag
tag_of [] info = no_tag
tag_of (n ∷ names) info = tag_or (lookup_tag n info.tags) (tag_of names info)

unfoldable pub field_name : FieldInfo → TagValue → Text
field_name info tag = if eqb_text tag.name [] then info.name else tag.name

unfoldable pub is_empty_collection : Value → Bool
is_empty_collection (pointer (slice is_nil nil)) = true
is_empty_collection (slice is_nil nil) = true
is_empty_collection _ = false

-- What becomes of a field: it is left out, written, or makes `IsNil` panic, as an array does.
pub data FieldUse : Type 0 where
  skipped written broken : FieldUse

abbrev pub by_kind : Value → FieldUse
by_kind unsupported = skipped
by_kind invalid = skipped
by_kind (pointer invalid) = skipped
by_kind (slice true xs) = skipped
by_kind (dictionary true es) = skipped
by_kind (array xs) = broken
by_kind _ = written

abbrev pub unless_empty : Bool → FieldUse → FieldUse
unless_empty true written = skipped
unless_empty _ u = u

unfoldable pub field_use : FieldInfo → TagValue → Value → FieldUse
unfolding is_empty_collection
field_use info tag v =
    if not info.exported || info.promoted
    then skipped
    else if tag.ignore
    then skipped
    else unless_empty (tag.bag && is_empty_collection v) (by_kind v)
