-- ===== src/Dynamodb/Tables.antt =====
-- aws/dynamodb/dynamodb.go: how tables are created, listed and deleted. The client of AWS is a
-- parameter; a table stands for its name.
use go_fw.Prelude.{ℕ, Option, none, some, List, [], ◌∷◌, ◌++◌, if◌then◌else◌}
use mathlib.Core.Option
use go_fw.Prelude.Text.{Text, eqb_text, starts_with}
use go_fw.Functional.{filter}
use go_fw.Dynamodb.{Model}
use go_fw.Dynamodb.Update.{is_zero_pk}

-- The kind of a range value's type.
pub data RangeKind : Type 0 where
  a_string a_number a_time another : RangeKind

pub data AttributeType : Type 0 where
  type_s type_n : AttributeType

pub data KeyType : Type 0 where
  key_hash key_range : KeyType

pub record CreateTableInput : Type 0 where
  pub attribute_definitions : List (Text × AttributeType)
  pub key_schema : List (Text × KeyType)
  pub table_name : Text

-- What `CreateTable` comes to before it asks the client: an error, a panic, or the input.
pub data Input : Type 0 where
  missing_key unsupported_type panics : Input
  input : CreateTableInput → Input

abbrev pub attribute_type : RangeKind → Option AttributeType
attribute_type a_string = some type_s
attribute_type a_number = some type_n
attribute_type a_time = some type_n
attribute_type another = none

abbrev pub with_range : Text → Option AttributeType → CreateTableInput → Input
with_range key none i = unsupported_type
with_range key (some t) i = input (record i {
  attribute_definitions = i.attribute_definitions ++ ((key, t) ∷ []);
  key_schema = i.key_schema ++ ((key, key_range) ∷ []);
})

-- reflect.TypeOf of a nil value is nil, of which Kind panics.
abbrev pub range_input : (ℕ → RangeKind) → Text → Option ℕ → CreateTableInput → Input
range_input kind_of key none i = panics
range_input kind_of key (some v) i = with_range key (attribute_type (kind_of v)) i

unfoldable pub create_input : (ℕ → RangeKind) → Text → Model → Input
create_input kind_of prefix m =
    let i : CreateTableInput = record {
      attribute_definitions = (m.pk.hash_key, type_s) ∷ [];
      key_schema = (m.pk.hash_key, key_hash) ∷ [];
      table_name = prefix ++ m.table_name;
    } in
    if is_zero_pk m.pk
    then missing_key
    else (if eqb_text m.pk.range_key []
        then input i
        else range_input kind_of m.pk.range_key m.pk.range i)

-- The client: a page of names or an error, and the creation and the deletion of a table with their
-- errors.
pub record Client : Type 1 where
  pub S : Type 0
  pub list_page : S → Option (List Text)
  pub create : CreateTableInput → S → S × Option ℕ
  pub delete : Text → S → S × Option ℕ

-- How `CreateTable` ends.
pub data Creation : Type 0 where
  table_created no_key bad_range panicked : Creation
  not_created : ℕ → Creation

-- What `DeleteAllTables` returns.
pub data Deleted : Type 0 where
  not_listed : Deleted
  all_deleted : Deleted
  not_deleted : List ℕ → Deleted

module _ (c : Client) where
  open c use {S, list_page, create, delete}

  abbrev pub creation_of : Option ℕ → Creation
  creation_of none = table_created
  creation_of (some e) = not_created e

  abbrev pub create_from : Input → S → S × Creation
  create_from missing_key s = (s, no_key)
  create_from unsupported_type s = (s, bad_range)
  create_from panics s = (s, panicked)
  create_from (input i) s = let (after, err) = create i s in (after, creation_of err)

  abbrev pub create_table : (ℕ → RangeKind) → Text → Model → S → S × Creation
  create_table kind_of prefix m s = create_from (create_input kind_of prefix m) s

  -- The errors of a round and of those after it; a panic ends the loop.
  abbrev pub collect : Creation → S → S × Option (List Creation) → S × Option (List Creation)
  collect table_created after rest = rest
  collect no_key after (end, errs) = (end, Option.map (λ es. no_key ∷ es) errs)
  collect bad_range after (end, errs) = (end, Option.map (λ es. bad_range ∷ es) errs)
  collect (not_created e) after (end, errs) = (end, Option.map (λ es. not_created e ∷ es) errs)
  collect panicked after rest = (after, none)

  -- `CreateTables`: its errors, in the order of the models; `none` is a panic.
  unfoldable pub create_tables :
      (ℕ → RangeKind) → Text → List Model → S → S × Option (List Creation)
  create_tables kind_of prefix [] s = (s, some [])
  create_tables kind_of prefix (m ∷ ms) s =
      let (after, r) = create_table kind_of prefix m s in
      collect r after (create_tables kind_of prefix ms after)

  abbrev pub named : Text → Option (List Text) → Option (List Text)
  named prefix none = none
  named prefix (some names) = some (filter names (starts_with prefix))

  abbrev pub list_tables : Text → S → Option (List Text)
  list_tables prefix s = named prefix (list_page s)

  abbrev pub delete_table : Text → Model → S → S × Option ℕ
  delete_table prefix m s = delete (prefix ++ m.table_name) s

  abbrev pub add_err : Option ℕ → List ℕ → List ℕ
  add_err none errs = errs
  add_err (some e) errs = e ∷ errs

  -- The errors come in the order of the tables.
  unfoldable pub delete_each : List Text → S → S × List ℕ
  delete_each [] s = (s, [])
  delete_each (t ∷ ts) s =
      let (after, err) = delete t s in
      let (end, errs) = delete_each ts after in (end, add_err err errs)

  abbrev pub reported : List ℕ → Deleted
  reported [] = all_deleted
  reported (e ∷ errs) = not_deleted (e ∷ errs)

  abbrev pub delete_listed : Option (List Text) → S → S × Deleted
  delete_listed none s = (s, not_listed)
  delete_listed (some tables) s = let (after, errs) = delete_each tables s in (after, reported errs)

  unfoldable pub delete_all_tables : Text → S → S × Deleted
  delete_all_tables prefix s = delete_listed (list_tables prefix s) s
