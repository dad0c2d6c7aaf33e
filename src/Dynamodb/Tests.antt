-- ===== src/Dynamodb/Tests.antt =====
-- The builders at small inputs.
use go_fw.Prelude.{◌≡◌, ◌≢◌, ◌⊎◌, ◌^◌, ◌||◌, none, some}
use go_fw.Prelude.Int.{pos, negsuc, ◌+ℤ◌}
use go_fw.Prelude.Text.{codes}
use go_fw.Partiql.Value.{string, cons, nil}
use go_fw.Dynamodb.{PrimaryKey, Model}
use go_fw.Dynamodb.Update.{
  Update, new_update, increment_int, other, statement, set_field, remove_field, append_to_list,
  apply_int, min_int64,
}
use go_fw.Prelude.{Bool, not, ◌&&◌, List, [], ◌∷◌}
use go_fw.Prelude.Text.{Text, eqb_text, starts_with}
use go_fw.Dynamodb.Tables.{Client, not_listed, reported, delete_all_tables}
use go_fw.Functional.{filter}
use go_fw.Dynamodb.Deleting.{is_in, recorded, tables_of, errors_of, delete_all_tables-asked}
use go_fw.Dynamodb.Marks.{WhenBuilt, statement-WhenBuilt}
use go_fw.Dynamodb.Increment.{meaning, apply_int-meaning}

abbrev key : PrimaryKey
key = record { hash_key = codes "id"; hash = codes "h"; range_key = codes "at"; range = some 3 }

abbrev other_key : PrimaryKey
other_key = record key { hash = codes "g"; range = none }

abbrev model : Model
model = record { table_name = codes "t"; update_ts_key = some (codes "ts"); pk = key }

abbrev sample : Update
sample = remove_field (codes "old") (
    append_to_list (codes "tags") (cons (string (codes "x")) nil) (
      set_field (codes "n") (increment_int (negsuc 4))
        (set_field (codes "v") (other 9) (new_update key))))

statement-WhenBuilt_example : WhenBuilt (statement (codes "dev_") model sample)
statement-WhenBuilt_example = statement-WhenBuilt (codes "dev_") model sample

apply_int-meaning_example :
    ((min_int64 ≢ min_int64)
      × (meaning (apply_int (codes "n") min_int64) (pos 5) ≡ some (pos 5 +ℤ min_int64)))
    ⊎ ((min_int64 ≡ min_int64)
        × (meaning (apply_int (codes "n") min_int64) (pos 5) ≡ some (pos 5 +ℤ pos (2 ^ 63))))
apply_int-meaning_example = apply_int-meaning (codes "n") min_int64 (pos 5)

-- A client whose state says of each name whether its table is there, with one page of names.
abbrev tables : List Text
tables = codes "dev_users" ∷ codes "prod_users" ∷ []

abbrev small_client : Client
small_client = record {
  S = Text → Bool;
  list_page = λ s. some tables;
  create = λ i s. ((λ u. s u || eqb_text u i.table_name), none);
  delete = λ t s. (λ u. s u && not (eqb_text u t), none);
}

delete_all_tables-asked_example :
    let s : Text → Bool = λ u. is_in u tables in
    let r = delete_all_tables (recorded small_client) (codes "dev_") (s, []) in
    ((small_client.list_page s ≡ none) × (r.0.1 ≡ []) × (r.1 ≡ not_listed))
    ⊎ ((names : List Text) × (small_client.list_page s ≡ some names)
        × (tables_of r.0.1 ≡ filter names (starts_with (codes "dev_")))
        × ((u : Text) → is_in u (tables_of r.0.1) ≡ starts_with (codes "dev_") u && is_in u names)
        × (r.1 ≡ reported small_client (errors_of small_client r.0.1)))
delete_all_tables-asked_example =
    delete_all_tables-asked small_client (codes "dev_") (λ u. is_in u tables)
