-- ===== src/Dynamodb/Table.antt =====
-- aws/dynamodb/insert.go and delete.go. Instants and fresh ids are arguments; the zero time is 0.
use go_fw.Prelude.{ℕ, Bool, ◌&&◌, not, Option, none, some, List, [], ◌∷◌, ◌++◌, ◌==◌, if◌then◌else◌}
use go_fw.Prelude.Text.{Text, codes, eqb_text}
use go_fw.Partiql.Builder.{new_builder}
use go_fw.Partiql.Value.{Value}
use go_fw.Partiql.Encoder.{Outcome, wrote, failed, panicked, encode, default_tag_names}
use go_fw.Dynamodb.{Piece, text, Code, bad_argument, conflict, not_found, unknown, PrimaryKey}
use go_fw.Dynamodb.Update.{is_nil, where_part, Param, Ending, done, error, panics}

-- What `Insert` reads and writes of a model: its times, if it has an update time, and its key.
pub record Times : Type 0 where
  pub create_ts : ℕ
  pub update_ts : Option ℕ
  pub pk : PrimaryKey

abbrev pub stamped : ℕ → Option ℕ → Option ℕ
stamped ts none = none
stamped ts (some old) = some ts

-- The times are filled first, also where the key is then refused.
unfoldable pub fill_times : ℕ → Times → Times
fill_times now m =
    let created = if m.create_ts == 0 then now else m.create_ts in
    record m { create_ts = created; update_ts = stamped created m.update_ts }

-- `Insert`: the model, and the error that `Execute` will return.
unfoldable pub insert : ℕ → Text → Times → Times × Option Code
unfolding fill_times
insert now uuid m =
    let m' = fill_times now m in
    if not (eqb_text m.pk.hash [])
    then (m', none)
    else if not (eqb_text m.pk.range_key []) && is_nil m.pk.range
    then (m', some bad_argument)
    else (record m' { pk = record m.pk { hash = uuid } }, none)

-- What the client says of an insert.
pub data InsertReply : Type 0 where
  inserted duplicate generic_duplicate other_failure : InsertReply

abbrev pub insert_ending : InsertReply → Ending
insert_ending inserted = done
insert_ending duplicate = error conflict
insert_ending generic_duplicate = error conflict
insert_ending other_failure = error unknown

abbrev pub insert_sent : InsertReply → Outcome → Ending
insert_sent reply (wrote b) = insert_ending reply
insert_sent reply (failed e) = error unknown
insert_sent reply panicked = panics

-- The error of an insert or a delete is also kept in the builder, which has no other state.
unfoldable pub execute_insert : Option Code → Value → InsertReply → Ending
unfolding encode
execute_insert (some e) v reply = error e
execute_insert none v reply = insert_sent reply (encode default_tag_names v new_builder)

-- The where clause is written as that of an update.
unfoldable pub delete_statement : Text → PrimaryKey → List Piece × List Param
delete_statement table_name pk =
    let (clause, params) = where_part pk in
    (
      text (codes "DELETE FROM \"")
          ∷ text table_name
          ∷ text (codes "\"")
          ∷ (clause ++ text (codes " RETURNING ALL OLD *") ∷ []),
      params,
    )

-- What the client says of a delete.
pub data DeleteReply : Type 0 where
  deleted : ℕ → DeleteReply
  condition_failed delete_failed : DeleteReply

abbrev pub delete_ending : DeleteReply → Ending
delete_ending (deleted n) = if n == 0 then error not_found else done
delete_ending condition_failed = error not_found
delete_ending delete_failed = error unknown

unfoldable pub execute_delete : Bool → DeleteReply → Ending
execute_delete encoded reply = if encoded then delete_ending reply else error unknown
