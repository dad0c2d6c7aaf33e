-- ===== src/Dynamodb.antt =====
-- aws/dynamodb: what the builders of statements share. A statement is kept in pieces, of which a
-- `mark` is a `?` that the code writes for a parameter; its text is their texts in a row.
pub mod Update
pub mod Query
pub mod Table
pub mod Tables
pub mod Deleting
pub mod Marks
pub mod Increment
pub mod Tests
use go_fw.Prelude.{ℕ, suc, Option, none, some, List, [], ◌∷◌, ◌++◌, Bool, true, false}
use go_fw.Prelude.Text.{Text, codes}

pub data Piece : Type 0 where
  text : Text → Piece
  mark : Piece

abbrev pub piece_text : Piece → Text
piece_text (text s) = s
piece_text mark = codes "?"

unfoldable pub render : List Piece → Text
render [] = []
render (p ∷ ps) = piece_text p ++ render ps

abbrev pub marks : List Piece → ℕ
marks [] = 0
marks (mark ∷ ps) = suc (marks ps)
marks (text s ∷ ps) = marks ps

-- The codes of the errors that the builders return.
pub data Code : Type 0 where
  bad_argument bad_state not_found conflict unknown : Code

-- A range value is a number that stands for its identity; nil is `none`.
pub record PrimaryKey : Type 0 where
  pub hash_key : Text
  pub hash : Text
  pub range_key : Text
  pub range : Option ℕ

-- A model, with the key of its update time if it has one.
pub record Model : Type 0 where
  pub table_name : Text
  pub update_ts_key : Option Text
  pub pk : PrimaryKey

-- What the client answers to a statement: an error, or a number of items and whether the decoder
-- takes them.
pub data Reply : Type 0 where
  client_failed : Reply
  items : ℕ → Bool → Reply
