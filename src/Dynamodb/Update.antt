-- ===== src/Dynamodb/Update.antt =====
-- aws/dynamodb/update.go. The fields to set are a map in the source; here they stand in the order in
-- which it is walked. A value of the caller's is a number that stands for its identity. A float is a
-- whole number of the smallest float64, which each finite one is.
use go_fw.Prelude.{
  ℕ, suc, ◌-◌, ◌^◌, Bool, true, false, ◌&&◌, ◌||◌, not, Option, none, some, List, [], ◌∷◌, ◌++◌,
  ◌==◌, if◌then◌else◌,
}
use go_fw.Prelude.Int.{ℤ, pos, negsuc, eqb_ℤ, ltb_ℤ}
use go_fw.Prelude.Text.{Text, codes, eqb_text}
use go_fw.Partiql.Builder.{new_builder, format_int}
use go_fw.Partiql.Value.{Items, slice}
use go_fw.Partiql.Encoder.{Outcome, wrote, failed, panicked, marshal_collection, default_tag_names}
use go_fw.Dynamodb.{
  Piece, text, mark, Code, bad_argument, bad_state, not_found, unknown, PrimaryKey, Model, Reply,
  client_failed, items,
}

-- A value of the fields to set: a list append, a set add or a set delete, an increment, or any other.
pub data FieldValue : Type 0 where
  collection : Text → Bool → Items → FieldValue
  increment_int : ℤ → FieldValue
  increment_uint : ℕ → FieldValue
  increment_float : ℤ → FieldValue
  other : ℕ → FieldValue

pub data Param : Type 0 where
  now_ts : Param
  given : ℕ → Param
  int64 : ℤ → Param
  uint64 : ℕ → Param
  float64 : ℤ → Param
  hash_value : Text → Param
  range_value : Option ℕ → Param

pub record Update : Type 0 where
  pub result_err : Option Code
  pub set_fields : List (Text × FieldValue)
  pub remove_fields : List Text

abbrev pub is_nil : Option ℕ → Bool
is_nil none = true
is_nil (some r) = false

abbrev pub is_zero_pk : PrimaryKey → Bool
is_zero_pk pk =
    eqb_text pk.hash_key [] && eqb_text pk.hash [] && eqb_text pk.range_key [] && is_nil pk.range

unfoldable pub new_update : PrimaryKey → Update
new_update pk =
    if is_zero_pk pk || (not (eqb_text pk.range_key []) && is_nil pk.range)
    then record { result_err = some bad_argument; set_fields = []; remove_fields = [] }
    else record { result_err = none; set_fields = []; remove_fields = [] }

abbrev pub has_field : Text → List (Text × FieldValue) → Bool
has_field k [] = false
has_field k ((j, v) ∷ fs) = eqb_text k j || has_field k fs

unfoldable pub set_field : Text → FieldValue → Update → Update
set_field k v u =
    if has_field k u.set_fields
    then record u { result_err = some bad_argument }
    else record u { set_fields = (k, v) ∷ u.set_fields }

unfoldable pub remove_field : Text → Update → Update
remove_field k u = record u { remove_fields = u.remove_fields ++ k ∷ [] }

abbrev pub append_to_list : Text → Items → Update → Update
append_to_list k xs u = set_field k (collection (codes "LIST_APPEND") false xs) u

unfoldable pub remove_from_list : Text → ℤ → Update → Update
unfolding remove_field
remove_from_list k i u = remove_field (k ++ (codes "[" ++ (format_int i ++ codes "]"))) u

abbrev pub add_to_set : Text → Items → Update → Update
add_to_set k xs u = set_field k (collection (codes "SET_ADD") true xs) u

abbrev pub remove_from_set : Text → Items → Update → Update
remove_from_set k xs u = set_field k (collection (codes "SET_DELETE") true xs) u

-- The kinds of value that `Increment` tells apart.
pub data Amount : Type 0 where
  of_int : ℤ → Amount
  of_uint : ℕ → Amount
  of_float : ℤ → Amount
  of_other : Amount

unfoldable pub increment : Text → Amount → Update → Update
unfolding set_field
increment k (of_int n) u = set_field k (increment_int n) u
increment k (of_uint n) u = set_field k (increment_uint n) u
increment k (of_float x) u = set_field k (increment_float x) u
increment k of_other u = record u { result_err = some bad_argument }

-- `-inc`, of a float and of an int64, where the least number is its own opposite.
abbrev pub neg_ℤ : ℤ → ℤ
neg_ℤ (pos n) = if n == 0 then pos 0 else negsuc (n - 1)
neg_ℤ (negsuc n) = pos (suc n)

abbrev pub min_int64 : ℤ
min_int64 = negsuc (2 ^ 63 - 1)

abbrev pub neg_int64 : ℤ → ℤ
neg_int64 n = if eqb_ℤ n min_int64 then n else neg_ℤ n

abbrev pub Part : Type 0
Part = List Piece × List Param

abbrev pub plus : Text → Param → Part
plus k p = (text k ∷ text (codes " + ") ∷ mark ∷ [], p ∷ [])

abbrev pub minus : Text → Param → Part
minus k p = (text k ∷ text (codes " - ") ∷ mark ∷ [], p ∷ [])

abbrev pub unchanged : Text → Part
unchanged k = (text k ∷ [], [])

unfoldable pub apply_int : Text → ℤ → Part
apply_int k n =
    if eqb_ℤ n (pos 0)
    then unchanged k
    else if ltb_ℤ n (pos 0)
    then minus k (int64 (neg_int64 n))
    else plus k (int64 n)

unfoldable pub apply_uint : Text → ℕ → Part
apply_uint k n = if n == 0 then unchanged k else plus k (uint64 n)

unfoldable pub apply_float : Text → ℤ → Part
apply_float k x =
    if eqb_ℤ x (pos 0)
    then unchanged k
    else if ltb_ℤ x (pos 0)
    then minus k (float64 (neg_ℤ x))
    else plus k (float64 x)

-- A part of the statement, the error of a value that cannot be encoded, or a panic of the encoder.
pub data Built : Type 0 where
  built : Part → Built
  build_failed : Code → Built
  build_panicked : Built

infixl 5 ◌>>=◌
abbrev pub ◌>>=◌ : Built → (Part → Built) → Built
built p >>= f = f p
build_failed e >>= f = build_failed e
build_panicked >>= f = build_panicked

abbrev pub join_parts : Part → Part → Part
join_parts (ps, xs) (qs, ys) = (ps ++ qs, xs ++ ys)

-- The text before the items of a collection.
abbrev pub collection_head : Text → Bool → Text → List Piece
collection_head name true k = text name ∷ text (codes "(") ∷ text k ∷ text (codes ", ") ∷ []
collection_head name false k =
    text name
    ∷ text (codes "(")
    ∷ text (codes "if_not_exists(")
    ∷ text k
    ∷ text (codes ", []), ")
    ∷ []

abbrev pub collection_of : Outcome → List Piece → Built
collection_of (wrote b) head = built (head ++ text b.out ∷ text (codes ")") ∷ [], [])
collection_of (failed e) head = build_failed unknown
collection_of panicked head = build_panicked

unfoldable pub value_part : Text → FieldValue → Built
unfolding marshal_collection apply_int apply_uint apply_float
value_part k (collection name bag xs) =
    collection_of (marshal_collection default_tag_names (slice false xs) bag new_builder)
      (collection_head name bag k)
value_part k (increment_int n) = built (apply_int k n)
value_part k (increment_uint n) = built (apply_uint k n)
value_part k (increment_float x) = built (apply_float k x)
value_part k (other v) = built (mark ∷ [], given v ∷ [])

-- The loop over the fields to set.
unfoldable pub set_part : List (Text × FieldValue) → Part → Built
unfolding value_part
set_part [] acc = built acc
set_part ((k, v) ∷ fs) acc = value_part k v >>= λ p.
    set_part fs
      (join_parts (join_parts acc (text (codes " SET ") ∷ text k ∷ text (codes " = ") ∷ [], [])) p)

abbrev pub remove_part : List Text → Part → Part
remove_part [] acc = acc
remove_part (k ∷ ks) acc =
    remove_part ks (join_parts acc (text (codes " REMOVE ") ∷ text k ∷ [], []))

abbrev pub update_ts_part : Option Text → Part
update_ts_part none = ([], [])
update_ts_part (some k) =
    (text (codes " SET ") ∷ text k ∷ text (codes " = ") ∷ mark ∷ [], now_ts ∷ [])

abbrev pub where_part : PrimaryKey → Part
where_part pk =
    if eqb_text pk.range_key []
    then (
      text (codes " WHERE ") ∷ text pk.hash_key ∷ text (codes " = ") ∷ mark ∷ [],
      hash_value pk.hash ∷ [],
    )
    else (
      text (codes " WHERE ")
          ∷ text pk.hash_key
          ∷ text (codes " = ")
          ∷ mark
          ∷ text (codes " AND ")
          ∷ text pk.range_key
          ∷ text (codes " = ")
          ∷ mark
          ∷ [],
      hash_value pk.hash ∷ range_value pk.range ∷ [],
    )

-- The statement of `Execute` and its parameters.
unfoldable pub statement : Text → Model → Update → Built
unfolding set_part
statement prefix m u =
    let start : Part =
      (text (codes "UPDATE \"") ∷ text (prefix ++ m.table_name) ∷ text (codes "\"") ∷ [], []) in
    set_part u.set_fields (join_parts start (update_ts_part m.update_ts_key)) >>= λ p. built (
      join_parts (join_parts (remove_part u.remove_fields p) (where_part m.pk))
        (text (codes " RETURNING ALL NEW *") ∷ [], []))

-- How `Execute` ends: with no error, with an error, or by a panic of the encoder.
pub data Ending : Type 0 where
  done : Ending
  error : Code → Ending
  panics : Ending

abbrev pub single_item : ℕ → Bool → Ending
single_item n decoded =
    if n == 0
    then error not_found
    else if not (n == 1)
    then error bad_state
    else if decoded
    then done
    else error unknown

abbrev pub answered : Reply → Ending
answered client_failed = error unknown
answered (items n decoded) = single_item n decoded

-- `encoded` says whether the parameters can be marshalled.
abbrev pub sent : Bool → Reply → Built → Ending
sent encoded reply (built p) = if encoded then answered reply else error unknown
sent encoded reply (build_failed e) = error e
sent encoded reply build_panicked = panics

-- An error that is returned is kept as that of the update.
abbrev pub kept : Ending → Update → Update × Ending
kept (error e) u = (record u { result_err = some e }, error e)
kept ending u = (u, ending)

unfoldable pub execute : Text → Model → Bool → Reply → Update → Update × Ending
unfolding statement
execute prefix m encoded reply u = elim u.result_err [
  | some e ↦ (u, error e)
  | none ↦ kept (sent encoded reply (statement prefix m u)) u
]
