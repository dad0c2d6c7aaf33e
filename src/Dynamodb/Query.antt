-- ===== src/Dynamodb/Query.antt =====
-- aws/dynamodb/query.go. Whether a where clause restricts a field is up to two regular expressions,
-- and an argument here.
use go_fw.Prelude.{
  ℕ, zero, suc, Bool, true, false, ◌&&◌, not, Option, none, some, List, [], ◌∷◌, ◌++◌, ◌==◌, map,
  length, if◌then◌else◌,
}
use go_fw.Prelude.Text.{Text, codes, eqb_text}
use go_fw.Dynamodb.{
  Piece, text, mark, render, Code, bad_argument, bad_state, not_found, unknown, PrimaryKey, Reply,
  client_failed, items,
}

-- One value, or a slice of values that stands as one argument.
pub data Value : Type 0 where
  hash : Text → Value
  range : Option ℕ → Value
  given : ℕ → Value

pub data Arg : Type 0 where
  one : Value → Arg
  several : List Value → Arg

pub record Query : Type 0 where
  pub where_clause : List Piece
  pub where_args : List Arg
  pub allow_scan : Bool
  pub consistent_read : Bool
  pub result_err : Option Code
  pub single : Bool

unfoldable pub with_consistent_read : Query → Query
with_consistent_read q = record q { consistent_read = true }

unfoldable pub with_allow_scan : Query → Query
with_allow_scan q = record q { allow_scan = true }

unfoldable pub where_with : List Piece → List Arg → Query → Query
where_with clause arguments q = record q { where_clause = clause; where_args = arguments }

abbrev pub empty_query : Bool → Query
empty_query single = record {
  where_clause = [];
  where_args = [];
  allow_scan = false;
  consistent_read = false;
  result_err = none;
  single = single;
}

-- `Get`
unfoldable pub get : PrimaryKey → Query
unfolding where_with
get pk =
    if eqb_text pk.range_key []
    then where_with (text pk.hash_key ∷ text (codes " = ") ∷ mark ∷ []) (one (hash pk.hash) ∷ [])
        (empty_query true)
    else where_with
        (text pk.hash_key
          ∷ text (codes " = ")
          ∷ mark
          ∷ text (codes " AND ")
          ∷ text pk.range_key
          ∷ text (codes " = ")
          ∷ mark
          ∷ [])
        (one (hash pk.hash) ∷ one (range pk.range) ∷ []) (empty_query true)

-- strings.TrimSuffix(strings.Repeat("?,", n), ",")
abbrev pub repeat_marks : ℕ → List Piece
repeat_marks zero = []
repeat_marks (suc zero) = mark ∷ []
repeat_marks (suc (suc n)) = mark ∷ text (codes ",") ∷ repeat_marks (suc n)

abbrev pub in_clause : Text → ℕ → List Piece
in_clause key n = text key ∷ text (codes " IN [") ∷ (repeat_marks n ++ text (codes "]") ∷ [])

-- `WithPKs`, where `pk` is the model's key. With a range key the values go to `Where` as one slice.
unfoldable pub with_pks : PrimaryKey → List PrimaryKey → Query → Query
unfolding where_with
with_pks pk [] q = q
with_pks pk (k ∷ ks) q =
    let n = length (k ∷ ks) in
    let hashes = map (λ (i : PrimaryKey). hash i.hash) (k ∷ ks) in
    let ranges = map (λ (i : PrimaryKey). range i.range) (k ∷ ks) in
    if eqb_text pk.range_key []
    then where_with (in_clause pk.hash_key n) (map one hashes) q
    else where_with (in_clause pk.hash_key n ++ (text (codes " AND ") ∷ in_clause pk.range_key n))
        (several (hashes ++ ranges) ∷ []) q

-- `Query` of a slice with the keys of its elements; the model is a new one or the first of them.
unfoldable pub query : Bool → PrimaryKey → List PrimaryKey → Query
unfolding with_pks
query is_slice model_pk pks =
    if is_slice
    then with_pks model_pk pks (empty_query false)
    else record (empty_query false) { result_err = some bad_argument }

-- `restricts` is what the two regular expressions find for the hash key in the clause.
unfoldable pub check_for_scan : (Text → Text → Bool) → PrimaryKey → Query → Query
check_for_scan restricts pk q =
    if not q.allow_scan && not (restricts pk.hash_key (render q.where_clause))
    then record q { result_err = some bad_argument }
    else q

-- `%q` of the table's name, which has nothing to escape, and the where clause if there is one.
unfoldable pub select : Text → Query → List Piece
select table_name q =
    let head = text (codes "SELECT * FROM \"") ∷ text table_name ∷ text (codes "\"") ∷ [] in
    if eqb_text (render q.where_clause) []
    then head
    else head ++ (text (codes " WHERE ") ∷ q.where_clause)

pub data Ending : Type 0 where
  done : Ending
  error : Code → Ending

abbrev pub single_item : ℕ → Bool → Ending
single_item n decoded =
    if n == 0
    then error not_found
    else if not (n == 1)
    then error bad_state
    else if decoded
    then done
    else error unknown

-- An error that is returned, and kept as that of the query.
abbrev pub kept : Ending → Query → Query × Ending
kept done q = (q, done)
kept (error e) q = (record q { result_err = some e }, error e)

abbrev pub answered : Bool → ℕ → Bool → Ending
answered true n decoded = single_item n decoded
answered false n decoded = if decoded then done else error unknown

-- The error of the client is not kept.
abbrev pub sent : Bool → Reply → Query → Query × Ending
sent false reply q = kept (error unknown) q
sent true client_failed q = (q, error unknown)
sent true (items n decoded) q = kept (answered q.single n decoded) q

-- The query after `Execute` and how it ends. `encoded` says whether the arguments can be marshalled.
unfoldable pub execute : (Text → Text → Bool) → PrimaryKey → Bool → Reply → Query → Query × Ending
unfolding check_for_scan
execute restricts pk encoded reply q =
    let q' = check_for_scan restricts pk q in
    elim q'.result_err [ some e ↦ (q', error e) | none ↦ sent encoded reply q' ]
