-- ===== src/Dynamodb/Marks.antt =====
-- Every `?` of a statement has its parameter, and every parameter its `?`.
use go_fw.Prelude.{
  ◌+◌, ◌≡◌, inl, inr, refl, Bool, Bool-cases, true, false, Option, none, some, List, [], ◌∷◌, ◌++◌,
  arith, length, length-append, if◌then◌else◌, ◌==◌,
}
use go_fw.Prelude.Text.{Text, codes, eqb_text}
use go_fw.Prelude.Int.{ℤ, pos, eqb_ℤ, ltb_ℤ}
use go_fw.Dynamodb.{Piece, text, mark, marks, PrimaryKey, Model}
use go_fw.Dynamodb.Update.{
  FieldValue, collection, increment_int, increment_uint, increment_float, other, Param, Part, Built,
  built, build_failed, build_panicked, ◌>>=◌, join_parts, collection_head, collection_of,
  value_part, apply_int, apply_uint, apply_float, unchanged, plus, minus, int64, uint64, float64,
  now_ts, neg_int64, neg_ℤ, set_part, remove_part, update_ts_part, where_part, statement, Update,
}
use go_fw.Partiql.Encoder.{Outcome, wrote, failed, panicked}

pub marks-append : (ps qs : List Piece) → marks (ps ++ qs) ≡ marks ps + marks qs
marks-append [] qs = omega arith
marks-append (mark ∷ ps) qs = omega (arith, marks-append ps qs)
marks-append (text s ∷ ps) qs = marks-append ps qs

pub record IsMatched (p : Part) : Type 0 where
  pub equal : marks p.0 ≡ length p.1

matched : {p : Part} → marks p.0 ≡ length p.1 → IsMatched p
matched e = record { equal = e }

signed-IsMatched :
    (zero negative : Bool) (k : Text) (a b : Param)
    → IsMatched (if zero then unchanged k else if negative then minus k a else plus k b)
signed-IsMatched true negative k a b = matched refl
signed-IsMatched false true k a b = matched refl
signed-IsMatched false false k a b = matched refl

-- A statement, if one is built, is matched.
abbrev pub WhenBuilt : Built → Type 0
WhenBuilt (built p) = IsMatched p
WhenBuilt _ = Unit

join_parts-IsMatched : (p q : Part) → IsMatched p → IsMatched q → IsMatched (join_parts p q)
join_parts-IsMatched (ps, xs) (qs, ys) h k =
    matched (omega (arith, marks-append ps qs, length-append {0} xs ys, h.equal, k.equal))

apply_int-IsMatched : (k : Text) (n : ℤ) → IsMatched (apply_int k n)
unfolding apply_int
apply_int-IsMatched k n =
    signed-IsMatched (eqb_ℤ n (pos 0)) (ltb_ℤ n (pos 0)) k (int64 (neg_int64 n)) (int64 n)

collection-IsMatched :
    (o : Outcome) (name : Text) (bag : Bool) (k : Text)
    → WhenBuilt (collection_of o (collection_head name bag k))
collection-IsMatched (wrote b) name true k = matched refl
collection-IsMatched (wrote b) name false k = matched refl
collection-IsMatched (failed e) name bag k = tt
collection-IsMatched panicked name bag k = tt

value_part-IsMatched : (k : Text) (v : FieldValue) → WhenBuilt (value_part k v)
unfolding value_part apply_uint apply_float
value_part-IsMatched k (collection name bag xs) = collection-IsMatched _ name bag k
value_part-IsMatched k (increment_int n) = apply_int-IsMatched k n
value_part-IsMatched k (increment_uint n) = signed-IsMatched (n == 0) false k now_ts (uint64 n)
value_part-IsMatched k (increment_float x) =
    signed-IsMatched (eqb_ℤ x (pos 0)) (ltb_ℤ x (pos 0)) k (float64 (neg_ℤ x)) (float64 x)
value_part-IsMatched k (other v) = matched refl

bind-WhenBuilt :
    (m : Built) (f : Part → Built)
    → WhenBuilt m
    → ((p : Part) → IsMatched p → WhenBuilt (f p))
    → WhenBuilt (m >>= f)
bind-WhenBuilt (built p) f h g = g p h
bind-WhenBuilt (build_failed e) f h g = tt
bind-WhenBuilt build_panicked f h g = tt

abbrev head_part : Text → Part
head_part k = (text (codes " SET ") ∷ text k ∷ text (codes " = ") ∷ [], [])

abbrev removal : Text → Part
removal k = (text (codes " REMOVE ") ∷ text k ∷ [], [])

abbrev opening : Text → Model → Part
opening prefix m =
    (text (codes "UPDATE \"") ∷ text (prefix ++ m.table_name) ∷ text (codes "\"") ∷ [], [])

abbrev closing : Part
closing = (text (codes " RETURNING ALL NEW *") ∷ [], [])

set_part-WhenBuilt :
    (fs : List (Text × FieldValue)) (acc : Part) → IsMatched acc → WhenBuilt (set_part fs acc)
unfolding set_part
set_part-WhenBuilt [] acc h = h
set_part-WhenBuilt ((k, v) ∷ fs) acc h =
    bind-WhenBuilt (value_part k v) _ (value_part-IsMatched k v) (λ p q.
      set_part-WhenBuilt fs (join_parts (join_parts acc (head_part k)) p) (
        join_parts-IsMatched (join_parts acc (head_part k)) p
          (join_parts-IsMatched acc (head_part k) h (matched refl)) q))

remove_part-IsMatched :
    (ks : List Text) (acc : Part) → IsMatched acc → IsMatched (remove_part ks acc)
remove_part-IsMatched [] acc h = h
remove_part-IsMatched (k ∷ ks) acc h =
    remove_part-IsMatched ks (join_parts acc (removal k))
      (join_parts-IsMatched acc (removal k) h (matched refl))

where_part-IsMatched : (pk : PrimaryKey) → IsMatched (where_part pk)
where_part-IsMatched pk = elim (Bool-cases (eqb_text pk.range_key [])) [
  | inl e ↦ rw e (matched refl)
  | inr e ↦ rw e (matched refl)
]

update_ts-IsMatched : (k : Option Text) → IsMatched (update_ts_part k)
update_ts-IsMatched none = matched refl
update_ts-IsMatched (some k) = matched refl

-- The statement of an update, if one is built, has as many `?` as parameters, whatever fields it
-- sets, increments and removes, and whatever the key is.
pub statement-WhenBuilt :
    (prefix : Text) (m : Model) (u : Update) → WhenBuilt (statement prefix m u)
unfolding statement
statement-WhenBuilt prefix m u =
    let ts = update_ts_part m.update_ts_key in
    bind-WhenBuilt (set_part u.set_fields (join_parts (opening prefix m) ts)) _
      (set_part-WhenBuilt u.set_fields (join_parts (opening prefix m) ts) (
        join_parts-IsMatched (opening prefix m) ts (matched refl)
          (update_ts-IsMatched m.update_ts_key)))
      (λ p h.
        let removed = remove_part u.remove_fields p in
        join_parts-IsMatched (join_parts removed (where_part m.pk)) closing
          (join_parts-IsMatched removed (where_part m.pk)
            (remove_part-IsMatched u.remove_fields p h) (where_part-IsMatched m.pk))
          (matched refl))
