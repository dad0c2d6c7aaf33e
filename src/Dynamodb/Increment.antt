-- ===== src/Dynamodb/Increment.antt =====
-- What an increment of an update does to the field, and the marks of a query.
use go_fw.Prelude.{
  ℕ, zero, suc, ◌-◌, ◌*◌, ◌^◌, ◌≡◌, ◌≢◌, ◌⊎◌, inl, inr, refl, ap, ◌∙◌, Bool-cases, true, false,
  Option, none, some, List, [], ◌∷◌, ◌++◌, arith, length, map, if◌then◌else◌,
}
use go_fw.Prelude.Text.{Text, codes, eqb_text}
use go_fw.Prelude.Int.{ℤ, pos, negsuc, ◌+ℤ◌, ◌-ℤ◌, eqb_ℤ, ltb_ℤ}
use go_fw.Dynamodb.{text, mark, marks, PrimaryKey}
use go_fw.Dynamodb.Marks.{marks-append}
use go_fw.Dynamodb.Update.{Param, int64, uint64, Part, apply_int, min_int64}
use go_fw.Dynamodb.Query.{Query, one, with_pks, repeat_marks, in_clause, where_with, Value, hash}

abbrev number : Param → Option ℤ
number (int64 n) = some n
number (uint64 n) = some (pos n)
number _ = none

abbrev operation : Text → ℤ → ℤ → Option ℤ
operation op old x =
    if eqb_text op (codes " + ")
    then some (old +ℤ x)
    else if eqb_text op (codes " - ")
    then some (old -ℤ x)
    else none

abbrev operate : Text → ℤ → Option ℤ → Option ℤ
operate op old none = none
operate op old (some x) = operation op old x

-- The value that the right side of ` = ` has, for a field that is `old`.
abbrev pub meaning : Part → ℤ → Option ℤ
meaning (text k ∷ [], []) old = some old
meaning (text k ∷ text op ∷ mark ∷ [], p ∷ []) old = operate op old (number p)
meaning _ old = none

add_zero : (a : ℤ) → a ≡ a +ℤ pos 0
add_zero (pos n) = ground arith
add_zero (negsuc n) = ground arith

-- An increment by an int64 adds it to the field, but for the least int64, whose opposite is itself:
-- for that one the field grows by 2 ^ 63 instead of shrinking by it.
pub apply_int-meaning :
    (k : Text) (n old : ℤ)
    → ((n ≢ min_int64) × (meaning (apply_int k n) old ≡ some (old +ℤ n)))
      ⊎ ((n ≡ min_int64) × (meaning (apply_int k n) old ≡ some (old +ℤ pos (2 ^ 63))))
unfolding apply_int
apply_int-meaning k (pos zero) old = inl (cc, ap some (add_zero old))
apply_int-meaning k (pos (suc n)) old =
    let z : eqb_ℤ (pos (suc n)) (pos 0) ≡ false = ground arith in
    let l : ltb_ℤ (pos (suc n)) (pos 0) ≡ false = ground arith in inl (cc, rw (z, l) refl)
apply_int-meaning k (negsuc n) old =
    let z : eqb_ℤ (negsuc n) (pos 0) ≡ false = ground arith in
    let l : ltb_ℤ (negsuc n) (pos 0) ≡ true = ground arith in
    elim (Bool-cases (eqb_ℤ (negsuc n) min_int64)) [
      | inl e ↦
          let m : n ≡ 2 ^ 63 - 1 = ground arith in
          inr (rw m refl, rw (z, l, e) (let c : suc n ≡ 2 ^ 63 = omega arith in rw c refl))
      | inr e ↦ inl (λ q. let m : n ≡ 2 ^ 63 - 1 = cc in ground arith, rw (z, l, e) refl)
    ]

marks-repeat : (n : ℕ) → marks (repeat_marks n) ≡ n
marks-repeat zero = refl
marks-repeat (suc zero) = refl
marks-repeat (suc (suc n)) = ap suc (marks-repeat (suc n))

length-map {ℓ κ} :
    {A : Type ℓ} {B : Type κ} (f : A → B) (xs : List A) → length (map f xs) ≡ length xs
length-map f [] = refl
length-map f (x ∷ xs) = ap suc (length-map f xs)

marks-in : (key : Text) (n : ℕ) → marks (in_clause key n) ≡ n
marks-in key n =
    omega (arith, marks-append (repeat_marks n) (text (codes "]") ∷ []), marks-repeat n)

abbrev hash_of : PrimaryKey → Value
hash_of i = hash i.hash

both :
    (pk : PrimaryKey) (n : ℕ)
    → marks (in_clause pk.hash_key n ++ (text (codes " AND ") ∷ in_clause pk.range_key n)) ≡ 2 * n
both pk n = omega (
  arith,
  marks-append (in_clause pk.hash_key n) (text (codes " AND ") ∷ in_clause pk.range_key n),
  marks-in pk.hash_key n,
  marks-in pk.range_key n,
)

-- `WithPKs` of one or more keys replaces the arguments. Without a range key it has a `?` and an
-- argument for each key. With one it has two `?` for each key, and a single argument in all, the
-- slice of the values.
pub with_pks-marks :
    (pk : PrimaryKey) (k : PrimaryKey) (ks : List PrimaryKey) (q : Query)
    → let n = length (k ∷ ks) in
      let r = with_pks pk (k ∷ ks) q in
      ((eqb_text pk.range_key [] ≡ true) × (marks r.where_clause ≡ n) × (length r.where_args ≡ n))
      ⊎ ((eqb_text pk.range_key [] ≡ false)
          × (marks r.where_clause ≡ 2 * n)
          × (length r.where_args ≡ 1))
unfolding with_pks where_with
with_pks-marks pk k ks q = elim (Bool-cases (eqb_text pk.range_key [])) [
  | inl e ↦ inl (
    e,
    rw e (marks-in pk.hash_key (length (k ∷ ks))),
    rw e (length-map one (map hash_of (k ∷ ks)) ∙ length-map hash_of (k ∷ ks)),
  )
  | inr e ↦ inr (e, rw e (both pk (length (k ∷ ks))), rw e refl)
]
