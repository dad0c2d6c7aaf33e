-- ===== src/Partiql/Builder.antt =====
-- aws/partiql/builder.go. A text is the list of its code points. `WriteEndTuple` without a tuple
-- panics, which is `none`. A float comes as the text that strconv makes of it.
use go_fw.Prelude.{
  ℕ, suc, ◌-◌, Bool, true, false, Option, none, some, List, [], ◌∷◌, ◌++◌, ◌==◌, if◌then◌else◌,
}
use go_fw.Prelude.Int.{ℤ, pos, negsuc}
use go_fw.Prelude.Text.{Text, codes, format_uint}

pub record Builder : Type 0 where
  pub out : Text
  pub tuple_depth : ℕ
  pub write_sep : Bool

unfoldable pub new_builder : Builder
new_builder = record { out = []; tuple_depth = 0; write_sep = false }

unfoldable pub reset : Builder → Builder
reset b = record { out = []; tuple_depth = 0; write_sep = false }

abbrev pub append : Text → Builder → Builder
append s b = record b { out = b.out ++ s }

-- What separates the next value from the text before it.
abbrev pub separator : Bool → Text
separator true = b',' ∷ []
separator false = []

unfoldable pub write_sep_if_needed : Builder → Builder
write_sep_if_needed b = record b { out = b.out ++ separator b.write_sep; write_sep = true }

unfoldable pub write_begin_tuple : Builder → Builder
unfolding write_sep_if_needed
write_begin_tuple b =
    let b1 = append (codes "{") (write_sep_if_needed b) in
    record b1 { tuple_depth = suc b.tuple_depth; write_sep = false }

unfoldable pub write_end_tuple : Builder → Option Builder
write_end_tuple b =
    if b.tuple_depth == 0
    then none
    else some
        (record { out = b.out ++ codes "}"; tuple_depth = b.tuple_depth - 1; write_sep = true })

-- The name is written as it is.
unfoldable pub write_key : Text → Builder → Builder
unfolding write_sep_if_needed
write_key name b =
    let b1 = append (codes "'") (write_sep_if_needed b) in
    record (append (codes "':") (append name b1)) { write_sep = false }

-- strings.ReplaceAll(value, "'", "''")
unfoldable pub double_quotes : Text → Text
double_quotes [] = []
double_quotes (c ∷ s) = if c == b'\'' then b'\'' ∷ b'\'' ∷ double_quotes s else c ∷ double_quotes s

-- A value written as the text `s`.
unfoldable pub write_text : Text → Builder → Builder
unfolding write_sep_if_needed
write_text s b = append s (write_sep_if_needed b)

abbrev pub quoted : Text → Text
quoted s = codes "'" ++ double_quotes s ++ codes "'"

unfoldable pub write_string : Text → Builder → Builder
unfolding write_text
write_string s b = write_text (quoted s) b

-- strconv.FormatInt in base 10.
unfoldable pub format_int : ℤ → Text
unfolding format_uint
format_int (pos n) = format_uint n
format_int (negsuc n) = b'-' ∷ format_uint (suc n)

unfoldable pub write_integer : ℤ → Builder → Builder
unfolding write_text
write_integer n b = write_text (format_int n) b

unfoldable pub write_uinteger : ℕ → Builder → Builder
unfolding write_text
write_uinteger n b = write_text (format_uint n) b

unfoldable pub write_float : Text → Builder → Builder
unfolding write_text
write_float s b = write_text s b

abbrev pub format_bool : Bool → Text
format_bool true = codes "true"
format_bool false = codes "false"

unfoldable pub write_boolean : Bool → Builder → Builder
unfolding write_text
write_boolean v b = write_text (format_bool v) b

unfoldable pub write_null : Builder → Builder
unfolding write_text
write_null b = write_text (codes "NULL") b

unfoldable pub write_begin_bag : Builder → Builder
unfolding write_sep_if_needed
write_begin_bag b = record (append (codes "<<") (write_sep_if_needed b)) { write_sep = false }

unfoldable pub write_end_bag : Builder → Builder
write_end_bag b = record (append (codes ">>") b) { write_sep = true }

unfoldable pub write_begin_array : Builder → Builder
unfolding write_sep_if_needed
write_begin_array b = record (append (codes "[") (write_sep_if_needed b)) { write_sep = false }

unfoldable pub write_end_array : Builder → Builder
write_end_array b = record (append (codes "]") b) { write_sep = true }

-- The loop of `writeBag` and `writeArray`.
module _ {A : Type 0} where
  unfoldable pub write_all : (A → Builder → Builder) → List A → Builder → Builder
  write_all f [] b = b
  write_all f (x ∷ xs) b = write_all f xs (f x b)

  unfoldable pub write_bag : (A → Builder → Builder) → List A → Builder → Builder
  unfolding write_all write_begin_bag write_end_bag
  write_bag f xs b = write_end_bag (write_all f xs (write_begin_bag b))

  unfoldable pub write_array : (A → Builder → Builder) → List A → Builder → Builder
  unfolding write_all write_begin_array write_end_array
  write_array f xs b = write_end_array (write_all f xs (write_begin_array b))

abbrev pub write_boolean_array : List Bool → Builder → Builder
write_boolean_array = write_array write_boolean

abbrev pub write_boolean_bag : List Bool → Builder → Builder
write_boolean_bag = write_bag write_boolean

abbrev pub write_string_bag : List Text → Builder → Builder
write_string_bag = write_bag write_string

abbrev pub write_integer_bag : List ℤ → Builder → Builder
write_integer_bag = write_bag write_integer

abbrev pub write_uinteger_bag : List ℕ → Builder → Builder
write_uinteger_bag = write_bag write_uinteger

abbrev pub write_float_bag : List Text → Builder → Builder
write_float_bag = write_bag write_float

abbrev pub write_string_array : List Text → Builder → Builder
write_string_array = write_array write_string

abbrev pub write_integer_array : List ℤ → Builder → Builder
write_integer_array = write_array write_integer

abbrev pub write_uinteger_array : List ℕ → Builder → Builder
write_uinteger_array = write_array write_uinteger

abbrev pub write_float_array : List Text → Builder → Builder
write_float_array = write_array write_float
