-- ===== src/Log/Attrs.antt =====
-- log/logger_attrs.go and log/logger_internal.go: the attributes in a context, and how arguments
-- become attributes. The attributes are a Go slice: an array that several slices may share, of which
-- a slice sees as many elements as it is long; the length of the array is the capacity.
use go_fw.Prelude.{
  ℕ, zero, suc, ◌+◌, Option, none, some, List, [], ◌∷◌, ◌++◌, leb, length, take, update,
  if◌then◌else◌,
}
use go_fw.Prelude.Text.{Text, codes}

-- What `slog.Any` is given.
pub data Value : Type 0 where
  of_text : Text → Value
  of_other : ℕ → Value

pub record Attr : Type 0 where
  pub key : Text
  pub value : Value

-- An argument of a log call.
pub data Arg : Type 0 where
  plain : Value → Arg
  of_attr : Attr → Arg

abbrev pub bad_key : Text
bad_key = codes "!BADKEY"

-- The value of an argument that is paired with a key; an attribute is a value as any other, which
-- `code_of` stands for.
abbrev pub value_of : (Attr → ℕ) → Arg → Value
value_of code_of (plain v) = v
value_of code_of (of_attr a) = of_other (code_of a)

-- `argsToAttrSlice`, whose rounds are those of `argsToAttr`.
unfoldable pub args_to_attr_slice : (Attr → ℕ) → List Arg → List Attr
args_to_attr_slice code_of [] = []
args_to_attr_slice code_of (plain (of_text t) ∷ []) =
    record { key = bad_key; value = of_text t } ∷ []
args_to_attr_slice code_of (plain (of_text t) ∷ v ∷ args) =
    record { key = t; value = value_of code_of v } ∷ args_to_attr_slice code_of args
args_to_attr_slice code_of (plain (of_other n) ∷ args) =
    record { key = bad_key; value = of_other n } ∷ args_to_attr_slice code_of args
args_to_attr_slice code_of (of_attr a ∷ args) = a ∷ args_to_attr_slice code_of args

pub record Slice : Type 0 where
  pub array : ℕ
  pub size : ℕ

-- The arrays, and the number of the next one.
pub record Arrays : Type 0 where
  pub arrays : ℕ → List Attr
  pub count : ℕ

-- The elements of a slice.
abbrev pub elements : Arrays → Slice → List Attr
elements h s = take s.size (h.arrays s.array)

abbrev pub drop : ℕ → List Attr → List Attr
drop zero xs = xs
drop (suc n) [] = []
drop (suc n) (x ∷ xs) = drop n xs

-- The array with new elements from the index `n` on.
abbrev pub write_at : ℕ → List Attr → List Attr → List Attr
write_at n new xs = take n xs ++ new ++ drop (n + length new) xs

-- Go's `append`: in place if the capacity allows, and else in a new array, with the spare elements
-- that the allocator gives it.
unfoldable pub append : List Attr → Slice → List Attr → Arrays → Arrays × Slice
append spare s new h =
    if leb (s.size + length new) (length (h.arrays s.array))
    then (
      record h { arrays = update h.arrays s.array (write_at s.size new (h.arrays s.array)) },
      record s { size = s.size + length new },
    )
    else (
      record {
        arrays = update h.arrays h.count (elements h s ++ new ++ spare);
        count = suc h.count;
      },
      record { array = h.count; size = s.size + length new },
    )

-- `GetLoggerAttrsFromCtx`: the attributes of a context, none if it has no slice.
abbrev pub get_logger_attrs : Arrays → Option Slice → List Attr
get_logger_attrs h none = []
get_logger_attrs h (some s) = elements h s

-- `CtxAppendLoggerAttrs`: the slice of the new context. The arguments are a slice of their own.
abbrev pub ctx_append_logger_attrs :
    List Attr → Option Slice → Slice → Arrays → Arrays × Option Slice
ctx_append_logger_attrs spare none attrs h = (h, some attrs)
ctx_append_logger_attrs spare (some old) attrs h =
    let (after, s) = append spare old (elements h attrs) h in (after, some s)
