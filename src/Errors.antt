-- ===== src/Errors.antt =====
-- errors/errors.go and errors/codes.go. An error is a tree of what it wraps. A message, a stack and
-- an error of other packages is a number that stands for its identity.
pub mod Codes
pub mod Tests
use go_fw.Prelude.{
  ℕ, suc, ◌+◌, ◌≡◌, Bool, true, false, ◌||◌, Option, none, some, List, [], ◌∷◌, ◌==◌, if◌then◌else◌,
}

pub data ErrCode : Type 0 where
  panic unknown bad_argument bad_state not_found not_authenticated not_allowed not_valid conflict :
      ErrCode
  other_code : ℕ → ErrCode

-- The codes are distinct texts, here numbers.
abbrev pub code_number : ErrCode → ℕ
code_number panic = 0
code_number unknown = 1
code_number bad_argument = 2
code_number bad_state = 3
code_number not_found = 4
code_number not_authenticated = 5
code_number not_allowed = 6
code_number not_valid = 7
code_number conflict = 8
code_number (other_code n) = 9 + n

abbrev pub eqb_code : ErrCode → ErrCode → Bool
eqb_code a b = code_number a == code_number b

-- The fields of `Error` but for the wrapped errors; a key is `none` if it is empty.
pub record Error : Type 0 where
  pub code : ErrCode
  pub message : ℕ
  pub short_error_string : Option (ErrCode × ℕ)
  pub hide_stack : Bool
  pub stack : ℕ
  pub code_key : Option ℕ
  pub message_key : Option ℕ
  pub stack_key : Option ℕ

-- A nil error, one of another package, one that wraps a single error or several, and the framework's.
mutual
  pub data GoError : Type 0 where
    nil_error : GoError
    plain : ℕ → GoError
    wrapping : GoError → GoError
    joined : Wrapped → GoError
    framework : Error → Wrapped → GoError

  pub data Wrapped : Type 0 where
    end : Wrapped
    also : GoError → Wrapped → Wrapped

-- The default keys of the package.
pub record Keys : Type 0 where
  pub code_key : ℕ
  pub message_key : Option ℕ
  pub stack_key : Option ℕ

-- `Newf`, after fmt.Errorf has made the message and the wrapped errors.
unfoldable pub newf : Keys → ErrCode → ℕ → Wrapped → ℕ → GoError
newf keys code message wrapped stack =
    framework
      (record {
        code = code;
        message = message;
        short_error_string = some (code, message);
        hide_stack = false;
        stack = stack;
        code_key = some keys.code_key;
        message_key = keys.message_key;
        stack_key = keys.stack_key;
      })
      wrapped

-- A key that is empty panics.
unfoldable pub set_code_key : Option ℕ → Error → Option Error
set_code_key none e = none
set_code_key (some k) e = some (record e { code_key = some k })

unfoldable pub set_message_key : Option ℕ → Error → Error
set_message_key k e = record e { message_key = k }

unfoldable pub set_stack_key : Option ℕ → Error → Error
set_stack_key k e = record e { stack_key = k }

-- `Copy`, which gives the copy no short text and no hidden stack.
unfoldable pub copy : Error → Error
copy e = record e { short_error_string = none; hide_stack = false }

-- What `LogValue` makes of an error: keys, and the field that stands under each.
pub data Shown : Type 0 where
  shows_code : ErrCode → Shown
  shows_message : ℕ → Shown
  shows_stack : ℕ → Shown

abbrev pub shown : Option ℕ → Shown → List (ℕ × Shown) → List (ℕ × Shown)
shown none v rest = rest
shown (some k) v rest = (k, v) ∷ rest

unfoldable pub log_value : Error → List (ℕ × Shown)
log_value e =
    shown e.code_key (shows_code e.code)
      (shown e.message_key (shows_message e.message) (shown e.stack_key (shows_stack e.stack) []))

-- errors.As with a target of type *Error: the first framework error, before those it wraps.
abbrev pub or_else : Option Error → Option Error → Option Error
or_else none other = other
or_else (some e) other = some e

unfoldable mutual
  pub first_framework : GoError → Option Error
  first_framework nil_error = none
  first_framework (plain n) = none
  first_framework (wrapping e) = first_framework e
  first_framework (joined es) = first_of es
  first_framework (framework e es) = some e

  pub first_of : Wrapped → Option Error
  first_of end = none
  first_of (also e es) = or_else (first_framework e) (first_of es)

abbrev pub has_code : Option Error → ErrCode → Bool
has_code none c = false
has_code (some e) c = eqb_code e.code c

unfoldable mutual
  pub is_code : GoError → ErrCode → Bool
  is_code nil_error c = false
  is_code (plain n) c = false
  is_code (wrapping e) c = has_code (first_framework (wrapping e)) c || is_code e c
  is_code (joined es) c = has_code (first_framework (joined es)) c || any_code es c
  is_code (framework e es) c = has_code (some e) c || any_code es c

  pub any_code : Wrapped → ErrCode → Bool
  any_code end c = false
  any_code (also e es) c = is_code e c || any_code es c

-- The target after `As`, which leaves it alone if it finds nothing.
abbrev pub target_after : Option Error → Option Error → Option Error
target_after found target = or_else found target

-- A search that goes on with the target if it has not succeeded.
abbrev pub or_search : Bool → Option Error → Bool × Option Error → Bool × Option Error
or_search true target rest = (true, target)
or_search false target rest = rest

-- `AsCode`: the answer and the target, which an unsuccessful search may have written too.
unfoldable mutual
  pub as_code : GoError → ErrCode → Option Error → Bool × Option Error
  as_code nil_error c target = (false, target)
  as_code (plain n) c target = (false, target)
  as_code (wrapping e) c target =
      let found = first_framework (wrapping e) in
      let t = target_after found target in or_search (has_code found c) t (as_code e c t)
  as_code (joined es) c target =
      let found = first_framework (joined es) in
      let t = target_after found target in or_search (has_code found c) t (as_any es c t)
  as_code (framework e es) c target = or_search (eqb_code e.code c) (some e) (as_any es c (some e))

  pub as_any : Wrapped → ErrCode → Option Error → Bool × Option Error
  as_any end c target = (false, target)
  as_any (also e es) c target =
      let one = as_code e c target in or_search one.0 one.1 (as_any es c one.1)

-- `UnwrapMulti`
unfoldable pub unwrap_multi : GoError → Wrapped
unwrap_multi nil_error = end
unwrap_multi (plain n) = end
unwrap_multi (wrapping nil_error) = end
unwrap_multi (wrapping e) = also e end
unwrap_multi (joined es) = es
unwrap_multi (framework e es) = es
