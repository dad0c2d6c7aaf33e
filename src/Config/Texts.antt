-- ===== src/Config/Texts.antt =====
-- config/config.go and config/loglevel_string.go: the texts of a log level, of a log writer and of a
-- host. A level is an int, of which five have names. strings.ToUpper is that of ASCII.
use go_fw.Prelude.{
  ℕ, ◌+◌, ◌-◌, ◌≡◌, refl, sym, some-injective, none-some, subst, Bool, true, false, ◌&&◌, ◌||◌,
  Option, none, some, [], ◌∷◌, ◌++◌, map, leb, arith, if◌then◌else◌,
}
use go_fw.Prelude.Int.{ℤ, pos, negsuc, eqb_ℤ}
use go_fw.Prelude.Text.{Text, codes, eqb_text, format_uint}

abbrev to_upper_char : ℕ → ℕ
to_upper_char c = if leb b'a' c && leb c b'z' then c - 32 else c

unfoldable pub to_upper : Text → Text
to_upper s = map to_upper_char s

abbrev pub level_trace : ℤ
level_trace = negsuc 7

abbrev pub level_debug : ℤ
level_debug = negsuc 3

abbrev pub level_info : ℤ
level_info = pos 0

abbrev pub level_warn : ℤ
level_warn = pos 4

abbrev pub level_error : ℤ
level_error = pos 8

abbrev format_ℤ : ℤ → Text
format_ℤ (pos n) = format_uint n
format_ℤ (negsuc n) = b'-' ∷ format_uint (n + 1)

-- `String` of a level, which `MarshalText` gives.
unfoldable pub level_string : ℤ → Text
level_string i =
    if eqb_ℤ i level_trace
    then codes "TRACE"
    else (if eqb_ℤ i level_debug
        then codes "DEBUG"
        else (if eqb_ℤ i level_info
            then codes "INFO"
            else (if eqb_ℤ i level_warn
                then codes "WARN"
                else (if eqb_ℤ i level_error
                    then codes "ERROR"
                    else codes "LogLevel(" ++ format_ℤ i ++ codes ")"))))

-- `TraceAsSlogStr`
abbrev pub trace_as_slog_str : Text
trace_as_slog_str = codes "DEBUG-4"

-- A case of a switch: its value if its condition holds, or what comes after it.
abbrev pub on_case : {A : Type 0} → Bool → A → Option A → Option A
on_case c v rest = if c then some v else rest

-- `UnmarshalText` of a level, after `ToUpper`; `none` is the error.
unfoldable pub level_of_upper : Text → Option ℤ
level_of_upper u =
    on_case (eqb_text u trace_as_slog_str || eqb_text u (level_string level_trace)) level_trace (
      on_case (eqb_text u [] || eqb_text u (level_string level_debug)) level_debug (
        on_case (eqb_text u (level_string level_info)) level_info (
          on_case (eqb_text u (level_string level_warn)) level_warn
            (on_case (eqb_text u (level_string level_error)) level_error none))))

unfoldable pub unmarshal_level : Text → Option ℤ
unmarshal_level t = level_of_upper (to_upper t)

abbrev pub writer_stdout : Text
writer_stdout = codes "stdout"

abbrev pub writer_stderr : Text
writer_stderr = codes "stderr"

abbrev pub writer_buffer : Text
writer_buffer = codes "buffer"

-- `UnmarshalText` of a writer, which is a text; `MarshalText` gives the text.
unfoldable pub unmarshal_writer : Text → Option Text
unmarshal_writer t =
    on_case (eqb_text t writer_stdout || eqb_text t writer_stderr || eqb_text t writer_buffer) t
      (on_case (eqb_text t []) writer_stdout none)

-- `UnmarshalText` of a host, where os.Hostname returned a name or an error.
unfoldable pub unmarshal_host : Option Text → Text → Option Text
unmarshal_host hostname t = if eqb_text t [] then hostname else some t

case_lem :
    {A : Type 0} (P : A → Type 0) (c : Bool) (v : A) (rest : Option A) (x : A)
    → P v
    → (rest ≡ some x → P x)
    → on_case c v rest ≡ some x
    → P x
case_lem P true v rest x p h e = subst P (some-injective e) p
case_lem P false v rest x p h e = h e

to_upper_char_twice : (c : ℕ) → to_upper_char (to_upper_char c) ≡ to_upper_char c
to_upper_char_twice c = ground arith

to_upper_twice : (t : Text) → to_upper (to_upper t) ≡ to_upper t
unfolding to_upper
to_upper_twice [] = refl
to_upper_twice (c ∷ t) = let p = to_upper_char_twice c in let q = to_upper_twice t in cc

-- If a text is read as a level, the text that the level is written as is read as that level too, and
-- so is the text in upper case.
pub unmarshal_level-round :
    (t : Text) (l : ℤ)
    → unmarshal_level t ≡ some l
    → (unmarshal_level (level_string l) ≡ some l) × (unmarshal_level (to_upper t) ≡ some l)
unfolding unmarshal_level level_of_upper level_string to_upper
unmarshal_level-round t l e = (
  case_lem (λ x. unmarshal_level (level_string x) ≡ some x) _ level_trace _ l refl
      (case_lem (λ x. unmarshal_level (level_string x) ≡ some x) _ level_debug _ l refl
        (case_lem (λ x. unmarshal_level (level_string x) ≡ some x) _ level_info _ l refl
          (case_lem (λ x. unmarshal_level (level_string x) ≡ some x) _ level_warn _ l refl
            (case_lem (λ x. unmarshal_level (level_string x) ≡ some x) _ level_error _ l refl
              (λ h. absurd (none-some l h))))))
      e,
  subst (λ u. level_of_upper u ≡ some l) (sym (to_upper_twice t)) e,
)
