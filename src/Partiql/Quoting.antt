-- ===== src/Partiql/Quoting.antt =====
-- A string literal, read back as PartiQL reads it: two quotes stand for one, one ends the literal.
use go_fw.Prelude.{
  ℕ, ◌≡◌, refl, ap, ◌∙◌, inl, inr, Bool-cases, ==_iff, Bool, true, false, Option, none, some, [],
  ◌∷◌, ◌++◌, ◌==◌, if◌then◌else◌,
}
use mathlib.Core.List.{append_assoc}
use go_fw.Prelude.Text.{Text, codes}
use go_fw.Partiql.Builder.{double_quotes, quoted}

abbrev pub add : ℕ → Option (Text × Text) → Option (Text × Text)
add c none = none
add c (some (s, rest)) = some (c ∷ s, rest)

-- The text of a literal and what follows it; the first argument says that a quote was read last.
unfoldable pub read_rest : Bool → Text → Option (Text × Text)
read_rest true [] = some ([], [])
read_rest false [] = none
read_rest true (c ∷ t) =
    let more = add b'\'' (read_rest false t) in if c == b'\'' then more else some ([], c ∷ t)
read_rest false (c ∷ t) =
    let ended = read_rest true t in
    let more = add c (read_rest false t) in if c == b'\'' then ended else more

unfoldable pub read_literal : Text → Option (Text × Text)
unfolding read_rest
read_literal [] = none
read_literal (c ∷ t) = if c == b'\'' then read_rest false t else none

-- The text goes on with something other than a quote, or ends.
abbrev pub IsApart : Text → Type 0
IsApart [] = Unit
IsApart (c ∷ t) = (c == b'\'') ≡ false

apart_lem : (rest : Text) → IsApart rest → read_rest true rest ≡ some ([], rest)
unfolding read_rest
apart_lem [] h = refl
apart_lem (c ∷ t) h = rw h

rest_lem :
    (s rest : Text)
    → IsApart rest
    → read_rest false (double_quotes s ++ (b'\'' ∷ rest)) ≡ some (s, rest)
unfolding read_rest double_quotes
rest_lem [] rest h = apart_lem rest h
rest_lem (c ∷ s) rest h = elim (Bool-cases (c == b'\'')) [
  | inl e ↦ let same : c ≡ b'\'' = (==_iff c b'\'').0 e in rw (e, rest_lem s rest h, same) refl
  | inr e ↦ rw (e, e, rest_lem s rest h) refl
]

-- What `WriteString` writes of a text, read back from the place where it starts, is the text and
-- what follows, if what follows starts with no quote.
pub read_literal-quoted :
    (s rest : Text) → IsApart rest → read_literal (quoted s ++ rest) ≡ some (s, rest)
unfolding read_literal
read_literal-quoted s rest h =
    ap read_rest_false (append_assoc (double_quotes s) (codes "'") rest) ∙ rest_lem s rest h
  where
    read_rest_false : Text → Option (Text × Text)
    read_rest_false t = read_rest false t
