-- ===== src/Prelude/Text.antt =====
-- Texts as lists of code points, and what the program uses of Go's strings and strconv.
use Prim.Native.Nat.{ℕ, zero, suc, ◌+◌, ◌/◌, ◌%◌}
use Prim.Native.Char.{code}
use Prim.Native.String.{String}
use mathlib.Core.Bool.{Bool, true, false, ◌&&◌}
use mathlib.Core.List.{List, [], ◌∷◌}
use mathlib.Core.Path.{◌≡◌, refl}
use mathlib.Core.Logic.{◌↔◌}
use go_fw.Prelude.Tests.{◌==◌, ==_iff, ltb, if◌then◌else◌}

abbrev pub Text : Type 0
Text = List ℕ

abbrev pub codes : String → Text
codes String.[] = []
codes (String.◌∷◌ c s) = code c ∷ codes s

-- The digits of `n` before `acc`; the first argument is fuel, and `suc n` is enough of it.
abbrev digits_from : ℕ → ℕ → Text → Text
digits_from zero n acc = acc
digits_from (suc f) n acc =
    let rest = digits_from f (n / 10) ((b'0' + n % 10) ∷ acc) in
    if ltb n 10 then (b'0' + n) ∷ acc else rest

-- strconv.FormatUint in base 10.
unfoldable pub format_uint : ℕ → Text
format_uint n = digits_from (suc n) n []

abbrev pub eqb_text : Text → Text → Bool
eqb_text [] [] = true
eqb_text [] (d ∷ t) = false
eqb_text (c ∷ s) [] = false
eqb_text (c ∷ s) (d ∷ t) = c == d && eqb_text s t

-- strings.HasPrefix(s, p), for the prefix `p` and then `s`.
abbrev pub starts_with : Text → Text → Bool
starts_with [] s = true
starts_with (c ∷ p) [] = false
starts_with (c ∷ p) (d ∷ s) = c == d && starts_with p s

pub &&_parts : (a b : Bool) → a && b ≡ true → (a ≡ true) × (b ≡ true)
&&_parts true b h = (refl, h)
&&_parts false b h = absurd cc

pub eqb_text_iff : (s t : Text) → (eqb_text s t ≡ true) ↔ (s ≡ t)
eqb_text_iff [] [] = (λ h. refl, λ h. refl)
eqb_text_iff [] (d ∷ t) = (λ h. absurd cc, λ h. absurd cc)
eqb_text_iff (c ∷ s) [] = (λ h. absurd cc, λ h. absurd cc)
eqb_text_iff (c ∷ s) (d ∷ t) = (
  λ h.
      let (p, q) = &&_parts (c == d) (eqb_text s t) h in
      let x = (==_iff c d).0 p in let y = (eqb_text_iff s t).0 q in cc,
  λ h.
      let x : c ≡ d = cc in
      let y : s ≡ t = cc in let p = (==_iff c d).1 x in rw p ((eqb_text_iff s t).1 y),
)
