-- ===== src/Rest/Middlewares.antt =====
-- rest/middleware/middleware.go: the order in which the middlewares are set up. Of a middleware the
-- model has the pointer to it, its priority, and the name and package of its type.
pub mod Order
pub mod Sorting
pub mod Insertion
use mathlib.Core.Ordering.{Ordering, lt, eq, gt}
use go_fw.Prelude.{ℕ, Bool, true, false, ◌&&◌, ◌||◌, List, [], ◌∷◌, ltb, ◌==◌, if◌then◌else◌}
use go_fw.Prelude.Int.{ℤ, pos, ltb_ℤ, eqb_ℤ}
use go_fw.Prelude.Text.{Text, eqb_text}

abbrev pub highest : ℤ
highest = pos 0

abbrev pub probes : ℤ
probes = pos 1000

abbrev pub authn : ℤ
authn = pos 2000

abbrev pub authz : ℤ
authz = pos 3000

pub record Middleware : Type 0 where
  pub pointer : ℕ
  pub priority : ℤ
  pub name : Text
  pub pkg_path : Text

-- Go's `<` on strings.
abbrev pub ltb_text : Text → Text → Bool
ltb_text [] [] = false
ltb_text [] (d ∷ t) = true
ltb_text (c ∷ s) [] = false
ltb_text (c ∷ s) (d ∷ t) = ltb c d || (c == d && ltb_text s t)

-- One level of the comparison: -1 if it is less, 1 if it is neither less nor equal, and the next
-- level if it is equal.
abbrev pub level : Bool → Bool → Ordering → Ordering
level less same next = if less then lt else (if same then next else gt)

-- The function that the middlewares are sorted by; -1, 0 and 1 are `lt`, `eq` and `gt`.
unfoldable pub compare_middlewares : Middleware → Middleware → Ordering
compare_middlewares a b = level (ltb_ℤ a.priority b.priority) (eqb_ℤ a.priority b.priority) (
    level (ltb_text a.name b.name) (eqb_text a.name b.name)
      (level (ltb_text a.pkg_path b.pkg_path) (eqb_text a.pkg_path b.pkg_path) eq))

-- `NewMiddlewares`: the middlewares in the order in which `Setup` goes through them, by a sort of
-- the library, which takes the comparison.
abbrev pub new_middlewares :
    ((Middleware → Middleware → Ordering) → List Middleware → List Middleware)
    → List Middleware
    → List Middleware
new_middlewares sort_func middlewares = sort_func compare_middlewares middlewares
