-- ===== src/Log.antt =====
-- log/logger_factory.go: the level that `newLogger` finds for a path.
pub mod Levels
pub mod Attrs
pub mod Aliasing
pub mod Loggers
pub mod Paths
pub mod Separate
pub mod Tests
use go_fw.Prelude.{ℕ, zero, suc, Bool, ◌||◌, Option, none, some, [], ◌∷◌, ◌==◌, if◌then◌else◌}
use go_fw.Prelude.Int.{ℤ}
use go_fw.Prelude.Text.{Text}

-- A slash or a dot.
abbrev pub is_separator : ℕ → Bool
is_separator c = c == b'/' || c == b'.'

abbrev pub put_before : ℕ → Option Text → Option Text
put_before c (some s) = some (c ∷ s)
put_before c none = if is_separator c then some [] else none

-- pth[:strings.LastIndexAny(pth, "/.")], or `none` where the index is -1.
unfoldable pub before_last : Text → Option Text
before_last [] = none
before_last (c ∷ s) = put_before c (before_last s)

-- The path of the next round; the loop ends at an index that is not positive, here at [].
abbrev pub next_path : Option Text → Text
next_path none = []
next_path (some p) = p

abbrev pub or_level : Option ℤ → Option (Option ℤ) → Option (Option ℤ)
or_level none rest = rest
or_level (some level) rest = some (some level)

-- The loop over the path, with fuel: `none` if that runs out, or the level that is set, if one is.
-- The configured levels are a map.
unfoldable pub find_level : ℕ → (Text → Option ℤ) → Text → Option (Option ℤ)
unfolding before_last
find_level fuel levels [] = some none
find_level zero levels (c ∷ s) = none
find_level (suc fuel) levels (c ∷ s) =
    let rest = find_level fuel levels (next_path (before_last (c ∷ s))) in
    or_level (levels (c ∷ s)) rest
