-- ===== src/Config/Finder.antt =====
-- `recursiveFileFinder` of config/internal.go. A directory is the list of its names from the root,
-- the last first; above the root is the root again. `stat` is what the file system says of a file.
use go_fw.Prelude.{
  ℕ, zero, suc, ◌<◌, ◌≡◌, ◌≢◌, refl, Option, none, some, List, [], ◌∷◌, arith, Returns,
}
use go_fw.Prelude.Text.{Text}

abbrev pub Dir : Type 0
Dir = List Text

abbrev pub parent : Dir → Dir
parent [] = []
parent (name ∷ d) = d

-- The files that the search looks for in a directory.
pub data File : Type 0 where
  in_test in_place go_mod : File

pub data Stat : Type 0 where
  present missing broken : Stat

pub data Search : Type 0 where
  found : Dir → File → Search
  not_exist failed : Search

-- What the three files of a directory say, and the answer of the search above it.
abbrev pub settle : Dir → Stat → Stat → Stat → Option Search → Option Search
settle d present _ _ above = some (found d in_test)
settle d broken _ _ above = some failed
settle d missing present _ above = some (found d in_place)
settle d missing broken _ above = some failed
settle d missing missing present above = some not_exist
settle d missing missing broken above = some failed
settle d missing missing missing above = above

-- With fuel; `none` says that it ran out. The test for the root reads the base name of the path of
-- go.mod, which is never a separator, so that it ends no search.
unfoldable pub find : ℕ → (Dir → File → Stat) → Dir → Option Search
find zero stat d = none
find (suc fuel) stat d =
    let above = find fuel stat (parent d) in
    settle d (stat d in_test) (stat d in_place) (stat d go_mod) above

abbrev pub ancestor : ℕ → Dir → Dir
ancestor zero d = d
ancestor (suc n) d = ancestor n (parent d)

-- A file that the search finds is there, and is not go.mod.
abbrev pub IsTrue : (Dir → File → Stat) → Search → Type 0
IsTrue stat (found d in_test) = stat d in_test ≡ present
IsTrue stat (found d in_place) = (stat d in_test ≡ missing) × (stat d in_place ≡ present)
IsTrue stat (found d go_mod) = ⊥
IsTrue stat not_exist = Unit
IsTrue stat failed = Unit

-- The answer is true if the one from above is, where that is needed.
settle_lem :
    (stat : Dir → File → Stat) (d : Dir) (t p m : Stat) (above : Option Search)
    → stat d in_test ≡ t
    → stat d in_place ≡ p
    → (m ≡ missing → Returns (IsTrue stat) above)
    → Returns (IsTrue stat) (settle d t p m above)
settle_lem stat d present p m above e f g = e
settle_lem stat d broken p m above e f g = tt
settle_lem stat d missing present m above e f g = (e, f)
settle_lem stat d missing broken m above e f g = tt
settle_lem stat d missing missing present above e f g = tt
settle_lem stat d missing missing broken above e f g = tt
settle_lem stat d missing missing missing above e f g = g refl

-- If an ancestor `n` steps up has a go.mod, or one that cannot be looked at, then more than `n`
-- rounds are enough for an answer, and a file that is found is there.
pub find_ends :
    (fuel n : ℕ) (stat : Dir → File → Stat) (d : Dir)
    → n < fuel
    → stat (ancestor n d) go_mod ≢ missing
    → Returns (IsTrue stat) (find fuel stat d)
unfolding find
find_ends zero n stat d le m = elim le [ ]
find_ends (suc fuel) zero stat d le m =
    settle_lem stat d _ _ (stat d go_mod) _ refl refl (λ r. absurd (m r))
find_ends (suc fuel) (suc n) stat d le m =
    settle_lem stat d _ _ (stat d go_mod) _ refl refl
      (λ r. find_ends fuel n stat (parent d) (omega arith) m)

-- If no ancestor has the file or a go.mod, no number of rounds is enough: the search never ends.
pub find_runs_on :
    (fuel : ℕ) (stat : Dir → File → Stat) (d : Dir)
    → ((n : ℕ) (f : File) → stat (ancestor n d) f ≡ missing)
    → find fuel stat d ≡ none
unfolding find
find_runs_on zero stat d h = refl
find_runs_on (suc fuel) stat d h =
    rw (h 0 in_test, h 0 in_place, h 0 go_mod)
      (find_runs_on fuel stat (parent d) (λ n f. h (suc n) f))
