-- ===== src/Config/Tests.antt =====
-- The theorems on the configuration at concrete maps and file systems.
use go_fw.Prelude.{none, some, [], ◌∷◌, arith, Returns}
use go_fw.Prelude.Text.{codes}
use go_fw.Config.{Entries, text, end, entry}
use go_fw.Config.Finder.{
  Dir, File, go_mod, in_test, Stat, present, missing, IsTrue, find, find_ends,
}
use go_fw.Config.Secrets.{Manager}

-- A module two levels up, with a configuration in its test directory.
abbrev module_above : Dir → File → Stat
module_above [] in_test = present
module_above [] go_mod = present
module_above _ _ = missing

abbrev start : Dir
start = codes "b" ∷ codes "a" ∷ []

find_ends_example : Returns (IsTrue module_above) (find 3 module_above start)
find_ends_example = find_ends 3 2 module_above start (omega arith) (cc)

abbrev manager : Manager
manager = record { get_secret = λ k. some (codes "s3"); get_secret_verbatim = λ k. none }

abbrev top : Entries
top = entry (codes "pass") (text (codes "<secret>")) (entry (codes "host") (text (codes "db")) end)
