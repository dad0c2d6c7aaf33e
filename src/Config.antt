-- ===== src/Config.antt =====
-- config/internal.go: how a configuration map takes values of the environment and secrets, and the
-- search for a configuration file.
pub mod Finder
pub mod Secrets
pub mod Environment
pub mod Texts
pub mod Loaded
pub mod Tests
use go_fw.Prelude.{ℕ, Option, none, some, List, [], ◌∷◌, if◌then◌else◌}
use go_fw.Prelude.Text.{Text, eqb_text}

-- A map of the configuration, in the order in which it is walked. `other` is any value that is
-- neither a map nor a text.
mutual
  pub data Value : Type 0 where
    text : Text → Value
    other : ℕ → Value
    mapping : Entries → Value

  pub data Entries : Type 0 where
    end : Entries
    entry : Text → Value → Entries → Entries

unfoldable pub lookup : Text → Entries → Option Value
lookup k end = none
lookup k (entry j v es) = if eqb_text k j then some v else lookup k es

-- `m[key] = value`; a new key goes to the end.
unfoldable pub put : Text → Value → Entries → Entries
put k v end = entry k v end
put k v (entry j w es) = if eqb_text k j then entry j v es else entry j w (put k v es)
