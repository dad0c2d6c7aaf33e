-- ===== src/Log/Paths.antt =====
-- log/logger_factory.go: the path that a logger is asked for, be it by a caller, a type, a context or
-- a path, and how a factory is made. The frames of the stack are a list of function names, and
-- `path.Clean` is an argument.
use go_fw.Prelude.{
  ℕ, zero, suc, ◌<◌, ◌≤◌, ◌≡◌, ◌≢◌, ◌⊎◌, refl, inl, inr, Bool, false, not, ◌&&◌, ◌||◌, Option, none,
  some, List, [], ◌∷◌, ◌++◌, arith, if◌then◌else◌,
}
use go_fw.Prelude.Int.{ℤ}
use go_fw.Prelude.Text.{Text, codes, eqb_text, starts_with}
use go_fw.Log.Attrs.{Attr}
use go_fw.Log.Loggers.{Logger, RootConfig, Factory, get_logger}

-- What `reflect` says of a type: the path of its package and its name, which are empty if it has
-- none, and its element, if it is a pointer, a slice, an array, a map or a channel.
pub data GoType : Type 0 where
  simple : Text → Text → GoType
  container : Text → Text → GoType → GoType

abbrev pub no_path : Text
no_path = codes "_"

abbrev pub max_iterations : ℕ
max_iterations = 10

-- The loop of `GetLoggerFromCtxForType`, with the rounds that are left. A type without an element
-- leads to nil, and so does nil.
unfoldable pub type_path : ℕ → Option GoType → Text
type_path zero t = no_path
type_path (suc n) none = no_path
type_path (suc n) (some (simple pkg name)) =
    if eqb_text pkg [] then type_path n none else pkg ++ codes "." ++ name
type_path (suc n) (some (container pkg name elem)) =
    let rest = type_path n (some elem) in if eqb_text pkg [] then rest else pkg ++ codes "." ++ name

abbrev pub skip_path_prefixes : List Text
skip_path_prefixes =
    codes "github.com/southernlabs-io/go-fw/log.(*LoggerFactory)."
    ∷ codes "github.com/southernlabs-io/go-fw/log.Logger."
    ∷ codes "github.com/southernlabs-io/go-fw/log.GetLogger"
    ∷ codes "github.com/southernlabs-io/go-fw/worker.NewWorkerContext"
    ∷ []

abbrev pub has_prefix_of : List Text → Text → Bool
has_prefix_of [] f = false
has_prefix_of (p ∷ ps) f = starts_with p f || has_prefix_of ps f

-- The path of the first frame that is not skipped and has a name.
unfoldable pub find_caller_path : List Text → Text
find_caller_path [] = no_path
find_caller_path (f ∷ fs) =
    let rest = find_caller_path fs in
    if not (has_prefix_of skip_path_prefixes f) && not (eqb_text f []) then f else rest

-- The levels of a configuration with their paths cleaned, in the order in which the map is walked.
abbrev pub normalized : (Text → Text) → List (Text × ℤ) → (Text → Option ℤ) → (Text → Option ℤ)
normalized clean [] m = m
normalized clean ((pth, level) ∷ ls) m =
    normalized clean ls (λ p. if eqb_text p (clean pth) then some level else m p)

-- `NewLoggerFactory`, of a configuration with these levels.
abbrev pub new_logger_factory : (Text → Text) → List (Text × ℤ) → RootConfig → Factory
new_logger_factory clean levels conf = record {
  conf = record conf { levels = normalized clean levels (λ p. none) };
  writer = none;
  loggers_by_path = λ p. none;
  levelers = record { values = λ i. ℤ.pos 0; count = 0 };
}

abbrev pub new_logger_factory_with_writer :
    (Text → Text) → List (Text × ℤ) → RootConfig → ℕ → Factory
new_logger_factory_with_writer clean levels conf w = record (new_logger_factory clean levels conf) {
  writer = some w;
}

abbrev pub get_logger_for_path : Text → Factory → Option (Factory × Logger)
get_logger_for_path path f = get_logger [] path f

abbrev pub get_root_logger : Factory → Option (Factory × Logger)
get_root_logger f = get_logger_for_path (codes "root") f

-- The logger of the caller, with the frames of the stack.
abbrev pub get_logger_from_ctx : List Attr → List Text → Factory → Option (Factory × Logger)
get_logger_from_ctx attrs frames f = get_logger attrs (find_caller_path frames) f

abbrev pub get_logger_from_ctx_for_type :
    List Attr → Option GoType → Factory → Option (Factory × Logger)
get_logger_from_ctx_for_type attrs t f = get_logger attrs (type_path max_iterations t) f

-- The factory of a context, or the default one.
abbrev pub factory_of : Option Factory → Factory → Factory
factory_of none default = default
factory_of (some f) default = f

-- A type below `n` pointers, slices and the like, which have no name.
abbrev pub below : ℕ → GoType → GoType
below zero t = t
below (suc n) t = container [] [] (below n t)

unnamed : (pkg : Text) → pkg ≢ [] → eqb_text pkg [] ≡ false
unnamed [] p = absurd (p refl)
unnamed (c ∷ pkg) p = refl

-- Below as many pointers, slices and the like as there are rounds or more, a type with a package is
-- not found, and below fewer it is; so a type and pointers to it share a logger.
pub type_path-below :
    (rounds n : ℕ) (pkg name : Text)
    → pkg ≢ []
    → ((n < rounds)
        × (type_path rounds (some (below n (simple pkg name))) ≡ pkg ++ codes "." ++ name))
      ⊎ ((rounds ≤ n) × (type_path rounds (some (below n (simple pkg name))) ≡ no_path))
unfolding type_path
type_path-below zero n pkg name p = inr (omega arith, refl)
type_path-below (suc r) zero pkg name p = inl (omega arith, rw (unnamed pkg p) refl)
type_path-below (suc r) (suc n) pkg name p = elim (type_path-below r n pkg name p) [
  | inl (le, e) ↦ inl (omega (arith, le), e)
  | inr (le, e) ↦ inr (omega (arith, le), e)
]
