-- ===== src/Log/Loggers.antt =====
-- log/logger.go and log/logger_factory.go: loggers, which share the variable of their level with
-- their copies, and the factory that keeps one for each path. The handlers of slog and of the console
-- are not modelled beyond what they write and their options; nor is the source of a record.
use go_fw.Prelude.{
  ℕ, suc, Bool, true, false, not, ◌||◌, Option, none, some, List, [], ◌∷◌, ◌++◌, length, update,
  if◌then◌else◌,
}
use go_fw.Prelude.Int.{ℤ, ltb_ℤ}
use go_fw.Prelude.Text.{Text, codes, eqb_text}
use go_fw.Config.Texts.{
  level_trace, level_debug, level_info, level_warn, level_error, writer_stdout, writer_stderr,
  writer_buffer,
}
use go_fw.Log.{find_level}
use go_fw.Log.Attrs.{Attr, of_text}

pub data Writer : Type 0 where
  to_stdout to_stderr to_buffer : Writer
  given : ℕ → Writer

-- `leveler` is the address of the variable with the level; the handler writes JSON or to a console.
pub record Logger : Type 0 where
  pub name : Text
  pub leveler : ℕ
  pub writer : Writer
  pub is_console : Bool
  pub attrs : List Attr

pub record RootConfig : Type 0 where
  pub env_type : Text
  pub level : ℤ
  pub levels : Text → Option ℤ
  pub writer : Text

-- The level variables by their addresses, and the next address.
pub record Levelers : Type 0 where
  pub values : ℕ → ℤ
  pub count : ℕ

-- The field `writer` of the factory is nil or given; `loggers_by_path` is its cache.
pub record Factory : Type 0 where
  pub conf : RootConfig
  pub writer : Option ℕ
  pub loggers_by_path : Text → Option Logger
  pub levelers : Levelers

abbrev pub set_level : Logger → ℤ → Levelers → Levelers
set_level l level s = record s { values = update s.values l.leveler level }

abbrev pub level_of : Logger → Levelers → ℤ
level_of l s = s.values l.leveler

abbrev pub with_attrs : List Attr → Logger → Logger
with_attrs new l = record l { attrs = l.attrs ++ new }

-- The environments local and test have a console, which shows the name of the logger.
abbrev pub has_console : RootConfig → Bool
has_console conf = eqb_text conf.env_type (codes "local") || eqb_text conf.env_type (codes "test")

abbrev pub show_name : Bool → Logger → Logger
show_name true l = with_attrs (record { key = codes "logger.name"; value = of_text l.name } ∷ []) l
show_name false l = l

-- The logger before it shows its name.
abbrev pub bare_logger : RootConfig → Text → Writer → Levelers → Logger
bare_logger conf name writer s = record {
  name = name;
  leveler = s.count;
  writer = writer;
  is_console = has_console conf;
  attrs = [];
}

-- `NewLoggerWithWriter`
unfoldable pub new_logger_with_writer : RootConfig → Text → Writer → Levelers → Levelers × Logger
new_logger_with_writer conf name writer s =
    let l = bare_logger conf name writer s in
    (set_level l conf.level (record s { count = suc s.count }), show_name (has_console conf) l)

-- The writer of the configuration; `none` is a panic.
abbrev pub configured_writer : Text → Option Writer
configured_writer w =
    if eqb_text w [] || eqb_text w writer_stdout
    then some to_stdout
    else (if eqb_text w writer_stderr
        then some to_stderr
        else (if eqb_text w writer_buffer then some to_buffer else none))

abbrev pub writer_for : Option ℕ → Text → Option Writer
writer_for (some w) text = some (given w)
writer_for none text = configured_writer text

-- The level that was found for the path, if one is.
abbrev pub set_found : Logger → Option (Option ℤ) → Levelers → Levelers
set_found l (some (some level)) s = set_level l level s
set_found l (some none) s = s
set_found l none s = s

-- `newLogger`: the loop over the path has fuel for each of its characters.
unfoldable pub new_logger : RootConfig → Text → Writer → Levelers → Levelers × Logger
new_logger conf path writer s =
    let (after, l) = new_logger_with_writer conf path writer s in
    (set_found l (find_level (length path) conf.levels path) after, l)

abbrev pub put_logger : Text → Logger → (Text → Option Logger) → (Text → Option Logger)
put_logger path l m p = if eqb_text p path then some l else m p

abbrev pub made : Text → Option Writer → Factory → Option (Factory × Logger)
made path none f = none
made path (some w) f =
    let (after, l) = new_logger f.conf path w f.levelers in
    some (record f { loggers_by_path = put_logger path l f.loggers_by_path; levelers = after }, l)

abbrev pub cached : Option Logger → Text → Factory → Option (Factory × Logger)
cached (some l) path f = some (f, l)
cached none path f = made path (writer_for f.writer f.conf.writer) f

-- The attributes of the context are added to a copy.
abbrev pub with_context : List Attr → Option (Factory × Logger) → Option (Factory × Logger)
with_context attrs none = none
with_context [] (some (f, l)) = some (f, l)
with_context (a ∷ attrs) (some (f, l)) = some (f, with_attrs (a ∷ attrs) l)

-- `GetLoggerFromCtxForPath`, of a context with these attributes; `none` is a panic.
unfoldable pub get_logger : List Attr → Text → Factory → Option (Factory × Logger)
get_logger attrs path f = with_context attrs (cached (f.loggers_by_path path) path f)

-- What is handed to the handler.
pub record Record : Type 0 where
  pub level : ℤ
  pub message : Text
  pub own_attrs : List Attr
  pub attrs : List Attr
  pub writer : Writer

abbrev pub enabled : ℤ → Logger → Levelers → Bool
enabled level l s = not (ltb_ℤ level (level_of l s))

unfoldable pub log_attrs : ℤ → Text → List Attr → Logger → Levelers → Option Record
log_attrs level message attrs l s =
    if enabled level l s
    then some (record {
      level = level;
      message = message;
      own_attrs = l.attrs;
      attrs = attrs;
      writer = l.writer;
    })
    else none

-- The methods of a level, which look whether it is enabled and then log.
abbrev pub log_if : ℤ → Text → List Attr → Logger → Levelers → Option Record
log_if level message attrs l s =
    if not (enabled level l s) then none else log_attrs level message attrs l s

abbrev pub trace : Text → List Attr → Logger → Levelers → Option Record
trace = log_if level_trace

abbrev pub debug : Text → List Attr → Logger → Levelers → Option Record
debug = log_if level_debug

abbrev pub info : Text → List Attr → Logger → Levelers → Option Record
info = log_if level_info

abbrev pub warn : Text → List Attr → Logger → Levelers → Option Record
warn = log_if level_warn

abbrev pub error : Text → List Attr → Logger → Levelers → Option Record
error = log_if level_error
