-- ===== src/Rest/ErrorHandler.antt =====
-- rest/middleware/error_handler.go: how the errors of a request become its response. The checks and
-- response builders of the mappers are arguments, and so is gin's writer, but for the calls that the
-- code makes of it.
use go_fw.Prelude.{
  ℕ, Bool, true, false, ◌&&◌, not, Option, none, some, List, [], ◌∷◌, ◌++◌, leb, ◌==◌,
  if◌then◌else◌,
}
use go_fw.Errors.{
  ErrCode, panic, unknown, bad_argument, bad_state, not_found, not_authenticated, not_allowed,
  not_valid, conflict, other_code, Error, GoError, nil_error, first_framework, copy, set_stack_key,
  is_code,
}

-- An error of the request, and whether its type is that of a failed binding.
pub record GinError : Type 0 where
  pub err : GoError
  pub is_bind : Bool

-- A body of a builder, or the wrapper of a framework error.
pub data Body : Type 0 where
  built : ℕ → Body
  wrapper : Error → Body

-- What a response builder returns: an error, or a body and a status, of which either may be missing.
pub data Build : Type 0 where
  build_failed : Build
  response : Option ℕ → ℕ → Build

pub record ErrorMapper : Type 0 where
  pub check : GoError → Bool
  pub builder : GinError → Build

abbrev pub always : (GinError → Build) → ErrorMapper
always b = record { check = λ e. true; builder = b }

-- `NewErrorCodeMapper`
unfoldable pub error_code_mapper : ErrCode → (GinError → Build) → ErrorMapper
error_code_mapper c b = record { check = λ e. is_code e c; builder = b }

-- `NewErrorHandler`: the default builder, if there is one, comes last and takes any error.
unfoldable pub error_handler : List ErrorMapper → Option (GinError → Build) → List ErrorMapper
error_handler mappers none = mappers
error_handler mappers (some b) = mappers ++ always b ∷ []

-- The calls of gin's writer.
pub data Response : Type 0 where
  json : ℕ → Body → Response
  status_only : ℕ → Response

-- `errorCodesToStatus`, which has 0 for a code that it lacks.
unfoldable pub code_status : ErrCode → ℕ
code_status unknown = 500
code_status bad_state = 500
code_status panic = 500
code_status not_authenticated = 401
code_status not_allowed = 403
code_status not_found = 404
code_status conflict = 409
code_status bad_argument = 422
code_status not_valid = 422
code_status (other_code n) = 0

abbrev pub status_or_500 : ℕ → ℕ
status_or_500 s = if s == 0 then 500 else s

abbrev pub of_framework : Option Error → ℕ × Option Error
of_framework none = (0, none)
of_framework (some e) = (status_or_500 (code_status e.code), some e)

-- The status of the default handler, and the framework error if that is what it comes from.
unfoldable pub default_status : Option GinError → ℕ × Option Error
unfolding code_status
default_status none = (500, none)
default_status (some g) = if g.is_bind then (422, none) else of_framework (first_framework g.err)

abbrev pub for_env : Bool → Error → Error
for_env is_prod e = if is_prod then set_stack_key none (copy e) else e

abbrev pub default_body : Bool → Option ℕ → Option Error → Option Body
default_body is_prod (some b) e = some (built b)
default_body is_prod none (some e) = some (wrapper (for_env is_prod e))
default_body is_prod none none = none

abbrev pub respond : ℕ → Option Body → Response
respond s none = status_only s
respond s (some b) = json s b

-- `defaultHandler`: the responses written, of which there are none if it should not write. It looks
-- at the first error of the request, whichever was mapped.
unfoldable pub default_handler : Option GinError → Bool → Option ℕ → Bool → List Response
unfolding default_status
default_handler first is_prod body should_write =
    let (s, e) = default_status first in
    if should_write then respond s (default_body is_prod body e) ∷ [] else []

abbrev pub custom_body : Option ℕ → Option Body
custom_body none = none
custom_body (some b) = some (built b)

abbrev pub is_nothing : Option ℕ → Bool
is_nothing none = true
is_nothing (some b) = false

-- What a mapper that takes the error comes to: it says nothing, so that the search goes on, or the
-- error is mapped, with the responses written.
abbrev pub mapped_by :
    Option GinError → Bool → Bool → Build → Option (List Response) → Option (List Response)
mapped_by first is_prod should_write build_failed others = some []
mapped_by first is_prod should_write (response body s) others =
    if is_nothing body && s == 0
    then others
    else if s == 0
    then some (default_handler first is_prod body should_write)
    else if should_write
    then some (respond s (custom_body body) ∷ [])
    else some []

-- The loop over the mappers for one error; `none` says that none mapped it.
unfoldable pub try_mappers :
    Option GinError → Bool → Bool → GinError → List ErrorMapper → Option (List Response)
unfolding default_handler
try_mappers first is_prod should_write g [] = none
try_mappers first is_prod should_write g (m ∷ ms) =
    let others = try_mappers first is_prod should_write g ms in
    let taken = mapped_by first is_prod should_write (m.builder g) others in
    if m.check g.err then taken else others

-- The state of the loop over the errors: the mapped one, the others, and the responses.
pub record Progress : Type 0 where
  pub mapped : Option GoError
  pub others : List GoError
  pub responses : List Response

-- A nil error that is mapped leaves `mappedErr` nil.
abbrev pub note : GoError → Option (List Response) → Progress → Progress
note e none p = record p { others = p.others ++ e ∷ [] }
note nil_error (some rs) p = record p {
  others = p.others ++ nil_error ∷ [];
  responses = p.responses ++ rs;
}
note e (some rs) p = record p { mapped = some e; responses = p.responses ++ rs }

-- Of the error that was mapped before, if one was, and the next one with what the mappers say of it.
abbrev pub keep : Option GoError → GoError → Option (List Response) → Progress → Progress
keep (some mapped) e m p = record p { others = p.others ++ e ∷ [] }
keep none e m p = note e m p

abbrev pub visit :
    Option GinError → Bool → Bool → List ErrorMapper → Option GinError → Progress → Progress
visit first is_prod should_write ms none p = p
visit first is_prod should_write ms (some g) p =
    keep p.mapped g.err (try_mappers first is_prod should_write g ms) p

unfoldable pub visit_all :
    Option GinError → Bool → Bool → List ErrorMapper → List (Option GinError) → Progress → Progress
unfolding try_mappers
visit_all first is_prod should_write ms [] p = p
visit_all first is_prod should_write ms (g ∷ gs) p =
    visit_all first is_prod should_write ms gs (visit first is_prod should_write ms g p)

-- The level of the last log record, by the status of the response.
pub data Level : Type 0 where
  info warn error : Level

abbrev pub level_of : ℕ → Level
level_of s = if leb 500 s then error else if leb 400 s then warn else info

-- What is logged in the end, and the responses.
pub record Handled : Type 0 where
  pub logged : GoError
  pub also_logged : List GoError
  pub responses : List Response

-- What `handleErrors` comes to: it has nothing to do, panics after its responses, or is done.
pub data Handling : Type 0 where
  idle : Handling
  crashed : List Response → Handling
  handled : Handled → Handling

-- `otherErrs[0]` panics if there is none, which is so where every entry of the request is nil.
abbrev pub log_first : List GoError → List Response → Handling
log_first [] rs = crashed rs
log_first (e ∷ es) rs = handled (record { logged = e; also_logged = es; responses = rs })

abbrev pub log_mapped : Option GoError → List GoError → List Response → List Response → Handling
log_mapped none es rs answer = log_first es (rs ++ answer)
log_mapped (some e) es rs answer = handled (record { logged = e; also_logged = es; responses = rs })

-- If no error was mapped the default handler answers and the first error is logged.
abbrev pub finish : Option GinError → Bool → Bool → Progress → Handling
finish first is_prod should_write p =
    log_mapped p.mapped p.others p.responses (default_handler first is_prod none should_write)

abbrev pub started : Progress
started = record { mapped = none; others = []; responses = [] }

-- `handleErrors`, where `written` says that the response has been written already.
unfoldable pub handle_errors :
    Bool → List ErrorMapper → Bool → Bool → List (Option GinError) → Handling
unfolding visit_all default_handler
handle_errors is_prod ms broken_pipe written [] = idle
handle_errors is_prod ms broken_pipe written (g ∷ gs) =
    let should_write = not broken_pipe && not written in
    finish g is_prod should_write (visit_all g is_prod should_write ms (g ∷ gs) started)
