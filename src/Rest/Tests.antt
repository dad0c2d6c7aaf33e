-- ===== src/Rest/Tests.antt =====
-- The handler at a request with two errors, and authentication with two excluded prefixes.
use go_fw.Prelude.{refl, ◌≡◌, ◌≢◌, true, false, none, some, List, [], ◌∷◌, inr}
use go_fw.Errors.{not_found, nil_error, plain, wrapping, end, conflict, Keys, newf}
use go_fw.Rest.ErrorHandler.{
  GinError, ErrorMapper, Build, build_failed, response, error_code_mapper, error_handler,
  handle_errors,
}
use go_fw.Rest.Visits.{responses_of, room, answer_count}
use go_fw.Rest.Responses.{handle_errors_answers}
use go_fw.Prelude.{◌++◌, not, ◌||◌, Option, Bool}
use go_fw.Prelude.Text.{Text, codes, starts_with}
use go_fw.Rest.Authn.{
  Excludes, Request, Answer, principal, invalid_token, failure, is_excluded, exclude_prefix,
  exclude_prefix_and_methods, methods_of, set_methods,
}
use go_fw.Rest.Authn.Excluded.{Call, prefix, methods, configure, any_covers, is_excluded-configured}
use mathlib.Core.List.{Pairwise, Pairwise-pair}
use mathlib.Core.List.Perm
use mathlib.Core.HLevel.{¬_prop}
use go_fw.Prelude.{Perm}
use go_fw.Prelude.Int.{pos}
use go_fw.Rest.Middlewares.{Middleware, compare_middlewares, new_middlewares}
use go_fw.Rest.Middlewares.Sorting.{IsBefore, new_middlewares-perm}
use go_fw.Rest.Middlewares.Insertion.{insertion_sort, insertion_sort-Sorts}
use go_fw.Rest.RouterGroup.{Group}
use go_fw.Rest.RouterGroup.Metadata.{
  Registration, MetaCall, by_handle, by_match, by_match_with_meta,
}
use go_fw.Rest.Recovery.{Gin, of_value, run_error_handler}
use go_fw.Rest.Recovery.Answers.{Documented, run_error_handler-length}
use go_fw.Rest.Authn.Cached.{require_all, decided_all, require_all-decided}

abbrev keys : Keys
keys = record { code_key = 1; message_key = some 2; stack_key = some 3 }

abbrev lost : GinError
lost = record { err = wrapping (newf keys not_found 10 end 4); is_bind = false }

abbrev odd : GinError
odd = record { err = plain 7; is_bind = false }

abbrev gone : GinError → Build
gone g = response (some 3) 410

abbrev fails : GinError → Build
fails g = build_failed

abbrev mappers : (GinError → Build) → List ErrorMapper
mappers b = error_handler (error_code_mapper conflict gone ∷ []) (some b)

lost_set : (wrapping (newf keys not_found 10 end 4) ≢ nil_error)
lost_set = λ e. cc

odd_set : (plain 7 ≢ nil_error)
odd_set = λ e. cc

handle_errors_answers_example :
    answer_count
      (responses_of (handle_errors true (mappers gone) false false (none ∷ some lost ∷ [])))
    ≡ room true
unfolding error_handler error_code_mapper
handle_errors_answers_example =
    handle_errors_answers true (mappers gone) false false none (some lost ∷ [])
      (λ g e. cc, (λ g e. cc, tt)) tt (lost_set, tt)

-- path.Join of the base path, for prefixes that begin with a slash.
abbrev under_api : Text → Text
under_api p = codes "/api" ++ p

abbrev calls : List Call
calls =
    methods (codes "/docs") (codes "GET" ∷ [])
    ∷ methods (codes "/docs") (codes "HEAD" ∷ [])
    ∷ prefix (codes "/login")
    ∷ []

abbrev excludes : Excludes
excludes = (codes "/docs", codes "GET" ∷ codes "HEAD" ∷ []) ∷ (codes "/login", []) ∷ []

is_excluded-configured_example :
    is_excluded (codes "/api") under_api excludes (codes "/api/docs/a") (codes "HEAD")
    ≡ not (starts_with (codes "/api") (codes "/api/docs/a"))
      || any_covers under_api (codes "/api/docs/a") (codes "HEAD") calls
unfolding configure exclude_prefix exclude_prefix_and_methods methods_of set_methods
is_excluded-configured_example =
    is_excluded-configured (codes "/api") under_api calls excludes (codes "/api/docs/a")
      (codes "HEAD") refl

abbrev request : Text → Answer → Request
request path a = record { path = path; method = codes "GET"; answer = a }

abbrev requests : List Request
requests =
    request (codes "/api/docs") failure
    ∷ request (codes "/api/users") (principal 7)
    ∷ request (codes "/api/users") invalid_token
    ∷ []

require_all-decided_example :
    require_all (codes "/api") under_api excludes [] requests
    ≡ decided_all (codes "/api") under_api excludes requests
require_all-decided_example = require_all-decided (codes "/api") under_api excludes requests

abbrev recovery : Middleware
recovery = record {
  pointer = 1;
  priority = pos 1;
  name = codes "PanicRecoveryMiddleware";
  pkg_path = codes "middleware";
}

abbrev logger : Middleware
logger = record recovery { pointer = 2; priority = pos 0; name = codes "RequestLoggerMiddleware" }

new_middlewares-perm_example :
    (new_middlewares insertion_sort (recovery ∷ logger ∷ [])
      ≡ new_middlewares insertion_sort (logger ∷ recovery ∷ []))
    × Pairwise
        (IsBefore compare_middlewares)
        (new_middlewares insertion_sort (recovery ∷ logger ∷ []))
    × Perm (new_middlewares insertion_sort (recovery ∷ logger ∷ [])) (recovery ∷ logger ∷ [])
new_middlewares-perm_example =
    new_middlewares-perm insertion_sort (recovery ∷ logger ∷ []) (logger ∷ recovery ∷ [])
      insertion_sort-Sorts ((Pairwise-pair (λ a b. ¬_prop)).1 (λ e. absurd cc))
      (Perm.swap logger recovery [])

abbrev joined_text : Text → Text → Text
joined_text a b = a ++ b

abbrev resources : Group
resources = record { base_path = codes "/resources"; group_metadata = 1 ∷ [] }

abbrev listing : MetaCall
listing = record {
  group = resources;
  method = codes "GET";
  relative = codes "/";
  metadata = some 2;
}

abbrev registrations : List Registration
registrations =
    by_match resources (codes "GET" ∷ []) (codes "/")
    ∷ by_handle listing
    ∷ by_match_with_meta resources (codes "POST" ∷ codes "GET" ∷ []) (codes "/") (some 4)
    ∷ by_handle (record listing { metadata = some 3 })
    ∷ []

-- A context that keeps the errors of a request and whether its header is written.
abbrev small_gin : Gin
small_gin = record {
  Context = List (Option GinError) × Bool;
  errors = λ c. c.0;
  written = λ c. c.1;
  add_error = λ e c. (c.0 ++ (some e ∷ []), c.1);
  abort = λ c. c;
  abort_with_error = λ s e c. (c.0 ++ (some e ∷ []), true);
  abort_with_status = λ s c. (c.0, true);
  send_json = λ s body c. (c.0, true);
  abort_with_json = λ s body c. (c.0, true);
}

abbrev small_gin_documented : Documented small_gin
small_gin_documented = record {
  errors-add_error = λ e c. refl;
  errors-abort = λ c. refl;
  errors-abort_with_error = λ s e c. refl;
  written-abort_with_error = λ s e c. refl;
}

run_error_handler-length_example :
    (answer_count
        (responses_of (run_error_handler small_gin keys 1 2 true [] none (some lost ∷ [], false)))
      ≡ 1)
    × (answer_count (
          responses_of (
            run_error_handler small_gin keys 1 2 true []
              (some (of_value 5))
              (some lost ∷ [], false)))
        ≡ 0)
unfolding go_fw.Errors.first_framework newf
run_error_handler-length_example =
    run_error_handler-length small_gin small_gin_documented keys 1 2 true [] (of_value 5)
      (some lost ∷ [], false) tt (inr (_, refl)) (λ e. absurd cc, tt) refl (λ e. absurd cc)
