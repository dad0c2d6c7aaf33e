-- ===== src/Rest/Recovery.antt =====
-- rest/middleware: panic_recovery.go, with the deferred call of error_handler.go, health.go, ready.go
-- and authz.go. gin's context is a parameter, with the calls that the code makes of it.
pub mod Answers
use go_fw.Prelude.{ℕ, Bool, true, false, Option, none, some, List, [], ◌∷◌, map, if◌then◌else◌}
use go_fw.Prelude.Text.{Text, eqb_text}
use go_fw.Errors.{ErrCode, panic, unknown, other_code, Keys, GoError, Wrapped, end, also, newf}
use go_fw.Rest.ErrorHandler.{GinError, ErrorMapper, Handling, handle_errors}

pub record Gin : Type 1 where
  pub Context : Type 0
  pub errors : Context → List (Option GinError)
  pub written : Context → Bool
  pub add_error : GinError → Context → Context
  pub abort : Context → Context
  pub abort_with_error : ℕ → GinError → Context → Context
  pub abort_with_status : ℕ → Context → Context
  pub send_json : ℕ → ℕ → Context → Context
  pub abort_with_json : ℕ → ℕ → Context → Context

-- What the handlers panicked with: an error, and whether its text is that of a broken connection, or
-- another value.
pub data Panic : Type 0 where
  of_error : GoError → Bool → Panic
  of_value : ℕ → Panic

abbrev pub broken_pipe : Panic → Bool
broken_pipe (of_error e broken) = broken
broken_pipe (of_value v) = false

abbrev pub hidden : Panic → Wrapped
hidden (of_error e broken) = also e end
hidden (of_value v) = end

-- The error made of a panic; the message and the stack are arguments.
abbrev pub recovery_error : Keys → ℕ → ℕ → Panic → GinError
recovery_error keys message stack p = record {
  err = newf keys panic message (hidden p) stack;
  is_bind = false;
}

-- A health check or a ready check: its name, and the error that it returned.
pub record Check : Type 0 where
  pub name : Text
  pub outcome : Option ℕ

module _ (g : Gin) where
  open g use {
    Context, errors, written, add_error, abort, abort_with_error, abort_with_status, send_json,
    abort_with_json,
  }

  unfoldable pub handle_panic : Keys → ℕ → ℕ → Panic → Context → Context × Bool
  handle_panic keys message stack p c =
      let e = recovery_error keys message stack p in
      if broken_pipe p then (abort (add_error e c), true) else (abort_with_error 500 e c, false)

  -- The deferred call after the handlers: the context, and whether the pipe is broken.
  abbrev pub recovered : Keys → ℕ → ℕ → Option Panic → Context → Context × Bool
  recovered keys message stack none c = (c, false)
  recovered keys message stack (some p) c = handle_panic keys message stack p c

  -- `ErrorHandlerMiddleware.Run`, after the handlers have left `c` and maybe panicked.
  unfoldable pub run_error_handler :
      Keys → ℕ → ℕ → Bool → List ErrorMapper → Option Panic → Context → Handling
  run_error_handler keys message stack is_prod ms p c =
      let (after, broken) = recovered keys message stack p c in
      handle_errors is_prod ms broken (written after) (errors after)

  -- The map of the failed checks, in which a later check replaces one of its name.
  abbrev pub put_failed : Text → ℕ → List (Text × ℕ) → List (Text × ℕ)
  put_failed name err [] = (name, err) ∷ []
  put_failed name err ((k, e) ∷ rest) =
      let others = put_failed name err rest in
      if eqb_text k name then (k, err) ∷ rest else (k, e) ∷ others

  abbrev pub note_failed : Check → List (Text × ℕ) → List (Text × ℕ)
  note_failed check failed = elim check.outcome [
    | none ↦ failed
    | some err ↦ put_failed check.name err failed
  ]

  unfoldable pub failed_checks : List Check → List (Text × ℕ) → List (Text × ℕ)
  failed_checks [] failed = failed
  failed_checks (c ∷ cs) failed = failed_checks cs (note_failed c failed)

  -- The errors of the failed checks; what `error_of` makes of one is an argument.
  abbrev pub add_errors : (Text × ℕ → GinError) → List (Text × ℕ) → Context → Context
  add_errors error_of [] c = c
  add_errors error_of (f ∷ fs) c = add_errors error_of fs (add_error (error_of f) c)

  -- `HealthCheck` and `ReadyCheck`, with the bodies of their answers. The source goes through the
  -- map of failures in no fixed order; here it is that of the checks.
  abbrev pub answer_checks :
      (Text × ℕ → GinError) → ℕ → (List (Text × ℕ) → ℕ) → List (Text × ℕ) → Context → Context
  answer_checks error_of pass fail [] c = send_json 200 pass c
  answer_checks error_of pass fail (f ∷ fs) c =
      abort_with_json 500 (fail (f ∷ fs)) (add_errors error_of (f ∷ fs) c)

  unfoldable pub run_checks :
      (Text × ℕ → GinError) → ℕ → (List (Text × ℕ) → ℕ) → List Check → Context → Context
  run_checks error_of pass fail checks c =
      answer_checks error_of pass fail (failed_checks checks []) c
