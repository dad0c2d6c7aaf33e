-- ===== src/Rest/Recovery/Answers.antt =====
-- What a request is answered that fails or panics.
use go_fw.Prelude.{
  ℕ, ◌≤◌, ◌≡◌, ◌≢◌, refl, sym, subst, ◌∙◌, inl, inr, Bool, true, false, Bool-cases, Option, none,
  some, List, [], ◌∷◌, ◌++◌, arith, not, ◌&&◌,
}
use go_fw.Errors.{Keys, nil_error, newf}
use go_fw.Rest.ErrorHandler.{GinError, ErrorMapper, handle_errors}
use go_fw.Rest.Visits.{room, answer_count, IsKnown, IsRecorded, responses_of}
use go_fw.Rest.Responses.{AreBuilt, handle_errors_at_most, handle_errors_answers}
use go_fw.Rest.Recovery.{Gin, Panic, broken_pipe, recovery_error, handle_panic, run_error_handler}

-- What gin documents of its calls: `Error` appends an error, `Abort` changes no error, and
-- `AbortWithError` does both and writes the header.
pub record Documented (g : Gin) : Type 0 where
  pub errors-add_error :
      (e : GinError) (c : g.Context) → g.errors (g.add_error e c) ≡ g.errors c ++ (some e ∷ [])
  pub errors-abort : (c : g.Context) → g.errors (g.abort c) ≡ g.errors c
  pub errors-abort_with_error :
      (s : ℕ) (e : GinError) (c : g.Context)
      → g.errors (g.abort_with_error s e c) ≡ g.errors c ++ (some e ∷ [])
  pub written-abort_with_error :
      (s : ℕ) (e : GinError) (c : g.Context) → g.written (g.abort_with_error s e c) ≡ true

append-IsRecorded :
    (gs : List (Option GinError)) (e : GinError)
    → e.err ≢ nil_error
    → IsRecorded gs
    → IsRecorded (gs ++ (some e ∷ []))
append-IsRecorded [] e n h = (n, tt)
append-IsRecorded (none ∷ gs) e n h = append-IsRecorded gs e n h
append-IsRecorded (some g ∷ gs) e n (h, k) = (h, append-IsRecorded gs e n k)

recovery_lem :
    (keys : Keys) (message stack : ℕ) (p : Panic)
    → (recovery_error keys message stack p).err ≢ nil_error
unfolding newf
recovery_lem keys message stack p e = absurd cc

module _ (g : Gin) (doc : Documented g) where
  open g use {Context, errors, written}
  open doc use {errors-add_error, errors-abort, errors-abort_with_error, written-abort_with_error}

  written_lem : (w : Bool) (n : ℕ) → w ≡ true → n ≤ room (not false && not w) → n ≤ 0
  written_lem true n e h = h
  written_lem false n e h = absurd cc

  -- After a panic no response is written: the header is, or the pipe is broken.
  panicked_none :
      (keys : Keys) (message stack : ℕ) (is_prod : Bool) (ms : List ErrorMapper) (p : Panic)
      (c : Context)
      → IsRecorded (errors c)
      → answer_count (responses_of (run_error_handler g keys message stack is_prod ms (some p) c))
        ≡ 0
  unfolding run_error_handler handle_panic
  panicked_none keys message stack is_prod ms p c h =
      let e = recovery_error keys message stack p in
      let recorded = append-IsRecorded (errors c) e (recovery_lem keys message stack p) h in
      elim (Bool-cases (broken_pipe p)) [
        | inl b ↦
            let after = g.abort (g.add_error e c) in
            let same = errors-abort (g.add_error e c) ∙ errors-add_error e c in
            let few =
              handle_errors_at_most is_prod ms true (written after) (errors after)
                (subst IsRecorded (sym same) recorded) in
            rw b (omega (arith, few))
        | inr b ↦
            let after = g.abort_with_error 500 e c in
            let few =
              handle_errors_at_most is_prod ms false (written after) (errors after)
                (subst IsRecorded (sym (errors-abort_with_error 500 e c)) recorded) in
            let none_left = written_lem (written after) _ (written-abort_with_error 500 e c) few in
            rw b (omega (arith, none_left))
      ]

  -- The default handler has a status for the first of the errors.
  abbrev pub IsFirstKnown : List (Option GinError) → Type 0
  IsFirstKnown [] = Unit
  IsFirstKnown (x ∷ gs) = IsKnown x

  one_lem :
      (is_prod : Bool) (ms : List ErrorMapper) (w : Bool) (gs : List (Option GinError))
      → AreBuilt ms
      → IsFirstKnown gs
      → IsRecorded gs
      → w ≡ false
      → gs ≢ []
      → answer_count (responses_of (handle_errors is_prod ms false w gs)) ≡ 1
  one_lem is_prod ms w [] built known h e some_left = absurd (some_left refl)
  one_lem is_prod ms true (x ∷ gs) built known h e some_left = absurd cc
  one_lem is_prod ms false (x ∷ gs) built known h e some_left =
      handle_errors_answers is_prod ms false false x gs built known h

  returned_one :
      (keys : Keys) (message stack : ℕ) (is_prod : Bool) (ms : List ErrorMapper) (c : Context)
      → AreBuilt ms
      → IsFirstKnown (errors c)
      → IsRecorded (errors c)
      → written c ≡ false
      → errors c ≢ []
      → answer_count (responses_of (run_error_handler g keys message stack is_prod ms none c)) ≡ 1
  unfolding run_error_handler
  returned_one keys message stack is_prod ms c built known h w some_left =
      one_lem is_prod ms (written c) (errors c) built known h w some_left

  -- The handler of errors answers a request once if its handlers return, have left errors, none of
  -- them nil, and have written nothing, no response builder fails, and the default handler has a
  -- status for the first of the errors. If they panic, `handleErrors` does not answer: its mappers and its
  -- default handler find the header written, or the pipe broken.
  pub run_error_handler-length :
      (keys : Keys) (message stack : ℕ) (is_prod : Bool) (ms : List ErrorMapper) (p : Panic)
      (c : Context)
      → AreBuilt ms
      → IsFirstKnown (errors c)
      → IsRecorded (errors c)
      → written c ≡ false
      → errors c ≢ []
      → (answer_count (responses_of (run_error_handler g keys message stack is_prod ms none c)) ≡ 1)
        × (answer_count
              (responses_of (run_error_handler g keys message stack is_prod ms (some p) c))
            ≡ 0)
  run_error_handler-length keys message stack is_prod ms p c built known h w some_left = (
    returned_one keys message stack is_prod ms c built known h w some_left,
    panicked_none keys message stack is_prod ms p c h,
  )
