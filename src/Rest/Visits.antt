-- ===== src/Rest/Visits.antt =====
-- What the visits of the errors of a request leave, for a property of the number of answers.
use go_fw.Prelude.{
  ℕ, suc, ◌≡◌, ◌≢◌, ◌≤◌, ◌⊎◌, arith, sym, subst, inl, inr, refl, Bool, Bool-cases, true, false,
  Option, none, some, List, [], ◌∷◌, ◌++◌, ◌&&◌, not, ◌==◌, if◌then◌else◌,
}
use go_fw.Errors.{Error, first_framework, GoError, nil_error, plain, wrapping, joined, framework}
use go_fw.Rest.ErrorHandler.{
  GinError, ErrorMapper, Build, build_failed, response, Response, json, status_only,
  default_handler, default_status, default_body, code_status, mapped_by, try_mappers, Progress,
  note, keep, log_mapped, visit_all, Handling, idle, crashed, handled, log_first, started, respond,
  custom_body, handle_errors, is_nothing,
}

-- Whether a call of gin's writer answers: `Status(0)` changes nothing.
abbrev pub is_answer : Response → Bool
is_answer (json s body) = true
is_answer (status_only s) = not (s == 0)

-- The number of the calls that answer.
abbrev pub answer_count : List Response → ℕ
answer_count [] = 0
answer_count (r ∷ rs) = if is_answer r then suc (answer_count rs) else answer_count rs

-- The number of answers that there should be.
abbrev pub room : Bool → ℕ
room true = 1
room false = 0

-- The default handler has a status for the first error: it is nil, of a binding, or a framework error
-- is among those that it wraps.
abbrev pub IsKnown : Option GinError → Type 0
IsKnown none = Unit
IsKnown (some g) = (g.is_bind ≡ true) ⊎ ((e : Error) × (first_framework g.err ≡ some e))

status_known : (first : Option GinError) → IsKnown first → ((default_status first).0 == 0) ≡ false
unfolding default_status
status_known none k = refl
status_known (some g) (inl b) = rw b refl
status_known (some g) (inr (e, q)) = elim (Bool-cases g.is_bind) [
  | inl b ↦ rw b refl
  | inr b ↦ elim (Bool-cases (code_status e.code == 0)) [
    | inl z ↦ rw (b, q, z) refl
    | inr z ↦ rw (b, q, z) z
  ]
]

default_respond :
    (is_prod : Bool) (body : Option ℕ) (s : ℕ) (e : Option Error)
    → (s == 0) ≡ false
    → answer_count (respond s (default_body is_prod body e) ∷ []) ≡ 1
default_respond is_prod (some b) s e z = refl
default_respond is_prod none s (some e) z = refl
default_respond is_prod none s none z = rw z refl

pub default-room :
    (first : Option GinError) (is_prod : Bool) (body : Option ℕ) (w : Bool)
    → IsKnown first
    → answer_count (default_handler first is_prod body w) ≡ room w
unfolding default_handler
default-room first is_prod body true k =
    default_respond is_prod body (default_status first).0 (default_status first).1
      (status_known first k)
default-room first is_prod body false k = refl

one_at_most : (r : Response) → answer_count (r ∷ []) ≤ 1
one_at_most r = elim (Bool-cases (is_answer r)) [
  | inl e ↦ rw e (omega arith)
  | inr e ↦ rw e (omega arith)
]

pub default_at_most :
    (first : Option GinError) (is_prod : Bool) (body : Option ℕ) (w : Bool)
    → answer_count (default_handler first is_prod body w) ≤ room w
unfolding default_handler
default_at_most first is_prod body true =
    one_at_most
      (respond (default_status first).0 (default_body is_prod body (default_status first).1))
default_at_most first is_prod body false = omega arith

abbrev IsFineIf : (ℕ → Type 0) → Option (List Response) → Type 0
IsFineIf IsFine none = Unit
IsFineIf IsFine (some rs) = IsFine (answer_count rs)

custom_answer :
    (s : ℕ) (body : Option ℕ) → (s == 0) ≡ false → is_answer (respond s (custom_body body)) ≡ true
custom_answer s none z = rw z refl
custom_answer s (some b) z = refl

response_fine :
    (IsFine : ℕ → Type 0) (r : Response) (w : Bool)
    → is_answer r ≡ true
    → IsFine (room w)
    → IsFineIf IsFine (if w then some (r ∷ []) else some [])
response_fine IsFine r true says fine = rw says fine
response_fine IsFine r false says fine = fine

-- No error of the request is nil.
abbrev pub IsRecorded : List (Option GinError) → Type 0
IsRecorded [] = Unit
IsRecorded (none ∷ gs) = IsRecorded gs
IsRecorded (some g ∷ gs) = (g.err ≢ nil_error) × IsRecorded gs

-- Of a request, what does not change while its errors are visited. A failed builder writes nothing.
module _ (first : Option GinError) (is_prod w : Bool) (IsFine : ℕ → Type 0) (fine : IsFine (room w))
    (default_fine : (body : Option ℕ)
      → IsFine (answer_count (default_handler first is_prod body w))) where
  abbrev pub AreFine : List ErrorMapper → Type 0
  AreFine [] = Unit
  AreFine (m ∷ ms) = ((g : GinError) → m.builder g ≡ build_failed → IsFine 0) × AreFine ms

  blank_fine :
      (b z : Bool) (others rest : Option (List Response))
      → IsFineIf IsFine others
      → IsFineIf IsFine rest
      → IsFineIf IsFine (if b && z then others else rest)
  blank_fine true true others rest h k = h
  blank_fine true false others rest h k = k
  blank_fine false z others rest h k = k

  mapped_fine :
      (b : Build) (others : Option (List Response))
      → (b ≡ build_failed → IsFine 0)
      → IsFineIf IsFine others
      → IsFineIf IsFine (mapped_by first is_prod w b others)
  mapped_fine build_failed others h k = h refl
  mapped_fine (response body s) others h k = elim (Bool-cases (s == 0)) [
    | inl e ↦ rw e (
        blank_fine (is_nothing body) true others (some (default_handler first is_prod body w)) k
          (default_fine body))
    | inr e ↦ rw e (
        blank_fine (is_nothing body) false others
          (if w then some (respond s (custom_body body) ∷ []) else some []) k
          (response_fine IsFine (respond s (custom_body body)) w (custom_answer s body e) fine))
  ]

  choice_fine :
      (b : Bool) (x y : Option (List Response))
      → IsFineIf IsFine x
      → IsFineIf IsFine y
      → IsFineIf IsFine (if b then x else y)
  choice_fine true x y h k = h
  choice_fine false x y h k = k

  try_fine :
      (g : GinError) (ms : List ErrorMapper)
      → AreFine ms
      → IsFineIf IsFine (try_mappers first is_prod w g ms)
  unfolding try_mappers
  try_fine g [] h = tt
  try_fine g (m ∷ ms) (h, k) =
      let rest = try_fine g ms k in
      choice_fine (m.check g.err) _ _
        (mapped_fine (m.builder g) (try_mappers first is_prod w g ms) (h g) rest) rest

  -- Until an error is mapped nothing is written.
  abbrev pub IsSoundAt : Option GoError → List Response → Type 0
  IsSoundAt none rs = rs ≡ []
  IsSoundAt (some e) rs = IsFine (answer_count rs)

  abbrev pub IsSound : Progress → Type 0
  IsSound p = IsSoundAt p.mapped p.responses

  still_empty : (m : Option GoError) (rs : List Response) → m ≡ none → IsSoundAt m rs → rs ≡ []
  still_empty none rs q h = h
  still_empty (some e) rs q h = absurd cc

  append_fine :
      (rs qs : List Response)
      → rs ≡ []
      → IsFine (answer_count qs)
      → IsFine (answer_count (rs ++ qs))
  append_fine rs qs q h = subst (λ r. IsFine (answer_count (r ++ qs))) (sym q) h

  note-IsSound :
      (e : GoError) (m : Option (List Response)) (p : Progress)
      → e ≢ nil_error
      → p.mapped ≡ none
      → IsSound p
      → IsFineIf IsFine m
      → IsSound (note e m p)
  note-IsSound e none p n q h k = h
  note-IsSound nil_error (some rs) p n q h k = absurd (n refl)
  note-IsSound (plain i) (some rs) p n q h k =
      append_fine p.responses rs (still_empty p.mapped p.responses q h) k
  note-IsSound (wrapping e) (some rs) p n q h k =
      append_fine p.responses rs (still_empty p.mapped p.responses q h) k
  note-IsSound (joined es) (some rs) p n q h k =
      append_fine p.responses rs (still_empty p.mapped p.responses q h) k
  note-IsSound (framework e es) (some rs) p n q h k =
      append_fine p.responses rs (still_empty p.mapped p.responses q h) k

  keep-IsSound :
      (mapped : Option GoError) (e : GoError) (m : Option (List Response)) (p : Progress)
      → p.mapped ≡ mapped
      → e ≢ nil_error
      → IsSound p
      → IsFineIf IsFine m
      → IsSound (keep mapped e m p)
  keep-IsSound none e m p q n h k = note-IsSound e m p n q h k
  keep-IsSound (some x) e m p q n h k = h

  visit_all-IsSound :
      (ms : List ErrorMapper) (gs : List (Option GinError)) (p : Progress)
      → AreFine ms
      → IsRecorded gs
      → IsSound p
      → IsSound (visit_all first is_prod w ms gs p)
  unfolding visit_all
  visit_all-IsSound ms [] p f n h = h
  visit_all-IsSound ms (none ∷ gs) p f n h = visit_all-IsSound ms gs p f n h
  visit_all-IsSound ms (some g ∷ gs) p f (n, ns) h =
      let m = try_mappers first is_prod w g ms in
      visit_all-IsSound ms gs (keep p.mapped g.err m p) f ns
        (keep-IsSound p.mapped g.err m p refl n h (try_fine g ms f))

-- The responses of a request.
abbrev pub responses_of : Handling → List Response
responses_of idle = []
responses_of (crashed rs) = rs
responses_of (handled h) = h.responses

log_first-responses : (es : List GoError) (rs : List Response) → responses_of (log_first es rs) ≡ rs
log_first-responses [] rs = refl
log_first-responses (e ∷ es) rs = refl

log_mapped-fine :
    (first : Option GinError) (is_prod w : Bool) (IsFine : ℕ → Type 0) (fine : IsFine (room w))
    (default_fine : (body : Option ℕ)
      → IsFine (answer_count (default_handler first is_prod body w)))
    (m : Option GoError) (es : List GoError) (rs : List Response)
    → IsSoundAt first is_prod w IsFine fine default_fine m rs
    → IsFine
        (answer_count (responses_of (log_mapped m es rs (default_handler first is_prod none w))))
log_mapped-fine first is_prod w IsFine fine default_fine none es rs h =
    let answer = default_handler first is_prod none w in
    subst (λ r. IsFine (answer_count r)) (sym (log_first-responses es (rs ++ answer)))
      (append_fine first is_prod w IsFine fine default_fine rs answer h (default_fine none))
log_mapped-fine first is_prod w IsFine fine default_fine (some e) es rs h = h

pub handle_fine :
    (is_prod : Bool) (ms : List ErrorMapper) (b written : Bool) (g : Option GinError)
    (gs : List (Option GinError)) (IsFine : ℕ → Type 0)
    (fine : IsFine (room (not b && not written)))
    (default_fine : (body : Option ℕ)
      → IsFine (answer_count (default_handler g is_prod body (not b && not written))))
    → AreFine g is_prod (not b && not written) IsFine fine default_fine ms
    → IsRecorded (g ∷ gs)
    → IsFine (answer_count (responses_of (handle_errors is_prod ms b written (g ∷ gs))))
unfolding handle_errors
handle_fine is_prod ms b written g gs IsFine fine default_fine f n =
    let w = not b && not written in
    let p = visit_all g is_prod w ms (g ∷ gs) started in
    log_mapped-fine g is_prod w IsFine fine default_fine p.mapped p.others p.responses
      (visit_all-IsSound g is_prod w IsFine fine default_fine ms (g ∷ gs) started f n refl)
