-- ===== src/Rest/Responses.antt =====
-- How often the error handler writes.
use go_fw.Prelude.{
  ◌≤◌, ◌≡◌, ◌≢◌, sym, subst, ◌∙◌, refl, Bool, true, false, Option, none, some, List, [], ◌∷◌, ◌++◌,
  arith, ◌&&◌, not,
}
use go_fw.Errors.{GoError, nil_error, plain, wrapping, joined, framework}
use go_fw.Rest.ErrorHandler.{
  GinError, ErrorMapper, build_failed, Response, default_handler, try_mappers, Progress, note, keep,
  log_mapped, visit_all, finish, started, handle_errors,
}
use go_fw.Rest.Visits.{
  room, answer_count, IsKnown, default-room, default_at_most, IsRecorded, AreFine, responses_of,
  handle_fine,
}

room_covers : (w : Bool) → 0 ≤ room w
room_covers true = omega arith
room_covers false = omega arith

any_fine :
    (first : Option GinError) (is_prod w : Bool) (ms : List ErrorMapper)
    → AreFine first is_prod w
        (λ n. n ≤ room w)
        (omega arith)
        (λ body. default_at_most first is_prod body w)
        ms
any_fine first is_prod w [] = tt
any_fine first is_prod w (m ∷ ms) = (λ g e. room_covers w, any_fine first is_prod w ms)

-- A request whose errors are not nil is answered at most once, and not at all if the
-- pipe is broken or the response is written already, whatever the mappers and their builders do.
pub handle_errors_at_most :
    (is_prod : Bool) (ms : List ErrorMapper) (b written : Bool) (gs : List (Option GinError))
    → IsRecorded gs
    → answer_count (responses_of (handle_errors is_prod ms b written gs))
      ≤ room (not b && not written)
unfolding handle_errors
handle_errors_at_most is_prod ms b written [] n = room_covers (not b && not written)
handle_errors_at_most is_prod ms b written (g ∷ gs) n =
    let w = not b && not written in
    handle_fine is_prod ms b written g gs (λ n. n ≤ room w) (omega arith)
      (λ body. default_at_most g is_prod body w) (any_fine g is_prod w ms) n

-- No builder fails.
abbrev pub AreBuilt : List ErrorMapper → Type 0
AreBuilt [] = Unit
AreBuilt (m ∷ ms) = ((g : GinError) → m.builder g ≢ build_failed) × AreBuilt ms

built_fine :
    (first : Option GinError) (is_prod w : Bool) (known : IsKnown first) (ms : List ErrorMapper)
    → AreBuilt ms
    → AreFine first is_prod w
        (λ n. n ≡ room w)
        refl
        (λ body. default-room first is_prod body w known)
        ms
built_fine first is_prod w known [] h = tt
built_fine first is_prod w known (m ∷ ms) (h, k) =
    (λ g e. absurd (h g e), built_fine first is_prod w known ms k)

-- A request that has errors, none of them nil, is answered exactly once, and not at all if the pipe
-- is broken or the response is written already, provided that no builder fails and that the default
-- handler has a status for the first of the errors. A call of `Status(0)`, which the default handler
-- makes of an error that it does not know, is no answer.
pub handle_errors_answers :
    (is_prod : Bool) (ms : List ErrorMapper) (b written : Bool) (g : Option GinError)
    (gs : List (Option GinError))
    → AreBuilt ms
    → IsKnown g
    → IsRecorded (g ∷ gs)
    → answer_count (responses_of (handle_errors is_prod ms b written (g ∷ gs)))
      ≡ room (not b && not written)
handle_errors_answers is_prod ms b written g gs h known n =
    let w = not b && not written in
    handle_fine is_prod ms b written g gs (λ n. n ≡ room w) refl
      (λ body. default-room g is_prod body w known) (built_fine g is_prod w known ms h) n

-- Once an error is mapped nothing more is written.
visit_all-mapped :
    (first : Option GinError) (is_prod w : Bool) (ms : List ErrorMapper)
    (gs : List (Option GinError)) (p : Progress) (e : GoError)
    → p.mapped ≡ some e
    → let q = visit_all first is_prod w ms gs p in (q.mapped ≡ some e) × (q.responses ≡ p.responses)
unfolding visit_all
visit_all-mapped first is_prod w ms [] p e h = (h, refl)
visit_all-mapped first is_prod w ms (none ∷ gs) p e h = visit_all-mapped first is_prod w ms gs p e h
visit_all-mapped first is_prod w ms (some g ∷ gs) p e h =
    let m = try_mappers first is_prod w g ms in
    let kept : keep p.mapped g.err m p ≡ record p { others = p.others ++ g.err ∷ [] } = rw h refl in
    subst
      (λ r.
        let q = visit_all first is_prod w ms gs r in
        (q.mapped ≡ some e) × (q.responses ≡ p.responses))
      (sym kept)
      (visit_all-mapped first is_prod w ms gs (record p { others = p.others ++ g.err ∷ [] }) e h)

log_mapped-some :
    (m : Option GoError) (e : GoError) (es : List GoError) (rs answer : List Response)
    → m ≡ some e
    → responses_of (log_mapped m es rs answer) ≡ rs
log_mapped-some none e es rs answer h = absurd cc
log_mapped-some (some e') e es rs answer h = refl

noted :
    (e : GoError) → e ≢ nil_error → note e (some []) started ≡ record started { mapped = some e }
noted nil_error n = absurd (n refl)
noted (plain i) n = refl
noted (wrapping e) n = refl
noted (joined es) n = refl
noted (framework e es) n = refl

-- If the first mapper takes the first error, which is not nil, and its builder fails, the request
-- gets no response at all, whatever follows.
pub failed_builder_leaves :
    (is_prod : Bool) (m : ErrorMapper) (ms : List ErrorMapper) (b written : Bool) (g : GinError)
    (gs : List (Option GinError))
    → g.err ≢ nil_error
    → m.check g.err ≡ true
    → m.builder g ≡ build_failed
    → responses_of (handle_errors is_prod (m ∷ ms) b written (some g ∷ gs)) ≡ []
unfolding handle_errors visit_all try_mappers
failed_builder_leaves is_prod m ms b written g gs n c f =
    let w = not b && not written in
    let p : Progress = record started { mapped = some g.err } in
    let taken : note g.err (try_mappers (some g) is_prod w g (m ∷ ms)) started ≡ p =
      rw (c, f) (noted g.err n) in
    let (h, k) = visit_all-mapped (some g) is_prod w (m ∷ ms) gs p g.err refl in
    let q = visit_all (some g) is_prod w (m ∷ ms) gs p in
    subst
      (λ r.
        responses_of (finish (some g) is_prod w (visit_all (some g) is_prod w (m ∷ ms) gs r)) ≡ [])
      (sym taken)
      (log_mapped-some q.mapped g.err q.others q.responses (default_handler (some g) is_prod none w)
          h
        ∙ k)
