-- ===== src/Dynamodb/Deleting.antt =====
-- Which tables the client is asked to delete.
use mathlib.Core.List.{append_assoc, append-nil}
use go_fw.Prelude.{
  ℕ, suc, ◌≡◌, ◌⊎◌, refl, sym, ap, ◌∙◌, inl, inr, Bool, true, false, ◌&&◌, ◌||◌, Bool-cases, Option,
  none, some, List, [], ◌∷◌, ◌++◌, Option-cases,
}
use go_fw.Prelude.Text.{Text, eqb_text, starts_with, eqb_text_iff}
use go_fw.Functional.{filter, filter_i, filter_from}
use go_fw.Dynamodb.Tables.{Client, not_listed, delete_each, reported, delete_all_tables, add_err}

abbrev pub is_in : Text → List Text → Bool
is_in t [] = false
is_in t (u ∷ us) = eqb_text t u || is_in t us

-- A request to delete a table, and the error of its answer.
abbrev pub Request : Type 0
Request = Text × Option ℕ

-- The client, with a list of the requests.
abbrev pub recorded : Client → Client
recorded c = record {
  S = c.S × List Request;
  list_page = λ s. c.list_page s.0;
  create = λ i s. ((((c.create i s.0).0, s.1)), (c.create i s.0).1);
  delete = λ t s. (((c.delete t s.0).0, s.1 ++ ((t, (c.delete t s.0).1) ∷ [])), (c.delete t s.0).1);
}

abbrev pub tables_of : List Request → List Text
tables_of [] = []
tables_of ((t, err) ∷ rs) = t ∷ tables_of rs

abbrev pub errors_of : Client → List Request → List ℕ
errors_of c [] = []
errors_of c ((t, err) ∷ rs) = add_err c err (errors_of c rs)

in_append : (u : Text) (ts us : List Text) → is_in u (ts ++ us) ≡ is_in u ts || is_in u us
in_append u [] us = refl
in_append u (t ∷ ts) us = elim (Bool-cases (eqb_text u t)) [
  | inl e ↦ rw e refl
  | inr e ↦ rw e (in_append u ts us)
]

or_false : (a b : Bool) → a ≡ a || (b && false)
or_false true b = refl
or_false false true = refl
or_false false false = refl

kept_cases :
    (a p e i : Bool)
    → (e ≡ true → p ≡ true)
    → (a || (e || false)) || (p && i) ≡ a || (p && (e || i))
kept_cases true p e i h = refl
kept_cases false p true i h = rw (h refl) refl
kept_cases false p false i h = refl

dropped_cases : (a p e i : Bool) → (e ≡ true → p ≡ false) → a || (p && i) ≡ a || (p && (e || i))
dropped_cases true p e i h = refl
dropped_cases false p true i h = rw (h refl) refl
dropped_cases false p false i h = refl

-- A table is among those with a property if it has the property and is among all.
in_filter :
    (p : Text → Bool) (u : Text) (i : ℕ) (ts acc : List Text)
    → is_in u (filter_from (λ j. p) i ts acc) ≡ is_in u acc || (p u && is_in u ts)
in_filter p u i [] acc = or_false (is_in u acc) (p u)
in_filter p u i (t ∷ ts) acc = elim (Bool-cases (p t)) [
  | inl e ↦ rw e (
      in_filter p u (suc i) ts (acc ++ (t ∷ []))
      ∙ ap (λ b. b || (p u && is_in u ts)) (in_append u acc (t ∷ []))
      ∙ kept_cases (is_in u acc) (p u) (eqb_text u t) (is_in u ts)
          (λ h. ap p ((eqb_text_iff u t).0 h) ∙ e))
  | inr e ↦ rw e (
      in_filter p u (suc i) ts acc
      ∙ dropped_cases (is_in u acc) (p u) (eqb_text u t) (is_in u ts)
          (λ h. ap p ((eqb_text_iff u t).0 h) ∙ e))
]

module _ (c : Client) where
  open c use {S, list_page, delete}

  -- The requests for the tables from a state on.
  abbrev pub asked : List Text → S → List Request
  asked [] s = []
  asked (t ∷ ts) s = (t, (delete t s).1) ∷ asked ts (delete t s).0

  asked-tables : (ts : List Text) (s : S) → tables_of (asked ts s) ≡ ts
  asked-tables [] s = refl
  asked-tables (t ∷ ts) s = ap (◌∷◌ t) (asked-tables ts (delete t s).0)

  recorded_lem :
      (ts : List Text) (s : S) (rs : List Request)
      → let r = delete_each (recorded c) ts (s, rs) in
        (r.0.1 ≡ rs ++ asked ts s) × (r.1 ≡ errors_of c (asked ts s))
  unfolding delete_each
  recorded_lem [] s rs = (sym (append-nil rs), refl)
  recorded_lem (t ∷ ts) s rs =
      let (made, errs) = recorded_lem ts (delete t s).0 (rs ++ ((t, (delete t s).1) ∷ [])) in
      (
        made ∙ append_assoc rs ((t, (delete t s).1) ∷ []) (asked ts (delete t s).0),
        ap (add_err c (delete t s).1) errs,
      )

  -- What is listed is what has the prefix, of the page.
  in_listed :
      (prefix u : Text) (names : List Text)
      → is_in u (filter names (starts_with prefix)) ≡ starts_with prefix u && is_in u names
  unfolding filter filter_i
  in_listed prefix u names = in_filter (starts_with prefix) u 0 names []

  -- `DeleteAllTables` asks the client to delete the tables of the page of names that have the
  -- prefix, each of them in the order of the page and whatever was answered before, and no other. It
  -- returns no error if no answer has one, and else the errors of all answers. Without a page it
  -- asks for nothing and says so. Names beyond the one page that it gets are not asked for.
  pub delete_all_tables-asked :
      (prefix : Text) (s : S)
      → let r = delete_all_tables (recorded c) prefix (s, []) in
        ((list_page s ≡ none) × (r.0.1 ≡ []) × (r.1 ≡ not_listed))
        ⊎ ((names : List Text) × (list_page s ≡ some names)
            × (tables_of r.0.1 ≡ filter names (starts_with prefix))
            × ((u : Text) → is_in u (tables_of r.0.1) ≡ starts_with prefix u && is_in u names)
            × (r.1 ≡ reported c (errors_of c r.0.1)))
  unfolding delete_all_tables
  delete_all_tables-asked prefix s = elim (Option-cases (list_page s)) [
    | inl e ↦ inl (e, rw e refl, rw e refl)
    | inr (names, e) ↦
        let ts = filter names (starts_with prefix) in
        let (made, errs) = recorded_lem ts s [] in
        inr (
          names,
          e,
          rw (e, made) (asked-tables ts s),
          λ u. rw (e, made, asked-tables ts s) (in_listed prefix u names),
          rw (e, errs, made) refl,
        )
  ]
