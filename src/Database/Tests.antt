-- ===== src/Database/Tests.antt =====
-- The theorems on transactions with a server that keeps one number and what its savepoints saved.
use go_fw.Prelude.{ℕ, ◌≡◌, ◌⊎◌, refl, Option, none, some, false, update, update_self, ◌+◌}
use go_fw.Database.{
  Gorm, live, DbTx, State, Ctx, panicked, Ending, commit, rollback, run_commit, with_tx,
}
use go_fw.Database.Closing.{here, next, commits, opens, Reach-ended_once}
use go_fw.Database.Scope.{Saves, scoped, Outcome, ended_with, scoped-atomic}
use go_fw.Database.Request.{set_ctx, run, Cleaned, run-IsEnded}

abbrev or_else : ℕ → Option ℕ → ℕ
or_else x none = x
or_else x (some y) = y

abbrev small : Gorm
small = record {
  Db = Unit;
  S = ℕ × (ℕ → Option ℕ);
  begin = λ d s. (s, tt);
  commit = λ d s. (s, none);
  rollback = λ d s. ((0, s.1), none);
  save = λ d p s. ((s.0, update s.1 p (some s.0)), none);
  release = λ d p s. (s, none);
  rollback_to = λ d p s. ((or_else s.0 (s.1 p), s.1), none);
  done_reply = panicked;
}

abbrev small_saves : Saves small
small_saves = record {
  D = ℕ;
  data_of = λ d s. s.0;
  kept = λ d s p. s.1 p;
  kept-save = λ d p s e. update_self s.1 p (some s.0);
  data-rollback_to = λ d p s x e fine. rw e refl;
  data-release = λ d p s x e fine. refl;
}

abbrev blank : DbTx small
blank = record { db = live tt; closed = false; automatic = false; parent_tx = none; save_point = 0 }

abbrev fresh : State small
fresh = record { server = (5, λ p. none); txs = λ i. blank; count = 0 }

abbrev no_tx : Ctx small
no_tx = record { db = some tt; tx = none }

abbrev in_first : Ctx small
in_first = record { db = some tt; tx = some 0 }

abbrev opened : State small
opened = (with_tx small 3 no_tx fresh).0

abbrev ended : State small
ended = (commit small 0 opened).0

Reach-ended_once_example :
    ((commit small 0 ended).0.server ≡ ended.server)
    × ((rollback small 0 ended).0.server ≡ ended.server)
    × (((ended.txs 0).parent_tx ≡ none)
        ⊎ (((commit small 0 ended).1 ≡ panicked) × ((rollback small 0 ended).1 ≡ panicked)))
unfolding with_tx run_commit
Reach-ended_once_example =
    Reach-ended_once small {s = fresh} {t = ended} 0 (λ j. refl)
      (next (next here (opens 3 no_tx)) (commits 0)) refl

abbrev first_open : State small
first_open = record { server = (5, λ p. none); txs = λ i. blank; count = 1 }

-- A body that adds to the number and fails.
abbrev adds_and_fails : ℕ → Ctx small → State small → State small × Option ℕ
adds_and_fails j ctx s = (record s { server = (s.server.0 + 2, s.server.1) }, some 9)

scoped-atomic_example :
    let (mid, err) = adds_and_fails 1 in_first (with_tx small 3 in_first first_open).0 in
    let r = scoped small small_saves adds_and_fails 3 in_first first_open in
    (ending : Ending small) × (r.1 ≡ some ending)
    × Outcome small small_saves err
        (ended_with small small_saves err tt 3 mid.server)
        mid.server.0
        5
        ending
        r.0.server.0
    × ((r.0.txs 0).db ≡ live tt)
scoped-atomic_example =
    scoped-atomic small small_saves tt 0 3 in_first first_open adds_and_fails refl refl
      (λ e. absurd cc) refl
      (λ x t k. record {
        apart = k.apart;
        outer = k.outer;
        inner = k.inner;
        child = k.child;
        point = k.point;
        saved = k.saved;
      })

-- Handlers that leave the transaction of the context open, and panic.
abbrev careless : Ctx small → State small → (State small × Ctx small) × Option ℕ
careless ctx s = ((s, record ctx { tx = some 0 }), some 4)

run-IsEnded_example :
    let ((mid, left), p) = careless (set_ctx small (some tt) no_tx) first_open in
    let r = run small (some tt) careless no_tx first_open in
    (r.0.1 ≡ left) × Cleaned small left mid p (r.0.0, r.1)
run-IsEnded_example = run-IsEnded small (some tt) careless no_tx first_open
