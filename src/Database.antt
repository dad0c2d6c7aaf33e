-- ===== src/Database.antt =====
-- database/database.go: transactions and their savepoints. A `*DBTx` is shared by the code that
-- holds it and by the context, so the transactions stand in a store, under numbers. Logging is left
-- out, and so is the context that a handle runs with.
pub mod Closing
pub mod Scope
pub mod Request
pub mod Tests
use go_fw.Prelude.{ℕ, suc, Bool, true, false, not, ◌&&◌, Option, none, some, update}

-- What `Commit` and the like give: the error of the handle that they return, if it has one; or they
-- panic.
pub data Reply : Type 0 where
  returned : Option ℕ → Reply
  panicked : Reply

-- gorm and the server: the handles that work, the state of the server, and the calls. A handle of a
-- transaction that could not begin is a handle too. Of the handle that stands in for a closed one,
-- gorm's calls answer what `done_reply` says.
pub record Gorm : Type 1 where
  pub Db : Type 0
  pub S : Type 0
  pub begin : Db → S → S × Db
  pub commit : Db → S → S × Option ℕ
  pub rollback : Db → S → S × Option ℕ
  pub save : Db → ℕ → S → S × Option ℕ
  pub release : Db → ℕ → S → S × Option ℕ
  pub rollback_to : Db → ℕ → S → S × Option ℕ
  pub done_reply : Reply

module _ (g : Gorm) where
  open g use {Db, S, done_reply}

  -- `tx_done` is `&gorm.DB{Error: sql.ErrTxDone}`, whose Statement is nil.
  pub data Handle : Type 0 where
    live : Db → Handle
    tx_done : Handle

  pub record DbTx : Type 0 where
    pub db : Handle
    pub closed : Bool
    pub automatic : Bool
    pub parent_tx : Option ℕ
    pub save_point : ℕ

  -- The server, the transactions, and how many there are.
  pub record State : Type 0 where
    pub server : S
    pub txs : ℕ → DbTx
    pub count : ℕ

  -- What the keys `DBCtxKey` and `DBTxCtxKey` of a context give.
  pub record Ctx : Type 0 where
    pub db : Option Db
    pub tx : Option ℕ

  abbrev pub is_sub : DbTx → Bool
  is_sub t = elim t.parent_tx [ none ↦ false | some p ↦ true ]

  -- What `Commit` and `Rollback` defer.
  abbrev pub close : ℕ → State → State
  close i s = record s { txs = update s.txs i (record (s.txs i) { closed = true; db = tx_done }) }

  -- A call of gorm with a handle.
  abbrev pub call : (Db → S → S × Option ℕ) → Handle → State → State × Reply
  call f (live d) s =
      let (server, err) = f d s.server in (record s { server = server }, returned err)
  call f tx_done s = (s, done_reply)

  -- The log line ahead of a savepoint's statement reads the Statement of the handle.
  abbrev pub logged : Handle → State × Reply → State → State × Reply
  logged (live d) r s = r
  logged tx_done r s = (s, panicked)

  unfoldable pub run_commit : ℕ → State → State × Reply
  run_commit i s =
      let t = s.txs i in
      elim t.parent_tx [
        | none ↦ call g.commit t.db s
        | some p ↦ logged t.db (call (λ d. g.release d t.save_point) t.db s) s
      ]

  unfoldable pub run_rollback : ℕ → State → State × Reply
  run_rollback i s =
      let t = s.txs i in
      elim t.parent_tx [
        | none ↦ call g.rollback t.db s
        | some p ↦ logged t.db (call (λ d. g.rollback_to d t.save_point) (s.txs p).db s) s
      ]

  abbrev pub commit : ℕ → State → State × Reply
  commit i s = let (after, r) = run_commit i s in (close i after, r)

  abbrev pub rollback : ℕ → State → State × Reply
  rollback i s = let (after, r) = run_rollback i s in (close i after, r)

  -- How a deferred `DeferredCommitOrRollback` leaves the function: with its error, a failed commit
  -- being one of its own; with a panic; or not at all, since the process exits.
  pub data Ending : Type 0 where
    leaves : Option ℕ → Ending
    commit_failed : ℕ → Ending
    panics : Ending
    exits : Ending

  abbrev pub after_rollback : ℕ → Reply → Ending
  after_rollback err panicked = panics
  after_rollback err (returned e) = leaves (some err)

  abbrev pub after_commit : Reply → Ending
  after_commit panicked = panics
  after_commit (returned none) = leaves none
  after_commit (returned (some e)) = commit_failed e

  -- What `recover()` gave, the error of the function, and the transaction.
  unfoldable pub commit_or_rollback : Option ℕ → Option ℕ → ℕ → State → State × Ending
  commit_or_rollback (some r) err i s = (s, exits)
  commit_or_rollback none (some err) i s =
      let (after, r) = rollback i s in (after, after_rollback err r)
  commit_or_rollback none none i s = let (after, r) = commit i s in (after, after_commit r)

  -- The transaction of the context, if it is not closed.
  abbrev pub open_tx : Ctx → State → Option ℕ
  open_tx ctx s = elim ctx.tx [
    | none ↦ none
    | some i ↦ elim (s.txs i).closed [ true ↦ none | false ↦ some i ]
  ]

  abbrev pub add_tx : DbTx → State → State
  add_tx t s = record s { txs = update s.txs s.count t; count = suc s.count }

  abbrev pub plain_tx : Db → Bool → DbTx
  plain_tx d auto = record {
    db = live d;
    closed = false;
    automatic = auto;
    parent_tx = none;
    save_point = 0;
  }

  -- The transaction, or `none` for a panic: there is no database in the context.
  abbrev pub auto_tx : Option Db → State → State × Option ℕ
  auto_tx none s = (s, none)
  auto_tx (some d) s = (add_tx (plain_tx d true) s, some s.count)

  unfoldable pub in_tx : Ctx → State → State × Option ℕ
  in_tx ctx s = elim (open_tx ctx s) [ some i ↦ (s, some i) | none ↦ auto_tx ctx.db s ]

  abbrev pub sub_tx : DbTx → ℕ → ℕ → DbTx
  sub_tx t p point = record {
    db = t.db;
    closed = false;
    automatic = false;
    parent_tx = some p;
    save_point = point;
  }

  -- What follows the statement of the savepoint in the transaction `p`: a panic if it failed.
  abbrev pub opened_sub : ℕ → ℕ → Ctx → State × Reply → State × Option (ℕ × Ctx)
  opened_sub p point ctx (s, returned none) =
      (add_tx (sub_tx (s.txs p) p point) s, some (s.count, ctx))
  opened_sub p point ctx (s, returned (some e)) = (s, none)
  opened_sub p point ctx (s, panicked) = (s, none)

  abbrev pub new_sub : ℕ → ℕ → Ctx → State → State × Option (ℕ × Ctx)
  new_sub p point ctx s = opened_sub p point ctx (call (λ d. g.save d point) (s.txs p).db s)

  abbrev pub new_root : Ctx → Option Db → State → State × Option (ℕ × Ctx)
  new_root ctx none s = (s, none)
  new_root ctx (some d) s =
      let (server, begun) = g.begin d s.server in
      (
        add_tx (plain_tx begun false) (record s { server = server }),
        some (s.count, record ctx { tx = some s.count }),
      )

  -- The transaction and the context, or `none` for a panic. `point` is the name of the savepoint,
  -- which the source makes of the time and a random number.
  unfoldable pub with_tx : ℕ → Ctx → State → State × Option (ℕ × Ctx)
  with_tx point ctx s = elim (open_tx ctx s) [
    | some p ↦ new_sub p point ctx s
    | none ↦ new_root ctx ctx.db s
  ]
