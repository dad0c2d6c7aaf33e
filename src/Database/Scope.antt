-- ===== src/Database/Scope.antt =====
-- A function that opens a transaction in an open one and defers its end, as
-- distributedlock/distributedlock_postgres.go does: what it leaves of the data.
use go_fw.Prelude.{
  ℕ, ◌≡◌, ◌≢◌, refl, inl, inr, Option, Option-cases, none, some, update_self, update_other,
}
use go_fw.Database.{
  Gorm, live, State, Ctx, Ending, leaves, commit_failed, returned, call, run_commit, run_rollback,
  commit_or_rollback, open_tx, add_tx, sub_tx, with_tx,
}

-- Savepoints as the server documents them: SAVEPOINT keeps the data under its name; ROLLBACK TO a
-- name that is kept brings its data back, and RELEASE of one leaves the data, if they succeed.
pub record Saves (g : Gorm) : Type 1 where
  pub D : Type 0
  pub data_of : g.Db → g.S → D
  pub kept : g.Db → g.S → ℕ → Option D
  pub kept-save :
      (d : g.Db) (p : ℕ) (s : g.S)
      → (g.save d p s).1 ≡ none
      → kept d (g.save d p s).0 p ≡ some (data_of d s)
  pub data-rollback_to :
      (d : g.Db) (p : ℕ) (s : g.S) (x : D)
      → kept d s p ≡ some x
      → (g.rollback_to d p s).1 ≡ none
      → data_of d (g.rollback_to d p s).0 ≡ x
  pub data-release :
      (d : g.Db) (p : ℕ) (s : g.S) (x : D)
      → kept d s p ≡ some x
      → (g.release d p s).1 ≡ none
      → data_of d (g.release d p s).0 ≡ data_of d s

module _ (g : Gorm) (w : Saves g) where
  open g use {Db}
  open w use {D, data_of, kept, kept-save, data-rollback_to, data-release}

  -- What a body must keep: the open transaction `i` and its sub transaction `j` as they were, and
  -- the data `x` of the savepoint `p`.
  pub record IsKept (d : Db) (i p j : ℕ) (x : D) (s : State g) : Type 0 where
    pub apart : i ≢ j
    pub outer : (s.txs i).db ≡ live d
    pub inner : (s.txs j).db ≡ live d
    pub child : (s.txs j).parent_tx ≡ some i
    pub point : (s.txs j).save_point ≡ p
    pub saved : kept d s.server p ≡ some x

  -- `WithTx`, the body, and `DeferredCommitOrRollback` with the error of the body; `none` where
  -- `WithTx` panics.
  abbrev pub then_end :
      (ℕ → Ctx g → State g → State g × Option ℕ)
      → State g × Option (ℕ × Ctx g)
      → State g × Option (Ending g)
  then_end body (s, none) = (s, none)
  then_end body (s, some (j, ctx)) =
      let (mid, err) = body j ctx s in
      let (after, ending) = commit_or_rollback g none err j mid in (after, some ending)

  abbrev pub scoped :
      (ℕ → Ctx g → State g → State g × Option ℕ) → ℕ → Ctx g → State g → State g × Option (Ending g)
  scoped body p ctx s = then_end body (with_tx g p ctx s)

  -- How a deferred end leaves the function and the data `y`, from the error of the body, what the
  -- statement that ends the savepoint returned, the data of the body and that of the beginning.
  -- Without an error of either the data is the body's. An error of RELEASE is reported as that of a
  -- commit that failed. An error of the body is returned in any case, and the data is that of the
  -- beginning unless ROLLBACK TO failed, which is only logged.
  abbrev pub Outcome : Option ℕ → Option ℕ → D → D → Ending g → D → Type 0
  Outcome none none now x ending y = (ending ≡ leaves none) × (y ≡ now)
  Outcome none (some e) now x ending y = ending ≡ commit_failed e
  Outcome (some err) none now x ending y = (ending ≡ leaves (some err)) × (y ≡ x)
  Outcome (some err) (some e) now x ending y = ending ≡ leaves (some err)

  -- What the statement that ends the savepoint returns: RELEASE, or ROLLBACK TO after an error.
  abbrev pub ended_with : Option ℕ → Db → ℕ → g.S → Option ℕ
  ended_with none d p s = (g.release d p s).1
  ended_with (some err) d p s = (g.rollback_to d p s).1

  commit_sub :
      (d : Db) (i p j : ℕ) (x : D) (s : State g)
      → IsKept d i p j x s
      → run_commit g j s
        ≡ (record s { server = (g.release d p s.server).0 }, returned (g.release d p s.server).1)
  unfolding run_commit
  commit_sub d i p j x s k = rw (run_commit, k.child, k.inner, k.point) refl

  rollback_sub :
      (d : Db) (i p j : ℕ) (x : D) (s : State g)
      → IsKept d i p j x s
      → run_rollback g j s ≡ (
        record s { server = (g.rollback_to d p s.server).0 },
        returned (g.rollback_to d p s.server).1,
      )
  unfolding run_rollback
  rollback_sub d i p j x s k = rw (run_rollback, k.child, k.inner, k.outer, k.point) refl

  end_sub :
      (d : Db) (i p j : ℕ) (x : D) (err : Option ℕ) (s : State g)
      → IsKept d i p j x s
      → let r = commit_or_rollback g none err j s in
        Outcome err (ended_with err d p s.server) (data_of d s.server) x r.1 (data_of d r.0.server)
        × ((r.0.txs i).db ≡ live d)
  unfolding commit_or_rollback
  end_sub d i p j x none s k = elim (Option-cases (g.release d p s.server).1) [
    | inl fine ↦
        rw (commit_sub d i p j x s k, fine)
          (
            (refl, data-release d p s.server x k.saved fine),
            rw (update_other s.txs j i _ k.apart) k.outer,
          )
    | inr (e, failed) ↦
        rw (commit_sub d i p j x s k, failed) (refl, rw (update_other s.txs j i _ k.apart) k.outer)
  ]
  end_sub d i p j x (some err) s k = elim (Option-cases (g.rollback_to d p s.server).1) [
    | inl fine ↦
        rw (rollback_sub d i p j x s k, fine)
          (
            (refl, data-rollback_to d p s.server x k.saved fine),
            rw (update_other s.txs j i _ k.apart) k.outer,
          )
    | inr (e, failed) ↦
        rw (rollback_sub d i p j x s k, failed)
          (refl, rw (update_other s.txs j i _ k.apart) k.outer)
  ]

  saved_lem :
      (d : Db) (i p : ℕ) (s : State g)
      → (s.txs i).db ≡ live d
      → (g.save d p s.server).1 ≡ none
      → call g (λ e. g.save e p) (s.txs i).db s
        ≡ (record s { server = (g.save d p s.server).0 }, returned none)
  saved_lem d i p s h fine = rw (h, fine) refl

  -- `WithTx` in an open transaction, where the statement of the savepoint succeeds.
  with_sub :
      (d : Db) (i p : ℕ) (ctx : Ctx g) (s : State g)
      → open_tx g ctx s ≡ some i
      → (s.txs i).db ≡ live d
      → i ≢ s.count
      → (g.save d p s.server).1 ≡ none
      → (r : State g) × (with_tx g p ctx s ≡ (r, some (s.count, ctx)))
        × IsKept d i p s.count (data_of d s.server) r
  unfolding with_tx
  with_sub d i p ctx s o h apart fine = (
    add_tx g (sub_tx g (s.txs i) i p) (record s { server = (g.save d p s.server).0 }),
    rw (with_tx, o, saved_lem d i p s h fine) refl,
    record {
      apart = apart;
      outer = rw (update_other s.txs s.count i (sub_tx g (s.txs i) i p) apart) h;
      inner = rw (update_self s.txs s.count (sub_tx g (s.txs i) i p)) h;
      child = rw (update_self s.txs s.count (sub_tx g (s.txs i) i p)) refl;
      point = rw (update_self s.txs s.count (sub_tx g (s.txs i) i p)) refl;
      saved = kept-save d p s.server fine;
    },
  )

  -- A function that opens a transaction inside an open one and defers its end leaves all of its body
  -- or nothing, if the statement that ends the savepoint succeeds: the body's data if the body
  -- returns no error, and the data of its beginning if it returns one, which the function then
  -- returns. If RELEASE fails, the function returns that the commit failed; if ROLLBACK TO fails, it
  -- returns the error of the body. The outer transaction keeps its connection. This holds if the
  -- statement of the savepoint succeeds and the body ends neither transaction nor the savepoint.
  pub scoped-atomic :
      (d : Db) (i p : ℕ) (ctx : Ctx g) (s : State g)
      (body : ℕ → Ctx g → State g → State g × Option ℕ)
      → open_tx g ctx s ≡ some i
      → (s.txs i).db ≡ live d
      → i ≢ s.count
      → (g.save d p s.server).1 ≡ none
      → ((x : D) (t : State g)
          → IsKept d i p s.count x t
          → IsKept d i p s.count x (body s.count ctx t).0)
      → let (mid, err) = body s.count ctx (with_tx g p ctx s).0 in
        let r = scoped body p ctx s in
        (ending : Ending g) × (r.1 ≡ some ending)
        × Outcome err
            (ended_with err d p mid.server)
            (data_of d mid.server)
            (data_of d s.server)
            ending
            (data_of d r.0.server)
        × ((r.0.txs i).db ≡ live d)
  scoped-atomic d i p ctx s body o h apart fine keeps =
      let (t, begun, k) = with_sub d i p ctx s o h apart fine in
      let (mid, err) = body s.count ctx t in
      let (rest, usable) =
        end_sub d i p s.count (data_of d s.server) err mid (keeps (data_of d s.server) t k) in
      rw begun (_, refl, rest, usable)
