-- ===== src/Database/Request.antt =====
-- rest/middleware/db_trx.go: a request with the database in its context. The handlers that run next
-- share the context, and may leave a transaction in it, or panic.
use go_fw.Prelude.{
  some-injective, none-some, ℕ, sym, ◌∙◌, ◌≡◌, ◌⊎◌, inl, inr, refl, true, false, not, ◌&&◌,
  if◌then◌else◌, Bool-cases, Option-cases, Option, none, some, update_self,
}
use go_fw.Database.{
  Gorm, State, Ctx, Reply, tx_done, returned, panicked, close, run_rollback, rollback,
}

module _ (g : Gorm) where
  open g use {Db}

  -- How a request leaves the middleware: it returns, panics with what the handlers panicked with,
  -- or panics in the rollback.
  pub data Finish : Type 0 where
    passes : Finish
    panics_on : ℕ → Finish
    rollback_panics : Finish

  -- `SetCtx`, which leaves the context of a request as it is if there is no database.
  abbrev pub set_ctx : Option Db → Ctx g → Ctx g
  set_ctx none ctx = ctx
  set_ctx (some d) ctx = record ctx { db = some d }

  -- tx != nil && !tx.IsAutomatic() && !tx.IsClosed()
  abbrev pub dangling : Option ℕ → State g → Option ℕ
  dangling none s = none
  dangling (some i) s = if not (s.txs i).automatic && not (s.txs i).closed then some i else none

  abbrev pub after_rollback : Finish → Reply → Finish
  after_rollback f (returned err) = f
  after_rollback f panicked = rollback_panics

  -- The rollback of what the handlers left open.
  abbrev pub clean_up : Option ℕ → State g → Finish → State g × Finish
  clean_up none s f = (s, f)
  clean_up (some i) s f = let (after, r) = rollback g i s in (after, after_rollback f r)

  abbrev pub finish_of : Option ℕ → Finish
  finish_of none = passes
  finish_of (some p) = panics_on p

  -- The handlers give the state, the context, and what they panicked with.
  unfoldable pub run :
      Option Db
      → (Ctx g → State g → (State g × Ctx g) × Option ℕ)
      → Ctx g
      → State g
      → (State g × Ctx g) × Finish
  run db handlers ctx s =
      let ((mid, left), p) = handlers (set_ctx db ctx) s in
      let (after, f) = clean_up (dangling left.tx mid) mid (finish_of p) in ((after, left), f)

  -- The transaction of the context is closed, or it is none that has to be.
  abbrev pub IsEnded : Ctx g → State g → Type 0
  IsEnded ctx s =
      (i : ℕ) → ctx.tx ≡ some i → ((s.txs i).automatic ≡ true) ⊎ ((s.txs i).closed ≡ true)

  -- The transaction `i` of the context is one that the handlers have to end, and is open.
  abbrev pub IsDangling : Ctx g → State g → ℕ → Type 0
  IsDangling ctx s i =
      (ctx.tx ≡ some i) × ((s.txs i).automatic ≡ false) × ((s.txs i).closed ≡ false)

  dangling_lem :
      (ctx : Ctx g) (s : State g)
      → ((i : ℕ) × (dangling ctx.tx s ≡ some i) × IsDangling ctx s i)
        ⊎ ((dangling ctx.tx s ≡ none) × IsEnded ctx s)
  dangling_lem ctx s = elim (Option-cases ctx.tx) [
    | inl e ↦ inr (rw e refl, λ i q. absurd (none-some i (sym e ∙ q)))
    | inr (i, e) ↦ elim (Bool-cases (s.txs i).automatic) [
      | inl a ↦ inr (rw (e, a) refl, λ j q. inl (rw (some-injective (sym q ∙ e)) a))
      | inr a ↦ elim (Bool-cases (s.txs i).closed) [
        | inl c ↦ inr (rw (e, a, c) refl, λ j q. inr (rw (some-injective (sym q ∙ e)) c))
        | inr c ↦ inl (i, rw (e, a, c) refl, (e, a, c))
      ]
    ]
  ]

  after_rollback_lem :
      (f : Finish) (r : Reply) → (after_rollback f r ≡ f) ⊎ (after_rollback f r ≡ rollback_panics)
  after_rollback_lem f (returned err) = inl refl
  after_rollback_lem f panicked = inr refl

  -- What the request leaves where the handlers left `mid`: the same, if it has no open transaction,
  -- and else what the rollback of that leaves.
  abbrev pub Cleaned : Ctx g → State g → Option ℕ → State g × Finish → Type 0
  Cleaned left mid p r =
      IsEnded left r.0
      × ((IsEnded left mid × (r.0 ≡ mid) × (r.1 ≡ finish_of p))
          ⊎ ((i : ℕ) × IsDangling left mid i
              × (r.0 ≡ close g i (run_rollback g i mid).0)
              × ((r.1 ≡ finish_of p) ⊎ (r.1 ≡ rollback_panics))))

  clean_up-Cleaned :
      (left : Ctx g) (mid : State g) (p : Option ℕ)
      → Cleaned left mid p (clean_up (dangling left.tx mid) mid (finish_of p))
  clean_up-Cleaned left mid p = elim (dangling_lem left mid) [
    | inr (e, ended) ↦ rw e (ended, inl (ended, refl, refl))
    | inl (i, e, (q, own, unclosed)) ↦
        let after = (run_rollback g i mid).0 in
        rw e (
          λ j same. inr (
              rw
                (
                  some-injective (sym same ∙ q),
                  update_self after.txs i (record (after.txs i) { closed = true; db = tx_done }),
                )
                refl),
          inr (
            i,
            (q, own, unclosed),
            refl,
            after_rollback_lem (finish_of p) (run_rollback g i mid).1,
          ),
        )
  ]

  -- Whether the handlers of a request return or panic, its context has no open transaction after
  -- it but an automatic one. If they left one open that is not automatic, it was rolled back once, and not committed; if
  -- they left none, or one that is closed or automatic, the state is as they left it. The middleware
  -- ends as the handlers did, unless the rollback panics.
  pub run-IsEnded :
      (db : Option Db) (handlers : Ctx g → State g → (State g × Ctx g) × Option ℕ) (ctx : Ctx g)
      (s : State g)
      → let ((mid, left), p) = handlers (set_ctx db ctx) s in
        let r = run db handlers ctx s in (r.0.1 ≡ left) × Cleaned left mid p (r.0.0, r.1)
  unfolding run
  run-IsEnded db handlers ctx s =
      let ((mid, left), p) = handlers (set_ctx db ctx) s in (refl, clean_up-Cleaned left mid p)
