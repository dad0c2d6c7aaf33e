-- ===== src/Database/Closing.antt =====
-- The calls of a transaction that is closed no longer reach the server.
use go_fw.Prelude.{
  ℕ, ◌≡◌, ◌⊎◌, inl, inr, refl, sym, subst, true, false, Bool-cases, Option-cases, Option, none,
  some, update, ◌==◌,
}
use go_fw.Database.{
  Gorm, Handle, live, tx_done, DbTx, State, Ctx, Reply, returned, panicked, close, call, logged,
  run_commit, run_rollback, commit, rollback, commit_or_rollback, open_tx, in_tx, opened_sub,
  new_sub, new_root, with_tx,
}

module _ (g : Gorm) where
  open g use {S, Db, done_reply}

  -- The handle of a transaction is the one that stands in for a closed one as soon as it is closed.
  abbrev pub AreTidy : (ℕ → DbTx g) → Type 0
  AreTidy txs = (i : ℕ) → (txs i).closed ≡ true → (txs i).db ≡ tx_done

  put-AreTidy :
      (txs : ℕ → DbTx g) (i : ℕ) (t : DbTx g)
      → AreTidy txs
      → (t.closed ≡ true → t.db ≡ tx_done)
      → AreTidy (update txs i t)
  put-AreTidy txs i t h k j = elim (Bool-cases (j == i)) [ inl e ↦ rw e k | inr e ↦ rw e (h j) ]

  call_txs : (f : Db → S → S × Option ℕ) (h : Handle g) (s : State g) → (call g f h s).0.txs ≡ s.txs
  call_txs f (live d) s = refl
  call_txs f tx_done s = refl

  logged_txs :
      (h : Handle g) (r : State g × Reply) (s : State g)
      → r.0.txs ≡ s.txs
      → (logged g h r s).0.txs ≡ s.txs
  logged_txs (live d) r s e = e
  logged_txs tx_done r s e = refl

  run_commit_txs : (i : ℕ) (s : State g) → (run_commit g i s).0.txs ≡ s.txs
  unfolding run_commit
  run_commit_txs i s = elim (Option-cases (s.txs i).parent_tx) [
    | inl e ↦ rw (run_commit, e) (call_txs g.commit (s.txs i).db s)
    | inr (p, e) ↦ rw (run_commit, e) (logged_txs (s.txs i).db _ s (call_txs _ (s.txs i).db s))
  ]

  run_rollback_txs : (i : ℕ) (s : State g) → (run_rollback g i s).0.txs ≡ s.txs
  unfolding run_rollback
  run_rollback_txs i s = elim (Option-cases (s.txs i).parent_tx) [
    | inl e ↦ rw (run_rollback, e) (call_txs g.rollback (s.txs i).db s)
    | inr (p, e) ↦ rw (run_rollback, e) (logged_txs (s.txs i).db _ s (call_txs _ (s.txs p).db s))
  ]

  close-AreTidy :
      (i : ℕ) (s t : State g) → t.txs ≡ s.txs → AreTidy s.txs → AreTidy (close g i t).txs
  close-AreTidy i s t e h = put-AreTidy t.txs i _ (subst AreTidy (sym e) h) (λ c. refl)

  commit-AreTidy : (i : ℕ) (s : State g) → AreTidy s.txs → AreTidy (commit g i s).0.txs
  commit-AreTidy i s = close-AreTidy i s (run_commit g i s).0 (run_commit_txs i s)

  rollback-AreTidy : (i : ℕ) (s : State g) → AreTidy s.txs → AreTidy (rollback g i s).0.txs
  rollback-AreTidy i s = close-AreTidy i s (run_rollback g i s).0 (run_rollback_txs i s)

  ends-AreTidy :
      (r err : Option ℕ) (i : ℕ) (s : State g)
      → AreTidy s.txs
      → AreTidy (commit_or_rollback g r err i s).0.txs
  unfolding commit_or_rollback
  ends-AreTidy (some r) err i s h = h
  ends-AreTidy none (some err) i s h = rollback-AreTidy i s h
  ends-AreTidy none none i s h = commit-AreTidy i s h

  in_tx-AreTidy : (ctx : Ctx g) (s : State g) → AreTidy s.txs → AreTidy (in_tx g ctx s).0.txs
  unfolding in_tx
  in_tx-AreTidy ctx s h = elim (Option-cases (open_tx g ctx s)) [
    | inr (i, e) ↦ rw (in_tx, e) h
    | inl e ↦ elim (Option-cases ctx.db) [
      | inl d ↦ rw (in_tx, e, d) h
      | inr (x, d) ↦ rw (in_tx, e, d) (put-AreTidy s.txs s.count _ h (λ c. absurd cc))
    ]
  ]

  new_root-AreTidy :
      (ctx : Ctx g) (o : Option Db) (s : State g)
      → AreTidy s.txs
      → AreTidy (new_root g ctx o s).0.txs
  new_root-AreTidy ctx none s h = h
  new_root-AreTidy ctx (some d) s h = put-AreTidy s.txs s.count _ h (λ c. absurd cc)

  opened_sub-AreTidy :
      (p point : ℕ) (ctx : Ctx g) (r : State g × Reply)
      → AreTidy r.0.txs
      → AreTidy (opened_sub g p point ctx r).0.txs
  opened_sub-AreTidy p point ctx (s, returned none) h =
      put-AreTidy s.txs s.count _ h (λ c. absurd cc)
  opened_sub-AreTidy p point ctx (s, returned (some e)) h = h
  opened_sub-AreTidy p point ctx (s, panicked) h = h

  new_sub-AreTidy :
      (p point : ℕ) (ctx : Ctx g) (s : State g)
      → AreTidy s.txs
      → AreTidy (new_sub g p point ctx s).0.txs
  new_sub-AreTidy p point ctx s h =
      opened_sub-AreTidy p point ctx (call g (λ d. g.save d point) (s.txs p).db s)
        (subst AreTidy (sym (call_txs _ (s.txs p).db s)) h)

  with_tx-AreTidy :
      (point : ℕ) (ctx : Ctx g) (s : State g)
      → AreTidy s.txs
      → AreTidy (with_tx g point ctx s).0.txs
  unfolding with_tx
  with_tx-AreTidy point ctx s h = elim (Option-cases (open_tx g ctx s)) [
    | inr (i, e) ↦ rw (with_tx, e) (new_sub-AreTidy i point ctx s h)
    | inl e ↦ rw (with_tx, e) (new_root-AreTidy ctx ctx.db s h)
  ]

  -- One step: a call of the package, or a statement, which only the server sees.
  pub data Step (s : State g) : State g → Type 0 where
    commits : (i : ℕ) → Step s (commit g i s).0
    rolls_back : (i : ℕ) → Step s (rollback g i s).0
    ends : (r err : Option ℕ) (i : ℕ) → Step s (commit_or_rollback g r err i s).0
    takes : (ctx : Ctx g) → Step s (in_tx g ctx s).0
    opens : (point : ℕ) (ctx : Ctx g) → Step s (with_tx g point ctx s).0
    queries : (server : S) → Step s (record s { server = server })

  pub data Reach (s : State g) : State g → Type 0 where
    here : Reach s s
    next : {t u : State g} → Reach s t → Step t u → Reach s u

  Step-AreTidy : {s t : State g} → AreTidy s.txs → Step s t → AreTidy t.txs
  Step-AreTidy {s = s} h (commits i) = commit-AreTidy i s h
  Step-AreTidy {s = s} h (rolls_back i) = rollback-AreTidy i s h
  Step-AreTidy {s = s} h (ends r err i) = ends-AreTidy r err i s h
  Step-AreTidy {s = s} h (takes ctx) = in_tx-AreTidy ctx s h
  Step-AreTidy {s = s} h (opens point ctx) = with_tx-AreTidy point ctx s h
  Step-AreTidy h (queries server) = h

  Reach-AreTidy : {s t : State g} → AreTidy s.txs → Reach s t → AreTidy t.txs
  Reach-AreTidy h here = h
  Reach-AreTidy h (next r x) = Step-AreTidy (Reach-AreTidy h r) x

  -- Whatever the calls before, the end of a transaction that is closed already does not reach the
  -- server: neither `Commit` nor `Rollback` does, and of one with a savepoint both panic.
  pub Reach-ended_once :
      {s t : State g} (i : ℕ)
      → ((j : ℕ) → (s.txs j).closed ≡ false)
      → Reach s t
      → (t.txs i).closed ≡ true
      → ((commit g i t).0.server ≡ t.server)
        × ((rollback g i t).0.server ≡ t.server)
        × (((t.txs i).parent_tx ≡ none)
            ⊎ (((commit g i t).1 ≡ panicked) × ((rollback g i t).1 ≡ panicked)))
  unfolding run_commit run_rollback
  Reach-ended_once {s = s} {t = t} i start r c =
      let tidy : AreTidy s.txs = λ j d. absurd (let o = start j in cc) in
      let over : (t.txs i).db ≡ tx_done = Reach-AreTidy tidy r i c in
      elim (Option-cases (t.txs i).parent_tx) [
        | inl e ↦ rw (run_commit, run_rollback, e, over) (refl, refl, inl refl)
        | inr (p, e) ↦ rw (run_commit, run_rollback, e, over) (refl, refl, inr (refl, refl))
      ]
