-- ===== src/Executors/Task/Await.antt =====
-- `Await`: the channel that callers wait on, and what happens to it when `Cancel` or `setDone` runs
-- between the steps of `Await`.
use go_fw.Prelude.{
  ℕ, ◌≡◌, refl, inl, inr, Bool-cases, Bool, true, false, Option, none, some, arith, if◌then◌else◌,
  Returns,
}
use go_fw.Executors.Task.{
  Task, new, done, TaskErr, DoneChn, nil, closed_chn, own_open, own_closed, is_done, delayed,
  cancel, await, set_done, configure_context, set_running, configure_next_run,
}
use go_fw.Executors.Task.Lifecycle.{
  IsValid, Op, cancels, awaits, configures, starts, reschedules, finishes, apply, Allowed, SameChn,
  first, apply_correct,
}

abbrev pub is_closed : DoneChn → Bool
is_closed closed_chn = true
is_closed (own_closed i) = true
is_closed _ = false

-- The channel is closed exactly if the task is done.
await-closed : (i : ℕ) (t : Task) → IsValid t → is_closed (await i t).1 ≡ is_done t.status
unfolding await
await-closed i t v = ground arith

-- A task whose channel a caller has.
abbrev IsHeld : DoneChn → Type 0
IsHeld nil = ⊥
IsHeld _ = Unit

held-SameChn : (c : DoneChn) → IsHeld c → SameChn c c
held-SameChn nil h = absurd h
held-SameChn closed_chn h = tt
held-SameChn (own_open i) h = refl
held-SameChn (own_closed i) h = refl

apply-SameChn :
    (op : Op) (t : Task)
    → IsValid t
    → IsHeld t.done_chn
    → Allowed op t
    → Returns (λ u. SameChn t.done_chn u.done_chn) (apply op t)
unfolding apply cancel await configure_context set_running set_done configure_next_run
apply-SameChn cancels t v h a = ground arith
apply-SameChn (awaits i) t v h a = ground arith
apply-SameChn configures t v h a = held-SameChn t.done_chn h
apply-SameChn (starts now) t v h a = elim (Bool-cases (delayed now t)) [
  | inl e ↦ rw e (ground arith)
  | inr e ↦ rw e (ground arith)
]
apply-SameChn (reschedules now) t v h a = ground arith
apply-SameChn (finishes value err) t v h a = ground arith

await-held : (i : ℕ) (t : Task) → (await i t).0.done_chn ≡ (await i t).1
unfolding await
await-held i t = ground arith

await-IsHeld : (i : ℕ) (t : Task) → IsHeld (await i t).0.done_chn
unfolding await
await-IsHeld i t = ground arith

await_again : (j : ℕ) (c : DoneChn) (t : Task) → SameChn c t.done_chn → SameChn c (await j t).1
unfolding await
await_again j c t s = ground arith

await_next :
    (j : ℕ) (c : DoneChn) (r : Option Task)
    → Returns IsValid r
    → Returns (λ u. SameChn c u.done_chn) r
    → Returns (λ u. SameChn c (await j u).1 × (is_closed (await j u).1 ≡ is_done u.status)) r
await_next j c none v s = absurd v
await_next j c (some u) v s = (await_again j c u s, await-closed j u v)

Returns-fst : (P Q : Task → Type 0) (r : Option Task) → Returns (λ u. P u × Q u) r → Returns P r
Returns-fst P Q none h = h
Returns-fst P Q (some u) h = h.0

-- `Await` returns a channel that is closed exactly if the task is done, and after any method in
-- between it returns the same channel, whatever number a new one would have: a task makes one
-- channel at most. Each method runs with no other goroutine in between.
pub await_correct :
    (i j : ℕ) (op : Op) (t : Task)
    → IsValid t
    → Allowed op (await i t).0
    → (is_closed (await i t).1 ≡ is_done t.status)
      × Returns
          (λ u. SameChn (await i t).1 (await j u).1 × (is_closed (await j u).1 ≡ is_done u.status))
          (apply op (await i t).0)
unfolding apply
await_correct i j op t v a =
    let t' = (await i t).0 in
    let v' : IsValid t' = (apply_correct (awaits i) t v tt).0 in
    (
      await-closed i t v,
      await_next j (await i t).1 (apply op t') (Returns-fst _ _ _ (apply_correct op t' v' a))
          (rw (← await-held i t) (apply-SameChn op t' v' (await-IsHeld i t) a)),
    )

-- The steps of `Await` that another goroutine can come between: it finds no channel, chooses one
-- while it holds the lock, and stores it. Neither `Cancel` nor the first test of `setDone` takes
-- the lock.
unfoldable pub await_choose : ℕ → Task → DoneChn
await_choose fresh t = if is_done t.status then closed_chn else own_open fresh

unfoldable pub await_store : DoneChn → Task → Task
await_store c t = record t { done_chn = c }

-- A task that is done, and whose channel is open.
abbrev pub IsStranded : ℕ → Task → Type 0
IsStranded i t = (t.status ≡ done) × (t.done_chn ≡ own_open i)

-- No method closes the channel of a done task, so who waits on it waits forever.
apply-IsStranded :
    (i : ℕ) (op : Op) (t : Task)
    → IsStranded i t
    → Allowed op t
    → Returns (IsStranded i) (apply op t)
unfolding apply cancel await configure_context set_running set_done configure_next_run
apply-IsStranded i cancels t s a = ground arith
apply-IsStranded j (awaits i) t s a = ground arith
apply-IsStranded i configures t s a = ground arith
apply-IsStranded i (starts now) t s a = rw (s.0) (ground arith)
apply-IsStranded i (reschedules now) t s a = ground arith
apply-IsStranded i (finishes value err) t s a = ground arith

-- If `Cancel` of a new task with no channel runs between the steps of `Await`, the task is done and
-- the channel that `Await` returns is open; and each method, run on a task in that state, leaves it
-- done with that channel open.
pub await_misses_cancel :
    (i : ℕ) (t : Task)
    → t.status ≡ new
    → t.done_chn ≡ nil
    → Returns (λ u. IsStranded i (await_store (await_choose i t) u)) (first (cancel t))
      × ((op : Op) (u : Task) → IsStranded i u → Allowed op u → Returns (IsStranded i) (apply op u))
unfolding cancel await_choose await_store
await_misses_cancel i t e f = (ground arith, apply-IsStranded i)

-- So too if `setDone`, on a task that is not done and has no channel, runs to its end between the
-- choice and the store.
pub await_misses_set_done :
    (i : ℕ) (t : Task) (value : Option ℕ) (err : Option TaskErr)
    → is_done t.status ≡ false
    → t.done_chn ≡ nil
    → Returns (λ u. IsStranded i (await_store (await_choose i t) u)) (first (set_done value err t))
      × ((op : Op) (u : Task) → IsStranded i u → Allowed op u → Returns (IsStranded i) (apply op u))
unfolding set_done await_choose await_store
await_misses_set_done i t value err e f = (ground arith, apply-IsStranded i)
