-- ===== src/Executors/Task/Lifecycle.antt =====
-- The life of a task under its methods, each run without interleaving.
use go_fw.Prelude.{
  ℕ, ◌≡◌, ◌⊎◌, inl, inr, Bool-cases, refl, Bool, true, false, Option, none, some, arith,
  if◌then◌else◌, Returns,
}
use go_fw.Prelude.Int.{ℤ}
use go_fw.Executors.Task.{
  Task, TaskStatus, new, running, cancelling, done, TaskErr, context_canceled, DoneChn, closed_chn,
  own_open, own_closed, is_running, periodic, delayed, set_running, cancel, cancel_ctx, await,
  configure_context, configure_next_run, set_done,
}

abbrev pub OpenUntilDone : TaskStatus → DoneChn → Type 0
OpenUntilDone done (own_open i) = ⊥
OpenUntilDone done c = Unit
OpenUntilDone s closed_chn = ⊥
OpenUntilDone s (own_closed i) = ⊥
OpenUntilDone s c = Unit

-- The channel of the task, if it has one, is closed when the task is done, and not before.
abbrev pub IsValid : Task → Type 0
IsValid t = OpenUntilDone t.status t.done_chn

-- A call of a method that changes the task; `Await` may make a channel, of the number it is given.
pub data Op : Type 0 where
  cancels configures : Op
  awaits : ℕ → Op
  starts reschedules : ℤ → Op
  finishes : Option ℕ → Option TaskErr → Op

abbrev pub first {ℓ κ} : {A : Type ℓ} {B : Type κ} → Option (A × B) → Option A
first none = none
first (some (a, b)) = some a

unfoldable pub apply : Op → Task → Option Task
apply cancels t = first (cancel t)
apply (awaits i) t = some (await i t).0
apply configures t = some (configure_context t)
apply (starts now) t = some (set_running now t).0
apply (reschedules now) t = configure_next_run now t
apply (finishes v e) t = first (set_done v e t)

-- The condition under which the method does not panic.
abbrev pub Allowed : Op → Task → Type 0
Allowed (reschedules now) t = (periodic t ≡ true) × (is_running t.status ≡ true)
Allowed _ t = Unit

-- `==`: the same channel, open or closed.
abbrev pub SameChn : DoneChn → DoneChn → Type 0
SameChn (own_open i) (own_open j) = i ≡ j
SameChn (own_open i) (own_closed j) = i ≡ j
SameChn (own_closed i) (own_closed j) = i ≡ j
SameChn closed_chn closed_chn = Unit
SameChn c d = ⊥

-- The status after each method, from the status before it.
abbrev pub Follows : Op → TaskStatus → TaskStatus → Type 0
Follows cancels new s = s ≡ done
Follows cancels running s = s ≡ cancelling
Follows (starts now) new s = (s ≡ new) ⊎ (s ≡ running)
Follows (reschedules now) old s = s ≡ new
Follows (finishes value err) old s = s ≡ done
Follows _ old s = s ≡ old

abbrev Moved : Op → Task → Task → Type 0
Moved op t u = IsValid u × Follows op t.status u.status

cancel-Moved : (t : Task) → IsValid t → Returns (Moved cancels t) (first (cancel t))
unfolding cancel
cancel-Moved t v = ground arith

await-Moved : (i : ℕ) (t : Task) → IsValid t → Moved (awaits i) t (await i t).0
unfolding await
await-Moved i t v = ground arith

set_running-Moved : (now : ℤ) (t : Task) → IsValid t → Moved (starts now) t (set_running now t).0
unfolding set_running
set_running-Moved now t v = elim (Bool-cases (delayed now t)) [
  | inl e ↦ rw e (ground arith)
  | inr e ↦ rw e (ground arith)
]

set_done-Moved :
    (value : Option ℕ) (err : Option TaskErr) (t : Task)
    → IsValid t
    → Returns (Moved (finishes value err) t) (first (set_done value err t))
unfolding set_done
set_done-Moved value err t v = ground arith

configure_next_run-Moved :
    (now : ℤ) (t : Task)
    → IsValid t
    → Allowed (reschedules now) t
    → Returns (Moved (reschedules now) t) (configure_next_run now t)
unfolding configure_next_run
configure_next_run-Moved now t v a = ground arith

-- Where each method runs with no other goroutine in between, none closes a channel twice or panics
-- otherwise, provided that a task is only rescheduled while it is periodic and running. Each leaves
-- the channel of the task, if it has one, closed exactly if the task is done. The status moves in
-- these ways alone: `Cancel` ends a new task and sets a running one to cancelling; a new task may be
-- set to running; a rescheduled task is new, and a finished one done.
pub apply_correct :
    (op : Op) (t : Task)
    → IsValid t
    → Allowed op t
    → Returns (λ u. IsValid u × Follows op t.status u.status) (apply op t)
unfolding apply
apply_correct cancels t v a = cancel-Moved t v
apply_correct (awaits i) t v a = await-Moved i t v
apply_correct configures t v a = unfold configure_context in (v, refl)
apply_correct (starts now) t v a = set_running-Moved now t v
apply_correct (reschedules now) t v a = configure_next_run-Moved now t v a
apply_correct (finishes value err) t v a = set_done-Moved value err t v

abbrev pub CancelOutcome : TaskStatus → Task → Task × Bool → Type 0
CancelOutcome new t (u, b) =
    (b ≡ true)
    × (u.status ≡ done)
    × (u.canceled ≡ true)
    × (u.err ≡ some context_canceled)
    × (u.ctx ≡ cancel_ctx t.ctx)
CancelOutcome running t (u, b) =
    (b ≡ true)
    × (u.status ≡ cancelling)
    × (u.canceled ≡ true)
    × (u.err ≡ t.err)
    × (u.ctx ≡ cancel_ctx t.ctx)
CancelOutcome _ t (u, b) = (b ≡ false) × (u ≡ t)

-- `Cancel` of a new task ends it with the error `context.Canceled`; of a running task it ends the
-- task's context and leaves the rest to the goroutine that runs it; of any other it returns false
-- and changes nothing. A call of `Cancel` on what the first one leaves returns false and changes
-- nothing.
pub cancel_correct :
    (t : Task)
    → IsValid t
    → Returns (λ r. CancelOutcome t.status t r × (cancel r.0 ≡ some (r.0, false))) (cancel t)
unfolding cancel
cancel_correct t v = ground arith

-- What a done task reports.
pub record SameReport (t u : Task) : Type 0 where
  pub status : u.status ≡ t.status
  pub value : u.value ≡ t.value
  pub err : u.err ≡ t.err
  pub canceled : u.canceled ≡ t.canceled

abbrev is_rescheduling : Op → Bool
is_rescheduling (reschedules _) = true
is_rescheduling _ = false

-- No method changes the status, the value, the error or the cancellation of a done task; the method
-- that would reschedule it panics.
pub apply-done :
    (op : Op) (t : Task)
    → IsValid t
    → t.status ≡ done
    → (if is_rescheduling op then apply op t ≡ none else Returns (SameReport t) (apply op t))
unfolding apply cancel await configure_context set_running set_done configure_next_run
apply-done cancels t v e = ground arith
apply-done (awaits i) t v e = ground arith
apply-done configures t v e = ground arith
apply-done (starts now) t v e = rw e (ground arith)
apply-done (reschedules now) t v e = ground arith
apply-done (finishes value err) t v e = ground arith
