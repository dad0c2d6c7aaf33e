-- ===== src/Executors/Task.antt =====
-- executors/task.go. A task is shared between the callers that hold it as a future, the event loop
-- and the goroutine that runs it. Each method is a function on the task's fields. `Cancel` is in
-- two parts, its compare-and-swap and what follows, since other goroutines may run in between.
-- Instants and durations are nanoseconds. A value and an error of the caller's code is a number
-- that stands for its identity. A method that panics returns `none`.
pub mod Lifecycle
pub mod Await
use go_fw.Prelude.{ℕ, Bool, true, false, ◌||◌, not, Option, none, some, ltb, leb, if◌then◌else◌}
use go_fw.Prelude.Int.{ℤ, ◌+ℤ◌, ltb_ℤ}
use go_fw.Queue.{Element}

pub data TaskStatus : Type 0 where
  new running cancelling done : TaskStatus

-- The constants are consecutive numbers, compared by `>=`.
abbrev pub rank : TaskStatus → ℕ
rank new = 0
rank running = 1
rank cancelling = 2
rank done = 3

pub data TaskType : Type 0 where
  once fixed_delay fixed_rate : TaskType

pub data TaskErr : Type 0 where
  context_canceled task_panic : TaskErr
  user_error : ℕ → TaskErr

-- The field `done`: nil, the shared closed channel, or a channel that was made for the task.
pub data DoneChn : Type 0 where
  nil closed_chn : DoneChn
  own_open own_closed : ℕ → DoneChn

-- The field `ctxCancel`: nil, or a function that cancels the task's context, and whether it ran.
pub data TaskCtx : Type 0 where
  unset live ended : TaskCtx

pub record Task : Type 0 where
  pub id : ℕ
  pub type : TaskType
  pub status : TaskStatus
  pub next_run : ℤ
  pub delay : ℤ
  pub done_chn : DoneChn
  pub canceled : Bool
  pub err : Option TaskErr
  pub value : Option ℕ
  pub ctx : TaskCtx
  pub queue_element : Option ℕ
  pub s_queue_element : Option (Element ℕ)

unfoldable pub new_task : ℕ → TaskType → ℤ → ℤ → ℤ → Task
new_task id task_type initial_delay delay now = record {
  id = id;
  type = task_type;
  status = new;
  next_run = now +ℤ initial_delay;
  delay = delay;
  done_chn = nil;
  canceled = false;
  err = none;
  value = none;
  ctx = unset;
  queue_element = none;
  s_queue_element = none;
}

abbrev pub is_new : TaskStatus → Bool
is_new new = true
is_new _ = false

abbrev pub is_running : TaskStatus → Bool
is_running running = true
is_running _ = false

abbrev pub is_done : TaskStatus → Bool
is_done done = true
is_done _ = false

abbrev pub runnable : Task → Bool
runnable t = is_new t.status

-- `Delay() > 0` at the time `now`.
unfoldable pub delayed : ℤ → Task → Bool
delayed now t = ltb_ℤ now t.next_run

unfoldable pub set_running : ℤ → Task → Task × Bool
set_running now t =
    if not (runnable t) || delayed now t then (t, false) else (record t { status = running }, true)

abbrev pub is_periodic : TaskType → Bool
is_periodic once = false
is_periodic fixed_delay = true
is_periodic fixed_rate = true

abbrev pub periodic : Task → Bool
periodic t = is_periodic t.type

-- `if t.ctxCancel != nil { t.ctxCancel() }`
abbrev pub cancel_ctx : TaskCtx → TaskCtx
cancel_ctx unset = unset
cancel_ctx live = ended
cancel_ctx ended = ended

-- `close` of the task's own channel, where it has one; a second `close` panics.
abbrev pub close_done : DoneChn → Option DoneChn
close_done nil = some nil
close_done closed_chn = some closed_chn
close_done (own_open i) = some (own_closed i)
close_done (own_closed i) = none

-- Which compare-and-swap of `Cancel` succeeded.
pub data CancelPhase : Type 0 where
  was_new was_running refused : CancelPhase

unfoldable pub cancel_swap : Task → Task × CancelPhase
cancel_swap t = elim t.status [
  | new ↦ (record t { status = done }, was_new)
  | running ↦ (record t { status = cancelling }, was_running)
  | cancelling ↦ (t, refused)
  | done ↦ (t, refused)
]

-- `none` is the panic of a second `close`. After `true` the executor is sent a canceled event.
unfoldable pub cancel_finish : Task × CancelPhase → Option (Task × Bool)
cancel_finish (t, was_new) = elim (close_done t.done_chn) [
  | none ↦ none
  | some c ↦ some (
    record t { err = some context_canceled; canceled = true; ctx = cancel_ctx t.ctx; done_chn = c },
    true,
  )
]
cancel_finish (t, was_running) = some (record t { canceled = true; ctx = cancel_ctx t.ctx }, true)
cancel_finish (t, refused) = some (t, false)

unfoldable pub cancel : Task → Option (Task × Bool)
unfolding cancel_swap cancel_finish
cancel t = cancel_finish (cancel_swap t)

-- The channel that `Await` returns, when it runs with no other goroutine in between; a new channel
-- has the number `fresh`.
unfoldable pub await : ℕ → Task → Task × DoneChn
await fresh t = elim t.done_chn [
  | nil ↦
      let c = if is_done t.status then closed_chn else own_open fresh in
      (record t { done_chn = c }, c)
  | c ↦ (t, c)
]

unfoldable pub configure_context : Task → Task
configure_context t = record t { ctx = live }

abbrev pub next_run_after : TaskType → ℤ → ℤ → ℤ → ℤ
next_run_after once now next delay = next
next_run_after fixed_delay now next delay = now +ℤ delay
next_run_after fixed_rate now next delay = next +ℤ delay

-- `none` is a panic.
unfoldable pub configure_next_run : ℤ → Task → Option Task
configure_next_run now t =
    if not (periodic t)
    then none
    else if leb 2 (rank t.status)
    then none
    else if not (is_running t.status)
    then none
    else some (record t { status = new; next_run = next_run_after t.type now t.next_run t.delay })

abbrev pub set_done_chn : DoneChn → Option DoneChn
set_done_chn nil = some closed_chn
set_done_chn c = close_done c

unfoldable pub set_done : Option ℕ → Option TaskErr → Task → Option (Task × Bool)
set_done value err t =
    if is_done t.status then some (t, false) else elim (set_done_chn t.done_chn) [
      | none ↦ none
      | some c ↦ some (
        record t { status = done; value = value; err = err; ctx = cancel_ctx t.ctx; done_chn = c },
        true,
      )
    ]
