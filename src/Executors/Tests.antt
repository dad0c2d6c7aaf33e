-- ===== src/Executors/Tests.antt =====
-- The theorems on tasks and the executor at concrete ones.
use go_fw.Prelude.{
  ℕ, ◌≡◌, ◌≢◌, refl, inr, true, false, none, some, [], ◌∷◌, arith, leb, Returns, Whenever, update,
}
use go_fw.Prelude.Int.{pos}
use go_fw.Queue.{Element, Heap, before, push, pop, peek, len, new_priority_queue}
use go_fw.Queue.Cut.{IsValid}
use go_fw.Queue.Laws.{new_priority_queue-IsValid, push_correct}
use go_fw.Executors.Task.{
  Task, TaskStatus, once, fixed_rate, DoneChn, new, running, done, new_task, cancel, await,
  set_done, is_done, runnable, delayed, cancel_swap,
}
use go_fw.Executors.Task.Lifecycle.{
  Op, cancels, awaits, finishes, apply, Allowed, Follows, SameChn, SameReport, CancelOutcome, first,
  apply_correct, cancel_correct, apply-done,
}
use go_fw.Executors.Task.Lifecycle
use go_fw.Executors.Task.Await.{is_closed, await_correct}
use go_fw.Executors.Default.{
  Executor, new_default_executor, is_canceled, is_terminated, rank, queue_length, terminated,
  shutting_down, set_task,
}
use go_fw.Executors.Events.{
  Event, submitted, completed, cancel_requested, handle, on_timer, on_completed, on_cancel,
  on_cancel_now, or_canceled,
}
use go_fw.Executors.Closed.{Ends}
use go_fw.Executors.Limits.{IsLimited, IsWithin, here, next, loop, handle_limits, Reach-IsWithin}
use go_fw.Executors.Shutdown.{IsOpen, IsOver, handle-Ends}
use go_fw.Executors.CancelNow.{Collected, on_cancel_now_correct}
use go_fw.Executors.Submit.{Scheduled, schedule, schedule_correct}

abbrev fresh : Task
fresh = record {
  id = 1;
  type = fixed_rate;
  status = new;
  next_run = pos 5;
  delay = pos 10;
  done_chn = DoneChn.nil;
  canceled = false;
  err = none;
  value = none;
  ctx = go_fw.Executors.Task.live;
  queue_element = none;
  s_queue_element = none;
}

abbrev at_work : Task
at_work = record fresh { status = running }

abbrev finished : Task
finished = record fresh { status = done }

apply_correct_example :
    Returns (λ u. Lifecycle.IsValid u × Follows cancels new u.status) (apply cancels fresh)
apply_correct_example = apply_correct cancels fresh tt tt

await_correct_example :
    (is_closed (await 4 fresh).1 ≡ is_done new)
    × Returns
        (λ u.
          SameChn (await 4 fresh).1 (await 5 u).1 × (is_closed (await 5 u).1 ≡ is_done u.status))
        (apply cancels (await 4 fresh).0)
await_correct_example = await_correct 4 5 cancels fresh tt tt

abbrev start : Executor
start = new_default_executor (pos 1) (pos 2) 0 0 (λ _. fresh) (pos 0)

abbrev queue_IsValid : IsValid (new_priority_queue {V = ℕ})
queue_IsValid = new_priority_queue-IsValid

handle_limits_example : Whenever (λ r. IsLimited 0 r.0) (handle (submitted (pos 7) 1) start)
handle_limits_example = handle_limits (submitted (pos 7) 1) start refl tt

start-IsWithin : IsWithin start
start-IsWithin = record { counted = refl; bounded = inr (omega arith) }

abbrev started : Executor
started = record start {
  tasks = update (λ _. fresh) 1 at_work;
  running_count = 1;
  goroutines = 1 ∷ [];
}

start_runs : handle (submitted (pos 7) 1) start ≡ some (started, true)
unfolding handle go_fw.Executors.Events.on_submitted go_fw.Executors.Default.try_execute_task
    go_fw.Executors.Default.execute_task go_fw.Executors.Default.can_start_new_task
    go_fw.Executors.Task.set_running delayed
start_runs = refl

Reach-IsWithin_example : IsWithin started
Reach-IsWithin_example =
    Reach-IsWithin start-IsWithin (next here (loop (submitted (pos 7) 1) true refl tt start_runs))

handle-Ends_example :
    Whenever (Ends (IsOpen start.status) IsOver) (handle (cancel_requested (pos 3)) start)
handle-Ends_example = handle-Ends (cancel_requested (pos 3)) start refl

abbrev closing : Executor
closing = record started { status = shutting_down }

on_cancel_now_correct_example :
    (leb 2 (rank closing.status) ≡ false
      → Returns (Collected closing) (on_cancel_now (pos 3) closing))
    × (leb 2 (rank closing.status) ≡ true
        → on_cancel_now (pos 3) closing ≡ some ((closing, true), none))
on_cancel_now_correct_example = on_cancel_now_correct (pos 3) closing queue_IsValid

schedule_correct_example :
    Scheduled once (pos 4) (pos 0) (pos 3) start (schedule once (pos 4) (pos 0) (pos 3) start)
unfolding len new_priority_queue
schedule_correct_example =
    schedule_correct once (pos 4) (pos 0) (pos 3) start (omega arith) (omega arith) (omega arith)

abbrev item : Element ℕ
item = (push new_priority_queue 0 0 1 (pos 5)).1

abbrev one_item : Heap ℕ
one_item = (push new_priority_queue 0 0 1 (pos 5)).0

abbrev other_item : Element ℕ
other_item = (push one_item 1 1 2 (pos 5)).1

abbrev two_items : Heap ℕ
two_items = (push one_item 1 1 2 (pos 5)).0

empty_fresh : (new_priority_queue {V = ℕ}).heap 0 ≡ false
unfolding new_priority_queue
empty_fresh = refl

one_item-IsValid : IsValid one_item
one_item-IsValid = (push_correct new_priority_queue 0 0 1 (pos 5) queue_IsValid empty_fresh).0

one_item_facts : (len one_item ≡ 1) × (peek one_item ≡ some item) × (one_item.heap 1 ≡ false)
unfolding push new_priority_queue len peek
one_item_facts = (refl, refl, refl)

two_items-IsValid : IsValid two_items
two_items-IsValid = (push_correct one_item 1 1 2 (pos 5) one_item-IsValid one_item_facts.2).0

abbrev gone : Executor
gone = record start { scheduled_queue = one_item; tasks = λ _. finished; timer = some (pos 5) }

due : delayed (pos 5) finished ≡ false
unfolding delayed
due = refl

item_value : item.value ≡ 1
unfolding push
item_value = refl

abbrev twin : Executor
twin = record start { scheduled_queue = two_items; timer = some (pos 5); timer_target = pos 5 }

two_items_first : peek two_items ≡ some item
unfolding push new_priority_queue before peek
two_items_first = refl

two_items_next : Whenever (λ (_, g). peek g ≡ some other_item) (pop two_items)
unfolding push pop new_priority_queue before peek
two_items_next = refl

two_items_differ : other_item.value ≢ item.value
unfolding push
two_items_differ = omega arith

fresh_due : delayed (pos 5) fresh ≡ false
unfolding delayed
fresh_due = refl
