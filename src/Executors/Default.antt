-- ===== src/Executors/Default.antt =====
-- executors/executors_default.go. The executor is the state of the event loop, with the tasks by
-- id, the task goroutines that were started and whose completed event the loop has not received,
-- and the package variable `sequence` of the queue. Each event of the loop is a function; it reads
-- the clock once, as `now`. The result says whether the loop continues; `none` is a panic, or a
-- removal that damages the list. The timer is the instant for which it is set, until the loop
-- receives from it.
use go_fw.Prelude.{
  update, ℕ, ◌+◌, ◌-◌, ◌^◌, Bool, true, false, ◌||◌, not, Option, none, some, List, [], ◌∷◌, ◌==◌,
  ltb, leb, if◌then◌else◌,
}
use go_fw.Prelude.Int.{ℤ, pos, negsuc, ◌+ℤ◌, ◌-ℤ◌, ltb_ℤ, eqb_ℤ}
use go_fw.Queue.{Element, Heap, push, peek, len, new_priority_queue}
use go_fw.Executors.Task.{Task, runnable, delayed, set_running}
use go_fw.Executors.TaskList.{TaskList, empty_list, length_list, push_back}

pub data Status : Type 0 where
  running shutting_down waiting_termination terminated : Status

abbrev pub rank : Status → ℕ
rank running = 0
rank shutting_down = 1
rank waiting_termination = 2
rank terminated = 3

pub record Executor : Type 0 where
  pub status : Status
  pub queue : TaskList
  pub scheduled_queue : Heap ℕ
  pub sequence : ℕ
  pub next_address : ℕ
  pub timer : Option ℤ
  pub timer_target : ℤ
  pub queue_capacity : ℤ
  pub concurrency : ℤ
  pub running_count : ℕ
  pub task_count : ℕ
  pub tasks : ℕ → Task
  pub goroutines : List ℕ

abbrev pub new_default_executor : ℤ → ℤ → ℕ → ℕ → (ℕ → Task) → ℤ → Executor
new_default_executor concurrency capacity sequence address tasks now = record {
  status = running;
  queue = empty_list;
  scheduled_queue = new_priority_queue;
  sequence = sequence;
  next_address = address;
  timer = some now;
  timer_target = now;
  queue_capacity = capacity;
  concurrency = concurrency;
  running_count = 0;
  task_count = 0;
  tasks = tasks;
  goroutines = [];
}

abbrev pub queue_length : Executor → ℕ
queue_length e = length_list e.queue + len e.scheduled_queue

abbrev pub is_terminated : Executor → Bool
is_terminated e = leb 3 (rank e.status)

abbrev pub is_canceled : Executor → Bool
is_canceled e = leb 1 (rank e.status)

-- CompareAndSwap, where only success matters.
abbrev pub shut_to_waiting : Status → Status
shut_to_waiting shutting_down = waiting_termination
shut_to_waiting s = s

abbrev pub set_task : ℕ → Task → Executor → Executor
set_task id t e = record e { tasks = update e.tasks id t }

unfoldable pub can_start_new_task : Executor → Bool
can_start_new_task e =
    if ltb_ℤ e.concurrency (pos 0) then true else ltb_ℤ (pos e.running_count) e.concurrency

-- math.MaxInt32
abbrev pub max_int32 : ℤ
max_int32 = pos 0x7fffffff

-- A sum in Go's int, of 64 bits, that wraps at most once.
abbrev pub wrap_int : ℤ → ℤ
wrap_int z =
    if ltb_ℤ z (negsuc (2 ^ 63 - 1))
    then z +ℤ pos (2 ^ 64)
    else (if ltb_ℤ z (pos (2 ^ 63)) then z else z -ℤ pos (2 ^ 64))

unfoldable pub remaining_total_capacity : Executor → ℤ
remaining_total_capacity e =
    if ltb_ℤ e.concurrency (pos 0) || ltb_ℤ e.queue_capacity (pos 0)
    then max_int32
    else wrap_int
        (((e.concurrency -ℤ pos e.running_count) +ℤ e.queue_capacity) -ℤ pos (queue_length e))

unfoldable pub timer_for : ℤ → Executor → Executor
timer_for next e =
    if eqb_ℤ next e.timer_target then e else record e { timer = some next; timer_target = next }

unfoldable pub timer_for_top : Option (Element ℕ) → Executor → Executor
timer_for_top none e = e
timer_for_top (some x) e = timer_for (e.tasks x.value).next_run e

unfoldable pub configure_scheduler_timer : Executor → Executor
configure_scheduler_timer e =
    if len e.scheduled_queue == 0 then e else timer_for_top (peek e.scheduled_queue) e

-- `e.scheduledQueue.Push(task, task.nextRun.UnixNano())`, with the new element.
unfoldable pub push_scheduled : ℕ → Executor → Executor × Element ℕ
push_scheduled id e =
    let (h, x, s) = push e.scheduled_queue e.next_address e.sequence id (e.tasks id).next_run in
    (record e { scheduled_queue = h; sequence = s; next_address = e.next_address + 1 }, x)

-- The goroutine that the call starts is the entry of `goroutines`.
abbrev pub start_if : ℕ → Task × Bool → Executor → Executor
start_if id (t, false) e = e
start_if id (t, true) e = record e {
  tasks = update e.tasks id t;
  running_count = e.running_count + 1;
  goroutines = id ∷ e.goroutines;
}

unfoldable pub execute_task : ℤ → ℕ → Executor → Executor
execute_task now id e = start_if id (set_running now (e.tasks id)) e

-- The branch of `tryExecuteTask` for a task that is meant to run in the future.
unfoldable pub schedule_task : ℕ → Executor → Executor
schedule_task id e =
    let (e', x) = push_scheduled id e in
    configure_scheduler_timer (set_task id (record (e'.tasks id) { s_queue_element = some x }) e')

-- The branch for a task that finds no room.
unfoldable pub enqueue_task : ℕ → Executor → Executor
enqueue_task id e =
    let (l, a) = push_back e.queue id in
    set_task id (record (e.tasks id) { queue_element = some a }) (record e { queue = l })

unfoldable pub try_execute_task : ℤ → ℕ → Executor → Executor
try_execute_task now id e =
    if not (runnable (e.tasks id))
    then e
    else if delayed now (e.tasks id)
    then schedule_task id e
    else if not (can_start_new_task e)
    then enqueue_task id e
    else execute_task now id e

-- The branch of `tryRunNextTask` for an empty queue of a canceled executor.
abbrev pub end_if_idle : Executor → Executor × Bool
end_if_idle e =
    if ltb 0 e.running_count
    then (record e { status = shut_to_waiting e.status }, true)
    else (record e { status = terminated }, false)

-- Takes the first task off the queue, and runs it.
abbrev pub run_front : ℤ → List (ℕ × ℕ) → Executor → Executor
run_front now [] e = e
run_front now ((a, id) ∷ rest) e = try_execute_task now id (
    set_task id (record (e.tasks id) { queue_element = none })
      (record e { queue = record (e.queue) { items = rest } }))

unfoldable pub try_run_next_task : ℤ → Executor → Executor × Bool
try_run_next_task now e =
    if is_terminated e
    then (e, true)
    else if queue_length e == 0
    then (if is_canceled e then end_if_idle e else (e, true))
    else if length_list e.queue == 0
    then (e, true)
    else if not (can_start_new_task e)
    then (e, true)
    else (run_front now e.queue.items e, true)
