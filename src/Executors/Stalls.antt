-- ===== src/Executors/Stalls.antt =====
-- Courses in which the executor waits for a timer or an event that does not come.
use go_fw.Prelude.{
  update, update_self, update_other, ℕ, ◌<◌, ◌≡◌, ◌≢◌, refl, sym, ◌∙◌, inl, inr, Bool, Bool-cases,
  true, false, none, some, List, arith, ◌==◌, length, length-perm, Returns, Whenever,
}
use go_fw.Prelude.Int.{ℤ, eqb_ℤ}
use go_fw.Queue.{Heap, Element, len, peek, pop}
use go_fw.Queue.Array.{lt_of_get_elem?}
use go_fw.Queue.Cut.{IsValid}
use go_fw.Queue.Laws.{pop_correct}
use go_fw.Executors.Task.{Task, runnable, delayed}
use go_fw.Executors.TaskList.{TaskList, length_list}
use go_fw.Executors.Default.{
  Executor, queue_length, try_execute_task, configure_scheduler_timer, timer_for_top, timer_for,
  set_task, start_if, enqueue_task, execute_task,
}
use go_fw.Executors.Events.{on_timer, on_task_canceled}
use go_fw.Executors.Steps.{try_cases}

-- While no task is ready in the queue, the event of a canceled task leaves the task in the
-- scheduled queue.
pub canceled_stays_scheduled :
    (id : ℕ) (e : Executor)
    → length_list e.queue ≡ 0
    → Returns
        (λ r. (r.1 ≡ true) × (r.0.scheduled_queue ≡ e.scheduled_queue) × (r.0.queue ≡ e.queue))
        (on_task_canceled id e)
unfolding on_task_canceled
canceled_stays_scheduled id e q =
    let q' : (length_list e.queue == 0) ≡ true = ground arith in rw q' (refl, refl, refl)

-- Nothing is queued, nothing runs and no timer is set.
pub record IsStill (e : Executor) : Type 0 where
  pub empty : queue_length e ≡ 0
  pub idle : e.running_count ≡ 0
  pub unset : e.timer ≡ none

configure-empty : (e : Executor) → len e.scheduled_queue ≡ 0 → configure_scheduler_timer e ≡ e
unfolding configure_scheduler_timer
configure-empty e z = let z' : (len e.scheduled_queue == 0) ≡ true = ground arith in rw z'

try-refused :
    (now : ℤ) (id : ℕ) (e : Executor)
    → runnable (e.tasks id) ≡ false
    → try_execute_task now id e ≡ e
unfolding try_execute_task
try-refused now id e h = rw h

-- The executor after its timer took the task of `x` off the scheduled queue.
abbrev taken_off : Executor → Element ℕ → Heap ℕ → Executor
taken_off e x g =
    set_task x.value (record (e.tasks x.value) { s_queue_element = none })
      (record e { timer = none; scheduled_queue = g })

on_timer_due :
    (now : ℤ) (e : Executor) (x : Element ℕ) (g : Heap ℕ)
    → (len e.scheduled_queue == 0) ≡ false
    → peek e.scheduled_queue ≡ some x
    → pop e.scheduled_queue ≡ some (x, g)
    → delayed now (e.tasks x.value) ≡ false
    → on_timer now e
      ≡ some (configure_scheduler_timer (try_execute_task now x.value (taken_off e x g)), true)
unfolding on_timer
on_timer_due now e x g z top popped due = rw (z, top, due, popped)

-- If the only task of an executor is a scheduled one that was cancelled, the timer takes it off the
-- queue and the loop goes on in the same status, with nothing queued, nothing running and no timer:
-- an executor that was canceled before is not terminated by it.
pub timer_leaves_open :
    (now : ℤ) (e : Executor) (x : Element ℕ)
    → IsValid e.scheduled_queue
    → len e.scheduled_queue ≡ 1
    → peek e.scheduled_queue ≡ some x
    → length_list e.queue ≡ 0
    → e.running_count ≡ 0
    → runnable (e.tasks x.value) ≡ false
    → delayed now (e.tasks x.value) ≡ false
    → Returns (λ r. (r.1 ≡ true) × (r.0.status ≡ e.status) × IsStill r.0) (on_timer now e)
unfolding len
timer_leaves_open now e x v one top q r gone due =
    let (y, g, popped, first, taken, least) = pop_correct e.scheduled_queue v (omega arith) in
    let z : length g.elements ≡ 0 = omega (arith, length-perm taken.same) in
    let same : y ≡ x = ground arith in
    let shape = on_timer_due now e x g (ground arith) top (rw same at popped) due in
    let e1 = taken_off e x g in
    let refused : runnable (e1.tasks x.value) ≡ false =
      rw (update_self e.tasks x.value (record (e.tasks x.value) { s_queue_element = none })) gone in
    let quiet : configure_scheduler_timer (try_execute_task now x.value e1) ≡ e1 =
      rw (try-refused now x.value e1 refused) (configure-empty e1 z) in
    rw (shape, quiet) (refl, refl, record { empty = omega arith; idle = r; unset = refl })

peek-pos : (h : Heap ℕ) (x : Element ℕ) → peek h ≡ some x → 0 < length h.elements
unfolding peek
peek-pos h x e = lt_of_get_elem? h.elements 0 x e

len_pos : (h : Heap ℕ) → 0 < length h.elements → (len h == 0) ≡ false
unfolding len
len_pos h p = ground arith

-- What `tryExecuteTask` keeps of the state in which the timer has fired.
record Fired (e : Executor) (g : Heap ℕ) (y : Element ℕ) (f : Executor) : Type 0 where
  timer : f.timer ≡ none
  target : f.timer_target ≡ e.timer_target
  queue : peek f.scheduled_queue ≡ peek g
  next : (f.tasks y.value).next_run ≡ e.timer_target

module _ (now : ℤ) (e : Executor) (x y : Element ℕ) (g : Heap ℕ) (other : y.value ≢ x.value)
    (same : (e.tasks y.value).next_run ≡ e.timer_target) where
  taken_off-Fired : Fired e g y (taken_off e x g)
  taken_off-Fired = record {
    timer = refl;
    target = refl;
    queue = refl;
    next = rw (update_other e.tasks x.value y.value _ other) same;
  }

  set-Fired :
      (t : Task) (l : TaskList) (n : ℕ) (k : List ℕ)
      → Fired e g y (record (taken_off e x g) {
        tasks = update (taken_off e x g).tasks x.value t;
        queue = l;
        running_count = n;
        goroutines = k;
      })
  set-Fired t l n k = record {
    timer = refl;
    target = refl;
    queue = refl;
    next = rw (update_other (taken_off e x g).tasks x.value y.value t other) taken_off-Fired.next;
  }

  start-Fired : (r : Task × Bool) → Fired e g y (start_if x.value r (taken_off e x g))
  start-Fired (t, true) = set-Fired t _ _ _
  start-Fired (t, false) = taken_off-Fired

  enqueue-Fired : Fired e g y (enqueue_task x.value (taken_off e x g))
  unfolding enqueue_task
  enqueue-Fired = set-Fired _ _ _ _

  execute-Fired : Fired e g y (execute_task now x.value (taken_off e x g))
  unfolding execute_task
  execute-Fired = start-Fired _

  try_waits :
      delayed now (e.tasks x.value) ≡ false
      → Fired e g y (try_execute_task now x.value (taken_off e x g))
  unfolding delayed
  try_waits due =
      try_cases (Fired e g y) now x.value (taken_off e x g) (λ r. taken_off-Fired)
        (λ r late. absurd (
          contradicts (
            rw (update_self e.tasks x.value (record (e.tasks x.value) { s_queue_element = none }))
              at late)))
        (λ r d f. enqueue-Fired) (λ r d f. execute-Fired)
    where
      contradicts : delayed now (e.tasks x.value) ≡ true → ⊥
      contradicts late = cc

configure-same :
    (e : Executor) (y : Element ℕ)
    → peek e.scheduled_queue ≡ some y
    → (e.tasks y.value).next_run ≡ e.timer_target
    → configure_scheduler_timer e ≡ e
unfolding configure_scheduler_timer timer_for_top timer_for
configure-same e y top same =
    let h : eqb_ℤ e.timer_target e.timer_target ≡ true = ground arith in
    elim (Bool-cases (len e.scheduled_queue == 0)) [ inl z ↦ rw z | inr z ↦ rw (z, top, same, h) ]

-- The timer is set for an instant, and a task that is next in the scheduled queue for the same
-- instant does not set it again: after the timer's event it is unset, though a task is scheduled.
pub timer_not_set_again :
    (now : ℤ) (e : Executor) (x y : Element ℕ)
    → IsValid e.scheduled_queue
    → peek e.scheduled_queue ≡ some x
    → delayed now (e.tasks x.value) ≡ false
    → Whenever (λ (_, g). peek g ≡ some y) (pop e.scheduled_queue)
    → y.value ≢ x.value
    → (e.tasks y.value).next_run ≡ e.timer_target
    → Returns (λ r. (r.0.timer ≡ none) × (peek r.0.scheduled_queue ≡ some y)) (on_timer now e)
timer_not_set_again now e x y v top due next other same =
    let (x', g, popped, first, taken, least) =
      pop_correct e.scheduled_queue v (peek-pos e.scheduled_queue x top) in
    let eq : x' ≡ x = ground arith in
    let popped' : pop e.scheduled_queue ≡ some (x, g) = rw eq at popped in
    let shape =
      on_timer_due now e x g (len_pos _ (peek-pos e.scheduled_queue x top)) top popped' due in
    let waits : peek g ≡ some y = rw popped' at next in
    let p = try_waits now e x y g other same due in
    let e2 = try_execute_task now x.value (taken_off e x g) in
    let quiet : configure_scheduler_timer e2 ≡ e2 =
      configure-same e2 y (p.queue ∙ waits) (p.next ∙ sym p.target) in
    rw (shape, quiet) (p.timer, p.queue ∙ waits)
