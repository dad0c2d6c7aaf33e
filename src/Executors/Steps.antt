-- ===== src/Executors/Steps.antt =====
-- Case splits on the operations of the executor, and what each of its small steps changes.
use go_fw.Prelude.{
  ℕ, ◌≡◌, refl, ◌⊎◌, inl, inr, Bool, Bool-cases, true, false, Option, none, some, ◌==◌,
}
use go_fw.Prelude.Int.{ℤ, eqb_ℤ}
use go_fw.Queue.{Element, peek, len}
use go_fw.Executors.Task.{runnable, delayed}
use go_fw.Executors.TaskList.{length_list}
use go_fw.Executors.Default.{
  Executor, queue_length, is_terminated, is_canceled, can_start_new_task, timer_for, timer_for_top,
  configure_scheduler_timer, schedule_task, enqueue_task, execute_task, try_execute_task,
  try_run_next_task, end_if_idle, run_front,
}

timer_for_lem :
    (next : ℤ) (e : Executor)
    → (t : Option ℤ) × (d : ℤ) × (timer_for next e ≡ record e { timer = t; timer_target = d })
unfolding timer_for
timer_for_lem next e = elim (Bool-cases (eqb_ℤ next e.timer_target)) [
  | inl h ↦ (e.timer, e.timer_target, rw h refl)
  | inr h ↦ (some next, next, rw h refl)
]

timer_for_top_lem :
    (x : Option (Element ℕ)) (e : Executor)
    → (t : Option ℤ) × (d : ℤ) × (timer_for_top x e ≡ record e { timer = t; timer_target = d })
unfolding timer_for_top
timer_for_top_lem none e = (e.timer, e.timer_target, refl)
timer_for_top_lem (some x) e = timer_for_lem (e.tasks x.value).next_run e

-- Setting the timer changes the timer and its target alone.
pub configure_scheduler_timer_lem :
    (e : Executor)
    → (t : Option ℤ) × (d : ℤ) × (configure_scheduler_timer e
        ≡ record e { timer = t; timer_target = d })
unfolding configure_scheduler_timer
configure_scheduler_timer_lem e = elim (Bool-cases (len e.scheduled_queue == 0)) [
  | inl h ↦ (e.timer, e.timer_target, rw h refl)
  | inr h ↦ let (t, d, q) = timer_for_top_lem (peek e.scheduled_queue) e in (t, d, rw h q)
]

-- The four ways of `tryExecuteTask`.
pub try_cases {ℓ} :
    (P : Executor → Type ℓ) (now : ℤ) (id : ℕ) (e : Executor)
    → (runnable (e.tasks id) ≡ false → P e)
    → (runnable (e.tasks id) ≡ true → delayed now (e.tasks id) ≡ true → P (schedule_task id e))
    → (runnable (e.tasks id) ≡ true
        → delayed now (e.tasks id) ≡ false
        → can_start_new_task e ≡ false
        → P (enqueue_task id e))
    → (runnable (e.tasks id) ≡ true
        → delayed now (e.tasks id) ≡ false
        → can_start_new_task e ≡ true
        → P (execute_task now id e))
    → P (try_execute_task now id e)
unfolding try_execute_task
try_cases P now id e skip later wait start = elim (Bool-cases (runnable (e.tasks id))) [
  | inr r ↦ rw r (skip r)
  | inl r ↦ rw r (elim (Bool-cases (delayed now (e.tasks id))) [
    | inl d ↦ rw d (later r d)
    | inr d ↦ rw d (elim (Bool-cases (can_start_new_task e)) [
      | inr c ↦ rw c (wait r d c)
      | inl c ↦ rw c (start r d c)
    ])
  ])
]

-- The three ways of `tryRunNextTask`.
pub try_next_cases {ℓ} :
    (P : Executor × Bool → Type ℓ) (now : ℤ) (e : Executor)
    → ((is_terminated e ≡ true) ⊎ (is_canceled e ≡ false) ⊎ ((queue_length e == 0) ≡ false)
        → P (e, true))
    → (is_terminated e ≡ false
        → (queue_length e == 0) ≡ true
        → is_canceled e ≡ true
        → P (end_if_idle e))
    → (is_terminated e ≡ false
        → can_start_new_task e ≡ true
        → P (run_front now e.queue.items e, true))
    → P (try_run_next_task now e)
unfolding try_run_next_task
try_next_cases P now e stay idle run = elim (Bool-cases (is_terminated e)) [
  | inl t ↦ rw t (stay (inl t))
  | inr t ↦ rw t (elim (Bool-cases (queue_length e == 0)) [
    | inl q ↦ rw q (elim (Bool-cases (is_canceled e)) [
      | inl c ↦ rw c (idle t q c)
      | inr c ↦ rw c (stay (inr (inl c)))
    ])
    | inr q ↦ rw q (elim (Bool-cases (length_list e.queue == 0)) [
      | inl l ↦ rw l (stay (inr (inr q)))
      | inr l ↦ rw l (elim (Bool-cases (can_start_new_task e)) [
        | inl c ↦ rw c (run t c)
        | inr c ↦ rw c (stay (inr (inr q)))
      ])
    ])
  ])
]
