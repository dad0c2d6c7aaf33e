-- ===== src/Executors/Submit.antt =====
-- The calls of executors/executors_default.go that submit a task. An accepted task is sent to the
-- event loop.
use go_fw.Prelude.{
  update_self, update_other, ℕ, ◌+◌, ◌<◌, ◌%◌, ◌^◌, ◌≡◌, ◌≢◌, ◌||◌, ◌⊎◌, inl, inr, refl, Bool,
  Bool-cases, true, false, arith, if◌then◌else◌,
}
use go_fw.Prelude.Int.{ℤ, pos, negsuc, ltb_ℤ, ◌+ℤ◌, ◌-ℤ◌}
use go_fw.Executors.Task.{
  TaskType, once, fixed_rate, fixed_delay, runnable, new_task, configure_context,
}
use go_fw.Executors.Default.{
  Executor, is_canceled, queue_length, remaining_total_capacity, wrap_int, max_int32, set_task,
}

pub data SubmitErr : Type 0 where
  executor_canceled executor_queue_full : SubmitErr

pub data Submission : Type 0 where
  rejected : SubmitErr → Submission
  accepted : ℕ → Submission

-- `taskCount` is a uint64.
unfoldable pub schedule : TaskType → ℤ → ℤ → ℤ → Executor → Executor × Submission
schedule task_type initial_delay delay now e =
    let id = (e.task_count + 1) % 2 ^ 64 in
    if is_canceled e
    then (e, rejected executor_canceled)
    else if ltb_ℤ (remaining_total_capacity e) (pos 1)
    then (e, rejected executor_queue_full)
    else (
      set_task id (configure_context (new_task id task_type initial_delay delay now))
          (record e { task_count = id }),
      accepted id,
    )

abbrev pub schedule_after : ℤ → ℤ → Executor → Executor × Submission
schedule_after delay now e = schedule once delay (pos 0) now e

abbrev pub submit : ℤ → Executor → Executor × Submission
submit now e = schedule_after (pos 0) now e

abbrev pub submit_producer : ℤ → Executor → Executor × Submission
submit_producer now e = schedule once (pos 0) (pos 0) now e

abbrev pub schedule_with_fixed_rate : ℤ → ℤ → ℤ → Executor → Executor × Submission
schedule_with_fixed_rate initial_delay period now e = schedule fixed_rate initial_delay period now e

abbrev pub schedule_with_fixed_delay : ℤ → ℤ → ℤ → Executor → Executor × Submission
schedule_with_fixed_delay initial_delay delay now e = schedule fixed_delay initial_delay delay now e

-- The limits leave room for one more task: one of them is off, or fewer tasks run and wait than
-- both together allow, and what is left is an int.
abbrev pub HasRoom : ℤ → ℤ → ℕ → Type 0
HasRoom (pos c) (pos k) n = (n < c + k) × (c + k < 2 ^ 63 + n)
HasRoom _ _ n = Unit

-- The test of `schedule`, on the numbers that it reads.
abbrev is_full : ℤ → ℤ → ℕ → ℕ → Bool
is_full c k r q =
    ltb_ℤ
      (if ltb_ℤ c (pos 0) || ltb_ℤ k (pos 0)
        then max_int32
        else wrap_int (((c -ℤ pos r) +ℤ k) -ℤ pos q))
      (pos 1)

-- The limit is an int.
abbrev pub IsInt : ℤ → Type 0
IsInt (pos n) = n < 2 ^ 63
IsInt (negsuc n) = n < 2 ^ 63

full_or_room :
    (c k : ℤ) (r q : ℕ)
    → IsInt c
    → IsInt k
    → r + q < 2 ^ 63
    → ((is_full c k r q ≡ false) × HasRoom c k (r + q))
      ⊎ ((is_full c k r q ≡ true) × (¬ HasRoom c k (r + q)))
full_or_room (pos c) (pos k) r q lc lk ln = room_split c k r q lc lk ln
  where
    room_split :
        (c k r q : ℕ)
        → c < 2 ^ 63
        → k < 2 ^ 63
        → r + q < 2 ^ 63
        → ((is_full (pos c) (pos k) r q ≡ false) × HasRoom (pos c) (pos k) (r + q))
          ⊎ ((is_full (pos c) (pos k) r q ≡ true) × (¬ HasRoom (pos c) (pos k) (r + q)))
    room_split c k r q lc lk ln = ground (arith, lc, lk, ln)
full_or_room (pos c) (negsuc k) r q lc lk ln = inl (ground arith, tt)
full_or_room (negsuc c) k r q lc lk ln = inl (ground arith, tt)

-- The outcomes of `schedule`.
pub data Scheduled (task_type : TaskType) (initial_delay delay now : ℤ) (e : Executor)
    (r : Executor × Submission) : Type 0 where
  refused_canceled :
      is_canceled e ≡ true
      → r ≡ (e, rejected executor_canceled)
      → Scheduled task_type initial_delay delay now e r
  refused_full :
      is_canceled e ≡ false
      → ¬ HasRoom e.concurrency e.queue_capacity (e.running_count + queue_length e)
      → r ≡ (e, rejected executor_queue_full)
      → Scheduled task_type initial_delay delay now e r
  added :
      (id : ℕ)
      → is_canceled e ≡ false
      → HasRoom e.concurrency e.queue_capacity (e.running_count + queue_length e)
      → id ≡ (e.task_count + 1) % 2 ^ 64
      → r.1 ≡ accepted id
      → runnable (r.0.tasks id) ≡ true
      → ((r.0.tasks id).next_run ≡ now +ℤ initial_delay)
      → ((j : ℕ) → j ≢ id → r.0.tasks j ≡ e.tasks j)
      → (r.0 ≡ record e { tasks = r.0.tasks; task_count = id })
      → Scheduled task_type initial_delay delay now e r

-- `schedule` rejects with the error of a canceled executor exactly if it is canceled, and else with
-- the error of a full queue exactly if the limits leave no room: neither is off, and no fewer tasks
-- run and wait than both allow, or the number that is left is over the greatest int and wraps. Both
-- leave the executor as it is.
-- Otherwise it adds one new task under the next id, due after the initial delay, and changes no
-- other task and nothing else of the executor. The limits and the number of tasks are ints.
pub schedule_correct :
    (task_type : TaskType) (initial_delay delay now : ℤ) (e : Executor)
    → IsInt e.concurrency
    → IsInt e.queue_capacity
    → e.running_count + queue_length e < 2 ^ 63
    → Scheduled task_type initial_delay delay now e (schedule task_type initial_delay delay now e)
unfolding schedule remaining_total_capacity new_task configure_context
schedule_correct task_type initial_delay delay now e lc lk ln = elim (Bool-cases (is_canceled e)) [
  | inl k ↦ refused_canceled k (rw k)
  | inr k ↦
      elim (full_or_room e.concurrency e.queue_capacity e.running_count (queue_length e) lc lk ln) [
        | inr (f, n) ↦ refused_full k n (rw (k, f))
        | inl (f, n) ↦
            let id = (e.task_count + 1) % 2 ^ 64 in
            let t = configure_context (new_task id task_type initial_delay delay now) in
            let shape : schedule task_type initial_delay delay now e
                ≡ (set_task id t (record e { task_count = id }), accepted id) =
              rw (k, f) in
            added id k n refl (rw (k, f)) (rw (shape, update_self e.tasks id t) refl)
              (rw (shape, update_self e.tasks id t) refl)
              (λ j h. rw (shape, update_other e.tasks id j t h)) (rw shape refl)
      ]
]
