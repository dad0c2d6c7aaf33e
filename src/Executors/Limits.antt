-- ===== src/Executors/Limits.antt =====
-- How many tasks run.
use go_fw.Prelude.{
  ℕ, suc, ◌+◌, ◌-◌, ◌≤◌, ◌≡◌, refl, ◌⊎◌, inl, inr, Bool, true, false, Option, none, some, List, [],
  ◌∷◌, arith, length, Whenever,
}
use go_fw.Prelude.Int.{pos, ◌≤ℤ◌, ◌<ℤ◌}
use go_fw.Executors.Task.{Task}
use go_fw.Executors.TaskList.{has}
use go_fw.Executors.Default.{Executor, can_start_new_task}
use go_fw.Executors.Events.{
  Event, completed, update_concurrency, update_queue_capacity, context_done, timer_fired, submitted,
  task_canceled, cancel_requested, cancel_now_requested, handle, drop_one, on_update_concurrency,
  on_cancel,
}
use go_fw.Executors.Closed.{IsClosed, Ends}
use go_fw.Executors.Closed.Rounds.{
  Needs, handle-closed, on_completed-closed, on_update_concurrency-closed,
}

-- The limit is off, or is met.
abbrev pub IsBounded : Executor → Type 0
IsBounded e = (e.concurrency <ℤ pos 0) ⊎ (pos e.running_count ≤ℤ e.concurrency)

-- The counter is the number of task goroutines, and grew beyond `n` only within the limit.
pub record IsLimited (n : ℕ) (e : Executor) : Type 0 where
  pub counted : e.running_count ≡ length e.goroutines
  pub bounded : (e.running_count ≤ n) ⊎ IsBounded e

room :
    (e : Executor)
    → can_start_new_task e ≡ true
    → (e.concurrency <ℤ pos 0) ⊎ (pos (e.running_count + 1) ≤ℤ e.concurrency)
unfolding can_start_new_task
room e h = ground arith

IsLimited-closed : (n : ℕ) → IsClosed (IsLimited n) (IsLimited n)
IsLimited-closed n = record {
  timer = λ e t d p. record { counted = p.counted; bounded = p.bounded };
  queue = λ e l p. record { counted = p.counted; bounded = p.bounded };
  scheduled = λ e h s a p. record { counted = p.counted; bounded = p.bounded };
  tasks = λ e f p. record { counted = p.counted; bounded = p.bounded };
  start = λ e f id k p. record { counted = omega (arith, p.counted); bounded = inr (room e k) };
  shut = λ e k p. record { counted = p.counted; bounded = p.bounded };
  cancels = λ e k p. record { counted = p.counted; bounded = p.bounded };
  collect = λ e k p. record { counted = p.counted; bounded = p.bounded };
  ended = λ e k q r p. record { counted = p.counted; bounded = p.bounded };
}

length-drop_one : (id : ℕ) (l : List ℕ) → has l id ≡ true → suc (length (drop_one id l)) ≡ length l
length-drop_one id [] h = cc
length-drop_one id (j ∷ r) h = ground (arith, length-drop_one id r)

at_start : (e : Executor) → e.running_count ≡ length e.goroutines → IsLimited e.running_count e
at_start e h = record { counted = h; bounded = inl (omega arith) }

-- A completed event is that of a task goroutine.
abbrev pub IsPossible : Event → Executor → Type 0
IsPossible (completed now id) e = has e.goroutines id ≡ true
IsPossible _ e = Unit

-- The number of tasks that run once the event is taken in.
abbrev pub running_before : Event → Executor → ℕ
running_before (completed now id) e = e.running_count - 1
running_before _ e = e.running_count

limits_of_Ends :
    (n : ℕ) (r : Option (Executor × Bool))
    → Whenever (Ends (IsLimited n) (IsLimited n)) r
    → Whenever (λ r. IsLimited n r.0) r
limits_of_Ends n none h = tt
limits_of_Ends n (some (e, true)) h = h
limits_of_Ends n (some (e, false)) h = h

-- In each event the counter of running tasks stays the number of the task goroutines, and if more
-- tasks run after the event than were left running by it, then within the limit on concurrency: so
-- too if the limit was lowered below the number of tasks that run.
pub handle_limits :
    (ev : Event) (e : Executor)
    → e.running_count ≡ length e.goroutines
    → IsPossible ev e
    → Whenever (λ r. IsLimited (running_before ev e) r.0) (handle ev e)
unfolding handle
handle_limits (completed now id) e counted possible = limits_of_Ends _ _ (
    on_completed-closed _ _ (IsLimited-closed _) now id e (record {
      counted = omega (arith, length-drop_one id e.goroutines possible);
      bounded = inl (omega arith);
    }))
handle_limits (update_concurrency limit now) e counted possible =
    limits_of_Ends _ (some (on_update_concurrency limit now e)) (
      on_update_concurrency-closed _ _ (IsLimited-closed _) limit now e
        (record { counted = counted; bounded = inl (omega arith) }))
handle_limits (update_queue_capacity limit) e counted possible =
    limits_of_Ends _ (handle (update_queue_capacity limit) e) (
      handle-closed _ _ (IsLimited-closed _) (update_queue_capacity limit) e (at_start e counted)
        (record { counted = counted; bounded = inl (omega arith) }))
handle_limits context_done e counted possible = at_start e counted
handle_limits (timer_fired now) e counted possible =
    limits_of_Ends _ _
      (handle-closed _ _ (IsLimited-closed _) (timer_fired now) e (at_start e counted) tt)
handle_limits (submitted now id) e counted possible =
    limits_of_Ends _ _
      (handle-closed _ _ (IsLimited-closed _) (submitted now id) e (at_start e counted) tt)
handle_limits (task_canceled id) e counted possible =
    limits_of_Ends _ _
      (handle-closed _ _ (IsLimited-closed _) (task_canceled id) e (at_start e counted) tt)
handle_limits (cancel_requested now) e counted possible =
    limits_of_Ends _ (some (on_cancel now e).0)
      (handle-closed _ _ (IsLimited-closed _) (cancel_requested now) e (at_start e counted) tt)
handle_limits (cancel_now_requested now) e counted possible =
    limits_of_Ends _ _
      (handle-closed _ _ (IsLimited-closed _) (cancel_now_requested now) e (at_start e counted) tt)

abbrev pub is_update : Event → Bool
is_update (update_concurrency limit now) = true
is_update _ = false

-- A step of the program: a round of the loop, or a caller or a task goroutine that changes tasks.
pub data Step (e : Executor) : Executor → Type 0 where
  loop :
      {e' : Executor} (ev : Event) (continues : Bool)
      → is_update ev ≡ false
      → IsPossible ev e
      → handle ev e ≡ some (e', continues)
      → Step e e'
  outside : (f : ℕ → Task) (n : ℕ) → Step e (record e { tasks = f; task_count = n })

pub data Reach (e : Executor) : Executor → Type 0 where
  here : Reach e e
  next : {f g : Executor} → Reach e f → Step f g → Reach e g

-- The limit on concurrency is kept by every event that does not change it.
abbrev SameLimit : Executor → Executor → Type 0
SameLimit e f = f.concurrency ≡ e.concurrency

SameLimit-closed : (e : Executor) → IsClosed (SameLimit e) (SameLimit e)
SameLimit-closed e = record {
  timer = λ f t d p. p;
  queue = λ f l p. p;
  scheduled = λ f h s a p. p;
  tasks = λ f g p. p;
  start = λ f g id k p. p;
  shut = λ f k p. p;
  cancels = λ f k p. p;
  collect = λ f k p. p;
  ended = λ f k q r p. p;
}

limit-Needs :
    (ev : Event) (e : Executor)
    → is_update ev ≡ false
    → Needs (SameLimit e) (SameLimit e) (SameLimit-closed e) ev e
limit-Needs (update_concurrency limit now) e h = cc
limit-Needs (completed now id) e h = refl
limit-Needs (update_queue_capacity limit) e h = refl
limit-Needs context_done e h = tt
limit-Needs _ e h = tt

handle-SameLimit :
    {e' : Executor} (ev : Event) (e : Executor) (b : Bool)
    → is_update ev ≡ false
    → handle ev e ≡ some (e', b)
    → e'.concurrency ≡ e.concurrency
handle-SameLimit {e'} ev e b h q = same_of_ends b (
    rw q at (
      handle-closed (SameLimit e) (SameLimit e) (SameLimit-closed e) ev e refl
        (limit-Needs ev e h)))
  where
    same_of_ends : (b : Bool) → Ends (SameLimit e) (SameLimit e) (e', b) → SameLimit e e'
    same_of_ends true h = h
    same_of_ends false h = h

running_before-le : (ev : Event) (e : Executor) → running_before ev e ≤ e.running_count
running_before-le (completed now id) e = omega arith
running_before-le _ e = omega arith

-- The invariant of the executor while nobody changes the limit.
pub record IsWithin (e : Executor) : Type 0 where
  pub counted : e.running_count ≡ length e.goroutines
  pub bounded : IsBounded e

Step-IsWithin : {e f : Executor} → Step e f → IsWithin e → IsWithin f
Step-IsWithin {e} (loop {e' = f} ev b h possible q) w =
    let limited : IsLimited (running_before ev e) f =
      rw q at (handle_limits ev e w.counted possible) in
    let same = handle-SameLimit ev e b h q in
    let before = running_before-le ev e in
    let bounded = w.bounded in
    let after = limited.bounded in record { counted = limited.counted; bounded = ground arith }
Step-IsWithin (outside f n) w = record { counted = w.counted; bounded = w.bounded }

-- From an executor within its limit, no course of events, submissions and task completions brings
-- more tasks to run at once than the limit allows, as long as nobody changes the limit; and the
-- counter is the number of task goroutines throughout.
pub Reach-IsWithin : {e f : Executor} → IsWithin e → Reach e f → IsWithin f
Reach-IsWithin w here = w
Reach-IsWithin w (next r s) = Step-IsWithin s (Reach-IsWithin w r)
