-- ===== src/Executors/CancelNow.antt =====
-- What `CancelNow` collects, and what it leaves.
use mathlib.Core.Logic.Or
use mathlib.Core.List.{Mem, Pairwise, mem-cons, mem-cons_of_mem, not-mem-nil}
use mathlib.Core.List.Perm
use go_fw.Prelude.{
  ℕ, zero, suc, ◌<◌, ◌≡◌, refl, ap, Bool, Bool-cases, inl, inr, true, false, Option, none, some,
  List, [], ◌∷◌, ◌++◌, map, Perm, arith, ◌==◌, ==_iff, ltb, leb, get_elem?, length, length-perm,
  Returns,
}
use go_fw.Prelude.Int.{ℤ}
use go_fw.Queue.{Element, Heap, before, len}
use go_fw.Queue.Cut.{IsValid}
use go_fw.Queue.Taking.{Taken}
use go_fw.Queue.Laws.{pop_correct}
use go_fw.Executors.TaskList.{task_ids, init}
use go_fw.Executors.Default.{
  Executor, rank, is_canceled, run_front, queue_length, shut_to_waiting, end_if_idle,
  try_run_next_task,
}
use go_fw.Executors.Events.{pop_all, on_cancel_now, ◌>>=◌}
use go_fw.Executors.Shutdown.{idle_ends}
use go_fw.Executors.Steps.{try_next_cases}

abbrev pub values : List (Element ℕ) → List ℕ
values = map (λ x. x.value)

-- No element of the list is before an earlier one.
abbrev pub IsOrdered : List (Element ℕ) → Type 0
IsOrdered = Pairwise (λ x y. before y x ≡ false)

Bool_prop : (x : Bool) → IsProp (x ≡ false)
Bool_prop x = hlevel

not_before :
    (l : List (Element ℕ)) (e : Element ℕ)
    → ((i : ℕ) (x : Element ℕ) → get_elem? l i ≡ some x → before x e ≡ false)
    → (x : Element ℕ) → Mem x l
    → before x e ≡ false
not_before [] e h x m = absurd (not-mem-nil m)
not_before (y ∷ l) e h x m =
    Or.elim (Bool_prop (before x e)) (mem-cons.0 m) (λ q. rw q (h 0 y refl))
      (λ m'. not_before l e (λ i z. h (suc i) z) x m')

-- The elements that were popped, in their order.
abbrev Popped : Heap ℕ → List ℕ × Heap ℕ → Type 0
Popped h (ids, g) =
    (length g.elements ≡ 0)
    × ((es : List (Element ℕ)) × (ids ≡ values es) × Perm es h.elements × IsOrdered es)

perm_empty : (l : List (Element ℕ)) → length l ≡ 0 → Perm [] l
perm_empty [] z = Perm.nil
perm_empty (x ∷ l) z = absurd (omega arith)

Popped-cons :
    {h g : Heap ℕ} {e : Element ℕ}
    → Taken h e g
    → ((i : ℕ) (x : Element ℕ) → get_elem? h.elements i ≡ some x → before x e ≡ false)
    → (r : Option (List ℕ × Heap ℕ)) → Returns (Popped g) r
    → Returns (Popped h) (r >>= λ (ids, g'). some (e.value ∷ ids, g'))
Popped-cons t least none p = p
Popped-cons {h = h} {e = e} t least (some (ids, g')) (z, (es, q, same, ordered)) =
    let same' = Perm.trans (Perm.cons e same) t.same in
    (
      z,
      (
        e ∷ es,
        ap (◌∷◌ e.value) q,
        same',
        Pairwise.cons
            (λ x m. not_before h.elements e least x ((Perm.mem_iff same').0 (mem-cons_of_mem e m)))
            ordered,
      ),
    )

pop_all_correct :
    (fuel : ℕ) (h : Heap ℕ)
    → IsValid h
    → length h.elements < fuel
    → Returns (Popped h) (pop_all fuel h)
unfolding pop_all len
pop_all_correct zero h v p = absurd (omega arith)
pop_all_correct (suc fuel) h v p = elim (Bool-cases (length h.elements == 0)) [
  | inl z ↦
      rw z ((==_iff _ 0).0 z, ([], refl, perm_empty h.elements ((==_iff _ 0).0 z), Pairwise.nil))
  | inr z ↦
      let (e, g, popped, first, taken, least) = pop_correct h v (ground arith) in
      let fewer : length g.elements < fuel = omega (arith, length-perm taken.same) in
      rw (z, popped)
        (Popped-cons taken least (pop_all fuel g) (pop_all_correct fuel g taken.valid fewer))
]

-- What is left after the tasks were collected.
pub record Emptied (e f : Executor) : Type 0 where
  pub empty : queue_length f ≡ 0
  pub tasks : f.tasks ≡ e.tasks
  pub running : f.running_count ≡ e.running_count
  pub goroutines : f.goroutines ≡ e.goroutines

front_kept :
    {e : Executor} (now : ℤ) (f : Executor)
    → Emptied e f
    → (l : List (ℕ × ℕ)) → l ≡ []
    → Emptied e (run_front now l f)
front_kept now f m [] q = m
front_kept now f m (x ∷ l) q = cc

run_empty :
    (now : ℤ) (e f : Executor)
    → Emptied e f
    → f.queue.items ≡ []
    → Emptied e (try_run_next_task now f).0
run_empty now e f m q =
    try_next_cases (λ r. Emptied e r.0) now f (λ _. m) (λ t z k. idle_kept)
      (λ t k. front_kept now f m f.queue.items q)
  where
    idle_kept : Emptied e (end_if_idle f).0
    idle_kept = elim (Bool-cases (ltb 0 f.running_count)) [
      | inl b ↦ rw b (record {
        empty = m.empty;
        tasks = m.tasks;
        running = m.running;
        goroutines = m.goroutines;
      })
      | inr b ↦ rw b (record {
        empty = m.empty;
        tasks = m.tasks;
        running = m.running;
        goroutines = m.goroutines;
      })
    ]

abbrev pub Collected : Executor → (Executor × Bool) × Option (List ℕ) → Type 0
Collected e (r, reply) =
    ((es : List (Element ℕ)) × (reply ≡ some (task_ids e.queue ++ values es))
      × Perm es e.scheduled_queue.elements
      × IsOrdered es)
    × Emptied e r.0
    × (is_canceled e ≡ true → e.running_count ≡ 0 → r.1 ≡ false)

collect :
    (now : ℤ) (e : Executor)
    → leb 2 (rank e.status) ≡ false
    → (r : Option (List ℕ × Heap ℕ)) → Returns (Popped e.scheduled_queue) r
    → Returns (Collected e) (
        r >>= λ (ids, h). some (
          try_run_next_task now (record e {
            queue = init e.queue;
            scheduled_queue = h;
            status = shut_to_waiting e.status;
          }),
          some (task_ids e.queue ++ ids),
        ))
unfolding init len
collect now e b none p = p
collect now e b (some (ids, h)) (z, (es, q, same, ordered)) =
    let f : Executor = record e {
      queue = init e.queue;
      scheduled_queue = h;
      status = shut_to_waiting e.status;
    } in
    let z' : queue_length f ≡ 0 = omega (arith, z) in
    (
      (es, rw q refl, same, ordered),
      run_empty now e f (record { empty = z'; tasks = refl; running = refl; goroutines = refl })
          refl,
      λ k r. ap (λ (x : Executor × Bool). x.1) (idle_ends now f (ground arith) (ground arith) z' r),
    )

-- What the event loop, if it still runs, does with the event that `CancelNow` sends after that of
-- `Cancel`. While the executor runs or shuts down, it replies with the tasks that are ready, in their
-- order, and then all the scheduled tasks, the earliest first. Both queues are left empty, and the
-- loop of a canceled executor returns if no task runs. No task changes: those that run are not
-- cancelled. Later, there is no reply and nothing changes.
pub on_cancel_now_correct :
    (now : ℤ) (e : Executor)
    → IsValid e.scheduled_queue
    → (leb 2 (rank e.status) ≡ false → Returns (Collected e) (on_cancel_now now e))
      × (leb 2 (rank e.status) ≡ true → on_cancel_now now e ≡ some ((e, true), none))
unfolding on_cancel_now len
on_cancel_now_correct now e v =
    (λ b. rw b (collect now e b _ (pop_all_correct _ _ v (omega arith))), λ b. rw b)
