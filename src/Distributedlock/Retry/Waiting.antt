-- ===== src/Distributedlock/Retry/Waiting.antt =====
-- Waiting for a lock, of any kind whose `TryLock` takes the resource if it is free.
use go_fw.Prelude.{
  ℕ, suc, ◌+◌, ◌*◌, ◌/◌, ◌<◌, ◌≤◌, ◌≡◌, ◌⊎◌, ◌==◌, refl, inl, inr, subst, true, false, none, List,
  [], ◌∷◌, arith, length,
}
use go_fw.Distributedlock.{BaseLock}
use go_fw.Distributedlock.Retry.{Kind, returned, jitter, Pause, lock}

-- Durations in the units of the kind's instants, which are at most as fine as nanoseconds; the calls
-- that nothing hinders; whether a resource is free at an instant, and what it is for a lock to have
-- taken its own. A call takes a resource that is free, and else changes nothing.
pub record Waits (k : Kind) : Type 1 where
  pub span : ℕ → ℕ
  pub Fine : k.Fault → Type 0
  pub IsFree : ℕ → ℕ → k.Shared → Type 0
  pub IsTaken : ℕ → BaseLock → k.Shared → BaseLock → Type 0
  pub spans : (d random : ℕ) → span d ≤ span (d + random)
  pub spans_part : (ttl : ℕ) → 0 < span (ttl / 10) → (0 < span ttl) × (0 < ttl / 10)
  pub tries :
      (f : k.Fault) (at : ℕ) (s : k.Shared) (l : BaseLock)
      → Fine f
      → 0 < span l.ttl
      → let r = k.try_lock f at s l in
        ((r.1 ≡ (true, none)) × IsTaken at l r.0.0 r.0.1)
        ⊎ ((r ≡ ((s, l), (false, none))) × (¬ IsFree at l.resource s))

-- A round takes the time from what is left.
rounds_lem :
    (at next until n tenth slept : ℕ)
    → tenth ≤ slept
    → at + slept ≤ next
    → until ≤ at + suc n * tenth
    → until ≤ next + n * tenth
rounds_lem at next until n tenth slept longer later enough =
    let e : suc n * tenth ≡ tenth + n * tenth = omega arith in
    omega (arith, longer, later, subst (λ x. until ≤ at + x) e enough)

module _ (k : Kind) (w : Waits k) where
  open k use {Shared, Fault}
  open w use {span, Fine, IsFree, IsTaken, spans, spans_part, tries}

  -- Nothing hinders a call, no sleep is cut short or ends too early, and nobody else takes the
  -- resource.
  abbrev pub AreQuiet : ℕ → BaseLock → List (Pause k) → Type 0
  AreQuiet at l [] = Unit
  AreQuiet at l (p ∷ ps) =
      Fine p.fault
      × (p.cut_short ≡ none)
      × ((t : ℕ) (s : Shared) → IsFree t l.resource s → IsFree t l.resource (p.others s))
      × (at + span (jitter l.ttl p.random) ≤ p.next)
      × AreQuiet p.next l ps

  -- The resource is free from the instant `until` on.
  abbrev pub IsFreeBy : ℕ → BaseLock → Shared → Type 0
  IsFreeBy until l s = (t : ℕ) → until ≤ t → IsFree t l.resource s

  -- What `Lock` comes to.
  abbrev pub Locks : ℕ → BaseLock → List (Pause k) → Fault → Shared → Type 0
  Locks at l pauses fault s =
      let r = lock k pauses fault at s l in
      (r.1 ≡ returned none) × ((t : ℕ) × (at ≤ t) × IsTaken t l r.0.0 r.0.1)

  pub lock-Locks :
      (at until : ℕ) (pauses : List (Pause k)) (fault : Fault) (s : Shared) (l : BaseLock)
      → 0 < span (l.ttl / 10)
      → Fine fault
      → AreQuiet at l pauses
      → IsFreeBy until l s
      → until ≤ at + length pauses * span (l.ttl / 10)
      → Locks at l pauses fault s
  unfolding lock
  lock-Locks at until [] fault s l p fine quiet free enough =
      elim (tries fault at s l fine (spans_part l.ttl p).0) [
        | inl (a, taken) ↦ rw a (refl, (at, omega arith, taken))
        | inr (same, busy) ↦ absurd (busy (free at (omega (arith, enough))))
      ]
  lock-Locks at until (q ∷ qs) fault s l p fine (fine', uncut, kept, later, quiet) free enough =
      let (long, some_tenth) = spans_part l.ttl p in
      let tenth : (l.ttl / 10 == 0) ≡ false = ground (arith, some_tenth) in
      elim (tries fault at s l fine long) [
        | inl (a, taken) ↦ rw a (refl, (at, omega arith, taken))
        | inr (same, busy) ↦
            let left =
              rounds_lem at q.next until (length qs) (span (l.ttl / 10))
                (span (jitter l.ttl q.random)) (spans (l.ttl / 10) q.random) later enough in
            let (done, (t, le, taken)) =
              lock-Locks q.next until qs q.fault (q.others s) l p fine' quiet
                (λ t u. kept t s (free t u)) left in
            rw (same, tenth, uncut) (done, (t, omega (arith, le, later), taken))
      ]
