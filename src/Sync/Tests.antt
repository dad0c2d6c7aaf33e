-- ===== src/Sync/Tests.antt =====
-- Two goroutines that ask for one key.
use go_fw.Prelude.{ℕ, ◌≤◌, ◌≡◌, refl, Option, none, some}
use go_fw.Sync.{
  Shared, Phase, World, calls, advances, Reach, here, next, fresh, load_or_store_func, put,
  returning, called, Phase,
}
use go_fw.Sync.Once.{Reach-once}

abbrev no_entries : ℕ → Option ℕ
no_entries k = none

-- Goroutine `i` does its next step, with a generator that makes 9.
abbrev after : Option (Shared × Phase) → ℕ → World → World
after none i w = w
after (some r) i w = put i r w

abbrev moved : ℕ → World → World
unfolding load_or_store_func
moved i w = after (load_or_store_func i (some 9) w.shared (w.phase i)) i w

abbrev asked : World
asked =
    put 1 ((fresh no_entries).shared, called 5)
      (put 0 ((fresh no_entries).shared, called 5) (fresh no_entries))

abbrev ended : World
ended = moved 1 (moved 1 (moved 0 (moved 0 (moved 0 (moved 0 (moved 1 (moved 0 asked)))))))

ended-Reach : Reach (fresh no_entries) ended
unfolding load_or_store_func
ended-Reach =
    let step0 : Reach (fresh no_entries) asked =
      next (next here (calls 0 5 refl)) (calls 1 5 refl) in
    next
      (next
        (next
          (next
            (next
              (next (next (next step0 (advances 0 (some 9) _ refl)) (advances 1 (some 9) _ refl))
                (advances 0 (some 9) _ refl))
              (advances 0 (some 9) _ refl))
            (advances 0 (some 9) _ refl))
          (advances 0 (some 9) _ refl))
        (advances 1 (some 9) _ refl))
      (advances 1 (some 9) _ refl)

Reach-once_example :
    ((k : ℕ) → ended.shared.returned k ≤ 1)
    × ((i j k u v : ℕ) → ended.phase i ≡ returning k u → ended.phase j ≡ returning k v → u ≡ v)
Reach-once_example = Reach-once no_entries ended ended-Reach

ended_twice : (ended.phase 0 ≡ returning 5 9) × (ended.phase 1 ≡ returning 5 9)
unfolding moved
ended_twice = (refl, refl)
