-- ===== src/Sync.antt =====
-- sync/map.go: `LoadOrStoreFunc` of many goroutines over one map, a step for each access to what they
-- share. Keys and values are numbers, and Go's sync.Map is a function.
pub mod Moves
pub mod Once
pub mod Tests
use go_fw.Prelude.{ℕ, suc, ◌≡◌, Option, none, some, update}

-- The map, the goroutine that has the mutex, and how often the generator has returned for each key.
pub record Shared : Type 0 where
  pub entries : ℕ → Option ℕ
  pub owner : Option ℕ
  pub returned : ℕ → ℕ

-- How far a call is: before its first load, at the mutex, before its second load, before it calls the
-- generator, before it stores the value, and after it returned or the generator panicked.
pub data Phase : Type 0 where
  idle : Phase
  called waiting checking generating crashed : ℕ → Phase
  storing returning : ℕ → ℕ → Phase

abbrev pub release : Shared → Shared
release s = record s { owner = none }

abbrev pub first_load : ℕ → Shared → Option ℕ → Shared × Phase
first_load k s none = (s, waiting k)
first_load k s (some v) = (s, returning k v)

-- A goroutine waits while the mutex is taken.
abbrev pub acquire : ℕ → ℕ → Shared → Option ℕ → Option (Shared × Phase)
acquire i k s none = some (record s { owner = some i }, checking k)
acquire i k s (some j) = none

abbrev pub second_load : ℕ → Shared → Option ℕ → Shared × Phase
second_load k s none = (s, generating k)
second_load k s (some v) = (release s, returning k v)

-- The generator returns a value, or panics, on which the deferred unlock runs.
abbrev pub generate : ℕ → Shared → Option ℕ → Shared × Phase
generate k s none = (release s, crashed k)
generate k s (some v) =
    (record s { returned = update s.returned k (suc (s.returned k)) }, storing k v)

abbrev pub store : ℕ → ℕ → Shared → Shared
store k v s = record s { entries = update s.entries k (some v) }

-- The next step of the call of goroutine `i`, where `made` is what the generator would do. `none` says
-- that there is none.
unfoldable pub load_or_store_func : ℕ → Option ℕ → Shared → Phase → Option (Shared × Phase)
load_or_store_func i made s idle = none
load_or_store_func i made s (called k) = some (first_load k s (s.entries k))
load_or_store_func i made s (waiting k) = acquire i k s s.owner
load_or_store_func i made s (checking k) = some (second_load k s (s.entries k))
load_or_store_func i made s (generating k) = some (generate k s made)
load_or_store_func i made s (storing k v) = some (release (store k v s), returning k v)
load_or_store_func i made s (crashed k) = none
load_or_store_func i made s (returning k v) = none

-- What the goroutines share, and the phase of each.
pub record World : Type 0 where
  pub shared : Shared
  pub phase : ℕ → Phase

abbrev pub put : ℕ → Shared × Phase → World → World
put i (s, p) w = record w { shared = s; phase = update w.phase i p }

-- A goroutine that is idle calls, or one that has called does its next step.
pub data Step (w : World) : World → Type 0 where
  calls : (i k : ℕ) → w.phase i ≡ idle → Step w (put i (w.shared, called k) w)
  advances :
      (i : ℕ) (made : Option ℕ) (r : Shared × Phase)
      → load_or_store_func i made w.shared (w.phase i) ≡ some r
      → Step w (put i r w)

pub data Reach (w : World) : World → Type 0 where
  here : Reach w w
  next : {v u : World} → Reach w v → Step v u → Reach w u

-- No call has begun; the map may have entries.
abbrev pub fresh : (ℕ → Option ℕ) → World
fresh entries = record {
  shared = record { entries = entries; owner = none; returned = λ k. 0 };
  phase = λ i. idle;
}
