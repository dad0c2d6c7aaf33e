-- ===== src/Functional/Laws.antt =====
-- What the functions on slices compute.
use go_fw.Prelude.{
  ℕ, zero, suc, ◌+◌, ◌-◌, ◌≡◌, refl, subst, ap, ◌++◌, if◌then◌else◌, Bool, true, false, Option,
  none, some, List, [], ◌∷◌, length, get_elem?, arith, Whenever,
}
use mathlib.Core.Option
use go_fw.Prelude.Int.{ℤ, pos, negsuc}
use go_fw.Functional.{
  ok, cons_ok, map_from, map_i, map_result_from, map_ie, flat_map_from, flat_map_i,
  flat_map_result_from, flat_map_ie, find_map_i, find_last_from, find_last_map_i,
}

module _ {A B : Type 0} where
  map_from_lem :
      (f : ℕ → A → B) (i j : ℕ) (s : List A)
      → get_elem? (map_from f i s) j ≡ Option.map (f (i + j)) (get_elem? s j)
  map_from_lem f i j [] = refl
  map_from_lem f i zero (x ∷ xs) = let e : i + 0 ≡ i = omega arith in rw e
  map_from_lem f i (suc j) (x ∷ xs) =
      let e : suc i + j ≡ i + suc j = omega arith in rw (← e) (map_from_lem f (suc i) j xs)

  -- At each index, `MapI` has the callback's result on that index and the element there, and nothing
  -- where the slice has nothing.
  pub map_i_correct :
      (s : List A) (f : ℕ → A → B) (j : ℕ)
      → get_elem? (map_i s f) j ≡ Option.map (f j) (get_elem? s j)
  unfolding map_i
  map_i_correct s f j =
      subst (λ n. get_elem? (map_from f 0 s) j ≡ Option.map (f n) (get_elem? s j))
        (let e : 0 + j ≡ j = omega arith in e) (map_from_lem f 0 j s)

  -- The callback finds no element at an index from 1 on.
  abbrev pub IsMissedAfterFirst : (ℕ → A → B × Bool) → List A → Type 0
  IsMissedAfterFirst f s = (k : ℕ) → Whenever (λ x. (f (suc k) x).1 ≡ false) (get_elem? s (suc k))

  passed :
      (z : B) (i : ℕ) (o : Option A) (f : ℕ → A → B × Bool) (r : B × ℤ)
      → Whenever (λ x. (f (suc i) x).1 ≡ false) o
      → r ≡ (z, negsuc 0)
      → elim o [
        | none ↦ r
        | some x ↦ let (v, found) = f (suc i) x in if found then (v, pos (suc i)) else r
      ]
        ≡ (z, negsuc 0)
  passed z i none f r missed e = e
  passed z i (some x) f r missed e = rw missed e

  last_from_missed :
      (f : ℕ → A → B × Bool) (z : B) (s : List A) (i : ℕ)
      → IsMissedAfterFirst f s
      → find_last_from f z s i ≡ (z, negsuc 0)
  last_from_missed f z s zero missed = refl
  last_from_missed f z s (suc i) missed =
      passed z i (get_elem? s (suc i)) f _ (missed i) (last_from_missed f z s i missed)

  -- If the callback finds the first element and none of the others, `FindLastMapI` returns the zero
  -- value and -1, while `FindMapI` returns what it found at 0.
  pub find_last_skips_first :
      (f : ℕ → A → B × Bool) (z : B) (x : A) (xs : List A)
      → (f 0 x).1 ≡ true
      → IsMissedAfterFirst f (x ∷ xs)
      → (find_last_map_i z (x ∷ xs) f ≡ (z, negsuc 0))
        × (find_map_i z (x ∷ xs) f ≡ ((f 0 x).0, pos 0))
  unfolding find_last_map_i find_map_i
  find_last_skips_first f z x xs found missed =
      (last_from_missed f z (x ∷ xs) (length (x ∷ xs) - 1) missed, rw found refl)

  map_result_lem :
      (f : ℕ → A → B) (i : ℕ) (s : List A)
      → map_result_from (λ j x. ok (f j x)) i s ≡ ok (map_from f i s)
  map_result_lem f i [] = refl
  map_result_lem f i (x ∷ xs) = ap (cons_ok (f i x)) (map_result_lem f (suc i) xs)

  flat_map_result_lem :
      (f : ℕ → A → List B) (i : ℕ) (s : List A) (mapped : List B)
      → flat_map_result_from (λ j x. ok (f j x)) i s mapped ≡ ok (flat_map_from f i s mapped)
  flat_map_result_lem f i [] mapped = refl
  flat_map_result_lem f i (x ∷ xs) mapped = flat_map_result_lem f (suc i) xs (mapped ++ f i x)

  -- With callbacks that never fail, `MapIE` and `FlatMapIE` return what `MapI` and `FlatMapI` do, with
  -- no error.
  pub results-ok :
      (f : ℕ → A → B) (g : ℕ → A → List B) (s : List A)
      → (map_ie s (λ i x. ok (f i x)) ≡ ok (map_i s f))
        × (flat_map_ie s (λ i x. ok (g i x)) ≡ ok (flat_map_i s g))
  unfolding map_ie map_i flat_map_ie flat_map_i
  results-ok f g s = (map_result_lem f 0 s, flat_map_result_lem g 0 s [])
