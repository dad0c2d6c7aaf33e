-- ===== src/Functional.antt =====
-- functional/slices/slices.go. A Go slice is a list, the index of an element a natural number. The
-- loops that append keep what they have so far; a loop that fills its result by index is written as
-- the list that it fills. A callback is a function of the index and the element.
pub mod Laws
use go_fw.Prelude.{
  ℕ, zero, suc, ◌-◌, Bool, false, true, List, [], ◌∷◌, ◌++◌, length, get_elem?, Option, none, some,
  ltb, if◌then◌else◌,
}
use go_fw.Prelude.Int.{ℤ, pos, negsuc}

-- A value with an error: what a callback or a function that can fail returns.
pub data Result (A : Type 0) : Type 0 where
  ok : A → Result A
  error : ℕ → Result A

abbrev pub cons_ok : {B : Type 0} → B → Result (List B) → Result (List B)
cons_ok y (ok ys) = ok (y ∷ ys)
cons_ok y (error e) = error e

module _ {A : Type 0} where
  abbrev pub filter_from : (ℕ → A → Bool) → ℕ → List A → List A → List A
  filter_from p i [] filtered = filtered
  filter_from p i (x ∷ xs) filtered =
      filter_from p (suc i) xs (if p i x then filtered ++ (x ∷ []) else filtered)

  unfoldable pub filter_i : List A → (ℕ → A → Bool) → List A
  filter_i s p = filter_from p 0 s []

  unfoldable pub filter : List A → (A → Bool) → List A
  unfolding filter_i
  filter s p = filter_i s (λ i x. p x)

module _ {A B : Type 0} where
  abbrev pub map_from : (ℕ → A → B) → ℕ → List A → List B
  map_from f i [] = []
  map_from f i (x ∷ xs) = f i x ∷ map_from f (suc i) xs

  unfoldable pub map_i : List A → (ℕ → A → B) → List B
  map_i s f = map_from f 0 s

  -- `MapIE` stops at the first error.
  abbrev pub map_result_from : (ℕ → A → Result B) → ℕ → List A → Result (List B)
  map_result_from f i [] = ok []
  map_result_from f i (x ∷ xs) = elim (f i x) [
    | ok y ↦ cons_ok y (map_result_from f (suc i) xs)
    | error e ↦ error e
  ]

  unfoldable pub map_ie : List A → (ℕ → A → Result B) → Result (List B)
  map_ie s f = map_result_from f 0 s

  abbrev pub flat_map_from : (ℕ → A → List B) → ℕ → List A → List B → List B
  flat_map_from f i [] mapped = mapped
  flat_map_from f i (x ∷ xs) mapped = flat_map_from f (suc i) xs (mapped ++ f i x)

  unfoldable pub flat_map_i : List A → (ℕ → A → List B) → List B
  flat_map_i s f = flat_map_from f 0 s []

  abbrev pub find_from : (ℕ → A → B × Bool) → B → ℕ → List A → B × ℤ
  find_from f zero_value i [] = (zero_value, negsuc 0)
  find_from f zero_value i (x ∷ xs) =
      let rest = find_from f zero_value (suc i) xs in
      let (v, found) = f i x in if found then (v, pos i) else rest

  -- The value of type R that the source names `zero` is an argument, and the index -1 `negsuc 0`.
  unfoldable pub find_map_i : B → List A → (ℕ → A → B × Bool) → B × ℤ
  find_map_i zero_value s f = find_from f zero_value 0 s

  -- The loop of `FindLastMapI`, from the index `i` down, while it is above 0.
  abbrev pub find_last_from : (ℕ → A → B × Bool) → B → List A → ℕ → B × ℤ
  find_last_from f zero_value s zero = (zero_value, negsuc 0)
  find_last_from f zero_value s (suc i) =
      let rest = find_last_from f zero_value s i in
      elim (get_elem? s (suc i)) [
        | none ↦ rest
        | some x ↦ let (v, found) = f (suc i) x in if found then (v, pos (suc i)) else rest
      ]

  unfoldable pub find_last_map_i : B → List A → (ℕ → A → B × Bool) → B × ℤ
  find_last_map_i zero_value s f = find_last_from f zero_value s (length s - 1)

  unfoldable pub map : List A → (A → B) → List B
  unfolding map_i
  map s f = map_i s (λ i x. f x)

  unfoldable pub flat_map : List A → (A → List B) → List B
  unfolding flat_map_i
  flat_map s f = flat_map_i s (λ i x. f x)

  unfoldable pub find_map : B → List A → (A → B × Bool) → B × ℤ
  unfolding find_map_i
  find_map zero_value s f = find_map_i zero_value s (λ i x. f x)

  unfoldable pub find_last_map : B → List A → (A → B × Bool) → B × ℤ
  unfolding find_last_map_i
  find_last_map zero_value s f = find_last_map_i zero_value s (λ i x. f x)

  -- `FlatMapIE` stops at the first error.
  abbrev pub flat_map_result_from :
      (ℕ → A → Result (List B)) → ℕ → List A → List B → Result (List B)
  flat_map_result_from f i [] mapped = ok mapped
  flat_map_result_from f i (x ∷ xs) mapped = elim (f i x) [
    | ok ys ↦ flat_map_result_from f (suc i) xs (mapped ++ ys)
    | error e ↦ error e
  ]

  unfoldable pub flat_map_ie : List A → (ℕ → A → Result (List B)) → Result (List B)
  flat_map_ie s f = flat_map_result_from f 0 s []

  -- With an error the source returns the zero value and -1 too.
  abbrev pub find_result_from : (ℕ → A → Result (B × Bool)) → B → ℕ → List A → Result (B × ℤ)
  find_result_from f zero_value i [] = ok (zero_value, negsuc 0)
  find_result_from f zero_value i (x ∷ xs) =
      let rest = find_result_from f zero_value (suc i) xs in
      elim (f i x) [ error e ↦ error e | ok (v, found) ↦ if found then ok (v, pos i) else rest ]

  unfoldable pub find_map_ie : B → List A → (ℕ → A → Result (B × Bool)) → Result (B × ℤ)
  find_map_ie zero_value s f = find_result_from f zero_value 0 s

  abbrev pub find_last_result_from : (ℕ → A → Result (B × Bool)) → B → List A → ℕ → Result (B × ℤ)
  find_last_result_from f zero_value s zero = ok (zero_value, negsuc 0)
  find_last_result_from f zero_value s (suc i) =
      let rest = find_last_result_from f zero_value s i in
      elim (get_elem? s (suc i)) [
        | none ↦ rest
        | some x ↦ elim (f (suc i) x) [
          | error e ↦ error e
          | ok (v, found) ↦ if found then ok (v, pos (suc i)) else rest
        ]
      ]

  unfoldable pub find_last_map_ie : B → List A → (ℕ → A → Result (B × Bool)) → Result (B × ℤ)
  find_last_map_ie zero_value s f = find_last_result_from f zero_value s (length s - 1)
