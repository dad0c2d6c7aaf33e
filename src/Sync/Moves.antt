-- ===== src/Sync/Moves.antt =====
-- What is true of the goroutines and of what they share, and how a move of one keeps it.
use go_fw.Prelude.{
  ℕ, ◌≤◌, ◌≡◌, ◌≢◌, ◌⊎◌, inl, inr, sym, subst, ◌∙◌, Bool-cases, Option, none, some, arith, update,
  update_self, update_other, ◌==◌, ==_iff,
}
use go_fw.Sync.{
  Shared, Phase, idle, called, waiting, checking, generating, crashed, storing, returning, World,
  put,
}

-- What the phase of a goroutine says of what is shared.
abbrev pub Fits : Shared → ℕ → Phase → Type 0
Fits s i (checking k) = s.owner ≡ some i
Fits s i (generating k) = (s.owner ≡ some i) × (s.entries k ≡ none)
Fits s i (storing k v) = (s.owner ≡ some i) × ((s.entries k ≡ none) × (s.returned k ≡ 1))
Fits s i (returning k v) = s.entries k ≡ some v
Fits s i _ = Unit

abbrev pub IsStoring : Phase → ℕ → Type 0
IsStoring (storing j v) k = j ≡ k
IsStoring _ k = ⊥

-- The generator has not returned for the key, or the value is about to be stored.
abbrev pub IsClaimed : World → ℕ → Type 0
IsClaimed w k = (w.shared.returned k ≡ 0) ⊎ ((i : ℕ) × IsStoring (w.phase i) k)

abbrev pub IsSound : World → Type 0
IsSound w =
    ((i : ℕ) → Fits w.shared i (w.phase i))
    × (((k : ℕ) → w.shared.returned k ≤ 1) × ((k : ℕ) → w.shared.entries k ≡ none → IsClaimed w k))

-- The same of all goroutines but one.
abbrev pub IsApart : World → ℕ → Shared → ℕ → Type 0
IsApart w i s k = (s.returned k ≡ 0) ⊎ ((j : ℕ) × ((j ≢ i) × IsStoring (w.phase j) k))

-- A fact of each place of a store after a write, from the place written and the other ones.
pub at_update :
    {A : Type 0} (g : ℕ → A) (i : ℕ) (x : A) (P : ℕ → A → Type 0)
    → P i x
    → ((j : ℕ) → j ≢ i → P j (g j))
    → (j : ℕ) → P j (update g i x j)
at_update g i x P mine other j = elim (Bool-cases (j == i)) [
  | inl e ↦
      let same : j ≡ i = (==_iff j i).0 e in
      subst (λ n. P n (update g i x n)) (sym same) (subst (P i) (sym (update_self g i x)) mine)
  | inr e ↦
      let d : j ≢ i = (λ q. ground arith) in subst (P j) (sym (update_other g i j x d)) (other j d)
]

pub put-IsSound :
    (w : World) (i : ℕ) (s : Shared) (p : Phase)
    → Fits s i p
    → ((j : ℕ) → j ≢ i → Fits s j (w.phase j))
    → ((k : ℕ) → s.returned k ≤ 1)
    → ((k : ℕ) → s.entries k ≡ none → IsStoring p k ⊎ IsApart w i s k)
    → IsSound (put i (s, p) w)
put-IsSound w i s p mine other bound claim = (
  at_update w.phase i p (Fits s) mine other,
  (
    bound,
    λ k e. elim (claim k e) [
      | inl h ↦ inr (i, subst (λ q. IsStoring q k) (sym (update_self w.phase i p)) h)
      | inr (inl h) ↦ inl h
      | inr (inr (j, (d, h))) ↦
          inr (j, subst (λ q. IsStoring q k) (sym (update_other w.phase i j p d)) h)
    ],
  ),
)

-- A goroutine whose phase is not that of storing claims no key.
pub apart :
    (w : World) (i : ℕ) (k : ℕ)
    → (IsStoring (w.phase i) k → ⊥)
    → IsClaimed w k
    → IsApart w i w.shared k
apart w i k h (inl e) = inl e
apart w i k h (inr (j, m)) = inr (j, (λ q. h (subst (λ n. IsStoring (w.phase n) k) q m), m))

pub some_≡ : (i j : ℕ) → some i ≡ some j → i ≡ j
some_≡ i j e = cc

-- What others know stays true while a goroutine that has the mutex, or takes it, adds entries.
pub bystander :
    (s s' : Shared) (i j : ℕ) (p : Phase)
    → j ≢ i
    → (s.owner ≢ none → s.owner ≡ some i)
    → ((k v : ℕ) → s.entries k ≡ some v → s'.entries k ≡ some v)
    → Fits s j p
    → Fits s' j p
bystander s s' i j (checking k) d o g f = absurd (d (some_≡ j i (sym f ∙ o (λ q. cc))))
bystander s s' i j (generating k) d o g (f, e) = absurd (d (some_≡ j i (sym f ∙ o (λ q. cc))))
bystander s s' i j (storing k v) d o g (f, e) = absurd (d (some_≡ j i (sym f ∙ o (λ q. cc))))
bystander s s' i j (returning k v) d o g f = g k v f
bystander s s' i j idle d o g f = tt
bystander s s' i j (called k) d o g f = tt
bystander s s' i j (waiting k) d o g f = tt
bystander s s' i j (crashed k) d o g f = tt

-- A move that leaves what is shared alone.
pub quiet :
    (w : World) (i : ℕ) (p : Phase)
    → IsSound w
    → ((k : ℕ) → IsStoring (w.phase i) k → ⊥)
    → Fits w.shared i p
    → IsSound (put i (w.shared, p) w)
quiet w i p (f, (b, c)) n m =
    put-IsSound w i w.shared p m (λ j d. f j) b (λ k e. inr (apart w i k (n k) (c k e)))

-- A move that only takes the mutex, or only lets go of it.
pub owner-IsSound :
    (w : World) (i : ℕ) (o : Option ℕ) (p : Phase)
    → IsSound w
    → (w.shared.owner ≢ none → w.shared.owner ≡ some i)
    → ((k : ℕ) → IsStoring (w.phase i) k → ⊥)
    → Fits (record w.shared { owner = o }) i p
    → IsSound (put i (record w.shared { owner = o }, p) w)
owner-IsSound w i o p (f, (b, c)) own n m =
    let s' = record w.shared { owner = o } in
    put-IsSound w i s' p m (λ j d. bystander w.shared s' i j (w.phase j) d own (λ k v e. e) (f j)) b
      (λ k e. inr (apart w i k (n k) (c k e)))
