-- ===== src/Sync/Once.antt =====
-- The generator of `LoadOrStoreFunc` and what its calls return, for any interleaving.
use go_fw.Prelude.{
  some-injective, none-some, ℕ, suc, ◌≤◌, ◌≡◌, ◌≢◌, ◌⊎◌, inl, inr, refl, sym, subst, ap, ◌∙◌,
  Option, none, some, arith, update, update_self,
}
use go_fw.Sync.{
  Shared, Phase, idle, called, waiting, checking, generating, crashed, storing, returning, release,
  first_load, acquire, second_load, generate, store, load_or_store_func, World, put, Step, calls,
  advances, Reach, here, next, fresh,
}
use go_fw.Sync.Moves.{
  Fits, IsStoring, IsClaimed, IsSound, IsApart, at_update, put-IsSound, apart, some_≡, bystander,
  quiet, owner-IsSound,
}

first-IsSound :
    (w : World) (i k : ℕ) (o : Option ℕ)
    → IsSound w
    → ((j : ℕ) → IsStoring (w.phase i) j → ⊥)
    → w.shared.entries k ≡ o
    → IsSound (put i (first_load k w.shared o) w)
first-IsSound w i k none h n e = quiet w i (waiting k) h n tt
first-IsSound w i k (some v) h n e = quiet w i (returning k v) h n e

acquire-IsSound :
    (w : World) (i k : ℕ) (o : Option ℕ) (r : Shared × Phase)
    → IsSound w
    → ((j : ℕ) → IsStoring (w.phase i) j → ⊥)
    → w.shared.owner ≡ o
    → acquire i k w.shared o ≡ some r
    → IsSound (put i r w)
acquire-IsSound w i k (some j) r h n e q = absurd cc
acquire-IsSound w i k none (s', p') h n e q =
    let taken = owner-IsSound w i (some i) (checking k) h (λ m. absurd (m e)) n refl in
    subst (λ x. IsSound (put i x w)) (some-injective q) taken

second-IsSound :
    (w : World) (i k : ℕ) (o : Option ℕ)
    → IsSound w
    → ((j : ℕ) → IsStoring (w.phase i) j → ⊥)
    → w.shared.owner ≡ some i
    → w.shared.entries k ≡ o
    → IsSound (put i (second_load k w.shared o) w)
second-IsSound w i k none h n own e = quiet w i (generating k) h n (own, e)
second-IsSound w i k (some v) h n own e = owner-IsSound w i none (returning k v) h (λ m. own) n e

-- No other goroutine stores while one has the mutex.
holder :
    (w : World) (i j k : ℕ) (p : Phase)
    → w.shared.owner ≡ some i
    → ((n : ℕ) → IsStoring (w.phase i) n → ⊥)
    → IsStoring p k
    → Fits w.shared j p
    → w.phase j ≡ p
    → ⊥
holder w i j k (storing m v) own n h (o, f) e =
    let same : j ≡ i = some_≡ j i (sym o ∙ own) in
    n k (subst (λ x. IsStoring x k) (sym e ∙ ap w.phase same) h)
holder w i j k idle own n h f e = elim h [ ]
holder w i j k (called m) own n h f e = elim h [ ]
holder w i j k (waiting m) own n h f e = elim h [ ]
holder w i j k (checking m) own n h f e = elim h [ ]
holder w i j k (generating m) own n h f e = elim h [ ]
holder w i j k (crashed m) own n h f e = elim h [ ]
holder w i j k (returning m v) own n h f e = elim h [ ]

-- With the mutex and no entry, the generator has not returned for the key.
not_returned :
    (w : World) (i k : ℕ)
    → IsSound w
    → ((j : ℕ) → IsStoring (w.phase i) j → ⊥)
    → w.shared.owner ≡ some i
    → IsClaimed w k
    → w.shared.returned k ≡ 0
not_returned w i k h n own (inl e) = e
not_returned w i k (f, h) n own (inr (j, m)) =
    absurd (holder w i j k (w.phase j) own n m (f j) refl)

generate-IsSound :
    (w : World) (i k : ℕ) (made : Option ℕ)
    → IsSound w
    → ((j : ℕ) → IsStoring (w.phase i) j → ⊥)
    → w.shared.owner ≡ some i
    → w.shared.entries k ≡ none
    → IsSound (put i (generate k w.shared made) w)
generate-IsSound w i k none h n own e = owner-IsSound w i none (crashed k) h (λ m. own) n tt
generate-IsSound w i k (some v) (f, (b, c)) n own e =
    let s = w.shared in
    let zero_k = not_returned w i k (f, (b, c)) n own (c k e) in
    let s' = record s { returned = update s.returned k (suc (s.returned k)) } in
    put-IsSound w i s' (storing k v)
      (own, (e, update_self s.returned k (suc (s.returned k)) ∙ ap suc zero_k))
      (λ j d. bystander s s' i j (w.phase j) d (λ m. own) (λ j v e. e) (f j))
      (at_update s.returned k (suc (s.returned k)) (λ j m. m ≤ 1) (omega (arith, zero_k))
        (λ j d. b j))
      (at_update s.returned k (suc (s.returned k))
        (λ j m.
          s.entries j ≡ none
          → (k ≡ j) ⊎ ((m ≡ 0) ⊎ ((x : ℕ) × ((x ≢ i) × IsStoring (w.phase x) j))))
        (λ q. inl refl) (λ j d q. inr (apart w i j (n j) (c j q))))

store-IsSound :
    (w : World) (i k v : ℕ)
    → IsSound w
    → w.phase i ≡ storing k v
    → IsSound (put i (release (store k v w.shared), returning k v) w)
store-IsSound w i k v (f, (b, c)) e =
    let s = w.shared in
    let s' = release (store k v s) in
    let (own, (empty, once)) = subst (Fits s i) e (f i) in
    put-IsSound w i s' (returning k v) (update_self s.entries k (some v))
      (λ j d.
        bystander s s' i j (w.phase j) d (λ m. own)
          (λ j u.
            at_update s.entries k (some v) (λ j o. s.entries j ≡ some u → o ≡ some u)
              (λ q. absurd (none-some u (sym empty ∙ q))) (λ j d q. q) j)
          (f j))
      b
      (at_update s.entries k (some v) (λ j o. o ≡ none → ⊥ ⊎ IsApart w i s' j)
        (λ q. absurd (none-some v (sym q)))
        (λ j d q. inr (apart w i j (λ m. d (sym (subst (λ x. IsStoring x j) e m))) (c j q))))

-- A call of the phase does not store.
not_storing :
    (w : World) (i : ℕ) (p : Phase)
    → w.phase i ≡ p
    → ((k : ℕ) → IsStoring p k → ⊥)
    → (k : ℕ) → IsStoring (w.phase i) k
    → ⊥
not_storing w i p e n k m = n k (subst (λ x. IsStoring x k) e m)

advance-IsSound :
    (w : World) (i : ℕ) (made : Option ℕ) (p : Phase) (r : Shared × Phase)
    → IsSound w
    → w.phase i ≡ p
    → load_or_store_func i made w.shared p ≡ some r
    → IsSound (put i r w)
unfolding load_or_store_func
advance-IsSound w i made idle r h e q = absurd cc
advance-IsSound w i made (crashed k) r h e q = absurd cc
advance-IsSound w i made (returning k v) r h e q = absurd cc
advance-IsSound w i made (called k) r h e q =
    subst (λ x. IsSound (put i x w)) (some-injective q)
      (first-IsSound w i k (w.shared.entries k) h (not_storing w i _ e (λ k m. m)) refl)
advance-IsSound w i made (waiting k) r h e q =
    acquire-IsSound w i k w.shared.owner r h (not_storing w i _ e (λ k m. m)) refl q
advance-IsSound w i made (checking k) r h e q =
    subst (λ x. IsSound (put i x w)) (some-injective q)
      (second-IsSound w i k (w.shared.entries k) h (not_storing w i _ e (λ k m. m))
        (subst (Fits w.shared i) e (h.0 i)) refl)
advance-IsSound w i made (generating k) r h e q =
    let (own, empty) = subst (Fits w.shared i) e (h.0 i) in
    subst (λ x. IsSound (put i x w)) (some-injective q)
      (generate-IsSound w i k made h (not_storing w i _ e (λ k m. m)) own empty)
advance-IsSound w i made (storing k v) r h e q =
    subst (λ x. IsSound (put i x w)) (some-injective q) (store-IsSound w i k v h e)

Step-IsSound : {w v : World} → Step w v → IsSound w → IsSound v
Step-IsSound {w} (calls i k e) h = quiet w i (called k) h (not_storing w i idle e (λ k m. m)) tt
Step-IsSound {w} (advances i made r e) h = advance-IsSound w i made (w.phase i) r h refl e

Reach-IsSound : {w v : World} → IsSound w → Reach w v → IsSound v
Reach-IsSound h here = h
Reach-IsSound h (next r s) = Step-IsSound s (Reach-IsSound h r)

-- However the calls of `LoadOrStoreFunc` interleave, from a map with any entries, the generator
-- returns at most once for a key, and two calls that return for one key return the same value.
pub Reach-once :
    (entries : ℕ → Option ℕ) (w : World)
    → Reach (fresh entries) w
    → ((k : ℕ) → w.shared.returned k ≤ 1)
      × ((i j k u v : ℕ) → w.phase i ≡ returning k u → w.phase j ≡ returning k v → u ≡ v)
Reach-once entries w r =
    let (f, (b, c)) = Reach-IsSound ((λ i. tt), ((λ k. omega arith), (λ k e. inl refl))) r in
    (
      b,
      λ i j k u v p q.
          some-injective (sym (subst (Fits w.shared i) p (f i)) ∙ subst (Fits w.shared j) q (f j)),
    )
