-- ===== src/Queue/Order.antt =====
-- The order of `Less`, and the heap order of the elements seen as a function of the index.
use go_fw.Prelude.{
  ℕ, zero, suc, ◌-◌, ◌/◌, ◌<◌, ◌≡◌, refl, ◌≢◌, true, false, Option, none, some, arith,
}
use go_fw.Queue.{Element, before, entry_before}

abbrev pub parent : ℕ → ℕ
parent c = (c - 1) / 2

module _ {V : Type 0} where
  before-asym : (x y : Element V) → before x y ≡ true → before y x ≡ false
  unfolding before
  before-asym x y h = ground arith

  before_trans : (x y z : Element V) → before y x ≡ false → before z y ≡ false → before z x ≡ false
  unfolding before
  before_trans x y z h k = ground arith

  -- `a` is not after `b`.
  abbrev pub Le : Option (Element V) → Option (Element V) → Type 0
  Le a b = entry_before b a ≡ false

  pub Le_of_before : (a b : Option (Element V)) → entry_before a b ≡ true → Le a b
  unfolding entry_before
  Le_of_before (some x) (some y) h = before-asym x y h
  Le_of_before (some x) none h = refl
  Le_of_before none b h = cc

  pub Le-refl : (a : Option (Element V)) → Le a a
  unfolding entry_before before
  Le-refl none = ground arith
  Le-refl (some x) = ground arith

  pub Le-trans : (a b c : Option (Element V)) → Le a b → Le b c → Le a c
  unfolding entry_before
  Le-trans a b none h k = ground arith
  Le-trans none (some y) (some z) h k = ground arith
  Le-trans none none (some z) h k = ground arith
  Le-trans (some x) none (some z) h k = ground arith
  Le-trans (some x) (some y) (some z) h k = before_trans x y z h k

  -- Every entry below `n` is not before its parent.
  abbrev pub IsHeap : ℕ → (ℕ → Option (Element V)) → Type 0
  IsHeap n f = (c : ℕ) → 0 < c → c < n → Le (f (parent c)) (f c)

  -- The parent of `i` is not after the children of `i`.
  abbrev pub IsBridged : ℕ → (ℕ → Option (Element V)) → ℕ → Type 0
  IsBridged n f i = (c : ℕ) → 0 < c → c < n → parent c ≡ i → 0 < i → Le (f (parent i)) (f c)

  -- Only the edge above `i` may be out of order.
  pub record UpInv (n : ℕ) (f : ℕ → Option (Element V)) (i : ℕ) : Type 0 where
    pub inside : i < n
    pub edges : (c : ℕ) → 0 < c → c < n → c ≢ i → Le (f (parent c)) (f c)
    pub bridged : IsBridged n f i

  -- Only the edges below `i` may be out of order.
  pub record DownInv (n : ℕ) (f : ℕ → Option (Element V)) (i : ℕ) : Type 0 where
    pub edges : (c : ℕ) → 0 < c → c < n → parent c ≢ i → Le (f (parent c)) (f c)
    pub bridged : IsBridged n f i

  -- Only the edges above and below `i` may be out of order.
  pub record HoleInv (n : ℕ) (f : ℕ → Option (Element V)) (i : ℕ) : Type 0 where
    pub edges : (c : ℕ) → 0 < c → c < n → c ≢ i → parent c ≢ i → Le (f (parent c)) (f c)
    pub bridged : IsBridged n f i

  least_below :
      (k n : ℕ) (f : ℕ → Option (Element V)) (i : ℕ) → IsHeap n f → i < k → i < n → Le (f 0) (f i)
  least_below zero n f i h p q = absurd (omega arith)
  least_below (suc k) n f i h p q = ground (
    arith,
    h i,
    Le-refl (f 0),
    Le-trans (f 0) (f (parent i)) (f i),
    least_below k n f (parent i) h,
  )

  -- The root of a heap is not after any entry.
  pub root_least :
      (n : ℕ) (f : ℕ → Option (Element V)) (i : ℕ) → IsHeap n f → i < n → Le (f 0) (f i)
  root_least n f i h q = least_below (suc i) n f i h (omega arith) q
