-- ===== src/Prelude/Update.antt =====
-- A store as a function of the address, and a write to it.
use Prim.Native.Nat.{ℕ}
use mathlib.Core.Path.{◌≡◌}
use mathlib.Core.Logic.{◌≢◌}
use mathlib.Core.Bool.{true, false}
use native.Mathlib.Omega.{arith}
use go_fw.Prelude.Tests.{◌==◌, if◌then◌else◌}

abbrev pub update {ℓ} : {V : Type ℓ} (store : ℕ → V) (at : ℕ) → V → (ℕ → V)
update store at v b = if b == at then v else store b

pub update_self {ℓ} : {A : Type ℓ} (f : ℕ → A) (a : ℕ) (v : A) → update f a v a ≡ v
update_self f a v = let h : (a == a) ≡ true = ground arith in rw h

pub update_other {ℓ} : {A : Type ℓ} (f : ℕ → A) (a b : ℕ) (v : A) → b ≢ a → update f a v b ≡ f b
update_other f a b v h = let h' : (b == a) ≡ false = ground arith in rw h'
