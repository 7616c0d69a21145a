-- ===== src/Common/Below.antt =====
-- Claims on every number below a bound, settled by running a test.
use Prim.Native.Nat.{ℕ, zero, suc, ◌<◌, ◌≤◌}
use mathlib.Core.Path.{◌≡◌, refl}
use mathlib.Core.Bool.{Bool, true, false, ◌&&◌}
use mathlib.Core.Logic.{inl, inr}
use native.Mathlib.Omega.{arith}
use openssl_wasm.Common.Tests.{ltb, Bool-cases}

abbrev pub all_below : ℕ → (ℕ → Bool) → Bool
all_below zero p = true
all_below (suc n) p = p n && all_below n p

pub all_below_sound : (n : ℕ) (p : ℕ → Bool) (x : ℕ) → all_below n p ≡ true → x < n → p x ≡ true
all_below_sound zero p x h lt = absurd (omega arith)
all_below_sound (suc n) p x h lt = ground (arith, all_below_sound n p x)

-- Whether two tests have the same result.
abbrev pub agree : Bool → Bool → Bool
agree true b = b
agree false true = false
agree false false = true

agree_sound : (a b : Bool) → agree a b ≡ true → a ≡ b
agree_sound true true h = refl
agree_sound true false h = absurd (ground arith)
agree_sound false true h = absurd (ground arith)
agree_sound false false h = refl

-- Two tests that agree below a bound, and from it on, agree.
pub agree_everywhere :
    (n : ℕ) (p q : ℕ → Bool)
    → all_below n (λ x. agree (p x) (q x)) ≡ true
    → ((x : ℕ) → n ≤ x → p x ≡ q x)
    → (x : ℕ) → p x ≡ q x
agree_everywhere n p q below above x = elim (Bool-cases (ltb x n)) [
  | inl lt ↦
      agree_sound (p x) (q x) (all_below_sound n (λ y. agree (p y) (q y)) x below (ground arith))
  | inr ge ↦ above x (ground arith)
]
