-- ===== src/Common/Slots.antt =====
-- The search for a slot of a table, from a first index on.
use Prim.Native.Nat.{ℕ, zero, suc, ◌+◌, ◌≤◌, ◌<◌}
use mathlib.Core.Path.{◌≡◌, refl}
use mathlib.Core.Logic.{inl, inr}
use mathlib.Core.Bool.{Bool, true, false}
use mathlib.Core.Option.{Option, none, some}
use native.Mathlib.Omega.{arith}
use native.Mathlib.Decide.{ℕ_discrete}
use ubiqos.Common.Tests.{if◌then◌else◌, Bool-cases}

-- The first of the slots from `i`, `r` of them, that passes the test.
unfoldable pub first_slot : ℕ → (ℕ → Bool) → ℕ → Option ℕ
first_slot zero p i = none
first_slot (suc r) p i = let rest = first_slot r p (suc i) in if p i then some i else rest

pub first_slot-some :
    (r : ℕ) (p : ℕ → Bool) (s i : ℕ)
    → first_slot r p s ≡ some i
    → (s ≤ i) × (i < s + r) × (p i ≡ true)
unfolding first_slot
first_slot-some zero p s i h = cc
first_slot-some (suc r) p s i h = elim (Bool-cases (p s)) [
  | inl e ↦ let k : s ≡ i = ground arith in (omega arith, omega arith, rw (← k) e)
  | inr e ↦
      let (lo, hi, t) = first_slot-some r p (suc s) i (rw e at h) in (omega arith, omega arith, t)
]

-- None is found where none passes.
pub first_slot-none :
    (r : ℕ) (p : ℕ → Bool) (s j : ℕ) → first_slot r p s ≡ none → s ≤ j → j < s + r → p j ≡ false
unfolding first_slot
first_slot-none zero p s j h lo hi = absurd (omega arith)
first_slot-none (suc r) p s j h lo hi = elim (Bool-cases (p s)) [
  | inl e ↦ absurd (let k : some s ≡ none = rw e at h in cc)
  | inr e ↦ elim (ℕ_discrete j s) [
    | yes k ↦ rw k e
    | no ne ↦ first_slot-none r p (suc s) j (rw e at h) (omega arith) (omega arith)
  ]
]

-- The first that passes is found.
pub first_slot-first :
    (r : ℕ) (p : ℕ → Bool) (s i : ℕ)
    → s ≤ i
    → i < s + r
    → p i ≡ true
    → ((j : ℕ) → s ≤ j → j < i → p j ≡ false)
    → first_slot r p s ≡ some i
unfolding first_slot
first_slot-first zero p s i lo hi t before = absurd (omega arith)
first_slot-first (suc r) p s i lo hi t before = elim (ℕ_discrete s i) [
  | yes k ↦ rw (k, t) refl
  | no ne ↦ rw (before s (omega arith) (omega arith)) (
      first_slot-first r p (suc s) i (omega arith) (omega arith) t
        (λ j l m. before j (omega arith) m))
]
