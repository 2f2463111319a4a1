-- ===== src/Common/Loops.antt =====
-- Counted loops: `for_below n body s` runs the body at 0, 1, …, n - 1.
use Prim.Native.Nat.{ℕ, zero, suc, ◌<◌}
use mathlib.Core.Path.{◌≡◌}
use native.Mathlib.Omega.{arith}
use native.Mathlib.Decide.{ℕ_discrete}

unfoldable pub for_below {ℓ} : {S : Type ℓ} → ℕ → (ℕ → S → S) → S → S
for_below zero body s = s
for_below (suc n) body s = body n (for_below n body s)

-- What every round keeps holds at the end.
pub for_below_keeps {ℓ κ} :
    {S : Type ℓ} (P : S → Type κ) (body : ℕ → S → S) (n : ℕ)
    → ((i : ℕ) (s : S) → P s → P (body i s))
    → (s : S) → P s
    → P (for_below n body s)
unfolding for_below
for_below_keeps P body zero keep s h = h
for_below_keeps P body (suc n) keep s h =
    keep n (for_below n body s) (for_below_keeps P body n keep s h)

-- What the round `i` establishes, and the others keep, holds at the end.
pub for_below_does {ℓ κ} :
    {S : Type ℓ} (P : S → Type κ) (body : ℕ → S → S) (n i : ℕ)
    → i < n
    → ((s : S) → P (body i s))
    → ((j : ℕ) (s : S) → P s → P (body j s))
    → (s : S) → P (for_below n body s)
unfolding for_below
for_below_does P body zero i lt does keep s = absurd (omega arith)
for_below_does P body (suc n) i lt does keep s = elim (ℕ_discrete i n) [
  | yes e ↦ let e' : n ≡ i = omega arith in rw e' (does (for_below i body s))
  | no ne ↦ keep n _ (for_below_does P body n i (omega arith) does keep s)
]

-- The same, where the rounds keep it for an index below the bound.
pub for_below_within {ℓ κ} :
    {S : Type ℓ} (P : S → Type κ) (body : ℕ → S → S) (n : ℕ)
    → ((i : ℕ) (s : S) → i < n → P s → P (body i s))
    → (s : S) → P s
    → P (for_below n body s)
unfolding for_below
for_below_within P body zero keep s h = h
for_below_within P body (suc n) keep s h =
    keep n (for_below n body s) (omega arith)
      (for_below_within P body n (λ i t lt. keep i t (omega arith)) s h)
