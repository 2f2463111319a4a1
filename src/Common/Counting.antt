-- ===== src/Common/Counting.antt =====
-- A list of distinct numbers below `n` has at most `n` of them.
use Prim.Native.Nat.{ℕ, zero, suc, ◌≤◌, ◌<◌}
use mathlib.Core.Path.{◌≡◌, subst}
use mathlib.Core.Logic.{◌≢◌, ◌⊎◌, inl, inr}
use mathlib.Core.List.{List, [], ◌∷◌, ◌++◌}
use native.Mathlib.Omega.{arith}
use native.Mathlib.Decide.{ℕ_discrete}
use ubiqos.Common.Lists.{
  length, length-append, All, Distinct, All-without, Distinct-without, Distinct-apart, All-and,
  All-map,
}

-- Where a number stands in a list, or that it does not.
pub find_in :
    (a : ℕ) (xs : List ℕ)
    → All (λ x. x ≢ a) xs ⊎ ((ys : List ℕ) × (zs : List ℕ) × (xs ≡ ys ++ a ∷ zs))
find_in a [] = inl tt
find_in a (x ∷ xs) = elim (ℕ_discrete x a) [
  | yes e ↦ inr ([], xs, rw e)
  | no ne ↦ elim (find_in a xs) [ inl h ↦ inl (ne, h) | inr (ys, zs, e) ↦ inr (x ∷ ys, zs, rw e) ]
]

pub length-le_of_Distinct :
    (n : ℕ) (xs : List ℕ) → Distinct xs → All (λ x. x < n) xs → length xs ≤ n
length-le_of_Distinct zero [] d h = omega arith
length-le_of_Distinct zero (x ∷ xs) d h = absurd (omega arith)
length-le_of_Distinct (suc n) xs d h = elim (find_in n xs) [
  | inl ne ↦ omega (
    arith,
    length-le_of_Distinct n xs d (All-map _ _ xs (λ x p. below x p.0 p.1) (All-and _ _ xs h ne)),
  )
  | inr (ys, zs, e) ↦ taken ys zs e (length-le_of_Distinct n (ys ++ zs))
]
  where
    below : (x : ℕ) → x < suc n → x ≢ n → x < n
    below x a b = omega arith

    taken :
        (ys zs : List ℕ)
        → xs ≡ ys ++ n ∷ zs
        → (Distinct (ys ++ zs) → All (λ x. x < n) (ys ++ zs) → length (ys ++ zs) ≤ n)
        → length xs ≤ suc n
    taken ys zs e shorter =
        let d' : Distinct (ys ++ n ∷ zs) = subst Distinct e d in
        let h' : All (λ x. x < suc n) (ys ++ n ∷ zs) = subst (All (λ x. x < suc n)) e h in
        let rest : length (ys ++ zs) ≤ n = shorter (Distinct-without ys n zs d') (
          All-map _ _ (ys ++ zs) (λ x p. below x p.0 p.1)
            (All-and _ _ (ys ++ zs) (All-without _ ys n zs h') (Distinct-apart ys n zs d'))) in
        rw e (omega (arith, rest, length-append ys zs, length-append ys (n ∷ zs)))
