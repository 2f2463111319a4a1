-- ===== src/Files/Find.antt =====
-- kernel/tmpfs.c: what the search by name finds, and what a change of the table does to it.
use ubiqos.Common.{
  ==_refl, ==_ne, Bool-cases, put, ℕ, zero, suc, ◌+◌, ◌≤◌, ◌<◌, ◌≡◌, refl, ◌≢◌, inl, inr, Bool,
  true, false, none, some, List, [], ◌∷◌, arith, ℕ_discrete,
}
use ubiqos.Files.{name_eq, FileTable, TmpFile, first_from}

pub name_eq-true : (a b : List ℕ) → name_eq a b ≡ true → a ≡ b
unfolding name_eq
name_eq-true [] [] h = refl
name_eq-true [] (b ∷ bs) h = cc
name_eq-true (a ∷ as') [] h = cc
name_eq-true (a ∷ as') (b ∷ bs) h =
    let e : a ≡ b = ground arith in rw (e, name_eq-true as' bs (ground arith))

pub name_eq_refl : (a : List ℕ) → name_eq a a ≡ true
unfolding name_eq
name_eq_refl [] = refl
name_eq_refl (a ∷ as') = rw (==_refl, name_eq_refl as')

pub name_eq_ne : (a b : List ℕ) → a ≢ b → name_eq a b ≡ false
name_eq_ne a b h = elim (Bool-cases (name_eq a b)) [
  | inl e ↦ absurd (h (name_eq-true a b e))
  | inr e ↦ e
]

-- What the search gives passes the test and lies in the range.
pub first_from-some :
    (r : ℕ) (p : TmpFile → Bool) (fs : FileTable) (s i : ℕ)
    → first_from r p fs s ≡ some i
    → (s ≤ i) × (i < s + r) × (p (fs i) ≡ true)
unfolding first_from
first_from-some zero p fs s i h = cc
first_from-some (suc r) p fs s i h = elim (Bool-cases (p (fs s))) [
  | inl e ↦ let k : s ≡ i = ground arith in (omega arith, omega arith, rw (← k) e)
  | inr e ↦
      let (lo, hi, t) = first_from-some r p fs (suc s) i (rw e at h) in
      (omega arith, omega arith, t)
]

pub first_from-cong :
    (r : ℕ) (p : TmpFile → Bool) (fs gs : FileTable) (s : ℕ)
    → ((j : ℕ) → p (gs j) ≡ p (fs j))
    → first_from r p gs s ≡ first_from r p fs s
unfolding first_from
first_from-cong zero p fs gs s h = refl
first_from-cong (suc r) p fs gs s h = rw (h s, first_from-cong r p fs gs (suc s) h)

-- When nothing passed the test, an entry that now does is what the search gives.
pub first_from-put :
    (r : ℕ) (p : TmpFile → Bool) (fs : FileTable) (s i : ℕ) (v : TmpFile)
    → first_from r p fs s ≡ none
    → p v ≡ true
    → s ≤ i
    → i < s + r
    → first_from r p (put fs i v) s ≡ some i
unfolding first_from
first_from-put zero p fs s i v h t lo hi = absurd (omega arith)
first_from-put (suc r) p fs s i v h t lo hi = elim (ℕ_discrete s i) [
  | yes e ↦ rw (e, ==_refl) (rw t)
  | no ne ↦ elim (Bool-cases (p (fs s))) [
    | inl e ↦ cc (rw e at h)
    | inr e ↦
        rw (==_ne s i ne)
          (rw e (first_from-put r p fs (suc s) i v (rw e at h) t (omega arith) (omega arith)))
  ]
]

-- A change of one entry that does not change whether it passes the test.
pub first_from-kept :
    (r : ℕ) (p : TmpFile → Bool) (fs : FileTable) (s i : ℕ) (v : TmpFile)
    → p v ≡ p (fs i)
    → first_from r p (put fs i v) s ≡ first_from r p fs s
first_from-kept r p fs s i v h = first_from-cong r p fs (put fs i v) s same
  where
    same : (j : ℕ) → p (put fs i v j) ≡ p (fs j)
    same j = elim (ℕ_discrete j i) [ yes e ↦ rw (e, ==_refl) h | no ne ↦ rw (==_ne j i ne) refl ]

-- Every entry that passes the test makes the search give something.
pub first_from-none :
    (r : ℕ) (p : TmpFile → Bool) (fs : FileTable) (s j : ℕ)
    → first_from r p fs s ≡ none
    → s ≤ j
    → j < s + r
    → p (fs j) ≡ false
unfolding first_from
first_from-none zero p fs s j h lo hi = absurd (omega arith)
first_from-none (suc r) p fs s j h lo hi = elim (Bool-cases (p (fs s))) [
  | inl e ↦ cc (rw e at h)
  | inr e ↦ elim (ℕ_discrete s j) [
    | yes i ↦ rw (← i) e
    | no ne ↦ first_from-none r p fs (suc s) j (rw e at h) (omega arith) (omega arith)
  ]
]
