-- ===== src/Modules/Names.antt =====
-- kernel/moddir.c: comparing names as strings, and what a copy of a name is equal to.
use ubiqos.Common.{
  ◌==◌, if◌then◌else◌, ==_refl, ==_ne, Bool-cases, put, ℕ, zero, suc, ◌+◌, ◌≤◌, ◌<◌, ◌≡◌, refl, sym,
  ◌∙◌, ◌≢◌, ◌⊎◌, inl, inr, Bool, true, false, arith, dec_lt, ℕ_discrete,
}
use ubiqos.Modules.{Name, same_text, text_eq, copy_chars, name_copy}

-- A name of at most 15 characters.
abbrev pub IsShort : Name → ℕ → Type 0
IsShort a e = (e < 16) × (a e ≡ 0)

-- No 0 among the characters from `i` up to `j`.
abbrev pub Runs : Name → ℕ → ℕ → Type 0
Runs a i j = (k : ℕ) → i ≤ k → k < j → a k ≢ 0

sym_step :
    (x y : ℕ) (r s : Bool)
    → r ≡ s
    → (if x == 0 then y == 0 else if x == y then r else false)
      ≡ (if y == 0 then x == 0 else if y == x then s else false)
sym_step x y r s e = ground arith

pub same_text_sym : (n i : ℕ) (a b : Name) → same_text n i a b ≡ same_text n i b a
unfolding same_text
same_text_sym zero i a b = refl
same_text_sym (suc n) i a b = sym_step (a i) (b i) _ _ (same_text_sym n (suc i) a b)

same_step :
    (x y : ℕ) (r : Bool)
    → (if x == 0 then y == 0 else if x == y then r else false) ≡ true
    → (x ≡ y) × ((x ≡ 0) ⊎ (r ≡ true))
same_step x y r h =
    (ground arith, elim (Bool-cases r) [ inl t ↦ inr t | inr f ↦ inl (ground arith) ])

char_step :
    (y : ℕ) (r : Bool)
    → (y ≡ 0) ⊎ (r ≡ true)
    → (if y == 0 then y == 0 else if y == y then r else false) ≡ true
char_step y r (inl z) = rw z refl
char_step y r (inr t) =
    rw (t, ==_refl y) (elim (Bool-cases (y == 0)) [ inl e ↦ rw e refl | inr e ↦ rw e refl ])

pub same_text_trans :
    (n i : ℕ) (a b c : Name)
    → same_text n i a c ≡ true
    → same_text n i b c ≡ true
    → same_text n i a b ≡ true
unfolding same_text
same_text_trans zero i a b c h k = h
same_text_trans (suc n) i a b c h k =
    let (ea, ra) = same_step (a i) (c i) (same_text n (suc i) a c) h in
    let (eb, rb) = same_step (b i) (c i) (same_text n (suc i) b c) k in
    rw (ea, eb)
      (char_step (c i) (same_text n (suc i) a b)
        (both ea eb ra rb (λ t u. same_text_trans n (suc i) a b c t u)))
  where
    both :
        a i ≡ c i
        → b i ≡ c i
        → (a i ≡ 0) ⊎ (same_text n (suc i) a c ≡ true)
        → (b i ≡ 0) ⊎ (same_text n (suc i) b c ≡ true)
        → (same_text n (suc i) a c ≡ true
            → same_text n (suc i) b c ≡ true
            → same_text n (suc i) a b ≡ true)
        → (c i ≡ 0) ⊎ (same_text n (suc i) a b ≡ true)
    both ea eb (inl z) rb rest = inl (sym ea ∙ z)
    both ea eb (inr t) (inl z) rest = inl (sym eb ∙ z)
    both ea eb (inr t) (inr u) rest = inr (rest t u)

-- Names that agree up to the end of the second compare alike.
pub same_text-agree :
    (n i : ℕ) (x a b : Name)
    → ((j : ℕ) → i ≤ j → j < i + n → Runs b i j → a j ≡ b j)
    → same_text n i x a ≡ same_text n i x b
unfolding same_text
same_text-agree zero i x a b h = refl
same_text-agree (suc n) i x a b h =
    rw (h i (omega arith) (omega arith) (λ k lo hi. absurd (omega (arith, lo, hi))))
      (elim (ℕ_discrete (x i) 0) [
        | yes z ↦ rw z refl
        | no ne ↦ rw (==_ne (x i) 0 ne) (elim (ℕ_discrete (x i) (b i)) [
          | no nx ↦ rw (==_ne (x i) (b i) nx) refl
          | yes e ↦
              rw (e, ==_refl (b i))
                (same_text-agree n (suc i) x a b (λ j lo hi run.
                  h j (omega arith) (omega arith) (λ k l m. elim (ℕ_discrete k i) [
                    | yes q ↦ rw q (λ z. ne (e ∙ z))
                    | no nq ↦ run k (omega arith) m
                  ])))
        ])
      ])

copy_chars-below : (n i : ℕ) (to from : Name) (j : ℕ) → j < i → copy_chars n i to from j ≡ to j
unfolding copy_chars
copy_chars-below zero i to from j lt = rw (==_ne j i (λ e. omega (arith, e, lt))) refl
copy_chars-below (suc n) i to from j lt = elim (Bool-cases (from i == 0)) [
  | inl e ↦ rw (e, ==_ne j i (λ k. omega (arith, k, lt))) refl
  | inr e ↦ rw e (
      copy_chars-below n (suc i) (put to i (from i)) from j (omega arith)
      ∙ rw (==_ne j i (λ k. omega (arith, k, lt))) refl)
]

-- The copy has the characters of the name up to its end.
copy_chars-at :
    (n i : ℕ) (to from : Name) (j : ℕ)
    → i ≤ j
    → j ≤ i + n
    → Runs from i j
    → (j ≡ i + n → from j ≡ 0)
    → copy_chars n i to from j ≡ from j
unfolding copy_chars
copy_chars-at zero i to from j lo hi run last =
    let e : j ≡ i = omega arith in rw (e, ==_refl i) (sym (rw e at (last (omega arith))))
copy_chars-at (suc n) i to from j lo hi run last = elim (ℕ_discrete (from i) 0) [
  | yes z ↦ elim (ℕ_discrete j i) [
    | yes e ↦ rw (z, e, ==_refl i) (sym z)
    | no ne ↦ absurd (run i (omega arith) (omega arith) z)
  ]
  | no nz ↦ rw (==_ne (from i) 0 nz) (elim (ℕ_discrete j i) [
    | yes e ↦
        rw e (
          copy_chars-below n (suc i) (put to i (from i)) from i (omega arith) ∙ rw (==_refl i) refl)
    | no ne ↦
        copy_chars-at n (suc i) (put to i (from i)) from j (omega arith) (omega arith)
          (λ k l m. run k (omega arith) m) (λ e. last (omega arith))
  ])
]

-- A copied name of at most 15 characters is the same string.
pub name_copy-text :
    (x to from : Name) (e : ℕ) → IsShort from e → text_eq x (name_copy to from) ≡ text_eq x from
name_copy-text x to from e (lt, z) = same_text-agree 16 0 x (name_copy to from) from (λ j lo hi run.
    let le : j ≤ e = elim (dec_lt e j) [
      | yes l ↦ absurd (run e (omega arith) l z)
      | no nl ↦ omega arith
    ] in
    copy_chars-at 15 0 to from j lo (omega arith) run (λ k. let q : j ≡ e = omega arith in rw q z))

-- The comparison of a name with itself, up to its end.
same_text_self :
    (n i : ℕ) (a : Name) (e : ℕ) → i ≤ e → e < i + n → a e ≡ 0 → same_text n i a a ≡ true
unfolding same_text
same_text_self zero i a e lo hi z = absurd (omega arith)
same_text_self (suc n) i a e lo hi z = elim (ℕ_discrete (a i) 0) [
  | yes q ↦ rw q refl
  | no nq ↦
      rw (==_ne (a i) 0 nq, ==_refl (a i))
        (same_text_self n (suc i) a e
          (elim (ℕ_discrete i e) [ yes k ↦ absurd (nq (rw k z)) | no nk ↦ omega arith ])
          (omega arith) z)
]

pub name_copy-same :
    (to from : Name) (e : ℕ) → IsShort from e → text_eq (name_copy to from) from ≡ true
name_copy-same to from e s =
    same_text_sym 16 0 (name_copy to from) from
    ∙ name_copy-text from to from e s
    ∙ same_text_self 16 0 from e (omega arith) (omega (arith, s.0)) s.1
