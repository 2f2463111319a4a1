-- ===== src/Sched/Cwd/Text.antt =====
-- kernel/scheduler.c: the text that the buffer of a current directory holds.
use ubiqos.Common.{
  ltb, ==_refl, ==_ne, length, get_or, put, ℕ, zero, suc, ◌+◌, ◌-◌, ◌<◌, ◌≡◌, refl, ◌∙◌, true,
  false, List, [], ◌∷◌, ◌++◌, arith,
}
use ubiqos.Sched.Cwd.{Buffer, cwd_size, copy_in, cwd_set}

-- The buffer holds the text from index `i`, with a NUL behind it.
abbrev pub Holds : Buffer → ℕ → List ℕ → Type 0
Holds b i [] = b i ≡ 0
Holds b i (c ∷ cs) = (b i ≡ c) × Holds b (suc i) cs

-- The copying loop on a text that fits, which ends at index `n`.
copy_in-fits :
    (dst : Buffer) (i max n : ℕ) (cs : List ℕ)
    → i + length cs ≡ n
    → n < max
    → (b : Buffer) × (copy_in dst i max cs ≡ ([], (n, b)))
      × Holds (put b n 0) i cs
      × ((j : ℕ) → j < i → b j ≡ dst j)
unfolding copy_in
copy_in-fits dst i max n [] e lt =
    let z : i ≡ n = omega (arith, e) in rw z (dst, refl, rw ==_refl refl, λ j lt. refl)
copy_in-fits dst i max n (c ∷ cs) e lt =
    let (b, f, h, same) = copy_in-fits (put dst i c) (suc i) max n cs (omega (arith, e)) lt in
    let t : ltb i (max - 1) ≡ true = ground arith in
    rw t (
      b,
      f,
      (rw (==_ne i n (λ k. omega (arith, e))) (same i (omega arith) ∙ rw ==_refl refl), h),
      λ j lt. same j (omega arith) ∙ rw (==_ne j i (λ k. omega arith)) refl,
    )

-- The copying loop on a text whose first part fills the buffer: what it has copied and what is left.
copy_in-stops :
    (dst : Buffer) (i : ℕ) (head : List ℕ) (c : ℕ) (rest : List ℕ)
    → i + length head ≡ 63
    → (n : ℕ) × (b : Buffer) × (copy_in dst i cwd_size (head ++ c ∷ rest) ≡ (c ∷ rest, (n, b)))
      × ((j : ℕ) → j < i → b j ≡ dst j)
      × ((j : ℕ) → j < length head → b (i + j) ≡ get_or head j 0)
unfolding copy_in
copy_in-stops dst i [] c rest e =
    let t : ltb i 63 ≡ false = ground arith in
    rw t (i, dst, refl, λ j lt. refl, λ j lt. absurd (omega arith))
copy_in-stops dst i (d ∷ ds) c rest e =
    let (n, b, f, same, got) = copy_in-stops (put dst i d) (suc i) ds c rest (omega (arith, e)) in
    let t : ltb i 63 ≡ true = ground arith in
    let first : b i ≡ d = same i (omega arith) ∙ rw ==_refl refl in
    rw t (
      n,
      b,
      f,
      λ j lt. same j (omega arith) ∙ rw (==_ne j i (λ k. omega arith)) refl,
      λ j lt. at_ b first got j lt,
    )
  where
    at_ :
        (b : Buffer)
        → b i ≡ d
        → ((j : ℕ) → j < length ds → b (suc i + j) ≡ get_or ds j 0)
        → (j : ℕ) → j < suc (length ds)
        → b (i + j) ≡ get_or (d ∷ ds) j 0
    at_ b first got zero lt = let z : i + 0 ≡ i = omega arith in rw z first
    at_ b first got (suc j) lt =
        let z : i + suc j ≡ suc i + j = omega arith in rw z (got j (omega arith))

-- A path that fits, with its NUL, is stored: the buffer then holds exactly it.
pub cwd_set-Holds :
    (dst : Buffer) (abs : List ℕ)
    → length abs < cwd_size
    → ((cwd_set dst abs).0 ≡ true) × Holds (cwd_set dst abs).1 0 abs
unfolding cwd_set
cwd_set-Holds dst abs lt =
    let z : 0 + length abs ≡ length abs = omega arith in
    let (b, e, h, same) = copy_in-fits dst 0 cwd_size (length abs) abs z lt in rw e (refl, h)

-- A path that does not fit is refused, but its first 63 characters have replaced those of the
-- directory that was set before.
pub cwd_set-refused :
    (dst : Buffer) (head : List ℕ) (c : ℕ) (rest : List ℕ) (j : ℕ)
    → length head ≡ 63
    → j < 63
    → ((cwd_set dst (head ++ c ∷ rest)).0 ≡ false)
      × ((cwd_set dst (head ++ c ∷ rest)).1 j ≡ get_or head j 0)
unfolding cwd_set
cwd_set-refused dst head c rest j e lt =
    let z : 0 + length head ≡ 63 = omega (arith, e) in
    let (n, b, f, same, got) = copy_in-stops dst 0 head c rest z in
    let at_ : b (0 + j) ≡ get_or head j 0 = got j (omega (arith, e)) in
    let y : 0 + j ≡ j = omega arith in rw f (refl, rw y at at_)
