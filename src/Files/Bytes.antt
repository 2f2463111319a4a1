-- ===== src/Files/Bytes.antt =====
-- kernel/tmpfs.c: the bytes of a file after the loops of `tmp_write_at`, and the room that `reserve`
-- makes.
use ubiqos.Common.{
  ltb, leb, if◌then◌else◌, lt→ltb, ==_ne, length, get_or, put, ℕ, zero, suc, ◌+◌, ◌-◌, ◌*◌, ◌%◌,
  ◌^◌, ◌≤◌, ◌<◌, ◌≡◌, refl, sym, ap, ◌∙◌, subst, false, ◌&&◌, List, [], ◌∷◌, arith, dec_lt,
  ℕ_discrete,
}
use native.Mathlib.Nat.{pow-succ', mul_assoc}
use ubiqos.Files.{zero_gap, write_bytes, read_bytes, doubled}

pub zero_gap-at :
    (d : ℕ → ℕ) (i n j : ℕ) → zero_gap d i n j ≡ (if leb i j && ltb j (i + n) then 0 else d j)
unfolding zero_gap
zero_gap-at d i zero j = ground arith
zero_gap-at d i (suc n) j = zero_gap-at (put d i 0) (suc i) n j ∙ ground arith

pub write_bytes-at :
    (d : ℕ → ℕ) (offset i : ℕ) (buf : List ℕ) (j : ℕ)
    → offset + i + length buf < 2 ^ 32
    → write_bytes d offset i buf j ≡ (
        if leb (offset + i) j && ltb j (offset + i + length buf)
        then get_or buf (j - (offset + i)) 0
        else d j)
unfolding write_bytes
write_bytes-at d offset i [] j small = ground arith
write_bytes-at d offset i (b ∷ bs) j small =
    write_bytes-at (put d ((offset + i) % 2 ^ 32) b) offset (suc i) bs j (omega arith) ∙ step
  where
    step :
        (if leb (offset + suc i) j && ltb j (offset + suc i + length bs)
          then get_or bs (j - (offset + suc i)) 0
          else put d ((offset + i) % 2 ^ 32) b j)
        ≡ (if leb (offset + i) j && ltb j (offset + i + suc (length bs))
            then get_or (b ∷ bs) (j - (offset + i)) 0
            else d j)
    step =
        let e : (offset + i) % 2 ^ 32 ≡ offset + i = omega arith in
        rw e (elim (ℕ_discrete j (offset + i)) [
          | yes k ↦ let z : j - (offset + i) ≡ 0 = omega arith in rw z (ground arith)
          | no ne ↦ rw (==_ne j (offset + i) ne) (elim (dec_lt (offset + i) j) [
            | yes lt ↦
                let z : j - (offset + i) ≡ suc (j - (offset + suc i)) = omega arith in
                rw z (ground arith)
            | no ge ↦ ground arith
          ])
        ])

pub read_bytes-of :
    (d : ℕ → ℕ) (offset : ℕ) (buf : List ℕ)
    → ((k : ℕ) → k < length buf → d (offset + k) ≡ get_or buf k 0)
    → read_bytes d offset (length buf) ≡ buf
unfolding read_bytes
read_bytes-of d offset [] h = refl
read_bytes-of d offset (b ∷ bs) h =
    rw (read_bytes-of d (suc offset) bs (λ k lt. h' k lt), first) refl
  where
    first : d offset ≡ b
    first = let e : offset + 0 ≡ offset = omega arith in subst (λ o. d o ≡ b) e (h 0 (omega arith))

    h' : (k : ℕ) → k < length bs → d (suc offset + k) ≡ get_or bs k 0
    h' k lt =
        let e : offset + suc k ≡ suc offset + k = omega arith in
        subst (λ o. d o ≡ get_or bs k 0) e (h (suc k) (omega arith))

-- Doubling reaches what is needed.
pub doubled-reaches :
    (fuel cap need : ℕ) → need ≤ 2 ^ 31 → need ≤ cap * 2 ^ fuel → need ≤ doubled fuel cap need
unfolding doubled
doubled-reaches zero cap need small enough = omega (arith, enough)
doubled-reaches (suc fuel) cap need small enough = elim (dec_lt cap need) [
  | yes lt ↦
      let e : (cap * 2) % 2 ^ 32 ≡ cap * 2 = omega arith in
      rw (lt→ltb cap need lt) (rw e (doubled-reaches fuel (cap * 2) need small (grown enough)))
  | no ge ↦ let e : ltb cap need ≡ false = ground arith in rw e (omega arith)
]
  where
    grown : need ≤ cap * 2 ^ suc fuel → need ≤ cap * 2 * 2 ^ fuel
    grown h =
        subst (λ t. need ≤ t) (ap (◌*◌ cap) (pow-succ' 2 fuel) ∙ sym (mul_assoc cap 2 (2 ^ fuel))) h

-- The loop that doubles the capacity of a file ends within 32 rounds: from any capacity but 0, and for
-- a need of at most 2^31, the capacity that is reached then is not below the need.
pub doubled-ends : (cap need : ℕ) → 0 < cap → need ≤ 2 ^ 31 → ltb (doubled 32 cap need) need ≡ false
doubled-ends cap need some_ small =
    let r = doubled-reaches 32 cap need small (omega (arith, some_, small)) in ground arith
