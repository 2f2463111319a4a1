-- ===== src/Var/Decimal.antt =====
-- kernel/varfs.c: the numbers that the lines of /var hold.
use ubiqos.Common.{
  ltb, leb, ◌==◌, if◌then◌else◌, ==_ne, Bool-cases, All, ℕ, zero, suc, ◌+◌, ◌-◌, ◌*◌, ◌/◌, ◌%◌, ◌^◌,
  ◌≤◌, ◌<◌, ◌≡◌, refl, ◌∙◌, inl, inr, true, false, ◌&&◌, List, [], ◌∷◌, arith, ℕ_discrete,
}
use ubiqos.Var.{tmp_digits, backwards, decimal, utc_line, uptime_line}

-- A text read as a decimal number, behind a number read already, up to a character that is no digit.
abbrev pub read_decimal : ℕ → List ℕ → ℕ
read_decimal n [] = n
read_decimal n (c ∷ cs) =
    let rest = read_decimal (n * 10 + (c - 48)) cs in if leb 48 c && leb c 57 then rest else n

-- The number of digits that stand with the last first.
value_of : List ℕ → ℕ
value_of [] = 0
value_of (d ∷ ds) = value_of ds * 10 + (d - 48)

abbrev IsDigit : ℕ → Type 0
IsDigit d = (48 ≤ d) × (d ≤ 57)

backwards-read :
    (ds after : List ℕ)
    → All IsDigit ds
    → read_decimal 0 (backwards ds after) ≡ read_decimal (value_of ds) after
unfolding backwards value_of
backwards-read [] after h = refl
backwards-read (d ∷ ds) after h =
    let lo : leb 48 d ≡ true = ground arith in
    let hi : leb d 57 ≡ true = ground arith in backwards-read ds (d ∷ after) h.1 ∙ rw (lo, hi) refl

tmp_digits-IsDigit : (fuel v : ℕ) → All IsDigit (tmp_digits fuel v)
unfolding tmp_digits
tmp_digits-IsDigit zero v = tt
tmp_digits-IsDigit (suc fuel) v = elim (Bool-cases (v / 10 == 0)) [
  | inl e ↦ rw e ((omega arith, omega arith), tt)
  | inr e ↦ rw e ((omega arith, omega arith), tmp_digits-IsDigit fuel (v / 10))
]

tmp_digits-value : (fuel v : ℕ) → v < 10 ^ fuel → value_of (tmp_digits fuel v) ≡ v
unfolding tmp_digits value_of
tmp_digits-value zero v lt = omega (arith, lt)
tmp_digits-value (suc fuel) v lt = elim (ℕ_discrete (v / 10) 0) [
  | yes e ↦ rw e (omega (arith, e))
  | no ne ↦
      let i : value_of (tmp_digits fuel (v / 10)) ≡ v / 10 =
        tmp_digits-value fuel (v / 10) (omega (arith, lt)) in
      rw (==_ne (v / 10) 0 ne, i) (omega arith)
]

-- The line of /var/utc reads back as the second it was made for, when the clock is set and the line
-- has its room of at least 12 characters.
pub utc_line-reads :
    (utc cap : ℕ) → utc < 2 ^ 32 → 12 ≤ cap → read_decimal 0 (utc_line true utc cap) ≡ utc
unfolding utc_line decimal
utc_line-reads utc cap lt room =
    let t : ltb cap 12 ≡ false = ground arith in
    rw t (
      backwards-read (tmp_digits 10 utc) (10 ∷ []) (tmp_digits-IsDigit 10 utc)
      ∙ tmp_digits-value 10 utc (omega arith))

-- The line of /var/uptime reads, up to its point, as the whole seconds since the reset, for any
-- uptime of less than 2^32 seconds.
pub uptime_line-reads :
    (now_us cap : ℕ)
    → now_us / 1000000 < 2 ^ 32
    → 24 ≤ cap
    → read_decimal 0 (uptime_line now_us cap) ≡ now_us / 1000000
unfolding uptime_line decimal
uptime_line-reads now_us cap lt room =
    let t : ltb cap 24 ≡ false = ground arith in
    let s : now_us / 1000 / 1000 % 2 ^ 32 ≡ now_us / 1000000 = omega arith in
    rw (t, s)
      (backwards-read (tmp_digits 10 (now_us / 1000000)) _
          (tmp_digits-IsDigit 10 (now_us / 1000000))
        ∙ tmp_digits-value 10 (now_us / 1000000) (omega arith))
