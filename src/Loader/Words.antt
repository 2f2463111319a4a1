-- ===== src/Loader/Words.antt =====
-- kernel/scheduler.c: the words that a relocation writes, as the processor reads them.
use ubiqos.Common.{
  leb, ◌==◌, if◌then◌else◌, ==_refl, ==_ne, ℕ, ◌+◌, ◌-◌, ◌*◌, ◌/◌, ◌%◌, ◌^◌, ◌<◌, ◌≡◌, refl, ◌⊎◌,
  inl, inr, true, false, arith, dec_le,
}
use ubiqos.Loader.{reloc_get32, reloc_put32, hi20, lo12_i, lo12_s}

-- The value that a sign-extended 12-bit field adds to an address, modulo 2^32.
abbrev pub sext12 : ℕ → ℕ
sext12 x = if leb 2048 x then x + (2 ^ 32 - 2 ^ 12) else x

-- The immediate of a U-type, an I-type and an S-type instruction.
abbrev pub u_imm : ℕ → ℕ
u_imm w = w / 2 ^ 12 * 2 ^ 12

abbrev pub i_imm : ℕ → ℕ
i_imm w = w / 2 ^ 20

abbrev pub s_imm : ℕ → ℕ
s_imm w = w / 2 ^ 25 * 2 ^ 5 + w / 2 ^ 7 % 2 ^ 5

-- The upper half that a HI20 writes and the lower half that a LO12 writes, of either form, add up to
-- the address they are for, whatever instructions they are written into.
pub hi20-lo12 :
    (w x y v : ℕ)
    → v < 2 ^ 32
    → ((u_imm (hi20 w v) + sext12 (i_imm (lo12_i x v))) % 2 ^ 32 ≡ v)
      × ((u_imm (hi20 w v) + sext12 (s_imm (lo12_s y v))) % 2 ^ 32 ≡ v)
unfolding hi20 lo12_i lo12_s
hi20-lo12 w x y v lt = (add_up, rw s_field add_up)
  where
    s_field : s_imm (lo12_s y v) ≡ i_imm (lo12_i x v)
    s_field = omega arith

    low : i_imm (lo12_i x v) ≡ v % 2 ^ 12
    low = omega arith

    high : u_imm (hi20 w v) ≡ (v + 2048) % 2 ^ 32 / 2 ^ 12 * 2 ^ 12
    high = omega arith

    add_up : (u_imm (hi20 w v) + sext12 (i_imm (lo12_i x v))) % 2 ^ 32 ≡ v
    add_up =
        rw (low, high)
          (elim (dec_le 2048 (v % 2 ^ 12)) [
            | yes le ↦ let t : leb 2048 (v % 2 ^ 12) ≡ true = ground arith in rw t (omega arith)
            | no gt ↦ let t : leb 2048 (v % 2 ^ 12) ≡ false = ground arith in rw t (omega arith)
          ])

-- A relocation leaves what is not its field: opcode and register of a U-type and of an I-type, and
-- opcode, function and both registers of an S-type instruction.
pub relocated-fields :
    (w v : ℕ)
    → w < 2 ^ 32
    → (hi20 w v % 2 ^ 12 ≡ w % 2 ^ 12)
      × (lo12_i w v % 2 ^ 20 ≡ w % 2 ^ 20)
      × (lo12_s w v % 2 ^ 7 ≡ w % 2 ^ 7)
      × (lo12_s w v / 2 ^ 12 % 2 ^ 13 ≡ w / 2 ^ 12 % 2 ^ 13)
unfolding hi20 lo12_i lo12_s
relocated-fields w v lt = (omega arith, omega arith, omega arith, omega arith)

-- A word that is written is the word that is read at the same place, and the bytes outside of its
-- four are as before.
pub get32-put32 :
    (p : ℕ → ℕ) (a v b : ℕ)
    → v < 2 ^ 32
    → (b < a) ⊎ (a + 3 < b)
    → (reloc_get32 (reloc_put32 p a v) a ≡ v) × (reloc_put32 p a v b ≡ p b)
unfolding reloc_get32 reloc_put32
get32-put32 p a v b lt out = (read_back, outside out)
  where
    ne : (i j : ℕ) → i < j → (a + i == a + j) ≡ false
    ne i j h = ==_ne (a + i) (a + j) (λ e. omega arith)

    first : (i : ℕ) → 0 < i → (a == a + i) ≡ false
    first i h = ==_ne a (a + i) (λ e. omega arith)

    read_back : reloc_get32 (reloc_put32 p a v) a ≡ v
    read_back =
        rw
          (
            first 3 (omega arith),
            first 2 (omega arith),
            first 1 (omega arith),
            ne 1 3 (omega arith),
            ne 1 2 (omega arith),
            ne 2 3 (omega arith),
            ==_refl a,
            ==_refl (a + 1),
            ==_refl (a + 2),
            ==_refl (a + 3),
          )
          (omega arith)

    outside : (b < a) ⊎ (a + 3 < b) → reloc_put32 p a v b ≡ p b
    outside (inl h) =
        rw
          (
            ==_ne b (a + 3) (λ e. omega arith),
            ==_ne b (a + 2) (λ e. omega arith),
            ==_ne b (a + 1) (λ e. omega arith),
            ==_ne b a (λ e. omega arith),
          )
          refl
    outside (inr h) =
        rw
          (
            ==_ne b (a + 3) (λ e. omega arith),
            ==_ne b (a + 2) (λ e. omega arith),
            ==_ne b (a + 1) (λ e. omega arith),
            ==_ne b a (λ e. omega arith),
          )
          refl
