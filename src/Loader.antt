-- ===== src/Loader.antt =====
-- kernel/scheduler.c: relocate_image and its two helpers. An image is its bytes as a function from
-- their index. The masks and shifts of the source are divisions and remainders by powers of two, and
-- an `or` of parts that share no bit is a sum.
pub mod Words
use ubiqos.Common.{ltb, ◌==◌, if◌then◌else◌, put, for_below, ℕ, ◌+◌, ◌*◌, ◌/◌, ◌%◌, ◌^◌}

abbrev pub reloc_abs32 : ℕ
reloc_abs32 = 0

abbrev pub reloc_hi20 : ℕ
reloc_hi20 = 1

abbrev pub reloc_lo12_i : ℕ
reloc_lo12_i = 2

abbrev pub reloc_lo12_s : ℕ
reloc_lo12_s = 3

unfoldable pub reloc_get32 : (ℕ → ℕ) → ℕ → ℕ
reloc_get32 p a = p a + p (a + 1) * 2 ^ 8 + p (a + 2) * 2 ^ 16 + p (a + 3) * 2 ^ 24

unfoldable pub reloc_put32 : (ℕ → ℕ) → ℕ → ℕ → ℕ → ℕ
reloc_put32 p a v =
    put (put (put (put p a (v % 2 ^ 8)) (a + 1) (v / 2 ^ 8 % 2 ^ 8)) (a + 2) (v / 2 ^ 16 % 2 ^ 8))
      (a + 3) (v / 2 ^ 24 % 2 ^ 8)

-- (w & 0xfff) | ((v + 0x800) & 0xfffff000)
unfoldable pub hi20 : ℕ → ℕ → ℕ
hi20 w v = w % 2 ^ 12 + (v + 2048) % 2 ^ 32 / 2 ^ 12 * 2 ^ 12

-- (w & 0xfffff) | ((v & 0xfff) << 20)
unfoldable pub lo12_i : ℕ → ℕ → ℕ
lo12_i w v = w % 2 ^ 20 + v % 2 ^ 12 * 2 ^ 20

-- (w & ~0xfe000f80) | ((lo >> 5) << 25) | ((lo & 0x1f) << 7)
unfoldable pub lo12_s : ℕ → ℕ → ℕ
lo12_s w v =
    let lo = v % 2 ^ 12 in
    w % 2 ^ 7 + w / 2 ^ 12 % 2 ^ 13 * 2 ^ 12 + lo / 2 ^ 5 * 2 ^ 25 + lo % 2 ^ 5 * 2 ^ 7

-- The word that a relocation of the kind puts in place of `w`; an unknown kind changes nothing.
unfoldable pub patched : ℕ → ℕ → ℕ → ℕ
unfolding hi20 lo12_i lo12_s
patched kind w v =
    if kind == reloc_abs32
    then v
    else if kind == reloc_hi20
    then hi20 w v
    else if kind == reloc_lo12_i
    then lo12_i w v
    else lo12_s w v

-- One entry of the table: its kind and place, and the offset of its target.
unfoldable pub relocate_entry : (ℕ → ℕ) → ℕ → ℕ → (ℕ → ℕ) → ℕ → ℕ
unfolding reloc_get32 reloc_put32 patched
relocate_entry table base i image =
    let w0 = reloc_get32 table (i * 8) in
    let v = (base + reloc_get32 table (i * 8 + 4)) % 2 ^ 32 in
    let place = w0 % 2 ^ 28 in
    let kind = w0 / 2 ^ 28 in
    if ltb reloc_lo12_s kind
    then image
    else reloc_put32 image place (patched kind (reloc_get32 image place) v)

unfoldable pub relocate_image : (ℕ → ℕ) → (ℕ → ℕ) → ℕ → ℕ → ℕ → ℕ
unfolding relocate_entry
relocate_image image table base count = for_below count (relocate_entry table base) image
