-- ===== src/Witnesses/Files.antt =====
-- A concrete allocator and table of files, and each theorem on kernel/tmpfs.c at them.
use ubiqos.Common.{
  ltb, leb, if◌then◌else◌, ==_ne, Bool-cases, get_or, put, ℕ, ◌+◌, ◌≤◌, ◌≡◌, refl, sym, ap, ◌∙◌,
  subst, ◌≢◌, inl, inr, true, false, Option, none, some, List, [], ◌∷◌, arith, ℕ_discrete,
}
use ubiqos.Common.Int.{pos, failed}
use mathlib.Core.Option.{some-injective}
use ubiqos.Files.{
  Block, TmpFile, FileTable, name_eq, leaf, leaf_of, has_slash, find, find_leaf, first_from, create,
  create_leaf, create_at, doubled, reserve, retry, tmp_read_at, tmp_write_at, write_found, write_in,
  write_created, write_reserved, tmp_rename, rename_leaf, rename_over, remove_found, is_named,
}
use ubiqos.Files.Bytes.{doubled-ends}
use ubiqos.Files.Write.{IsSound, Holds, Keeps, Grants, reserve-Keeps}
use ubiqos.Files.Read.{tmp_write_at-read}
use ubiqos.Files.Others.{tmp_write_at-other}
use ubiqos.Files.Rename.{IsUnique, tmp_rename-read}

-- Blocks of up to 64 KB, one after the other, full of what was there before.
abbrev malloc : ℕ → ℕ → Option (Block × ℕ)
malloc h size =
    if leb size 65536
    then some (record { address = h; room = size; bytes = λ _. 165 }, h + size)
    else none

abbrev release : ℕ → ℕ → ℕ
release h address = h

abbrev two_bytes : Block
two_bytes = record { address = 4096; room = 1024; bytes = λ j. j + 10 }

-- The file /a of two bytes.
abbrev file_a : TmpFile
file_a = record { name = 97 ∷ []; contents = some two_bytes; size = 2; cap = 1024; used = true }

abbrev no_file : TmpFile
no_file = record { name = []; contents = none; size = 0; cap = 0; used = false }

abbrev one_file : FileTable
one_file = put (λ _. no_file) 3 file_a

abbrev path_a : Option (List ℕ)
path_a = some (47 ∷ 97 ∷ [])

abbrev path_b : Option (List ℕ)
path_b = some (47 ∷ 98 ∷ [])

one_file-IsSound : (i : ℕ) → IsSound (one_file i)
one_file-IsSound i e = elim (ℕ_discrete i 3) [
  | yes k ↦ cc (rw k at e)
  | no k ↦ rw (==_ne i 3 k) refl
]

only_third : (n : List ℕ) (i : ℕ) → is_named n (one_file i) ≡ true → i ≡ 3
only_third n i h = elim (ℕ_discrete i 3) [ yes k ↦ k | no k ↦ cc (rw (==_ne i 3 k) at h) ]

one_file-IsUnique : IsUnique one_file
one_file-IsUnique n i j li lj hi hj = only_third n i hi ∙ sym (only_third n j hj)

abbrev name_a : List ℕ
name_a = 97 ∷ []

abbrev name_b : List ℕ
name_b = 98 ∷ []

differ : name_a ≢ name_b
differ e =
    let h : get_or name_a 0 0 ≡ get_or name_b 0 0 = ap (λ l. get_or l 0 0) e in omega (arith, h)

abbrev grown : Option (TmpFile × ℕ)
grown = reserve malloc release 0 file_a 3000

abbrev grown_file : TmpFile × ℕ
grown_file = elim grown [ none ↦ (no_file, 0) | some r ↦ r ]

malloc-Grants : Grants malloc release
malloc-Grants h n b e = elim (Bool-cases (leb n 65536)) [
  | inl c ↦ subst (λ b. n ≤ b.0.room) (some-injective _ _ (rw c at e)) (omega arith)
  | inr c ↦ cc (rw c at e)
]

file_a-Holds : Holds file_a
file_a-Holds b e = subst (λ b. 1024 ≤ b.room) (some-injective _ _ e) (omega arith)

reserve-Keeps_example :
    Keeps malloc release file_a grown_file.0
    × (3000 ≤ grown_file.0.cap)
    × IsSound grown_file.0
    × Holds grown_file.0
unfolding reserve retry doubled
reserve-Keeps_example =
    reserve-Keeps malloc release 0 file_a 3000 grown_file malloc-Grants (λ e. cc) file_a-Holds
      (omega arith) refl

tmp_write_at-read_example :
    tmp_read_at (tmp_write_at malloc release 0 one_file path_b 1500 (7 ∷ 8 ∷ [])).1.0 path_b 1500 2
    ≡ (pos 2, 7 ∷ 8 ∷ [])
unfolding tmp_write_at write_found write_created write_in write_reserved create create_leaf
    create_at find find_leaf leaf leaf_of has_slash first_from name_eq reserve retry doubled
tmp_write_at-read_example =
    tmp_write_at-read malloc release 0 one_file path_b 1500 (7 ∷ 8 ∷ []) one_file-IsSound
      (omega arith) refl

tmp_write_at-other_example :
    tmp_read_at (tmp_write_at malloc release 0 one_file path_b 1500 (7 ∷ 8 ∷ [])).1.0 path_a 0 9
    ≡ tmp_read_at one_file path_a 0 9
unfolding leaf leaf_of has_slash
tmp_write_at-other_example =
    tmp_write_at-other malloc release 0 one_file path_b path_a (98 ∷ []) (97 ∷ []) 1500 (7 ∷ 8 ∷ [])
      0 9 one_file-IsSound (omega arith) refl refl (λ e. differ (sym e))

tmp_rename-read_example :
    (tmp_read_at (tmp_rename malloc release 0 one_file path_a path_b).1.0 path_b 0 9
      ≡ tmp_read_at one_file path_a 0 9)
    × (tmp_read_at (tmp_rename malloc release 0 one_file path_a path_b).1.0 path_a 0 9
        ≡ (failed, []))
unfolding leaf leaf_of has_slash tmp_rename rename_leaf rename_over remove_found find find_leaf
    first_from name_eq
tmp_rename-read_example =
    tmp_rename-read malloc release 0 one_file path_a path_b (97 ∷ []) (98 ∷ []) 0 9
      one_file-IsUnique refl refl differ refl

doubled-ends_example : ltb (doubled 32 512 5000) 5000 ≡ false
doubled-ends_example = doubled-ends 512 5000 (omega arith) (omega arith)
