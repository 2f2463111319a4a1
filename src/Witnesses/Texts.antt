-- ===== src/Witnesses/Texts.antt =====
-- Concrete words, directories and volumes, and each theorem on them at one.
use ubiqos.Common.{
  get_or, ℕ, zero, suc, ◌+◌, ◌%◌, ◌^◌, ◌≡◌, refl, true, false, some, List, [], ◌∷◌, ◌++◌, arith,
}
use ubiqos.Sched.Cwd.{Buffer, cwd_set}
use ubiqos.Sched.Cwd.Text.{cwd_set-refused}
use ubiqos.Loader.{hi20, lo12_i, lo12_s}
use ubiqos.Loader.Words.{sext12, u_imm, i_imm, s_imm, hi20-lo12}
use ubiqos.Files.{has_slash, name_eq}
use ubiqos.Common.Int.{pos}
use ubiqos.Clock.{WallClock}
use ubiqos.Var.{utc_line}
use ubiqos.Var.Decimal.{read_decimal, utc_line-reads}
use ubiqos.Volumes.{Volume, vfs_add, add_at, find_volume, vfs_split}
use ubiqos.Volumes.Mounts.{vfs_add-split}

abbrev blank : Buffer
blank _ = 0

abbrev repeat : ℕ → List ℕ
repeat zero = []
repeat (suc n) = 120 ∷ repeat n

cwd_set-refused_example :
    ((cwd_set blank (repeat 63 ++ 121 ∷ [])).0 ≡ false)
    × ((cwd_set blank (repeat 63 ++ 121 ∷ [])).1 5 ≡ get_or (repeat 63) 5 0)
cwd_set-refused_example = cwd_set-refused blank (repeat 63) 121 [] 5 refl (omega arith)

hi20-lo12_example :
    ((u_imm (hi20 0x537 0x20001abc) + sext12 (i_imm (lo12_i 0x50513 0x20001abc))) % 2 ^ 32
      ≡ 0x20001abc)
    × ((u_imm (hi20 0x537 0x20001abc) + sext12 (s_imm (lo12_s 0x52023 0x20001abc))) % 2 ^ 32
        ≡ 0x20001abc)
hi20-lo12_example = hi20-lo12 0x537 0x50513 0x52023 0x20001abc (omega arith)

abbrev volumes : List Volume
volumes = record { name = 100 ∷ []; ops = 1 } ∷ []

vfs_add-split_example :
    vfs_split (vfs_add volumes (116 ∷ []) 2).1 (some (47 ∷ (116 ∷ []) ++ 47 ∷ 112 ∷ []))
    ≡ some (2, 47 ∷ 112 ∷ [])
unfolding has_slash vfs_add add_at find_volume name_eq
vfs_add-split_example =
    vfs_add-split volumes (116 ∷ []) (112 ∷ []) 2 (λ e. cc) refl (omega arith) refl

-- The clock was set to 2026-01-01 at an uptime of one second, and stands an hour east.
abbrev clock : WallClock
clock = record { base_utc = 1767225600; base_us = 1000000; have_it = true; offset_min = pos 60 }

utc_line-reads_example : read_decimal 0 (utc_line true 1767225600 24) ≡ 1767225600
utc_line-reads_example = utc_line-reads 1767225600 24 (omega arith) (omega arith)
