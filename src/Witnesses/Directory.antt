-- ===== src/Witnesses/Directory.antt =====
-- A concrete directory of modules, and each theorem on kernel/moddir.c at it.
use ubiqos.Common.{
  ltb, ◌==◌, get_or, first_slot, ℕ, ◌≡◌, refl, Bool, true, false, ◌&&◌, Option, none, some, List,
  [], ◌∷◌, arith,
}
use ubiqos.Modules.{
  Name, Directory, Header, FlashModule, same_text, same_below, copy_chars, index_of, entry_named,
  flash_lookup, add_module, moddir_link, moddir_unlink,
}
use ubiqos.Modules.Distinct.{IsDirectory}
use ubiqos.Modules.Superseded.{Added, add_module-Added, add_module-revision}
use ubiqos.Modules.Links.{IsApart, IsSame, link-unlink, adopt-unlink}
use ubiqos.Modules.Tables.{type_driver, link_table, link_table-refused}

-- A library whose revision is its address.
abbrev header_at : ℕ → Header
header_at h = record { revision = h; kind = 4; needs_copy = false; exec_offset = 64 }

abbrev all_valid : ℕ → Bool
all_valid h = true

abbrev text : List ℕ → Name
text cs i = get_or cs i 0

-- "sh" and "ls"
abbrev sh : Name
sh = text (115 ∷ 104 ∷ [])

abbrev ls : Name
ls = text (108 ∷ 115 ∷ [])

-- The image holds ls at 300.
abbrev image : List FlashModule
image = record { at_address = 300; title = ls } ∷ []

-- The directory holds sh at 100, which two processes use.
abbrev shell : Directory
shell = record {
  modules = λ i. record { header = 100; links = 2; owned = none; name = sh; transient = false };
  module_count = 1;
  freed = [];
}

abbrev no_copy : ℕ → Option (ℕ × Option ℕ)
no_copy h = none

shell-IsDirectory : IsDirectory shell
shell-IsDirectory = record {
  room = omega arith;
  distinct = λ i j li lj ne. absurd (ne (omega (arith, li, lj)));
}

shell-IsApart : IsApart shell
shell-IsApart i j li lj ne = absurd (ne (omega (arith, li, lj)))

add_module-Added_example :
    let r = add_module header_at all_valid image shell 400 (some 400) ls true in
    IsDirectory r.1 × Added shell 400 (some 400) ls r.0 r.1
add_module-Added_example =
    add_module-Added header_at all_valid image shell 400 (some 400) ls 2 true (omega arith, refl)
      shell-IsDirectory

add_module-revision_example :
    (add_module header_at all_valid image shell 200 (some 200) sh true).0
    ≡ (all_valid 200 && (ltb 100 200 && (2 == 0)))
unfolding entry_named index_of first_slot same_text
add_module-revision_example =
    add_module-revision header_at all_valid image shell 200 (some 200) sh true 0 (omega arith) refl

link-unlink_example :
    let r = moddir_link header_at all_valid image shell sh in
    (r.0 ≡ some 100) × IsSame shell (moddir_unlink r.1 100)
unfolding index_of first_slot same_below
link-unlink_example =
    link-unlink header_at all_valid image shell sh 0 refl shell-IsApart (omega arith) (omega arith)

adopt-unlink_example :
    let r = moddir_link header_at all_valid image shell ls in
    (r.0 ≡ some 300) × IsSame shell (moddir_unlink r.1 300)
unfolding index_of first_slot same_below flash_lookup same_text copy_chars
adopt-unlink_example =
    adopt-unlink header_at all_valid image shell ls 300 refl refl (omega arith)
      (λ j lt e. omega (arith, e))

link_table-refused_example :
    IsSame shell (link_table header_at all_valid image no_copy shell sh type_driver).1
unfolding index_of first_slot same_below link_table
link_table-refused_example =
    link_table-refused header_at all_valid image no_copy shell sh type_driver 0 refl shell-IsApart
      (omega arith) (omega arith) refl
