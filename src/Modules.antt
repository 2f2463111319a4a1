-- ===== src/Modules.antt =====
-- kernel/moddir.c: the directory of modules. A module's header is named by its address, and its fields
-- are a parameter; a name is a buffer of characters that a 0 ends. The modules of the image in flash,
-- in the order in which kernel/flashmod.c finds them, are a list.
pub mod Names
pub mod Distinct
pub mod Superseded
pub mod Links
pub mod Tables
use ubiqos.Common.{
  ltb, leb, ◌==◌, if◌then◌else◌, has_some, length, put, first_slot, ℕ, zero, suc, ◌+◌, ◌-◌, ◌%◌,
  ◌^◌, Bool, true, false, not, ◌&&◌, ◌||◌, Option, none, some, List, [], ◌∷◌, ◌++◌,
}

-- UBIQOS_MAX_MODULES
abbrev pub max_modules : ℕ
max_modules = 32

-- UBIQOS_NAME_LEN
abbrev pub name_len : ℕ
name_len = 16

abbrev pub Name : Type 0
Name = ℕ → ℕ

pub record ModuleEntry : Type 0 where
  pub header : ℕ
  pub links : ℕ
  pub owned : Option ℕ
  pub name : Name
  pub transient : Bool

-- `freed` is what was given back to its pool, in order.
pub record Directory : Type 0 where
  pub modules : ℕ → ModuleEntry
  pub module_count : ℕ
  pub freed : List ℕ

pub record FlashModule : Type 0 where
  pub at_address : ℕ
  pub title : Name

-- What the directory reads of a header.
pub record Header : Type 0 where
  pub revision : ℕ
  pub kind : ℕ
  pub needs_copy : Bool
  pub exec_offset : ℕ

-- Eleven characters, whatever they are.
unfoldable pub same_below : ℕ → Name → Name → Bool
same_below zero a b = true
same_below (suc n) a b = same_below n a b && (a n == b n)

abbrev pub name_eq : Name → Name → Bool
name_eq a b = same_below 11 a b

-- The strings from index `i` on; `n` characters suffice where one of them ends within `n`.
unfoldable pub same_text : ℕ → ℕ → Name → Name → Bool
same_text zero i a b = false
same_text (suc n) i a b =
    let rest = same_text n (suc i) a b in
    if a i == 0 then b i == 0 else if a i == b i then rest else false

abbrev pub text_eq : Name → Name → Bool
text_eq a b = same_text name_len 0 a b

abbrev pub lower : ℕ → ℕ
lower c = if leb 65 c && leb c 90 then c + 32 else c

unfoldable pub same_text_ci : ℕ → ℕ → Name → Name → Bool
same_text_ci zero i a b = false
same_text_ci (suc n) i a b =
    let rest = same_text_ci n (suc i) a b in
    if a i == 0 then b i == 0 else if lower (a i) == lower (b i) then rest else false

abbrev pub name_eq_ci : Name → Name → Bool
name_eq_ci a b = same_text_ci name_len 0 a b

-- The loop from index `i` on, with room for `n` characters and the 0. What lies behind it stays.
unfoldable pub copy_chars : ℕ → ℕ → Name → Name → Name
copy_chars zero i to from = put to i 0
copy_chars (suc n) i to from =
    let rest = copy_chars n (suc i) (put to i (from i)) from in
    if from i == 0 then put to i 0 else rest

abbrev pub name_copy : Name → Name → Name
name_copy to from = copy_chars 15 0 to from

unfoldable pub moddir_init : Directory → Directory
moddir_init d = record d { module_count = 0 }

unfoldable pub index_of : Directory → (ModuleEntry → Bool) → Option ℕ
unfolding first_slot
index_of d test = first_slot d.module_count (λ i. test (d.modules i)) 0

unfoldable pub entry_named : Directory → Name → Option ℕ
unfolding index_of same_text
entry_named d name = index_of d (λ e. text_eq e.name name)

unfoldable pub give_back : Directory → Option ℕ → Directory
give_back d none = d
give_back d (some image) = record d { freed = d.freed ++ image ∷ [] }

-- The entry goes, its image with it, and the last one closes the gap.
unfoldable pub drop_entry : Directory → ℕ → Directory
unfolding give_back
drop_entry d i =
    let k = give_back d (d.modules i).owned in
    record k {
      modules = put k.modules i (k.modules (k.module_count - 1));
      module_count = k.module_count - 1;
    }

-- An entry behind the last, or none where the directory is full.
unfoldable pub alloc_entry : Directory → Option ℕ
alloc_entry d = if leb max_modules d.module_count then none else some d.module_count

-- The entry is filled and then counted.
unfoldable pub fill_entry : Directory → ℕ → ℕ → Option ℕ → Bool → Name → Directory
unfolding copy_chars
fill_entry d i header owned transient name = record d {
  modules = put d.modules i (record {
    header = header;
    links = 0;
    owned = owned;
    name = name_copy (d.modules i).name name;
    transient = transient;
  });
  module_count = d.module_count + 1;
}

abbrev pub blank : Name
blank i = 0

-- The name that the image gives for a module.
abbrev pub flash_name : FlashModule → Name
flash_name m = name_copy blank m.title

unfoldable pub flash_lookup : List FlashModule → Name → Option ℕ
unfolding same_text copy_chars
flash_lookup [] name = none
flash_lookup (m ∷ ms) name =
    let rest = flash_lookup ms name in
    if text_eq (flash_name m) name then some m.at_address else rest

-- The first in the image whose name is the user's, in either case.
unfoldable pub flash_match : List FlashModule → Name → Option Name
unfolding same_text_ci copy_chars
flash_match [] name = none
flash_match (m ∷ ms) name =
    let rest = flash_match ms name in
    if name_eq_ci (flash_name m) name then some (flash_name m) else rest

module _ (header_at : ℕ → Header) (is_valid : ℕ → Bool) (flash : List FlashModule) where
  -- A copy from the card must beat the one in flash.
  unfoldable pub beats_flash : ℕ → Option ℕ → Bool
  beats_flash fresh none = true
  beats_flash fresh (some f) = ltb (header_at f).revision (header_at fresh).revision

  unfoldable pub supersedes_at : Directory → ℕ → Name → Bool → Option ℕ → Bool × Directory
  unfolding beats_flash flash_lookup drop_entry
  supersedes_at d fresh name from_card none =
      ((if from_card then beats_flash fresh (flash_lookup flash name) else true), d)
  supersedes_at d fresh name from_card (some i) =
      let old = d.modules i in
      let newer = (header_at fresh).revision in
      let older = (header_at old.header).revision in
      if (has_some old.owned && newer == older) || leb newer older || not (old.links == 0)
      then (false, d)
      else (true, drop_entry d i)

  unfoldable pub supersedes : Directory → ℕ → Name → Bool → Bool × Directory
  unfolding supersedes_at entry_named
  supersedes d fresh name from_card = supersedes_at d fresh name from_card (entry_named d name)

  unfoldable pub add_at : Directory → ℕ → Option ℕ → Name → Option ℕ → Bool × Directory
  unfolding fill_entry
  add_at d header owned name none = (false, d)
  add_at d header owned name (some i) = (true, fill_entry d i header owned false name)

  unfoldable pub add_module : Directory → ℕ → Option ℕ → Name → Bool → Bool × Directory
  unfolding add_at supersedes alloc_entry
  add_module d header owned name from_card =
      let s = supersedes d header name from_card in
      if is_valid header
      then (if s.0 then add_at s.1 header owned name (alloc_entry s.1) else (false, s.1))
      else (false, d)

  unfoldable pub add_resident : Directory → ℕ → Name → Bool × Directory
  unfolding add_module
  add_resident d header name = add_module d header none name false

  unfoldable pub add_image : Directory → ℕ → Name → Bool × Directory
  unfolding add_module
  add_image d image name = add_module d image (some image) name true

  unfoldable pub adopt_at : Directory → Name → Option ℕ → Option ℕ → Option ℕ × Directory
  unfolding fill_entry
  adopt_at d name none slot = (none, d)
  adopt_at d name (some m) none = (none, d)
  adopt_at d name (some m) (some i) = (some i, fill_entry d i m none true name)

  unfoldable pub adopt_from_flash : Directory → Name → Option ℕ × Directory
  unfolding adopt_at alloc_entry flash_lookup
  adopt_from_flash d name = adopt_at d name (flash_lookup flash name) (alloc_entry d)

  unfoldable pub match_flash : Directory → Option Name → Option ℕ × Directory
  unfolding adopt_from_flash
  match_flash d none = (none, d)
  match_flash d (some name) = adopt_from_flash d name

  -- The entry of a name that a user typed.
  unfoldable pub moddir_match : Directory → Name → Option ℕ × Directory
  unfolding match_flash flash_match index_of same_text_ci
  moddir_match d user_name = elim (index_of d (λ e. name_eq_ci e.name user_name)) [
    | some i ↦ (some i, d)
    | none ↦ match_flash d (flash_match flash user_name)
  ]

  -- One more process runs the module of the entry.
  unfoldable pub add_link : Directory → Option ℕ → Option ℕ × Directory
  add_link d none = (none, d)
  add_link d (some i) = (
    some (d.modules i).header,
    record d {
      modules =
          put d.modules i (record (d.modules i) { links = ((d.modules i).links + 1) % 2 ^ 32 });
    },
  )

  unfoldable pub moddir_link : Directory → Name → Option ℕ × Directory
  unfolding add_link adopt_from_flash index_of same_below
  moddir_link d name = elim (index_of d (λ e. name_eq e.name name)) [
    | some i ↦ add_link d (some i)
    | none ↦ let a = adopt_from_flash d name in add_link a.1 a.0
  ]

  -- How many modules there are, with those of the image that have no entry.
  unfoldable pub unregistered : Directory → List FlashModule → List FlashModule
  unfolding entry_named copy_chars
  unregistered d [] = []
  unregistered d (m ∷ ms) =
      let rest = unregistered d ms in
      if has_some (entry_named d (flash_name m)) then rest else m ∷ rest

  unfoldable pub moddir_count : Directory → ℕ
  unfolding unregistered
  moddir_count d = d.module_count + length (unregistered d flash)

abbrev pub fewer_links : ModuleEntry → ModuleEntry
fewer_links e = record e { links = e.links - 1 }

unfoldable pub unlink_at : Directory → Option ℕ → Directory
unfolding drop_entry
unlink_at d none = d
unlink_at d (some i) =
    let k : Directory = record d { modules = put d.modules i (fewer_links (d.modules i)) } in
    if (k.modules i).links == 0 then drop_entry k i else k

unfoldable pub moddir_unlink : Directory → ℕ → Directory
unfolding unlink_at index_of
moddir_unlink d header = unlink_at d (index_of d (λ e. e.header == header))
