-- ===== src/Modules/Tables.antt =====
-- kernel/moddir.c: the table of a library or of a driver, and the entry of a number. The copy that is
-- made for a module with data of its own, and the interface number that a table gives, are parameters.
use mathlib.Core.Option.{some-injective}
use ubiqos.Common.{
  ltb, ◌==◌, if◌then◌else◌, drop, ℕ, ◌+◌, ◌-◌, ◌^◌, ◌<◌, ◌≡◌, Bool, true, false, Option, none, some,
  List, [], ◌∷◌,
}
use ubiqos.Modules.{
  Name, ModuleEntry, Directory, Header, FlashModule, flash_name, name_copy, copy_chars,
  unregistered, moddir_link, moddir_unlink, name_eq, index_of,
}
use ubiqos.Modules.Links.{IsApart, IsSame, link-unlink}

-- UBIQOS_TYPE_LIBRARY and UBIQOS_TYPE_DRIVER
abbrev pub type_library : ℕ
type_library = 4

abbrev pub type_driver : ℕ
type_driver = 2

-- UBIQOS_LIB_ABI and UBIQOS_DRIVER_ABI
abbrev pub lib_abi : ℕ
lib_abi = 1

abbrev pub driver_abi : ℕ
driver_abi = 2

-- A table's address, if there is one, and the memory of its copy.
pub record Table : Type 0 where
  pub address : Option ℕ
  pub copy : Option ℕ

abbrev pub no_table : Table
no_table = record { address = none; copy = none }

module _ (header_at : ℕ → Header) (is_valid : ℕ → Bool) (flash : List FlashModule) where
  -- The entry of a number: the registered ones first, then those of the image, made up on the spot.
  unfoldable pub moddir_entry : Directory → Name → ℕ → Option ModuleEntry
  unfolding unregistered copy_chars
  moddir_entry d stale i =
      let rest = drop (i - d.module_count) (unregistered header_at is_valid flash d flash) in
      if ltb i d.module_count then some (d.modules i) else elim rest [
        | [] ↦ none
        | m ∷ ms ↦ some (record {
          header = m.at_address;
          links = 0;
          owned = none;
          name = name_copy stale (flash_name m);
          transient = false;
        })
      ]

  module _ (relocated_copy : ℕ → Option (ℕ × Option ℕ)) where
    unfoldable pub table_copy : Directory → ℕ → Option (ℕ × Option ℕ) → Table × Directory
    unfolding moddir_unlink
    table_copy d h none = (no_table, moddir_unlink d h)
    table_copy d h (some (base, owned)) =
        (record { address = some (base + (header_at h).exec_offset); copy = owned }, d)

    unfoldable pub table_of : Directory → ℕ → Option ℕ → Table × Directory
    unfolding table_copy
    table_of d want none = (no_table, d)
    table_of d want (some h) =
        if (header_at h).kind == want
        then (if (header_at h).needs_copy
            then table_copy d h (relocated_copy h)
            else (record { address = some (h + (header_at h).exec_offset); copy = none }, d))
        else (no_table, moddir_unlink d h)

    unfoldable pub link_table : Directory → Name → ℕ → Table × Directory
    unfolding table_of moddir_link
    link_table d name want =
        let l = moddir_link header_at is_valid flash d name in table_of l.1 want l.0

    module _ (abi_at : ℕ → ℕ) where
      -- A table of another interface is refused; the link that was made stays.
      unfoldable pub checked : ℕ → Table × Directory → Table × Directory
      checked abi r = elim r.0.address [
        | none ↦ r
        | some t ↦ if abi_at t == abi then r else (record { address = none; copy = r.0.copy }, r.1)
      ]

      unfoldable pub lib_link : Directory → Name → Table × Directory
      unfolding checked link_table
      lib_link d name = checked lib_abi (link_table d name type_library)

      unfoldable pub driver_link : Directory → Name → Table × Directory
      unfolding checked link_table
      driver_link d name = checked driver_abi (link_table d name type_driver)

    -- A table of a module that is in use, by fewer than 2^32 - 1 links, that is refused, since the
    -- module is of another type or its copy has no room, leaves the directory as it was, when no two
    -- entries are of one module.
    pub link_table-refused :
        (d : Directory) (name : Name) (want i : ℕ)
        → index_of d (λ e. name_eq e.name name) ≡ some i
        → IsApart d
        → 0 < (d.modules i).links
        → (d.modules i).links < 2 ^ 32 - 1
        → (link_table d name want).0.address ≡ none
        → IsSame d (link_table d name want).1
    unfolding link_table table_of table_copy
    link_table-refused d name want i h apart used room refused =
        by_link (moddir_link header_at is_valid flash d name).0
          (moddir_link header_at is_valid flash d name).1
          (link-unlink header_at is_valid flash d name i h apart used room) refused
      where
        by_kind :
            (k : Directory) (m : ℕ) (b c : Bool) (o : Option (ℕ × Option ℕ))
            → IsSame d (moddir_unlink k m)
            → let r : Table × Directory =
                if b
                then (if c then table_copy k m o else (
                  record { address = some (m + (header_at m).exec_offset); copy = none },
                  k,
                ))
                else (no_table, moddir_unlink k m) in
              r.0.address ≡ none → IsSame d r.1
        by_kind k m false c o same e = same
        by_kind k m true true none same e = same
        by_kind k m true true (some (base, owned)) same e = cc
        by_kind k m true false o same e = cc

        by_link :
            (l : Option ℕ) (k : Directory)
            → (l ≡ some (d.modules i).header) × IsSame d (moddir_unlink k (d.modules i).header)
            → (table_of k want l).0.address ≡ none
            → IsSame d (table_of k want l).1
        by_link none k (e, same) none_ = cc
        by_link (some m) k (e, same) none_ =
            by_kind k m ((header_at m).kind == want) (header_at m).needs_copy (relocated_copy m)
              (rw (some-injective m (d.modules i).header e) same) none_
