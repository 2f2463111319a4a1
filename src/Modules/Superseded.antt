-- ===== src/Modules/Superseded.antt =====
-- kernel/moddir.c: what adding a module does to the directory: of two modules of one name the higher
-- revision stays.
use ubiqos.Common.{
  ltb, leb, ◌==◌, if◌then◌else◌, ==_refl, has_some, ℕ, ◌+◌, ◌-◌, ◌≤◌, ◌<◌, ◌≡◌, refl, ap, ◌∙◌, Bool,
  true, false, not, ◌&&◌, ◌||◌, Option, none, some, List, arith, dec_lt,
}
use ubiqos.Modules.{
  Name, Directory, Header, FlashModule, entry_named, drop_entry, alloc_entry, fill_entry,
  flash_lookup, beats_flash, supersedes_at, supersedes, add_at, add_module,
}
use ubiqos.Modules.Names.{IsShort}
use ubiqos.Modules.Distinct.{
  IsDirectory, IsNew, drop_entry-modules, drop_entry-IsDirectory, fill_entry-IsDirectory,
  entry_named-IsNew, entry_named-some, drop_entry-IsNew, fill_entry-named, alloc_entry-full,
  alloc_entry-some,
}

-- What an addition leaves: the directory as it was where it was refused, and otherwise one whose
-- last entry is the module, not in use, and is the one found by its name.
pub Added : Directory → ℕ → Option ℕ → Name → Bool → Directory → Type 0
Added d header owned name false r = r ≡ d
Added d header owned name true r =
    (entry_named r name ≡ some (r.module_count - 1))
    × ((r.modules (r.module_count - 1)).header ≡ header)
    × ((r.modules (r.module_count - 1)).owned ≡ owned)
    × ((r.modules (r.module_count - 1)).links ≡ 0)

kept_when :
    (newer older links : ℕ) (o : Bool)
    → ((o && newer == older) || leb newer older || not (links == 0))
      ≡ not (ltb older newer && links == 0)
kept_when newer older links true = ground arith
kept_when newer older links false = ground arith

module _ (header_at : ℕ → Header) (is_valid : ℕ → Bool) (flash : List FlashModule) where
  -- Filling an entry of a directory in which the name is new.
  add_new :
      (d : Directory) (header : ℕ) (owned : Option ℕ) (name : Name) (e : ℕ)
      → d.module_count < 32
      → IsNew d name
      → IsShort name e
      → IsDirectory d
      → (o : Directory)
      → let r = add_at header_at is_valid flash d header owned name (alloc_entry d) in
        IsDirectory r.1 × Added o header owned name r.0 r.1
  unfolding add_at alloc_entry Added fill_entry
  add_new d header owned name e lt new short v o =
      let no : leb 32 d.module_count ≡ false = ground arith in
      rw no (
        fill_entry-IsDirectory d header owned false name e lt new short v,
        (
          fill_entry-named d header owned false name e new short ∙ ap some last,
          rw (back, ==_refl d.module_count) refl,
          rw (back, ==_refl d.module_count) refl,
          rw (back, ==_refl d.module_count) refl,
        ),
      )
    where
      last : d.module_count ≡ d.module_count + 1 - 1
      last = omega arith

      back : d.module_count + 1 - 1 ≡ d.module_count
      back = omega arith

  -- Replacing the entry of a name, or not.
  add_over :
      (d : Directory) (header : ℕ) (owned : Option ℕ) (name : Name) (e i : ℕ) (b : Bool)
      → entry_named d name ≡ some i
      → IsShort name e
      → IsDirectory d
      → let s : Bool × Directory = if b then (false, d) else (true, drop_entry d i) in
        let r : Bool × Directory =
          if s.0
          then add_at header_at is_valid flash s.1 header owned name (alloc_entry s.1)
          else (false, s.1) in
        IsDirectory r.1 × Added d header owned name r.0 r.1
  unfolding Added
  add_over d header owned name e i true h short v = (v, refl)
  add_over d header owned name e i false h short v =
      let (lt, t) = entry_named-some d name i h in
      let n = (drop_entry-modules d i).1 in
      add_new (drop_entry d i) header owned name e (omega (arith, n, lt, v.room))
        (drop_entry-IsNew d name i h v) short (drop_entry-IsDirectory d i lt v) d

  -- Adding where no entry has the name.
  add_first :
      (d : Directory) (header : ℕ) (owned : Option ℕ) (name : Name) (e : ℕ) (b : Bool)
      → entry_named d name ≡ none
      → IsShort name e
      → IsDirectory d
      → let r : Bool × Directory =
          if b
          then add_at header_at is_valid flash d header owned name (alloc_entry d)
          else (false, d) in
        IsDirectory r.1 × Added d header owned name r.0 r.1
  unfolding Added add_at
  add_first d header owned name e false h short v = (v, refl)
  add_first d header owned name e true h short v = elim (dec_lt d.module_count 32) [
    | yes lt ↦ add_new d header owned name e lt (entry_named-IsNew d name h) short v d
    | no ge ↦ rw (alloc_entry-full d ge) (v, refl)
  ]

  -- Adding a module keeps the names of the directory different and its entries at most 32. Where it
  -- is refused nothing has changed; otherwise the module is found by its name, and nobody uses it
  -- yet. Its name must have at most 15 characters.
  pub add_module-Added :
      (d : Directory) (header : ℕ) (owned : Option ℕ) (name : Name) (e : ℕ) (from_card : Bool)
      → IsShort name e
      → IsDirectory d
      → let r = add_module header_at is_valid flash d header owned name from_card in
        IsDirectory r.1 × Added d header owned name r.0 r.1
  unfolding add_module supersedes supersedes_at Added
  add_module-Added d header owned name e from_card short v = by_valid (is_valid header)
    where
      by_name :
          (o : Option ℕ)
          → entry_named d name ≡ o
          → let s = supersedes_at header_at is_valid flash d header name from_card o in
            let r : Bool × Directory =
              if s.0
              then add_at header_at is_valid flash s.1 header owned name (alloc_entry s.1)
              else (false, s.1) in
            IsDirectory r.1 × Added d header owned name r.0 r.1
      by_name none h =
          add_first d header owned name e
            (if from_card
              then beats_flash header_at is_valid flash header (flash_lookup flash name)
              else true)
            h short v
      by_name (some i) h =
          let newer = (header_at header).revision in
          let older = (header_at (d.modules i).header).revision in
          add_over d header owned name e i
            ((has_some (d.modules i).owned && newer == older)
              || leb newer older
              || not ((d.modules i).links == 0))
            h short v

      by_valid :
          (b : Bool)
          → let s = supersedes header_at is_valid flash d header name from_card in
            let r : Bool × Directory =
              if b
              then (if s.0
                  then add_at header_at is_valid flash s.1 header owned name (alloc_entry s.1)
                  else (false, s.1))
              else (false, d) in
            IsDirectory r.1 × Added d header owned name r.0 r.1
      by_valid true = by_name (entry_named d name) refl
      by_valid false = (v, refl)

  -- Where an entry has the name, a module that is valid takes its place exactly when its revision is
  -- higher and nobody uses the old one.
  pub add_module-revision :
      (d : Directory) (header : ℕ) (owned : Option ℕ) (name : Name) (from_card : Bool) (i : ℕ)
      → d.module_count ≤ 32
      → entry_named d name ≡ some i
      → (add_module header_at is_valid flash d header owned name from_card).0 ≡ (
          is_valid header
          && (ltb (header_at (d.modules i).header).revision (header_at header).revision
              && ((d.modules i).links == 0)))
  unfolding add_module supersedes supersedes_at add_at
  add_module-revision d header owned name from_card i le h =
      rw
        (
          h,
          kept_when (header_at header).revision (header_at (d.modules i).header).revision
              (d.modules i).links (has_some (d.modules i).owned),
        )
        (by_both (is_valid header) (
          ltb (header_at (d.modules i).header).revision (header_at header).revision
          && ((d.modules i).links == 0)))
    where
      dropped : alloc_entry (drop_entry d i) ≡ some (drop_entry d i).module_count
      dropped =
          let n = (drop_entry-modules d i).1 in
          let (lt, t) = entry_named-some d name i h in
          alloc_entry-some (drop_entry d i) (omega (arith, n, lt, le))

      by_both :
          (b c : Bool)
          → let s : Bool × Directory = if not c then (false, d) else (true, drop_entry d i) in
            let r : Bool × Directory =
              if b
              then (if s.0
                  then add_at header_at is_valid flash s.1 header owned name (alloc_entry s.1)
                  else (false, s.1))
              else (false, d) in
            r.0 ≡ (b && c)
      by_both false c = refl
      by_both true false = refl
      by_both true true = rw dropped refl
