-- ===== src/Modules/Links.antt =====
-- kernel/moddir.c: a link and its unlink.
use ubiqos.Common.{
  ◌==◌, ==_refl, ==_ne, put, first_slot-some, first_slot-first, ℕ, ◌+◌, ◌-◌, ◌%◌, ◌^◌, ◌<◌, ◌≡◌,
  refl, ap, ◌∙◌, ◌≢◌, Bool, true, none, some, List, arith, ℕ_discrete,
}
use ubiqos.Modules.{
  Name, ModuleEntry, Directory, Header, FlashModule, name_eq, flash_lookup, fill_entry, index_of,
  give_back, drop_entry, adopt_at, adopt_from_flash, add_link, moddir_link, fewer_links, unlink_at,
  moddir_unlink,
}
use ubiqos.Modules.Distinct.{drop_entry-modules, alloc_entry-some}

-- No two entries are of one module.
abbrev pub IsApart : Directory → Type 0
IsApart d =
    (i j : ℕ)
    → i < d.module_count
    → j < d.module_count
    → i ≢ j
    → (d.modules i).header ≢ (d.modules j).header

-- The same entries, links included, and nothing given back.
pub record IsSame (d r : Directory) : Type 0 where
  pub count : r.module_count ≡ d.module_count
  pub entries : (j : ℕ) → j < d.module_count → r.modules j ≡ d.modules j
  pub freed : r.freed ≡ d.freed

linked : Directory → ℕ → Directory
linked d i = record d {
  modules = put d.modules i (record (d.modules i) { links = ((d.modules i).links + 1) % 2 ^ 32 });
}

linked-header : (d : Directory) (i j : ℕ) → ((linked d i).modules j).header ≡ (d.modules j).header
unfolding linked
linked-header d i j = elim (ℕ_discrete j i) [
  | yes e ↦ rw (e, ==_refl i) refl
  | no ne ↦ rw (==_ne j i ne) refl
]

index_of-header :
    (d r : Directory) (i : ℕ)
    → r.module_count ≡ d.module_count
    → ((j : ℕ) → (r.modules j).header ≡ (d.modules j).header)
    → i < d.module_count
    → IsApart d
    → index_of r (λ e. e.header == (d.modules i).header) ≡ some i
unfolding index_of
index_of-header d r i en eh lt apart = rw en (
    first_slot-first d.module_count (λ j. (r.modules j).header == (d.modules i).header) 0 i
      (omega arith) (omega (arith, lt)) (rw (eh i) (==_refl (d.modules i).header))
      (λ j lo l.
        rw (eh j) (==_ne _ _ (apart j i (omega (arith, l, lt)) lt (λ e. omega (arith, e, l))))))

-- An entry that others still use stays, with one link less.
unlink_at-kept :
    (r : Directory) (i : ℕ)
    → (fewer_links (r.modules i)).links ≢ 0
    → unlink_at r (some i) ≡ record r { modules = put r.modules i (fewer_links (r.modules i)) }
unfolding unlink_at
unlink_at-kept r i ne = rw (==_refl i, ==_ne _ 0 ne) refl

-- An entry that nobody uses any more goes.
unlink_at-dropped :
    (r : Directory) (i : ℕ)
    → (fewer_links (r.modules i)).links ≡ 0
    → unlink_at r (some i)
      ≡ drop_entry (record r { modules = put r.modules i (fewer_links (r.modules i)) }) i
unfolding unlink_at
unlink_at-dropped r i z = rw (==_refl i, z) refl

links_back : (n : ℕ) → n < 2 ^ 32 - 1 → (n + 1) % 2 ^ 32 - 1 ≡ n
links_back n lt = omega (arith, lt)

relinked : (e : ModuleEntry) (n : ℕ) → n ≡ e.links → record e { links = n } ≡ e
relinked e n k = rw k refl

unlink-linked :
    (d : Directory) (i : ℕ)
    → 0 < (d.modules i).links
    → (d.modules i).links < 2 ^ 32 - 1
    → IsSame d (unlink_at (linked d i) (some i))
unfolding linked
unlink-linked d i used room =
    rw (unlink_at-kept (linked d i) i (λ z. omega (arith, z, ap (λ e. e.links) back, used)))
      (record { count = refl; entries = entries; freed = refl })
  where
    back : fewer_links ((linked d i).modules i) ≡ d.modules i
    back = rw (==_refl i) (relinked (d.modules i) _ (links_back _ room))

    entries :
        (j : ℕ)
        → j < d.module_count
        → put (linked d i).modules i (fewer_links ((linked d i).modules i)) j ≡ d.modules j
    entries j lt = elim (ℕ_discrete j i) [
      | yes e ↦ rw (e, ==_refl i) (relinked (d.modules i) _ (links_back _ room))
      | no ne ↦ rw (==_ne j i ne) refl
    ]

found_below :
    (d : Directory) (test : ModuleEntry → Bool) (i : ℕ)
    → index_of d test ≡ some i
    → i < d.module_count
unfolding index_of
found_below d test i h =
    let (lo, hi, t) = first_slot-some d.module_count (λ k. test (d.modules k)) 0 i h in
    omega (arith, hi)

-- The directory with an entry for a module of the image, linked once.
adopted : Directory → ℕ → Name → Directory
adopted d m name = linked (fill_entry d d.module_count m none true name) d.module_count

drop_entry-freed :
    (r : Directory) (i : ℕ) → (r.modules i).owned ≡ none → (drop_entry r i).freed ≡ r.freed
unfolding drop_entry give_back
drop_entry-freed r i e = rw e refl

drop_last :
    (d r : Directory)
    → r.module_count ≡ d.module_count + 1
    → ((j : ℕ) → j < d.module_count → r.modules j ≡ d.modules j)
    → r.freed ≡ d.freed
    → (r.modules d.module_count).owned ≡ none
    → IsSame d (drop_entry r d.module_count)
drop_last d r en em ef eo =
    let (m, n) = drop_entry-modules r d.module_count in
    record {
      count = n ∙ rw en (omega arith);
      entries = λ j lt. rw (m, ==_ne j d.module_count (λ e. omega (arith, e, lt))) (em j lt);
      freed = drop_entry-freed r d.module_count eo ∙ ef;
    }

unlink-adopted :
    (d : Directory) (m : ℕ) (name : Name)
    → IsSame d (unlink_at (adopted d m name) (some d.module_count))
unfolding adopted linked fill_entry
unlink-adopted d m name =
    rw (unlink_at-dropped (adopted d m name) d.module_count (rw (==_refl d.module_count) refl)) (
      drop_last d _ refl (λ j lt. rw (==_ne j d.module_count (λ e. omega (arith, e, lt))) refl) refl
        (rw (==_refl d.module_count) refl))

adopted-found :
    (d : Directory) (m : ℕ) (name : Name)
    → ((j : ℕ) → j < d.module_count → (d.modules j).header ≢ m)
    → index_of (adopted d m name) (λ e. e.header == m) ≡ some d.module_count
unfolding index_of adopted linked fill_entry
adopted-found d m name new =
    first_slot-first (d.module_count + 1) (λ j. ((adopted d m name).modules j).header == m) 0
      d.module_count (omega arith) (omega arith) (rw (==_refl d.module_count) (==_refl m))
      (λ j lo lt. rw (==_ne j d.module_count (λ e. omega (arith, e, lt))) (==_ne _ m (new j lt)))

module _ (header_at : ℕ → Header) (is_valid : ℕ → Bool) (flash : List FlashModule) where
  link_entry :
      (d : Directory) (name : Name) (i : ℕ)
      → index_of d (λ e. name_eq e.name name) ≡ some i
      → moddir_link header_at is_valid flash d name ≡ (some (d.modules i).header, linked d i)
  unfolding moddir_link add_link linked
  link_entry d name i h = rw (h, moddir_link) refl

  adopt_new :
      (d : Directory) (name : Name) (m : ℕ)
      → flash_lookup flash name ≡ some m
      → d.module_count < 32
      → adopt_from_flash header_at is_valid flash d name
        ≡ (some d.module_count, fill_entry d d.module_count m none true name)
  unfolding adopt_from_flash adopt_at
  adopt_new d name m f lt = rw (f, alloc_entry-some d lt) refl

  link_new :
      (d : Directory) (name : Name) (m : ℕ)
      → index_of d (λ e. name_eq e.name name) ≡ none
      → flash_lookup flash name ≡ some m
      → d.module_count < 32
      → moddir_link header_at is_valid flash d name ≡ (some m, adopted d m name)
  unfolding moddir_link add_link adopted linked fill_entry
  link_new d name m h f lt =
      rw (h, moddir_link) (rw (adopt_new d name m f lt) (rw (==_refl d.module_count) refl))

  -- A module that is in use, by fewer than 2^32 - 1 links, linked once more and unlinked, leaves the
  -- directory as it was, when no two entries are of one module.
  pub link-unlink :
      (d : Directory) (name : Name) (i : ℕ)
      → index_of d (λ e. name_eq e.name name) ≡ some i
      → IsApart d
      → 0 < (d.modules i).links
      → (d.modules i).links < 2 ^ 32 - 1
      → let r = moddir_link header_at is_valid flash d name in
        (r.0 ≡ some (d.modules i).header) × IsSame d (moddir_unlink r.1 (d.modules i).header)
  unfolding moddir_unlink linked
  link-unlink d name i h apart used room = rw (link_entry d name i h) (
    refl,
    rw
        (index_of-header d (linked d i) i refl (linked-header d i)
          (found_below d (λ e. name_eq e.name name) i h) apart)
        (unlink-linked d i used room),
  )

  -- A module of the image that has no entry, under that name or another, gets one when it is linked
  -- and there is room for it; and unlinking it leaves the directory as it was before.
  pub adopt-unlink :
      (d : Directory) (name : Name) (m : ℕ)
      → index_of d (λ e. name_eq e.name name) ≡ none
      → flash_lookup flash name ≡ some m
      → d.module_count < 32
      → ((j : ℕ) → j < d.module_count → (d.modules j).header ≢ m)
      → let r = moddir_link header_at is_valid flash d name in
        (r.0 ≡ some m) × IsSame d (moddir_unlink r.1 m)
  unfolding moddir_unlink
  adopt-unlink d name m h f lt new =
      rw (link_new d name m h f lt)
        (refl, rw (adopted-found d m name new) (unlink-adopted d m name))
