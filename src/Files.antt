-- ===== src/Files.antt =====
-- kernel/tmpfs.c: the files of /tmp. A string is the list of its characters before the NUL, a null
-- pointer is `none`. A block of memory is its address, its size and its bytes as a function from
-- their index;
-- the allocator (kernel/tlsf.c through ubiqos_tlsf_malloc and ubiqos_tlsf_free) is a parameter with a
-- heap state of its own. The doubling in `reserve` runs on fuel, 32 rounds for a 32-bit capacity.

pub mod Find
pub mod Bytes
pub mod Write
pub mod Read
pub mod Rename
pub mod Others
use ubiqos.Common.{
  ltb, leb, ◌==◌, if◌then◌else◌, length, put, ℕ, zero, suc, ◌+◌, ◌-◌, ◌*◌, ◌/◌, ◌%◌, ◌^◌, Bool,
  true, false, not, ◌&&◌, Option, none, some, List, [], ◌∷◌,
}
use ubiqos.Common.Int.{ℤ, pos, failed}

abbrev pub tmp_max_files : ℕ
tmp_max_files = 16

abbrev pub tmp_grow : ℕ
tmp_grow = 1024

abbrev pub dirname_max : ℕ
dirname_max = 65

abbrev pub slash : ℕ
slash = 47

abbrev pub attr_directory : ℕ
attr_directory = 16

-- `room` is how many bytes the allocator gave.
pub record Block : Type 0 where
  pub address : ℕ
  pub room : ℕ
  pub bytes : ℕ → ℕ

pub record TmpFile : Type 0 where
  pub name : List ℕ
  pub contents : Option Block
  pub size : ℕ
  pub cap : ℕ
  pub used : Bool

abbrev pub FileTable : Type 0
FileTable = ℕ → TmpFile

unfoldable pub name_eq : List ℕ → List ℕ → Bool
name_eq [] [] = true
name_eq [] (b ∷ bs) = false
name_eq (a ∷ as') [] = false
name_eq (a ∷ as') (b ∷ bs) = let rest = name_eq as' bs in if a == b then rest else false

unfoldable pub has_slash : List ℕ → Bool
has_slash [] = false
has_slash (c ∷ cs) = if c == slash then true else has_slash cs

-- "/p" is p; anything with a second slash, or with no name, is not found.
unfoldable pub leaf_of : List ℕ → Option (List ℕ)
leaf_of [] = none
leaf_of (c ∷ []) = none
leaf_of (c ∷ p ∷ ps) =
    if not (c == slash) then none else if has_slash (p ∷ ps) then none else some (p ∷ ps)

unfoldable pub leaf : Option (List ℕ) → Option (List ℕ)
unfolding leaf_of
leaf none = none
leaf (some path) = leaf_of path

abbrev pub is_named : List ℕ → TmpFile → Bool
is_named n f = f.used && name_eq f.name n

-- The first of the entries from `i`, `r` of them, that passes the test.
unfoldable pub first_from : ℕ → (TmpFile → Bool) → FileTable → ℕ → Option ℕ
first_from zero p fs i = none
first_from (suc r) p fs i =
    let rest = first_from r p fs (suc i) in if p (fs i) then some i else rest

unfoldable pub find_leaf : FileTable → Option (List ℕ) → Option ℕ
unfolding first_from
find_leaf fs none = none
find_leaf fs (some n) = first_from tmp_max_files (is_named n) fs 0

unfoldable pub find : FileTable → Option (List ℕ) → Option ℕ
unfolding find_leaf
find fs path = find_leaf fs (leaf path)

abbrev pub is_unused : TmpFile → Bool
is_unused f = not f.used

abbrev pub fresh_file : List ℕ → TmpFile
fresh_file n = record { name = n; contents = none; size = 0; cap = 0; used = true }

unfoldable pub create_at : FileTable → List ℕ → Option ℕ → Option (ℕ × FileTable)
create_at fs n none = none
create_at fs n (some i) = some (i, put fs i (fresh_file n))

-- A name that does not fit is refused; `none` is the null pointer.
unfoldable pub create_leaf : FileTable → Option (List ℕ) → Option (ℕ × FileTable)
unfolding create_at
create_leaf fs none = none
create_leaf fs (some n) =
    if leb dirname_max (length n)
    then none
    else create_at fs n (first_from tmp_max_files is_unused fs 0)

unfoldable pub create : FileTable → Option (List ℕ) → Option (ℕ × FileTable)
unfolding create_leaf
create fs path = create_leaf fs (leaf path)

-- while (cap < need) cap *= 2u
unfoldable pub doubled : ℕ → ℕ → ℕ → ℕ
doubled zero cap need = cap
doubled (suc fuel) cap need =
    let rest = doubled fuel ((cap * 2) % 2 ^ 32) need in if ltb cap need then rest else cap

-- The bytes of a file; a file without a block has none to copy.
abbrev pub bytes_of : Option Block → ℕ → ℕ
bytes_of none j = 0
bytes_of (some b) j = b.bytes j

-- memcpy(p, contents, size)
abbrev pub copied : (ℕ → ℕ) → (ℕ → ℕ) → ℕ → ℕ → ℕ
copied old new size j = if ltb j size then old j else new j

unfoldable pub zero_gap : (ℕ → ℕ) → ℕ → ℕ → ℕ → ℕ
zero_gap d i zero = d
zero_gap d i (suc n) = zero_gap (put d i 0) (suc i) n

unfoldable pub write_bytes : (ℕ → ℕ) → ℕ → ℕ → List ℕ → ℕ → ℕ
write_bytes d offset i [] = d
write_bytes d offset i (b ∷ bs) = write_bytes (put d ((offset + i) % 2 ^ 32) b) offset (suc i) bs

unfoldable pub read_bytes : (ℕ → ℕ) → ℕ → ℕ → List ℕ
read_bytes d offset zero = []
read_bytes d offset (suc n) = d offset ∷ read_bytes d (suc offset) n

abbrev pub set_bytes : Option Block → (ℕ → ℕ) → Option Block
set_bytes none d = none
set_bytes (some b) d = some (record b { bytes = d })

-- Both loops of `tmp_write_at` and the new size, once the room is there.
unfoldable pub written : TmpFile → ℕ → List ℕ → TmpFile
unfolding zero_gap write_bytes
written f offset buf =
    let end_ = (offset + length buf) % 2 ^ 32 in
    record f {
      contents =
          set_bytes f.contents
            (write_bytes (zero_gap (bytes_of f.contents) f.size (offset - f.size)) offset 0 buf);
      size = if ltb f.size end_ then end_ else f.size;
    }

-- The end of the file, and a length cut to what the file holds.
unfoldable pub read_file : TmpFile → ℕ → ℕ → ℤ × List ℕ
unfolding read_bytes
read_file f offset len =
    let n = if ltb (f.size - offset) len then f.size - offset else len in
    if leb f.size offset then (pos 0, []) else (pos n, read_bytes (bytes_of f.contents) offset n)

unfoldable pub read_found : FileTable → ℕ → ℕ → Option ℕ → ℤ × List ℕ
unfolding read_file
read_found fs offset len none = (failed, [])
read_found fs offset len (some i) = read_file (fs i) offset len

-- The result and what was stored at `buf`.
unfoldable pub tmp_read_at : FileTable → Option (List ℕ) → ℕ → ℕ → ℤ × List ℕ
unfolding read_found
tmp_read_at fs path offset len = read_found fs offset len (find fs path)

stat_found : FileTable → Option ℕ → ℤ × ℕ
stat_found fs none = (failed, 0)
stat_found fs (some i) = (pos 0, (fs i).size)

is_root : Option (List ℕ) → Bool
is_root (some (c ∷ [])) = c == slash
is_root _ = false

-- The attribute and the size.
pub tmp_stat : FileTable → Option (List ℕ) → ℤ × ℕ
unfolding stat_found is_root
tmp_stat fs path = if is_root path then (pos attr_directory, 0) else stat_found fs (find fs path)

-- Entry `index` of the used ones from `i`, `r` of them.
nth_used : ℕ → FileTable → ℕ → ℕ → Option ℕ
nth_used zero fs i index = none
nth_used (suc r) fs i index =
    let skipped = nth_used r fs (suc i) index in
    let later = nth_used r fs (suc i) (index - 1) in
    if not (fs i).used then skipped else if index == 0 then some i else later

name_size : FileTable → Option ℕ → Option (List ℕ × ℕ)
name_size fs none = none
name_size fs (some i) = some ((fs i).name, (fs i).size)

pub tmp_stat_nth : FileTable → Option (List ℕ) → ℕ → Option (List ℕ × ℕ)
unfolding nth_used name_size is_root
tmp_stat_nth fs dir index =
    if is_root dir then name_size fs (nth_used tmp_max_files fs 0 index) else none

-- The name of a file after `tmp_rename`.
abbrev pub renamed : TmpFile → List ℕ → TmpFile
renamed f n = record f { name = n }

module _ {H : Type 0} (malloc : H → ℕ → Option (Block × H)) (release : H → ℕ → H) where
  abbrev pub release_block : H → Option Block → H
  release_block h none = h
  release_block h (some b) = release h b.address

  -- The file in its new block of `cap` bytes.
  abbrev pub moved : TmpFile → ℕ → Block × H → TmpFile × H
  moved f cap r = (
    record f {
      contents = some (record {
        address = r.0.address;
        room = r.0.room;
        bytes = copied (bytes_of f.contents) r.0.bytes f.size;
      });
      cap = cap;
    },
    release_block r.1 f.contents,
  )

  -- When the doubled size cannot be had, what is needed and no more is tried.
  unfoldable pub retry : H → TmpFile → ℕ → ℕ → Option (Block × H) → Option (TmpFile × H)
  retry h f cap need (some r) = some (moved f cap r)
  retry h f cap need none =
      if ltb need cap
      then elim (malloc h need) [ none ↦ none | some r ↦ some (moved f need r) ]
      else none

  unfoldable pub reserve : H → TmpFile → ℕ → Option (TmpFile × H)
  unfolding retry doubled
  reserve h f want =
      let need = (want + tmp_grow - 1) % 2 ^ 32 / tmp_grow * tmp_grow in
      let cap = doubled 32 (if f.cap == 0 then tmp_grow else f.cap) need in
      if leb want f.cap then some (f, h) else retry h f cap need (malloc h cap)

  unfoldable pub write_reserved :
      H → FileTable → ℕ → ℕ → List ℕ → Option (TmpFile × H) → ℤ × (FileTable × H)
  unfolding written
  write_reserved h fs i offset buf none = (failed, (fs, h))
  write_reserved h fs i offset buf (some r) =
      (pos (length buf), (put fs i (written r.0 offset buf), r.1))

  unfoldable pub write_in : H → FileTable → ℕ → ℕ → List ℕ → ℤ × (FileTable × H)
  unfolding write_reserved
  write_in h fs i offset buf =
      write_reserved h fs i offset buf (reserve h (fs i) ((offset + length buf) % 2 ^ 32))

  unfoldable pub write_created :
      H → FileTable → ℕ → List ℕ → Option (ℕ × FileTable) → ℤ × (FileTable × H)
  unfolding write_in
  write_created h fs offset buf none = (failed, (fs, h))
  write_created h fs offset buf (some c) = write_in h c.1 c.0 offset buf

  unfoldable pub write_found :
      H → FileTable → Option (List ℕ) → ℕ → List ℕ → Option ℕ → ℤ × (FileTable × H)
  unfolding write_created
  write_found h fs path offset buf (some i) = write_in h fs i offset buf
  write_found h fs path offset buf none = write_created h fs offset buf (create fs path)

  unfoldable pub tmp_write_at : H → FileTable → Option (List ℕ) → ℕ → List ℕ → ℤ × (FileTable × H)
  unfolding write_found
  tmp_write_at h fs path offset buf = write_found h fs path offset buf (find fs path)

  unfoldable pub remove_found : H → FileTable → Option ℕ → Bool × (FileTable × H)
  remove_found h fs none = (false, (fs, h))
  remove_found h fs (some i) = (
    true,
    (
      put fs i (record (fs i) { contents = none; size = 0; cap = 0; used = false }),
      release_block h (fs i).contents,
    ),
  )

  unfoldable pub tmp_remove : H → FileTable → Option (List ℕ) → Bool × (FileTable × H)
  unfolding remove_found
  tmp_remove h fs path = remove_found h fs (find fs path)

  -- The file `i` takes the name, and one that had it before is removed.
  unfoldable pub rename_over : H → FileTable → ℕ → List ℕ → Option ℕ → Bool × (FileTable × H)
  unfolding remove_found
  rename_over h fs i n none = (true, (put fs i (renamed (fs i) n), h))
  rename_over h fs i n (some old) =
      let r = (remove_found h fs (some old)).1 in
      if old == i then (true, (fs, h)) else (true, (put r.0 i (renamed (r.0 i) n), r.1))

  unfoldable pub rename_leaf :
      H → FileTable → Option (List ℕ) → Option ℕ → Option (List ℕ) → Bool × (FileTable × H)
  unfolding rename_over
  rename_leaf h fs to none n = (false, (fs, h))
  rename_leaf h fs to (some i) none = (false, (fs, h))
  rename_leaf h fs to (some i) (some n) =
      if leb dirname_max (length n) then (false, (fs, h)) else rename_over h fs i n (find fs to)

  unfoldable pub tmp_rename :
      H → FileTable → Option (List ℕ) → Option (List ℕ) → Bool × (FileTable × H)
  unfolding rename_leaf
  tmp_rename h fs from to = rename_leaf h fs to (find fs from) (leaf to)
