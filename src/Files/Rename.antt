-- ===== src/Files/Rename.antt =====
-- kernel/tmpfs.c: a write and a rename as the other names see them.
use ubiqos.Common.{
  leb, ==_refl, ==_ne, Bool-cases, length, put, ℕ, zero, suc, ◌+◌, ◌≤◌, ◌<◌, ◌≡◌, refl, sym, ap,
  ◌∙◌, ◌≢◌, inl, inr, Bool, true, false, Option, none, some, List, [], arith, ℕ_discrete,
}
use ubiqos.Common.Int.{failed}
use ubiqos.Files.{
  Block, TmpFile, FileTable, find, find_leaf, leaf, first_from, is_named, name_eq, tmp_max_files,
  dirname_max, read_file, read_found, tmp_read_at, renamed, remove_found, rename_over, rename_leaf,
  tmp_rename,
}
use ubiqos.Files.Find.{
  name_eq-true, name_eq_refl, name_eq_ne, first_from-some, first_from-kept, first_from-none,
}

-- No two entries in use have the same name.
abbrev pub IsUnique : FileTable → Type 0
IsUnique fs =
    (n : List ℕ) (i j : ℕ)
    → i < tmp_max_files
    → j < tmp_max_files
    → is_named n (fs i) ≡ true
    → is_named n (fs j) ≡ true
    → i ≡ j

pub first_from-nothing :
    (r : ℕ) (p : TmpFile → Bool) (fs : FileTable) (s : ℕ)
    → ((j : ℕ) → s ≤ j → j < s + r → p (fs j) ≡ false)
    → first_from r p fs s ≡ none
unfolding first_from
first_from-nothing zero p fs s h = refl
first_from-nothing (suc r) p fs s h =
    rw (h s (omega arith) (omega arith))
      (first_from-nothing r p fs (suc s) (λ j lo hi. h j (omega arith) (omega arith)))

first_from-only :
    (r : ℕ) (p : TmpFile → Bool) (fs : FileTable) (s i : ℕ)
    → s ≤ i
    → i < s + r
    → p (fs i) ≡ true
    → ((j : ℕ) → j < s + r → j ≢ i → p (fs j) ≡ false)
    → first_from r p fs s ≡ some i
unfolding first_from
first_from-only zero p fs s i lo hi t h = absurd (omega arith)
first_from-only (suc r) p fs s i lo hi t h = elim (ℕ_discrete s i) [
  | yes e ↦ rw (e, t) refl
  | no ne ↦ rw (h s (omega arith) ne) (
      first_from-only r p fs (suc s) i (omega arith) (omega arith) t
        (λ j lt k. h j (omega arith) k))
]

pub find_leaf-named :
    (fs : FileTable) (n : List ℕ) (i : ℕ)
    → find_leaf fs (some n) ≡ some i
    → (i < tmp_max_files) × (is_named n (fs i) ≡ true)
unfolding find_leaf
find_leaf-named fs n i e =
    let (lo, hi, t) = first_from-some tmp_max_files (is_named n) fs 0 i e in (omega arith, t)

find_leaf-unnamed :
    (fs : FileTable) (n : List ℕ)
    → find_leaf fs (some n) ≡ none
    → (j : ℕ) → j < tmp_max_files
    → is_named n (fs j) ≡ false
unfolding find_leaf
find_leaf-unnamed fs n e j lt =
    first_from-none tmp_max_files (is_named n) fs 0 j e (omega arith) (omega arith)

find_leaf-gone :
    (fs : FileTable) (n : List ℕ)
    → ((j : ℕ) → j < tmp_max_files → is_named n (fs j) ≡ false)
    → find_leaf fs (some n) ≡ none
unfolding find_leaf
find_leaf-gone fs n h =
    first_from-nothing tmp_max_files (is_named n) fs 0 (λ j lo hi. h j (omega arith))

find_leaf-only :
    (fs : FileTable) (n : List ℕ) (i : ℕ)
    → i < tmp_max_files
    → is_named n (fs i) ≡ true
    → ((j : ℕ) → j < tmp_max_files → j ≢ i → is_named n (fs j) ≡ false)
    → find_leaf fs (some n) ≡ some i
unfolding find_leaf
find_leaf-only fs n i lt t h =
    first_from-only tmp_max_files (is_named n) fs 0 i (omega arith) (omega arith) t
      (λ j hi k. h j (omega arith) k)

-- What is read under a name does not change when an entry changes that neither had nor gets it.
pub other-read :
    (fs : FileTable) (i : ℕ) (v : TmpFile) (m : List ℕ) (offset len : ℕ)
    → is_named m (fs i) ≡ false
    → is_named m v ≡ false
    → read_found (put fs i v) offset len (find_leaf (put fs i v) (some m))
      ≡ read_found fs offset len (find_leaf fs (some m))
unfolding find_leaf read_found
other-read fs i v m offset len h hv =
    ap (read_found (put fs i v) offset len)
      (first_from-kept tmp_max_files (is_named m) fs 0 i v (hv ∙ sym h))
    ∙ by_found (first_from tmp_max_files (is_named m) fs 0) refl
  where
    by_found :
        (o : Option ℕ)
        → first_from tmp_max_files (is_named m) fs 0 ≡ o
        → read_found (put fs i v) offset len o ≡ read_found fs offset len o
    by_found none e = refl
    by_found (some j) e =
        let (lo, hi, t) = first_from-some tmp_max_files (is_named m) fs 0 j e in
        rw (==_ne j i (λ k. cc (rw k at t))) refl

-- An entry in use under one name is not in use under another.
pub named-other : (m n : List ℕ) (f : TmpFile) → n ≢ m → is_named n f ≡ true → is_named m f ≡ false
named-other m n f ne t =
    let e : f.name ≡ n = name_eq-true f.name n (ground arith) in
    let x : name_eq f.name m ≡ false = rw e (name_eq_ne n m ne) in ground arith

read_file-renamed :
    (f : TmpFile) (b : List ℕ) (offset len : ℕ)
    → read_file (renamed f b) offset len ≡ read_file f offset len
unfolding read_file
read_file-renamed f b offset len = refl

-- What is read after entry `i` of a table has got the name `b`, where it was the only one named `a`
-- and none was named `b`.
renamed-read :
    (g : FileTable) (a b : List ℕ) (i offset len : ℕ)
    → i < tmp_max_files
    → a ≢ b
    → is_named a (g i) ≡ true
    → ((j : ℕ) → j < tmp_max_files → j ≢ i → is_named a (g j) ≡ false)
    → ((j : ℕ) → j < tmp_max_files → j ≢ i → is_named b (g j) ≡ false)
    → (read_found
          (put g i (renamed (g i) b))
          offset
          len
          (find_leaf (put g i (renamed (g i) b)) (some b))
        ≡ read_found g offset len (some i))
      × (read_found
            (put g i (renamed (g i) b))
            offset
            len
            (find_leaf (put g i (renamed (g i) b)) (some a))
          ≡ (failed, []))
unfolding read_found
renamed-read g a b i offset len lt ne t only none_b =
    (rw to (rw ==_refl (read_file-renamed (g i) b offset len)), rw from refl)
  where
    used : (g i).used ≡ true
    used = ground arith

    to : find_leaf (put g i (renamed (g i) b)) (some b) ≡ some i
    to =
        find_leaf-only _ b i lt (rw ==_refl (rw (used, name_eq_refl b) refl))
          (λ j hi k. rw (==_ne j i k) (none_b j hi k))

    from : find_leaf (put g i (renamed (g i) b)) (some a) ≡ none
    from = find_leaf-gone _ a (λ j hi. elim (ℕ_discrete j i) [
      | yes k ↦ rw (k, ==_refl) (rw (used, name_eq_ne b a (λ e. ne (sym e))) refl)
      | no k ↦ rw (==_ne j i k) (only j hi k)
    ])

module _ {H : Type 0} (malloc : H → ℕ → Option (Block × H)) (release : H → ℕ → H) where
  -- The table after a rename of entry `i`, named `a`, to the name `b`, which another entry `old` may
  -- have had.
  pub rename_over-to :
      (h : H) (fs : FileTable) (a b : List ℕ) (i offset len : ℕ)
      → IsUnique fs
      → a ≢ b
      → find_leaf fs (some a) ≡ some i
      → let gs = (rename_over malloc release h fs i b (find_leaf fs (some b))).1.0 in
        (read_found gs offset len (find_leaf gs (some b)) ≡ read_found fs offset len (some i))
        × (read_found gs offset len (find_leaf gs (some a)) ≡ (failed, []))
  unfolding rename_over remove_found read_found
  rename_over-to h fs a b i offset len unique ne found = by_old (find_leaf fs (some b)) refl
    where
      at_i : (i < tmp_max_files) × (is_named a (fs i) ≡ true)
      at_i = find_leaf-named fs a i found

      only : (j : ℕ) → j < tmp_max_files → j ≢ i → is_named a (fs j) ≡ false
      only j hi k = elim (Bool-cases (is_named a (fs j))) [
        | inl t ↦ absurd (k (unique a j i hi at_i.0 t at_i.1))
        | inr t ↦ t
      ]

      over :
          (old : ℕ)
          → old ≢ i
          → (old < tmp_max_files) × (is_named b (fs old) ≡ true)
          → let g = (remove_found malloc release h fs (some old)).1.0 in
            let gs = put g i (renamed (g i) b) in
            (read_found gs offset len (find_leaf gs (some b)) ≡ read_found fs offset len (some i))
            × (read_found gs offset len (find_leaf gs (some a)) ≡ (failed, []))
      over old k at_old =
          let r =
            renamed-read g a b i offset len at_i.0 ne (rw same at_i.1)
              (λ j hi n. gone a j (only j hi n)) (λ j hi n. none_b j hi) in
          (r.0 ∙ ap (λ f. read_file f offset len) same, r.1)
        where
          g : FileTable
          g = (remove_found malloc release h fs (some old)).1.0

          same : g i ≡ fs i
          same = rw (==_ne i old (λ e. k (sym e))) refl

          gone : (n : List ℕ) (j : ℕ) → is_named n (fs j) ≡ false → is_named n (g j) ≡ false
          gone n j e = elim (ℕ_discrete j old) [
            | yes l ↦ rw (l, ==_refl) refl
            | no l ↦ rw (==_ne j old l) e
          ]

          none_b : (j : ℕ) → j < tmp_max_files → is_named b (g j) ≡ false
          none_b j hi = elim (ℕ_discrete j old) [
            | yes l ↦ rw (l, ==_refl) refl
            | no l ↦ elim (Bool-cases (is_named b (fs j))) [
              | inl t ↦ absurd (l (unique b j old hi at_old.0 t at_old.1))
              | inr t ↦ rw (==_ne j old l) t
            ]
          ]

      by_old :
          (o : Option ℕ)
          → find_leaf fs (some b) ≡ o
          → let gs = (rename_over malloc release h fs i b o).1.0 in
            (read_found gs offset len (find_leaf gs (some b)) ≡ read_found fs offset len (some i))
            × (read_found gs offset len (find_leaf gs (some a)) ≡ (failed, []))
      by_old none e =
          renamed-read fs a b i offset len at_i.0 ne at_i.1 only
            (λ j hi k. find_leaf-unnamed fs b e j hi)
      by_old (some old) e = elim (ℕ_discrete old i) [
        | yes k ↦ cc (rw (k, named-other b a (fs i) ne at_i.1) at (find_leaf-named fs b old e).1)
        | no k ↦ rw (==_ne old i k) (over old k (find_leaf-named fs b old e))
      ]

  -- After a rename that succeeded, to another name than the file's, the new name reads what the old
  -- one read, and the old one reads as a file that is not there; whether the new name had a file
  -- before or not.
  pub tmp_rename-read :
      (h : H) (fs : FileTable) (from to : Option (List ℕ)) (a b : List ℕ) (offset len : ℕ)
      → IsUnique fs
      → leaf from ≡ some a
      → leaf to ≡ some b
      → a ≢ b
      → (tmp_rename malloc release h fs from to).0 ≡ true
      → let gs = (tmp_rename malloc release h fs from to).1.0 in
        (tmp_read_at gs to offset len ≡ tmp_read_at fs from offset len)
        × (tmp_read_at gs from offset len ≡ (failed, []))
  unfolding tmp_rename rename_leaf tmp_read_at find
  tmp_rename-read h fs from to a b offset len unique ea eb ne ok =
      rw (ea, eb) (by_found (find_leaf fs (some a)) refl (rw (ea, eb) at ok))
    where
      by_found :
          (o : Option ℕ)
          → find_leaf fs (some a) ≡ o
          → (rename_leaf malloc release h fs to o (some b)).0 ≡ true
          → let gs = (rename_leaf malloc release h fs to o (some b)).1.0 in
            (read_found gs offset len (find_leaf gs (some b)) ≡ read_found fs offset len o)
            × (read_found gs offset len (find_leaf gs (some a)) ≡ (failed, []))
      by_found none e k = cc
      by_found (some i) e k = elim (Bool-cases (leb dirname_max (length b))) [
        | inl c ↦ cc (rw c at k)
        | inr c ↦ rw (c, eb) (rename_over-to h fs a b i offset len unique ne e)
      ]
