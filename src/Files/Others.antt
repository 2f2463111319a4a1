-- ===== src/Files/Others.antt =====
-- kernel/tmpfs.c: a write as the other names see it.
use ubiqos.Common.{
  leb, ==_refl, Bool-cases, length, put, ℕ, ◌+◌, ◌%◌, ◌^◌, ◌≤◌, ◌≡◌, refl, ◌∙◌, subst, ◌≢◌, inl,
  inr, false, Option, none, some, List, arith,
}
use mathlib.Core.Option.{some-injective}
use ubiqos.Files.{
  Block, TmpFile, FileTable, find, find_leaf, leaf, first_from, is_named, tmp_max_files,
  dirname_max, create, create_leaf, create_at, fresh_file, is_unused, written, read_found,
  tmp_read_at, reserve, write_reserved, write_in, write_created, write_found, tmp_write_at,
}
use ubiqos.Files.Find.{name_eq_ne, first_from-some}
use ubiqos.Files.Write.{IsSound, create-find, reserve_kept}
use ubiqos.Files.Rename.{other-read, named-other, find_leaf-named}

-- A file made for one name leaves what is read under another, and has not that other name.
create-other :
    (fs gs : FileTable) (path : Option (List ℕ)) (n m : List ℕ) (i at_ len : ℕ)
    → leaf path ≡ some n
    → n ≢ m
    → create fs path ≡ some (i, gs)
    → (is_named m (gs i) ≡ false)
      × (read_found gs at_ len (find_leaf gs (some m))
          ≡ read_found fs at_ len (find_leaf fs (some m)))
unfolding create create_leaf create_at
create-other fs gs path n m i at_ len en ne made = elim (Bool-cases (leb dirname_max (length n))) [
  | inl e ↦ cc (rw (en, e) at made)
  | inr e ↦ by_slot (first_from tmp_max_files is_unused fs 0) refl (rw (en, e) at made)
]
  where
    by_slot :
        (o : Option ℕ)
        → first_from tmp_max_files is_unused fs 0 ≡ o
        → create_at fs n o ≡ some (i, gs)
        → (is_named m (gs i) ≡ false)
          × (read_found gs at_ len (find_leaf gs (some m))
              ≡ read_found fs at_ len (find_leaf fs (some m)))
    by_slot none e k = cc
    by_slot (some j) e k =
        let q : (j, put fs j (fresh_file n)) ≡ (i, gs) = some-injective _ _ k in
        let (lo, hi, t) = first_from-some tmp_max_files is_unused fs 0 j e in
        let u : is_named m (fs j) ≡ false = ground arith in
        subst
          (λ c.
            (is_named m (c.1 c.0) ≡ false)
            × (read_found c.1 at_ len (find_leaf c.1 (some m))
                ≡ read_found fs at_ len (find_leaf fs (some m))))
          q
          (
            rw ==_refl (name_eq_ne n m ne),
            other-read fs j (fresh_file n) m at_ len u (name_eq_ne n m ne),
          )

module _ {H : Type 0} (malloc : H → ℕ → Option (Block × H)) (release : H → ℕ → H) where
  write_in-other :
      (h : H) (fs : FileTable) (m : List ℕ) (i offset : ℕ) (buf : List ℕ) (at_ len : ℕ)
      → IsSound (fs i)
      → offset + length buf ≤ 2 ^ 31
      → is_named m (fs i) ≡ false
      → let gs = (write_in malloc release h fs i offset buf).1.0 in
        read_found gs at_ len (find_leaf gs (some m))
        ≡ read_found fs at_ len (find_leaf fs (some m))
  unfolding write_in write_reserved written
  write_in-other h fs m i offset buf at_ len sound small un =
      by_room (reserve malloc release h (fs i) ((offset + length buf) % 2 ^ 32)) refl
    where
      by_room :
          (o : Option (TmpFile × H))
          → reserve malloc release h (fs i) ((offset + length buf) % 2 ^ 32) ≡ o
          → let gs = (write_reserved malloc release h fs i offset buf o).1.0 in
            read_found gs at_ len (find_leaf gs (some m))
            ≡ read_found fs at_ len (find_leaf fs (some m))
      by_room none e = refl
      by_room (some r) e =
          let (kept, room, s) = reserve_kept malloc release h (fs i) _ r sound (omega arith) e in
          other-read fs i (written r.0 offset buf) m at_ len un (rw (kept.0, kept.1) un)

  -- A write leaves what is read under every other name, at any place and of any length, whether it
  -- succeeds or not, and whether it found the file or made it. It ends not behind 2^31.
  pub tmp_write_at-other :
      (h : H) (fs : FileTable) (path other : Option (List ℕ)) (n m : List ℕ) (offset : ℕ)
      (buf : List ℕ) (at_ len : ℕ)
      → ((i : ℕ) → IsSound (fs i))
      → offset + length buf ≤ 2 ^ 31
      → leaf path ≡ some n
      → leaf other ≡ some m
      → n ≢ m
      → tmp_read_at (tmp_write_at malloc release h fs path offset buf).1.0 other at_ len
        ≡ tmp_read_at fs other at_ len
  unfolding tmp_write_at write_found write_created tmp_read_at find
  tmp_write_at-other h fs path other n m offset buf at_ len sound small en em ne =
      rw (em, en) (by_find (find_leaf fs (some n)) refl)
    where
      by_made :
          (o : Option (ℕ × FileTable))
          → find fs path ≡ none
          → create fs path ≡ o
          → let gs = (write_created malloc release h fs offset buf o).1.0 in
            read_found gs at_ len (find_leaf gs (some m))
            ≡ read_found fs at_ len (find_leaf fs (some m))
      by_made none a e = refl
      by_made (some (i, gs)) a e =
          let (f, s) = create-find fs gs path i a e in
          let (u, same) = create-other fs gs path n m i at_ len en ne e in
          write_in-other h gs m i offset buf at_ len s small u ∙ same

      by_find :
          (o : Option ℕ)
          → find_leaf fs (some n) ≡ o
          → let gs = (write_found malloc release h fs path offset buf o).1.0 in
            read_found gs at_ len (find_leaf gs (some m))
            ≡ read_found fs at_ len (find_leaf fs (some m))
      by_find (some i) e =
          write_in-other h fs m i offset buf at_ len (sound i) small (other_name i e)
        where
          other_name : (i : ℕ) → find_leaf fs (some n) ≡ some i → is_named m (fs i) ≡ false
          other_name i e = named-other m n (fs i) ne (find_leaf-named fs n i e).1
      by_find none e = by_made (create fs path) (rw en e) refl
