-- ===== src/Files/Read.antt =====
-- kernel/tmpfs.c: a read after a write.
use ubiqos.Common.{
  ltb, leb, if◌then◌else◌, ==_refl, Bool-cases, Option-cases, length, get_or, put, ℕ, suc, ◌+◌, ◌-◌,
  ◌%◌, ◌^◌, ◌≤◌, ◌<◌, ◌≡◌, refl, ap, ◌∙◌, inl, inr, false, ◌&&◌, Option, none, some, List, [], ◌∷◌,
  arith,
}
use ubiqos.Common.Int.{pos}
use ubiqos.Files.{
  Block, TmpFile, FileTable, find, create, bytes_of, zero_gap, read_bytes, written, read_file,
  read_found, tmp_read_at, reserve, write_reserved, write_in, write_created, write_found,
  tmp_write_at,
}
use ubiqos.Files.Bytes.{zero_gap-at, write_bytes-at, read_bytes-of}
use ubiqos.Files.Write.{IsSound, find-kept, create-find, reserve_kept}

-- A byte of a file with a block after a write whose end does not wrap: what was written where the
-- write reaches, zero in the gap between the old end and the write, and else what it was before.
pub written-bytes :
    (f : TmpFile) (b : Block) (offset : ℕ) (buf : List ℕ) (j : ℕ)
    → f.contents ≡ some b
    → offset + length buf < 2 ^ 32
    → bytes_of (written f offset buf).contents j ≡ (
        if leb offset j && ltb j (offset + length buf)
        then get_or buf (j - offset) 0
        else if leb f.size j && ltb j offset
        then 0
        else b.bytes j)
unfolding written
written-bytes f b offset buf j e small =
    let z : offset + 0 ≡ offset = omega arith in
    rw e (
      (write_bytes-at (zero_gap b.bytes f.size (offset - f.size)) offset 0 buf j (omega arith))
      ∙ rw (z, zero_gap-at b.bytes f.size (offset - f.size) j) (ground arith))

size-written :
    (f : TmpFile) (offset : ℕ) (buf : List ℕ)
    → offset + length buf < 2 ^ 32
    → offset + length buf ≤ (written f offset buf).size
unfolding written
size-written f offset buf small = ground arith

read_file-zero : (f : TmpFile) (offset : ℕ) → read_file f offset 0 ≡ (pos 0, [])
unfolding read_file read_bytes
read_file-zero f offset =
    let e : ltb (f.size - offset) 0 ≡ false = ground arith in
    rw e (elim (Bool-cases (leb f.size offset)) [ inl c ↦ rw c refl | inr c ↦ rw c refl ])

-- A read that ends within the file.
read_file-within :
    (f : TmpFile) (offset : ℕ) (buf : List ℕ)
    → 0 < length buf
    → offset + length buf ≤ f.size
    → ((k : ℕ) → k < length buf → bytes_of f.contents (offset + k) ≡ get_or buf k 0)
    → read_file f offset (length buf) ≡ (pos (length buf), buf)
unfolding read_file
read_file-within f offset buf some_ fits h =
    let c : leb f.size offset ≡ false = ground arith in
    let d : ltb (f.size - offset) (length buf) ≡ false = ground arith in
    rw c (rw d (ap (λ l. (pos (length buf), l)) (read_bytes-of (bytes_of f.contents) offset buf h)))

-- What is read at the place of a write is what was written.
read-written :
    (f : TmpFile) (offset : ℕ) (buf : List ℕ)
    → (f.contents ≡ none → length buf ≡ 0)
    → offset + length buf < 2 ^ 32
    → read_file (written f offset buf) offset (length buf) ≡ (pos (length buf), buf)
read-written f offset [] room small = read_file-zero (written f offset []) offset
read-written f offset (c ∷ cs) room small = elim (Option-cases f.contents) [
  | inl e ↦ absurd (let z : suc (length cs) ≡ 0 = room e in omega (arith, z))
  | inr (b, e) ↦
      read_file-within (written f offset (c ∷ cs)) offset (c ∷ cs) (omega arith)
        (size-written f offset (c ∷ cs) small)
        (λ k lt. written-bytes f b offset (c ∷ cs) (offset + k) e small ∙ inside k lt b)
]
  where
    inside :
        (k : ℕ)
        → k < length (c ∷ cs)
        → (b : Block)
        → (if leb offset (offset + k) && ltb (offset + k) (offset + length (c ∷ cs))
            then get_or (c ∷ cs) (offset + k - offset) 0
            else if leb f.size (offset + k) && ltb (offset + k) offset
            then 0
            else b.bytes (offset + k))
          ≡ get_or (c ∷ cs) k 0
    inside k lt b = let z : offset + k - offset ≡ k = omega arith in rw z (ground arith)

module _ {H : Type 0} (malloc : H → ℕ → Option (Block × H)) (release : H → ℕ → H) where
  -- A write in an entry that is found under the path, and a read of it.
  write_in-read :
      (h : H) (fs : FileTable) (path : Option (List ℕ)) (i offset : ℕ) (buf : List ℕ)
      → find fs path ≡ some i
      → IsSound (fs i)
      → offset + length buf ≤ 2 ^ 31
      → (write_in malloc release h fs i offset buf).0 ≡ pos (length buf)
      → tmp_read_at (write_in malloc release h fs i offset buf).1.0 path offset (length buf)
        ≡ (pos (length buf), buf)
  unfolding write_in write_reserved tmp_read_at read_found written
  write_in-read h fs path i offset buf found sound small =
      by_room (reserve malloc release h (fs i) ((offset + length buf) % 2 ^ 32)) refl
    where
      by_room :
          (o : Option (TmpFile × H))
          → reserve malloc release h (fs i) ((offset + length buf) % 2 ^ 32) ≡ o
          → (write_reserved malloc release h fs i offset buf o).0 ≡ pos (length buf)
          → tmp_read_at
              (write_reserved malloc release h fs i offset buf o).1.0
              path
              offset
              (length buf)
            ≡ (pos (length buf), buf)
      by_room none e ok = cc
      by_room (some r) e ok =
          let (kept, room, s) = reserve_kept malloc release h (fs i) _ r sound (omega arith) e in
          let f : find (put fs i (written r.0 offset buf)) path ≡ some i =
            find-kept fs path i (written r.0 offset buf) kept.0 kept.1 ∙ found in
          rw f (
            rw ==_refl (
              read-written r.0 offset buf (λ n. let z : r.0.cap ≡ 0 = s n in omega (arith, z, room))
                (omega arith)))

  -- What a write stored, a read at the same place gives back, whether the write found the file or
  -- made it: when the write succeeds and does not end behind 2^31, the read returns the same count
  -- and the same bytes.
  pub tmp_write_at-read :
      (h : H) (fs : FileTable) (path : Option (List ℕ)) (offset : ℕ) (buf : List ℕ)
      → ((i : ℕ) → IsSound (fs i))
      → offset + length buf ≤ 2 ^ 31
      → (tmp_write_at malloc release h fs path offset buf).0 ≡ pos (length buf)
      → tmp_read_at (tmp_write_at malloc release h fs path offset buf).1.0 path offset (length buf)
        ≡ (pos (length buf), buf)
  unfolding tmp_write_at write_found write_created
  tmp_write_at-read h fs path offset buf sound small = by_find (find fs path) refl
    where
      by_made :
          (o : Option (ℕ × FileTable))
          → find fs path ≡ none
          → create fs path ≡ o
          → (write_created malloc release h fs offset buf o).0 ≡ pos (length buf)
          → tmp_read_at
              (write_created malloc release h fs offset buf o).1.0
              path
              offset
              (length buf)
            ≡ (pos (length buf), buf)
      by_made none a e ok = cc
      by_made (some (i, gs)) a e ok =
          let (f, s) = create-find fs gs path i a e in
          write_in-read h gs path i offset buf f s small ok

      by_find :
          (o : Option ℕ)
          → find fs path ≡ o
          → (write_found malloc release h fs path offset buf o).0 ≡ pos (length buf)
          → tmp_read_at
              (write_found malloc release h fs path offset buf o).1.0
              path
              offset
              (length buf)
            ≡ (pos (length buf), buf)
      by_find (some i) e ok = write_in-read h fs path i offset buf e (sound i) small ok
      by_find none e ok = by_made (create fs path) e refl ok
