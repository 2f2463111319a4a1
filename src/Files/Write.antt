-- ===== src/Files/Write.antt =====
-- kernel/tmpfs.c: what is read after a write.
use ubiqos.Common.{
  ltb, leb, ◌==◌, if◌then◌else◌, ==_refl, Bool-cases, length, put, ℕ, ◌+◌, ◌-◌, ◌*◌, ◌/◌, ◌%◌, ◌^◌,
  ◌≤◌, ◌<◌, ◌≡◌, refl, ap, subst, inl, inr, Option, none, some, List, arith,
}
use mathlib.Core.Option.{some-injective}
use ubiqos.Files.{
  Block, TmpFile, FileTable, find, find_leaf, leaf, create, create_leaf, create_at, first_from,
  is_named, is_unused, fresh_file, tmp_max_files, tmp_grow, dirname_max, doubled, bytes_of, moved,
  retry, reserve,
}
use ubiqos.Files.Find.{name_eq_refl, first_from-some, first_from-put, first_from-kept}
use ubiqos.Files.Bytes.{doubled-reaches}

-- A file without a block has no capacity.
abbrev pub IsSound : TmpFile → Type 0
IsSound f = f.contents ≡ none → f.cap ≡ 0

-- The capacity of a file is within the block it has.
abbrev pub Holds : TmpFile → Type 0
Holds f = (b : Block) → f.contents ≡ some b → f.cap ≤ b.room

pub find-kept :
    (fs : FileTable) (path : Option (List ℕ)) (i : ℕ) (v : TmpFile)
    → v.name ≡ (fs i).name
    → v.used ≡ (fs i).used
    → find (put fs i v) path ≡ find fs path
unfolding find find_leaf
find-kept fs path i v en eu = by_leaf (leaf path)
  where
    by_leaf : (l : Option (List ℕ)) → find_leaf (put fs i v) l ≡ find_leaf fs l
    by_leaf none = refl
    by_leaf (some n) = first_from-kept tmp_max_files (is_named n) fs 0 i v (rw (en, eu) refl)

-- What a file made for a path is: it is found under that path, and it is empty.
pub create-find :
    (fs gs : FileTable) (path : Option (List ℕ)) (i : ℕ)
    → find fs path ≡ none
    → create fs path ≡ some (i, gs)
    → (find gs path ≡ some i) × IsSound (gs i)
unfolding find create create_leaf create_at find_leaf
create-find fs gs path i absent made = by_leaf (leaf path) absent made
  where
    by_slot :
        (n : List ℕ) (o : Option ℕ)
        → first_from tmp_max_files is_unused fs 0 ≡ o
        → find_leaf fs (some n) ≡ none
        → create_at fs n o ≡ some (i, gs)
        → (find_leaf gs (some n) ≡ some i) × IsSound (gs i)
    by_slot n none e a m = cc
    by_slot n (some j) e a m =
        let p : (j ≡ i) × (put fs j (fresh_file n) ≡ gs) =
          let q : (j, put fs j (fresh_file n)) ≡ (i, gs) = some-injective _ _ m in
          (ap (λ t. t.0) q, ap (λ t. t.1) q) in
        let (lo, hi, t) = first_from-some tmp_max_files is_unused fs 0 j e in
        rw (← p.1) (
          rw (← p.0) (
            first_from-put tmp_max_files (is_named n) fs 0 j (fresh_file n) a (name_eq_refl n) lo
                hi,
            rw ==_refl (λ _. refl),
          ))

    by_leaf :
        (l : Option (List ℕ))
        → find_leaf fs l ≡ none
        → create_leaf fs l ≡ some (i, gs)
        → (find_leaf gs l ≡ some i) × IsSound (gs i)
    by_leaf none a m = cc
    by_leaf (some n) a m = elim (Bool-cases (leb dirname_max (length n))) [
      | inl e ↦ cc (rw e at m)
      | inr e ↦ by_slot n _ refl a (rw e at m)
    ]

module _ {H : Type 0} (malloc : H → ℕ → Option (Block × H)) (release : H → ℕ → H) where
  -- What `reserve` keeps of a file: all but its block and capacity, and the bytes it holds.
  abbrev pub Keeps : TmpFile → TmpFile → Type 0
  Keeps f g =
      (g.name ≡ f.name)
      × (g.used ≡ f.used)
      × (g.size ≡ f.size)
      × ((j : ℕ) → j < f.size → bytes_of g.contents j ≡ bytes_of f.contents j)

  moved-Keeps :
      (f : TmpFile) (cap want : ℕ) (b : Block × H)
      → want ≤ cap
      → Keeps f (moved malloc release f cap b).0
        × (want ≤ (moved malloc release f cap b).0.cap)
        × IsSound (moved malloc release f cap b).0
  moved-Keeps f cap want b le = ((refl, refl, refl, λ j lt. ground arith), le, λ e. cc)

  pub reserve_kept :
      (h : H) (f : TmpFile) (want : ℕ) (r : TmpFile × H)
      → IsSound f
      → want ≤ 2 ^ 31
      → reserve malloc release h f want ≡ some r
      → Keeps f r.0 × (want ≤ r.0.cap) × IsSound r.0
  unfolding reserve retry
  reserve_kept h f want r sound small e = elim (Bool-cases (leb want f.cap)) [
    | inl c ↦
        let k : (f, h) ≡ r = some-injective _ _ (rw c at e) in
        subst (λ r. Keeps f r.0 × (want ≤ r.0.cap) × IsSound r.0) k
          ((refl, refl, refl, λ j lt. refl), ground arith, sound)
    | inr c ↦ by_alloc (malloc h cap) (rw c at e)
  ]
    where
      need : ℕ
      need = (want + tmp_grow - 1) % 2 ^ 32 / tmp_grow * tmp_grow

      first : ℕ
      first = if f.cap == 0 then tmp_grow else f.cap

      cap : ℕ
      cap = doubled 32 first need

      enough : want ≤ need
      enough = omega arith

      positive : 0 < first
      positive = ground arith

      reached : want ≤ cap
      reached =
          let n : need ≤ 2 ^ 31 = omega arith in
          let d : need ≤ doubled 32 first need =
            doubled-reaches 32 first need n (omega (arith, n, positive)) in
          omega (arith, d, enough)

      by_alloc :
          (o : Option (Block × H))
          → retry malloc release h f cap need o ≡ some r
          → Keeps f r.0 × (want ≤ r.0.cap) × IsSound r.0
      by_alloc (some b) m =
          subst (λ r. Keeps f r.0 × (want ≤ r.0.cap) × IsSound r.0) (some-injective _ _ m)
            (moved-Keeps f cap want b reached)
      by_alloc none m = elim (Bool-cases (ltb need cap)) [
        | inl c ↦ again (malloc h need) (rw c at m)
        | inr c ↦ cc (rw c at m)
      ]
        where
          again :
              (o : Option (Block × H))
              → elim o [ none ↦ none | some b ↦ some (moved malloc release f need b) ] ≡ some r
              → Keeps f r.0 × (want ≤ r.0.cap) × IsSound r.0
          again none m = cc
          again (some b) m =
              subst (λ r. Keeps f r.0 × (want ≤ r.0.cap) × IsSound r.0) (some-injective _ _ m)
                (moved-Keeps f need want b enough)

  -- What malloc documents: a block it gives has the size that was asked, or more.
  abbrev pub Grants : Type 0
  Grants = (h : H) (n : ℕ) (b : Block × H) → malloc h n ≡ some b → n ≤ b.0.room

  reserve-Holds :
      (h : H) (f : TmpFile) (want : ℕ) (r : TmpFile × H)
      → Grants
      → Holds f
      → reserve malloc release h f want ≡ some r
      → Holds r.0
  unfolding reserve retry
  reserve-Holds h f want r grants holds e = elim (Bool-cases (leb want f.cap)) [
    | inl c ↦ let k : (f, h) ≡ r = some-injective _ _ (rw c at e) in subst (λ r. Holds r.0) k holds
    | inr c ↦ by_alloc _ refl (rw c at e)
  ]
    where
      need : ℕ
      need = (want + tmp_grow - 1) % 2 ^ 32 / tmp_grow * tmp_grow

      cap : ℕ
      cap = doubled 32 (if f.cap == 0 then tmp_grow else f.cap) need

      granted :
          (n : ℕ) (b : Block × H)
          → malloc h n ≡ some b
          → some (moved malloc release f n b) ≡ some r
          → Holds r.0
      granted n b m eq =
          subst (λ r. Holds r.0) (some-injective _ _ eq)
            (λ c ec. subst (λ c. n ≤ c.room) (some-injective _ _ ec) (grants h n b m))

      by_alloc :
          (o : Option (Block × H))
          → malloc h cap ≡ o
          → retry malloc release h f cap need o ≡ some r
          → Holds r.0
      by_alloc (some b) m eq = granted cap b m eq
      by_alloc none m eq = elim (Bool-cases (ltb need cap)) [
        | inl c ↦ again _ refl (rw c at eq)
        | inr c ↦ cc (rw c at eq)
      ]
        where
          again :
              (o : Option (Block × H))
              → malloc h need ≡ o
              → elim o [ none ↦ none | some b ↦ some (moved malloc release f need b) ] ≡ some r
              → Holds r.0
          again none n x = cc
          again (some b) n x = granted need b n x

  -- When the allocator gives blocks of the size asked or more, a file that got room for `want` bytes,
  -- up to 2^31, is the file as before: its name, its size and the bytes it holds are kept. Its
  -- capacity is `want` or more and lies within the block it now has, as it did before; a file that
  -- has no block has no capacity, before and after.
  pub reserve-Keeps :
      (h : H) (f : TmpFile) (want : ℕ) (r : TmpFile × H)
      → Grants
      → IsSound f
      → Holds f
      → want ≤ 2 ^ 31
      → reserve malloc release h f want ≡ some r
      → Keeps f r.0 × (want ≤ r.0.cap) × IsSound r.0 × Holds r.0
  reserve-Keeps h f want r grants sound holds small e =
      let (kept, room, s) = reserve_kept h f want r sound small e in
      (kept, room, s, reserve-Holds h f want r grants holds e)
