-- ===== src/Volumes/Mounts.antt =====
-- kernel/vfs.c: a path into a volume that was added.
use ubiqos.Common.{
  leb, ◌==◌, Bool-cases, length, get_or, set, take, ℕ, zero, suc, ◌≤◌, ◌≡◌, refl, ap, ◌∙◌, ◌≢◌, inl,
  inr, true, false, Option, none, some, List, [], ◌∷◌, ◌++◌, arith,
}
use ubiqos.Files.{name_eq, has_slash, slash}
use ubiqos.Files.Find.{name_eq_refl}
use ubiqos.Volumes.{
  Volume, max_volumes, name_copy, find_volume, add_at, vfs_add, ops_at, split_name, split_parts,
  split_path, vfs_split,
}

-- The name of a volume in a path ends at the slash behind it.
split_name-name :
    (n : ℕ) (name rest : List ℕ)
    → length name ≤ n
    → has_slash name ≡ false
    → split_name n (name ++ slash ∷ rest) ≡ (name, slash ∷ rest)
unfolding split_name has_slash
split_name-name zero [] rest le h = refl
split_name-name (suc n) [] rest le h = refl
split_name-name zero (c ∷ cs) rest le h = absurd (omega arith)
split_name-name (suc n) (c ∷ cs) rest le h =
    let e : (c == slash) ≡ false = ground arith in
    let t : has_slash cs ≡ false = rw e at h in
    rw (e, split_name-name n cs rest (omega arith) t) refl

take-all : (n : ℕ) (xs : List ℕ) → length xs ≤ n → take n xs ≡ xs
take-all zero [] le = refl
take-all zero (x ∷ xs) le = absurd (omega arith)
take-all (suc n) [] le = refl
take-all (suc n) (x ∷ xs) le = ap (◌∷◌ x) (take-all n xs (omega arith))

-- The index in the tail of a list.
abbrev next_index : Option ℕ → Option ℕ
next_index o = elim o [ none ↦ none | some i ↦ some (suc i) ]

ops_at-next :
    (v : Volume) (vs : List Volume) (o : Option ℕ) → ops_at (v ∷ vs) (next_index o) ≡ ops_at vs o
unfolding ops_at
ops_at-next v vs none = refl
ops_at-next v vs (some i) = refl

next_some : (o : Option ℕ) (i : ℕ) → next_index o ≡ some (suc i) → o ≡ some i
next_some none i e = cc
next_some (some j) i e = ground arith

next_none : (o : Option ℕ) → next_index o ≡ none → o ≡ none
next_none none e = refl
next_none (some j) e = cc

next_zero : (o : Option ℕ) → next_index o ≢ some 0
next_zero none e = cc
next_zero (some j) e = cc

-- A found name has the operations that are set for it.
set-found :
    (vs : List Volume) (name : List ℕ) (i ops : ℕ)
    → find_volume vs name ≡ some i
    → let ws =
        set vs i
          (record { name = (get_or vs i (record { name = []; ops = 0 })).name; ops = ops }) in
      ops_at ws (find_volume ws name) ≡ some ops
unfolding find_volume ops_at
set-found [] name i ops e = cc
set-found (v ∷ vs) name zero ops e = elim (Bool-cases (name_eq v.name name)) [
  | inl t ↦ rw t refl
  | inr t ↦ absurd (next_zero (find_volume vs name) (rw t at e))
]
set-found (v ∷ vs) name (suc i) ops e = elim (Bool-cases (name_eq v.name name)) [
  | inl t ↦ cc (rw t at e)
  | inr t ↦
      rw t (
        ops_at-next v _ _ ∙ set-found vs name i ops (next_some (find_volume vs name) i (rw t at e)))
]

append-found :
    (vs : List Volume) (name : List ℕ) (ops : ℕ)
    → find_volume vs name ≡ none
    → let ws = vs ++ record { name = name; ops = ops } ∷ [] in
      ops_at ws (find_volume ws name) ≡ some ops
unfolding find_volume ops_at
append-found [] name ops e = rw (name_eq_refl name) refl
append-found (v ∷ vs) name ops e = elim (Bool-cases (name_eq v.name name)) [
  | inl t ↦ cc (rw t at e)
  | inr t ↦
      rw t
        (ops_at-next v _ _ ∙ append-found vs name ops (next_none (find_volume vs name) (rw t at e)))
]

added-found :
    (vs : List Volume) (name : List ℕ) (ops : ℕ) (o : Option ℕ)
    → find_volume vs name ≡ o
    → length name ≤ 11
    → (add_at vs name ops o).0 ≡ true
    → ops_at (add_at vs name ops o).1 (find_volume (add_at vs name ops o).1 name) ≡ some ops
unfolding add_at name_copy
added-found vs name ops (some i) e short ok = set-found vs name i ops e
added-found vs name ops none e short ok = elim (Bool-cases (leb max_volumes (length vs))) [
  | inl t ↦ cc (rw t at ok)
  | inr t ↦ rw (t, take-all 11 name short) (append-found vs name ops e)
]

split_found :
    (vs : List Volume) (c : ℕ) (cs rest : List ℕ) (ops : ℕ)
    → ops_at vs (find_volume vs (c ∷ cs)) ≡ some ops
    → split_parts vs (c ∷ cs, slash ∷ rest) ≡ some (ops, slash ∷ rest)
unfolding split_parts
split_found vs c cs rest ops e = rw e refl

-- A path into a volume that was added, whose name is not empty, has no slash and has at most eleven
-- characters, goes to the operations it was added with, and starts with a slash in the volume's own
-- terms; also when the name had other operations before.
pub vfs_add-split :
    (vs : List Volume) (name rest : List ℕ) (ops : ℕ)
    → name ≢ []
    → has_slash name ≡ false
    → length name ≤ 11
    → (vfs_add vs name ops).0 ≡ true
    → vfs_split (vfs_add vs name ops).1 (some (slash ∷ name ++ slash ∷ rest))
      ≡ some (ops, slash ∷ rest)
unfolding vfs_split split_path vfs_add
vfs_add-split vs [] rest ops ne flat short ok = absurd (ne refl)
vfs_add-split vs (c ∷ cs) rest ops ne flat short ok =
    ap (split_parts (vfs_add vs (c ∷ cs) ops).1) (split_name-name 11 (c ∷ cs) rest short flat)
    ∙ split_found (vfs_add vs (c ∷ cs) ops).1 c cs rest ops
        (added-found vs (c ∷ cs) ops (find_volume vs (c ∷ cs)) refl short ok)
