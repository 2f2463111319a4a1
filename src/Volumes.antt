-- ===== src/Volumes.antt =====
-- kernel/vfs.c: the table of mounted volumes. The entries in use are a list; the operations of a
-- volume are a number that stands for the address of their table. A string is the list of its
-- characters before the NUL, a null pointer is `none`.
pub mod Mounts
use ubiqos.Common.{
  leb, ◌==◌, if◌then◌else◌, length, get_or, set, take, is_nil, ℕ, zero, suc, ◌-◌, Bool, true, false,
  Option, none, some, List, [], ◌∷◌, ◌++◌,
}
use ubiqos.Files.{name_eq, slash}

abbrev pub max_volumes : ℕ
max_volumes = 4

-- What a name field holds.
abbrev pub name_room : ℕ
name_room = 11

pub record Volume : Type 0 where
  pub name : List ℕ
  pub ops : ℕ

unfoldable pub name_copy : List ℕ → List ℕ
name_copy src = take name_room src

unfoldable pub find_volume : List Volume → List ℕ → Option ℕ
find_volume [] name = none
find_volume (v ∷ vs) name =
    if name_eq v.name name
    then some 0
    else elim (find_volume vs name) [ none ↦ none | some i ↦ some (suc i) ]

unfoldable pub add_at : List Volume → List ℕ → ℕ → Option ℕ → Bool × List Volume
unfolding name_copy
add_at vs name ops (some i) = (
  true,
  set vs i (record { name = (get_or vs i (record { name = []; ops = 0 })).name; ops = ops }),
)
add_at vs name ops none =
    if leb max_volumes (length vs)
    then (false, vs)
    else (true, vs ++ record { name = name_copy name; ops = ops } ∷ [])

-- A remount is the same volume.
unfoldable pub vfs_add : List Volume → List ℕ → ℕ → Bool × List Volume
unfolding find_volume add_at
vfs_add vs name ops = add_at vs name ops (find_volume vs name)

unfoldable pub ops_at : List Volume → Option ℕ → Option ℕ
ops_at vs none = none
ops_at vs (some i) = some (get_or vs i (record { name = []; ops = 0 })).ops

-- The characters of the volume's name in a path, at most `n` of them, and what follows.
unfoldable pub split_name : ℕ → List ℕ → List ℕ × List ℕ
split_name zero path = ([], path)
split_name (suc n) [] = ([], [])
split_name (suc n) (c ∷ cs) =
    let rest = split_name n cs in if c == slash then ([], c ∷ cs) else (c ∷ rest.0, rest.1)

-- "/sd" means that volume's root.
abbrev pub rest_or_root : List ℕ → List ℕ
rest_or_root [] = slash ∷ []
rest_or_root (c ∷ cs) = c ∷ cs

unfoldable pub split_parts : List Volume → List ℕ × List ℕ → Option (ℕ × List ℕ)
unfolding find_volume ops_at
split_parts vs parts = if is_nil parts.0 then none else elim (ops_at vs (find_volume vs parts.0)) [
  | none ↦ none
  | some ops ↦ some (ops, rest_or_root parts.1)
]

unfoldable pub split_path : List Volume → List ℕ → Option (ℕ × List ℕ)
unfolding split_parts split_name
split_path vs [] = none
split_path vs (c ∷ cs) = if c == slash then split_parts vs (split_name name_room cs) else none

-- The operations and the path in the volume's own terms; `none` where the source returns 0.
unfoldable pub vfs_split : List Volume → Option (List ℕ) → Option (ℕ × List ℕ)
unfolding split_path
vfs_split vs none = none
vfs_split vs (some path) = split_path vs path

-- The last entry takes the place of the one removed.
remove_at : List Volume → Option ℕ → List Volume
remove_at vs none = vs
remove_at vs (some i) =
    let n = length vs - 1 in take n (set vs i (get_or vs n (record { name = []; ops = 0 })))

unfoldable pub vfs_remove : List Volume → List ℕ → List Volume
unfolding find_volume remove_at
vfs_remove vs name = remove_at vs (find_volume vs name)

pub vfs_root_nth : List Volume → ℕ → Option (List ℕ)
unfolding name_copy
vfs_root_nth vs index =
    if leb (length vs) index
    then none
    else some (name_copy (get_or vs index (record { name = []; ops = 0 })).name)
