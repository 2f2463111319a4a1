-- ===== src/Modules/Distinct.antt =====
-- kernel/moddir.c: the names of the directory stay different when an entry goes or comes.
use ubiqos.Common.{
  ◌==◌, if◌then◌else◌, ==_refl, ==_ne, Bool-cases, put, first_slot-some, first_slot-none,
  first_slot-first, ℕ, suc, ◌+◌, ◌-◌, ◌≤◌, ◌<◌, ◌≡◌, refl, sym, ◌∙◌, ◌≢◌, inl, inr, Bool, true,
  false, Option, none, some, arith, ℕ_discrete,
}
use ubiqos.Modules.{
  Name, ModuleEntry, Directory, text_eq, name_copy, index_of, entry_named, give_back, drop_entry,
  alloc_entry, fill_entry,
}
use ubiqos.Modules.Names.{IsShort, same_text_sym, same_text_trans, name_copy-text, name_copy-same}

-- A directory of at most 32 entries whose names are different strings.
pub record IsDirectory (d : Directory) : Type 0 where
  pub room : d.module_count ≤ 32
  pub distinct :
      (i j : ℕ)
      → i < d.module_count
      → j < d.module_count
      → i ≢ j
      → text_eq (d.modules i).name (d.modules j).name ≡ false

give_back-same :
    (d : Directory) (o : Option ℕ)
    → ((give_back d o).modules ≡ d.modules) × ((give_back d o).module_count ≡ d.module_count)
unfolding give_back
give_back-same d none = (refl, refl)
give_back-same d (some image) = (refl, refl)

-- The last entry stands where the dropped one stood.
pub drop_entry-modules :
    (d : Directory) (i : ℕ)
    → ((drop_entry d i).modules ≡ put d.modules i (d.modules (d.module_count - 1)))
      × ((drop_entry d i).module_count ≡ d.module_count - 1)
unfolding drop_entry
drop_entry-modules d i =
    let (em, en) = give_back-same d (d.modules i).owned in rw (em, en) (refl, refl)

moved_apart :
    (i l a b : ℕ) → a < l → b < l → a ≢ b → (if a == i then l else a) ≢ (if b == i then l else b)
moved_apart i l a b la lb ne e = ground arith

moved_below : (i l a : ℕ) → a < l → (if a == i then l else a) < suc l
moved_below i l a la = ground arith

moved_ne : (i l a : ℕ) → a < l → (if a == i then l else a) ≢ i
moved_ne i l a la e = ground arith

moved-at : (m : ℕ → ModuleEntry) (i l a : ℕ) → put m i (m l) a ≡ m (if a == i then l else a)
moved-at m i l a = elim (Bool-cases (a == i)) [ inl e ↦ rw e refl | inr e ↦ rw e refl ]

pub drop_entry-IsDirectory :
    (d : Directory) (i : ℕ) → i < d.module_count → IsDirectory d → IsDirectory (drop_entry d i)
drop_entry-IsDirectory d i lt v = record {
  room = rw en (omega (arith, v.room));
  distinct = λ a b la lb ne.
      let ka : a < d.module_count - 1 = rw en at la in
      let kb : b < d.module_count - 1 = rw en at lb in
      rw
        (
          em,
          moved-at d.modules i (d.module_count - 1) a,
          moved-at d.modules i (d.module_count - 1) b,
        )
        (v.distinct _ _ (let m = moved_below i (d.module_count - 1) a ka in omega (arith, m, lt))
          (let m = moved_below i (d.module_count - 1) b kb in omega (arith, m, lt))
          (moved_apart i (d.module_count - 1) a b ka kb ne));
}
  where
    em : (drop_entry d i).modules ≡ put d.modules i (d.modules (d.module_count - 1))
    em = (drop_entry-modules d i).0

    en : (drop_entry d i).module_count ≡ d.module_count - 1
    en = (drop_entry-modules d i).1

-- No entry has the name.
abbrev pub IsNew : Directory → Name → Type 0
IsNew d name = (i : ℕ) → i < d.module_count → text_eq (d.modules i).name name ≡ false

pub fill_entry-IsDirectory :
    (d : Directory) (header : ℕ) (owned : Option ℕ) (t : Bool) (name : Name) (e : ℕ)
    → d.module_count < 32
    → IsNew d name
    → IsShort name e
    → IsDirectory d
    → IsDirectory (fill_entry d d.module_count header owned t name)
unfolding fill_entry
fill_entry-IsDirectory d header owned t name e lt new short v = record {
  room = omega arith;
  distinct = apart;
}
  where
    c : ℕ
    c = d.module_count

    fresh : ModuleEntry
    fresh = record {
      header = header;
      links = 0;
      owned = owned;
      name = name_copy (d.modules c).name name;
      transient = t;
    }

    other : (i : ℕ) → i < c → text_eq (d.modules i).name fresh.name ≡ false
    other i l = name_copy-text (d.modules i).name (d.modules c).name name e short ∙ new i l

    apart :
        (i j : ℕ)
        → i < c + 1
        → j < c + 1
        → i ≢ j
        → text_eq (put d.modules c fresh i).name (put d.modules c fresh j).name ≡ false
    apart i j li lj ne = elim (ℕ_discrete i c) [
      | yes p ↦
          rw (p, ==_refl c, ==_ne j c (λ q. ne (p ∙ sym q)))
            (same_text_sym 16 0 fresh.name (d.modules j).name ∙ other j (omega (arith, ne, p)))
      | no np ↦ elim (ℕ_discrete j c) [
        | yes q ↦ rw (q, ==_refl c, ==_ne i c np) (other i (omega (arith, np)))
        | no nq ↦
            rw (==_ne i c np, ==_ne j c nq)
              (v.distinct i j (omega (arith, np)) (omega (arith, nq)) ne)
      ]
    ]

pub entry_named-IsNew : (d : Directory) (name : Name) → entry_named d name ≡ none → IsNew d name
unfolding entry_named index_of
entry_named-IsNew d name h i lt =
    first_slot-none d.module_count (λ k. text_eq (d.modules k).name name) 0 i h (omega arith)
      (omega arith)

pub entry_named-some :
    (d : Directory) (name : Name) (i : ℕ)
    → entry_named d name ≡ some i
    → (i < d.module_count) × (text_eq (d.modules i).name name ≡ true)
unfolding entry_named index_of
entry_named-some d name i h =
    let (lo, hi, t) = first_slot-some d.module_count (λ k. text_eq (d.modules k).name name) 0 i h in
    (omega (arith, hi), t)

not_both : (b : Bool) → b ≡ true → b ≡ false → ⊥
not_both b h k = cc

-- When the one entry of a name is dropped, the name is new.
pub drop_entry-IsNew :
    (d : Directory) (name : Name) (i : ℕ)
    → entry_named d name ≡ some i
    → IsDirectory d
    → IsNew (drop_entry d i) name
drop_entry-IsNew d name i h v a la =
    rw ((drop_entry-modules d i).0, moved-at d.modules i l a)
      (elim (Bool-cases (text_eq (d.modules (if a == i then l else a)).name name)) [
        | inr f ↦ f
        | inl t ↦ absurd (
            not_both _ (same_text_trans 16 0 _ _ name t (entry_named-some d name i h).1)
              (v.distinct (if a == i then l else a) i below (entry_named-some d name i h).0 apart))
      ])
  where
    l : ℕ
    l = d.module_count - 1

    ka : a < l
    ka = rw (drop_entry-modules d i).1 at la

    below : (if a == i then l else a) < d.module_count
    below = let m = moved_below i l a ka in omega (arith, m, la, ka)

    apart : (if a == i then l else a) ≢ i
    apart = moved_ne i l a ka

-- The entry that was just filled is the one of its name.
pub fill_entry-named :
    (d : Directory) (header : ℕ) (owned : Option ℕ) (t : Bool) (name : Name) (e : ℕ)
    → IsNew d name
    → IsShort name e
    → entry_named (fill_entry d d.module_count header owned t name) name ≡ some d.module_count
unfolding entry_named index_of fill_entry
fill_entry-named d header owned t name e new short =
    first_slot-first (d.module_count + 1) _ 0 d.module_count (omega arith) (omega arith)
      (rw (==_refl d.module_count) (name_copy-same (d.modules d.module_count).name name e short))
      (λ j lo lt. rw (==_ne j d.module_count (λ q. omega (arith, q, lt))) (new j lt))

pub alloc_entry-full : (d : Directory) → ¬ (d.module_count < 32) → alloc_entry d ≡ none
unfolding alloc_entry
alloc_entry-full d ge = ground arith

pub alloc_entry-some : (d : Directory) → d.module_count < 32 → alloc_entry d ≡ some d.module_count
unfolding alloc_entry
alloc_entry-some d lt = ground arith
