-- ===== src/Sched/Sleep/Wakes.antt =====
-- The abstract view of the sleep list: each sleeper with the number of ticks until it wakes.
use ubiqos.Common.{
  ◌<◌, ◌^◌, leb, ◌==◌, if◌then◌else◌, last?, All, Distinct, last?-ne, last?-cons, head_without, ℕ,
  ◌+◌, ◌-◌, ◌^◌, ◌<◌, ◌≡◌, refl, ap, ◌≢◌, Option, none, some, List, [], ◌∷◌, ◌++◌,
}
use ubiqos.Sched.State.{Kernel, max_processes}
use ubiqos.Sched.Ready.{Table}

-- The sleepers of a list of wake times.
abbrev pub pids : List (ℕ × ℕ) → List ℕ
pids [] = []
pids ((x, w) ∷ es) = x ∷ pids es

-- Following the list from `head`, whose first delta counts from `base`, meets exactly the sleepers
-- of the list, each at its wake time.
abbrev pub Wakes : Table → Option ℕ → ℕ → List (ℕ × ℕ) → Type 0
Wakes t head base [] = head ≡ none
Wakes t head base ((x, w) ∷ es) =
    (head ≡ some x) × ((t x).sleep_delta + base ≡ w) × Wakes t (t x).sleep_next w es

-- The kernel's sleepers are those of the list, in its order and with its wake times.
pub record Sleepers (k : Kernel) (es : List (ℕ × ℕ)) : Type 0 where
  pub wakes : Wakes k.table k.sleep_head 0 es
  pub distinct : Distinct (pids es)
  pub slots : All (λ x. x < max_processes) (pids es)
  pub small : All (λ e. e.1 < 2 ^ 31) es

abbrev pub first? : List (ℕ × ℕ) → Option ℕ
first? [] = none
first? ((x, w) ∷ es) = some x

-- The wake time of the last of the list, counted from `base`.
abbrev pub last_wake : ℕ → List (ℕ × ℕ) → ℕ
last_wake base [] = base
last_wake base ((x, w) ∷ es) = last_wake w es

-- A sleeper is put behind all that wake no later.
unfoldable pub insert_wake : ℕ → ℕ → List (ℕ × ℕ) → List (ℕ × ℕ)
insert_wake pid ticks [] = (pid, ticks) ∷ []
insert_wake pid ticks ((x, w) ∷ es) =
    let rest = insert_wake pid ticks es in
    if leb w ticks then (x, w) ∷ rest else (pid, ticks) ∷ (x, w) ∷ es

-- All sleepers but one.
unfoldable pub without : ℕ → List (ℕ × ℕ) → List (ℕ × ℕ)
without pid [] = []
without pid ((x, w) ∷ es) = if x == pid then es else (x, w) ∷ without pid es

-- What is left of the list after one tick: who had one tick left is gone, for the others one tick
-- less is left.
unfoldable pub tick_down : List (ℕ × ℕ) → List (ℕ × ℕ)
tick_down [] = []
tick_down ((x, w) ∷ es) = if w == 1 then tick_down es else (x, w - 1) ∷ tick_down es

-- A list is kept by what changes neither the delta nor the link of its sleepers.
pub Wakes-cong :
    (t t' : Table) (head : Option ℕ) (base : ℕ) (es : List (ℕ × ℕ))
    → All
        (λ x. ((t' x).sleep_delta ≡ (t x).sleep_delta) × ((t' x).sleep_next ≡ (t x).sleep_next))
        (pids es)
    → Wakes t head base es
    → Wakes t' head base es
Wakes-cong t t' head base [] same h = h
Wakes-cong t t' head base ((x, w) ∷ es) same h =
    (h.0, rw same.0.0 h.1, rw same.0.1 (Wakes-cong t t' (t x).sleep_next w es same.1 h.2))

pub pids-append : (es bs : List (ℕ × ℕ)) → pids (es ++ bs) ≡ pids es ++ pids bs
pids-append [] bs = refl
pids-append ((x, w) ∷ es) bs = ap (◌∷◌ x) (pids-append es bs)

-- The tail of a list of wake times is one from the last wake time before it.
pub Wakes-split :
    (t : Table) (head : Option ℕ) (base : ℕ) (es bs : List (ℕ × ℕ))
    → Wakes t head base (es ++ bs)
    → (cur : Option ℕ) × Wakes t cur (last_wake base es) bs
Wakes-split t head base [] bs h = (head, h)
Wakes-split t head base ((x, w) ∷ es) bs h = Wakes-split t (t x).sleep_next w es bs h.2

-- Putting a sleeper between `es` and `bs`.
pub Wakes-place :
    (t t' : Table) (head : Option ℕ) (base pid wake : ℕ) (es bs : List (ℕ × ℕ))
    → Wakes t head base (es ++ bs)
    → Distinct (pids es)
    → (t' pid).sleep_delta + last_wake base es ≡ wake
    → (t' pid).sleep_next ≡ first? bs
    → Wakes t' (first? bs) wake bs
    → All (λ x. (t' x).sleep_delta ≡ (t x).sleep_delta) (pids es)
    → ((q : ℕ) → last? (pids es) ≡ some q → (t' q).sleep_next ≡ some pid)
    → All (λ x. last? (pids es) ≢ some x → (t' x).sleep_next ≡ (t x).sleep_next) (pids es)
    → Wakes t' (head_without (last? (pids es)) head (some pid)) base (es ++ (pid, wake) ∷ bs)
Wakes-place t t' head base pid wake [] bs h d ed en rest same link keep = (refl, ed, rw en rest)
Wakes-place t t' head base pid wake ((x, w) ∷ []) bs h d ed en rest same link keep =
    (h.0, rw same.0 h.1, (link x refl, ed, rw en rest))
Wakes-place t t' head base pid wake ((x, w) ∷ (y, v) ∷ es) bs h d ed en rest same link keep =
    let r =
      Wakes-place t t' (t x).sleep_next w pid wake ((y, v) ∷ es) bs h.2 d.1 ed en rest same.1 link
        keep.1 in
    let (q, e) = last?-cons y (pids es) in
    (
      rw e h.0,
      rw same.0 h.1,
      rw (keep.0 (λ i. last?-ne x x (y ∷ pids es) d.0 i refl)) (rw (e, head_without) at r),
    )

-- A change that leaves the head and every place in the list leaves the sleepers.
pub same_Sleepers :
    (k : Kernel) (l : Kernel) (es : List (ℕ × ℕ))
    → l.sleep_head ≡ k.sleep_head
    → ((x : ℕ) → (l.table x).sleep_delta ≡ (k.table x).sleep_delta)
    → ((x : ℕ) → (l.table x).sleep_next ≡ (k.table x).sleep_next)
    → Sleepers k es
    → Sleepers l es
same_Sleepers k l es eh ed en v = record {
  wakes = rw eh (Wakes-cong k.table l.table k.sleep_head 0 es (all_same (pids es)) v.wakes);
  distinct = v.distinct;
  slots = v.slots;
  small = v.small;
}
  where
    all_same :
        (xs : List ℕ)
        → All
            (λ x.
              ((l.table x).sleep_delta ≡ (k.table x).sleep_delta)
              × ((l.table x).sleep_next ≡ (k.table x).sleep_next))
            xs
    all_same [] = tt
    all_same (x ∷ xs) = ((ed x, en x), all_same xs)
