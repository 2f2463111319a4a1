-- ===== src/Sched/Sleep/Insert.antt =====
-- `sleep_insert` puts a sleeper where its wake time belongs, and changes no other wake time.
use ubiqos.Common.{
  leb, if◌then◌else◌, Bool-cases, length, last?, All, All-map, All-and, Distinct, last?-ne,
  All-left, All-right, Distinct-left, Distinct-right, Distinct-back, Distinct-across, head_without,
  behind, behind-last?, length-le_of_Distinct, ℕ, zero, suc, ◌+◌, ◌-◌, ◌^◌, ◌≤◌, ◌<◌, ◌≡◌, refl,
  sym, ap, ◌∙◌, subst, ◌≢◌, inl, inr, Bool, true, false, Option, none, some, List, [], ◌∷◌, ◌++◌,
  arith,
}
use ubiqos.Sched.State.{Kernel, max_processes}
use ubiqos.Sched.Ready.{Table}
use ubiqos.Sched.Sleep.{Spot, sleep_find, sleep_place, sleep_insert, sub32}
use ubiqos.Sched.Sleep.Wakes.{
  pids, Wakes, Sleepers, first?, last_wake, insert_wake, Wakes-cong, pids-append, Wakes-split,
  Wakes-place,
}

-- The sleepers that wake no later than the time, at the front of the list, and the others.
abbrev early : ℕ → List (ℕ × ℕ) → List (ℕ × ℕ)
early ticks [] = []
early ticks ((x, w) ∷ es) = if leb w ticks then (x, w) ∷ early ticks es else []

abbrev late : ℕ → List (ℕ × ℕ) → List (ℕ × ℕ)
late ticks [] = []
late ticks ((x, w) ∷ es) = if leb w ticks then late ticks es else (x, w) ∷ es

early-late : (ticks : ℕ) (es : List (ℕ × ℕ)) → early ticks es ++ late ticks es ≡ es
early-late ticks [] = refl
early-late ticks ((x, w) ∷ es) = elim (Bool-cases (leb w ticks)) [
  | inl e ↦ rw e (ap (◌∷◌ (x, w)) (early-late ticks es))
  | inr e ↦ rw e
]

insert-early-late :
    (pid ticks : ℕ) (es : List (ℕ × ℕ))
    → insert_wake pid ticks es ≡ early ticks es ++ (pid, ticks) ∷ late ticks es
unfolding insert_wake
insert-early-late pid ticks [] = refl
insert-early-late pid ticks ((x, w) ∷ es) = elim (Bool-cases (leb w ticks)) [
  | inl e ↦ rw e (ap (◌∷◌ (x, w)) (insert-early-late pid ticks es))
  | inr e ↦ rw e
]

last_early-le :
    (base ticks : ℕ) (es : List (ℕ × ℕ)) → base ≤ ticks → last_wake base (early ticks es) ≤ ticks
last_early-le base ticks [] h = h
last_early-le base ticks ((x, w) ∷ es) h = elim (Bool-cases (leb w ticks)) [
  | inl e ↦ rw e (last_early-le w ticks es (ground arith))
  | inr e ↦ rw e h
]

-- The loop stops between the two, with the ticks left over from the last wake time passed.
find_stops :
    (fuel : ℕ) (t : Table) (prev head : Option ℕ) (base ticks : ℕ) (es : List (ℕ × ℕ))
    → length (pids es) ≤ fuel
    → base ≤ ticks
    → ticks < 2 ^ 32
    → Wakes t head base es
    → sleep_find fuel t prev head (ticks - base) ≡ record {
      prev = behind prev (pids (early ticks es));
      cur = first? (late ticks es);
      remaining = ticks - last_wake base (early ticks es);
    }
unfolding sleep_find
find_stops zero t prev head base ticks [] lf lb lt h = rw h
find_stops zero t prev head base ticks ((x, w) ∷ es) lf lb lt h = absurd (omega arith)
find_stops (suc fuel) t prev head base ticks [] lf lb lt h = rw (h, sleep_find)
find_stops (suc fuel) t prev head base ticks ((x, w) ∷ es) lf lb lt h =
    rw (h.0, sleep_find)
      (elim (Bool-cases (leb w ticks)) [
        | inl e ↦
            rw (e, passes true e, less (ground arith))
              (find_stops fuel t (some x) (t x).sleep_next w ticks es (omega arith) (ground arith)
                lt h.2)
        | inr e ↦ rw (e, passes false e)
      ])
  where
    passes : (b : Bool) → leb w ticks ≡ b → leb (t x).sleep_delta (ticks - base) ≡ b
    passes b e = let d : (t x).sleep_delta + base ≡ w = h.1 in ground arith

    less : w ≤ ticks → sub32 (ticks - base) (t x).sleep_delta ≡ ticks - w
    less le = omega (arith, h.1)

-- What `sleep_place` writes, where the sleeper differs from its neighbours.
module _ (k : Kernel) (pid : ℕ) (s : Spot) where
  place_delta :
      s.prev ≢ some pid
      → s.cur ≢ some pid
      → ((sleep_place k pid s).table pid).sleep_delta ≡ s.remaining
  unfolding sleep_place
  place_delta np nc = ground arith

  place_next :
      s.prev ≢ some pid → s.cur ≢ some pid → ((sleep_place k pid s).table pid).sleep_next ≡ s.cur
  unfolding sleep_place
  place_next np nc = ground arith

  place_link : (q : ℕ) → s.prev ≡ some q → ((sleep_place k pid s).table q).sleep_next ≡ some pid
  unfolding sleep_place
  place_link q e = ground arith

  place_delta_cur :
      (c : ℕ)
      → s.cur ≡ some c
      → c ≢ pid
      → ((sleep_place k pid s).table c).sleep_delta ≡ sub32 (k.table c).sleep_delta s.remaining
  unfolding sleep_place
  place_delta_cur c e ne = ground arith

  place_delta_ne :
      (x : ℕ)
      → x ≢ pid
      → s.cur ≢ some x
      → ((sleep_place k pid s).table x).sleep_delta ≡ (k.table x).sleep_delta
  unfolding sleep_place
  place_delta_ne x ne nc = ground arith

  place_next_ne :
      (x : ℕ)
      → x ≢ pid
      → s.prev ≢ some x
      → ((sleep_place k pid s).table x).sleep_next ≡ (k.table x).sleep_next
  unfolding sleep_place
  place_next_ne x ne np = ground arith

  place_head : (sleep_place k pid s).sleep_head ≡ head_without s.prev k.sleep_head (some pid)
  unfolding sleep_place
  place_head = refl

first_late-gt :
    (ticks : ℕ) (es : List (ℕ × ℕ)) (x w : ℕ) (rest : List (ℕ × ℕ))
    → late ticks es ≡ (x, w) ∷ rest
    → ticks < w
first_late-gt ticks [] x w rest e = cc
first_late-gt ticks ((y, v) ∷ es) x w rest e = elim (Bool-cases (leb v ticks)) [
  | inl i ↦ first_late-gt ticks es x w rest (rw i at e)
  | inr i ↦ ground arith
]

first-ne : (x : ℕ) (bs : List (ℕ × ℕ)) → All (λ y. y ≢ x) (pids bs) → first? bs ≢ some x
first-ne x [] h = λ e. cc
first-ne x ((y, v) ∷ bs) h = λ e. h.0 (cc)

-- The new sleeper between the two parts of the list, when the loop's spot lies there.
module _ (k : Kernel) (pid ticks : ℕ) (es bs : List (ℕ × ℕ))
    (h : Wakes k.table k.sleep_head 0 (es ++ bs)) (d : Distinct (pids es ++ pids bs))
    (fresh : All (λ x. x ≢ pid) (pids es ++ pids bs)) (small : All (λ e. e.1 < 2 ^ 31) bs)
    (le : last_wake 0 es ≤ ticks)
    (gt : (x w : ℕ) (rest : List (ℕ × ℕ)) → bs ≡ (x, w) ∷ rest → ticks < w) where
  abbrev spot : Spot
  spot = record { prev = last? (pids es); cur = first? bs; remaining = ticks - last_wake 0 es }

  abbrev placed : Table
  placed = (sleep_place k pid spot).table

  not_prev : last? (pids es) ≢ some pid
  not_prev e = last?-ne pid pid (pids es) (All-left _ (pids es) (pids bs) fresh) e refl

  not_cur : first? bs ≢ some pid
  not_cur = first-ne pid bs (All-right _ (pids es) (pids bs) fresh)

  -- The sleepers behind keep their wake times.
  behind-Wakes :
      (cs : List (ℕ × ℕ))
      → cs ≡ bs
      → Wakes k.table (first? cs) (last_wake 0 es) cs
      → Wakes placed (first? cs) ticks cs
  behind-Wakes [] e r = refl
  behind-Wakes ((c, w) ∷ cs) e r =
      let nc : c ≢ pid =
        (subst (λ l. All (λ x. x ≢ pid) (pids l)) (sym e)
          (All-right _ (pids es) (pids bs) fresh)).0 in
      let lt : ticks < w = gt c w cs (sym e) in
      let sm : w < 2 ^ 31 = (subst (All (λ (e : ℕ × ℕ). e.1 < 2 ^ 31)) (sym e) small).0 in
      let dc : Distinct (c ∷ pids cs) =
        subst (λ l. Distinct (pids l)) (sym e) (Distinct-right (pids es) (pids bs) d) in
      let fc : All (λ x. x ≢ pid) (c ∷ pids cs) =
        subst (λ l. All (λ x. x ≢ pid) (pids l)) (sym e) (All-right _ (pids es) (pids bs) fresh) in
      let ec : first? bs ≡ some c = ap first? (sym e) in
      let np : (x : ℕ) → All (λ y. y ≢ x) (pids es) → last? (pids es) ≢ some x =
        λ x a i. last?-ne x x (pids es) a i refl in
      let ac : All (λ x. All (λ y. y ≢ x) (pids es)) (c ∷ pids cs) =
        subst (λ l. All (λ x. All (λ y. y ≢ x) (pids es)) (pids l)) (sym e)
          (Distinct-back (pids es) (pids bs) d) in
      (
        refl,
        rw (place_delta_cur k pid spot c ec nc) (omega (arith, r.1)),
        rw (place_next_ne k pid spot c nc (np c ac.0)) (
            Wakes-cong k.table placed (k.table c).sleep_next w cs
              (All-map _ _ (pids cs)
                (λ x p. (
                  place_delta_ne k pid spot x p.0.0 (λ i. p.0.1 (cc)),
                  place_next_ne k pid spot x p.0.0 (np x p.1),
                ))
                (All-and _ _ (pids cs) (All-and _ _ (pids cs) fc.1 dc.0) ac.1))
              r.2),
      )

  split-Wakes : Wakes k.table (first? bs) (last_wake 0 es) bs
  split-Wakes =
      let (cur, w) = Wakes-split k.table k.sleep_head 0 es bs h in
      subst (λ c. Wakes k.table c (last_wake 0 es) bs) (first_of cur (last_wake 0 es) bs w) w
    where
      first_of :
          (cur : Option ℕ) (base : ℕ) (cs : List (ℕ × ℕ))
          → Wakes k.table cur base cs
          → cur ≡ first? cs
      first_of cur base [] w = w
      first_of cur base ((x, v) ∷ cs) w = w.0

  placed-Wakes : Wakes placed (sleep_place k pid spot).sleep_head 0 (es ++ (pid, ticks) ∷ bs)
  placed-Wakes = rw (place_head k pid spot) (
      Wakes-place k.table placed k.sleep_head 0 pid ticks es bs h
        (Distinct-left (pids es) (pids bs) d)
        (rw (place_delta k pid spot not_prev not_cur) (omega (arith, le)))
        (place_next k pid spot not_prev not_cur) (behind-Wakes bs refl split-Wakes)
        (All-map _ _ (pids es) (λ x p. place_delta_ne k pid spot x p.0 (first-ne x bs p.1))
          (All-and _ _ (pids es) (All-left _ (pids es) (pids bs) fresh)
            (Distinct-across (pids es) (pids bs) d)))
        (place_link k pid spot)
        (All-map _ _ (pids es) (λ x ne np. place_next_ne k pid spot x ne np)
          (All-left _ (pids es) (pids bs) fresh)))

pids-insert_wake :
    (P : ℕ → Type 0) (pid ticks : ℕ) (es : List (ℕ × ℕ))
    → P pid
    → All P (pids es)
    → All P (pids (insert_wake pid ticks es))
unfolding insert_wake
pids-insert_wake P pid ticks [] p h = (p, tt)
pids-insert_wake P pid ticks ((x, w) ∷ es) p h = elim (Bool-cases (leb w ticks)) [
  | inl e ↦ rw e (h.0, pids-insert_wake P pid ticks es p h.1)
  | inr e ↦ rw e (p, h)
]

Distinct-insert_wake :
    (pid ticks : ℕ) (es : List (ℕ × ℕ))
    → Distinct (pids es)
    → All (λ x. x ≢ pid) (pids es)
    → Distinct (pids (insert_wake pid ticks es))
unfolding insert_wake
Distinct-insert_wake pid ticks [] d f = (tt, tt)
Distinct-insert_wake pid ticks ((x, w) ∷ es) d f = elim (Bool-cases (leb w ticks)) [
  | inl e ↦ rw e (
    pids-insert_wake (λ y. y ≢ x) pid ticks es (λ i. f.0 (sym i)) d.0,
    Distinct-insert_wake pid ticks es d.1 f.1,
  )
  | inr e ↦ rw e (f, d)
]

small-insert_wake :
    (pid ticks : ℕ) (es : List (ℕ × ℕ))
    → ticks < 2 ^ 31
    → All (λ e. e.1 < 2 ^ 31) es
    → All (λ e. e.1 < 2 ^ 31) (insert_wake pid ticks es)
unfolding insert_wake
small-insert_wake pid ticks [] lt h = (lt, tt)
small-insert_wake pid ticks ((x, w) ∷ es) lt h = elim (Bool-cases (leb w ticks)) [
  | inl e ↦ rw e (h.0, small-insert_wake pid ticks es lt h.1)
  | inr e ↦ rw e (lt, h)
]

-- The loop of `sleep_insert` over the whole list, and what is written where it stops.
insert_places :
    (k : Kernel) (pid ticks : ℕ) (es : List (ℕ × ℕ))
    → Sleepers k es
    → ticks < 2 ^ 31
    → sleep_insert k pid ticks
      ≡ sleep_place k pid (record {
        prev = last? (pids (early ticks es));
        cur = first? (late ticks es);
        remaining = ticks - last_wake 0 (early ticks es);
      })
unfolding sleep_insert
insert_places k pid ticks es v lt = ap (sleep_place k pid) (
    ap (sleep_find max_processes k.table none k.sleep_head) whole
    ∙ find_stops max_processes k.table none k.sleep_head 0 ticks es
        (length-le_of_Distinct max_processes (pids es) v.distinct v.slots) (omega arith)
        (omega arith) v.wakes
    ∙ ap
        (λ q. record {
          prev = q;
          cur = first? (late ticks es);
          remaining = ticks - last_wake 0 (early ticks es);
        })
        (behind-last? (pids (early ticks es))))
  where
    whole : ticks ≡ ticks - 0
    whole = omega arith

-- A process that is not asleep and goes to sleep for fewer than 2^31 ticks is put behind all that
-- wake no later, and wakes after that many; every other sleeper keeps its wake time.
pub sleep_insert-Sleepers :
    (k : Kernel) (pid ticks : ℕ) (es : List (ℕ × ℕ))
    → Sleepers k es
    → All (λ x. x ≢ pid) (pids es)
    → pid < max_processes
    → ticks < 2 ^ 31
    → Sleepers (sleep_insert k pid ticks) (insert_wake pid ticks es)
sleep_insert-Sleepers k pid ticks es v fresh lt small = record {
  wakes =
      rw (insert_places k pid ticks es v small, insert-early-late pid ticks es)
        (placed-Wakes k pid ticks (early ticks es) (late ticks es)
          (rw (early-late ticks es) v.wakes) (rw (parts) v.distinct) (rw (parts) fresh)
          (All-right _ (early ticks es) (late ticks es) (rw (early-late ticks es) v.small))
          (last_early-le 0 ticks es (omega arith)) (first_late-gt ticks es));
  distinct = Distinct-insert_wake pid ticks es v.distinct fresh;
  slots = pids-insert_wake _ pid ticks es lt v.slots;
  small = small-insert_wake pid ticks es small v.small;
}
  where
    parts : pids (early ticks es) ++ pids (late ticks es) ≡ pids es
    parts = sym (pids-append (early ticks es) (late ticks es)) ∙ ap pids (early-late ticks es)
