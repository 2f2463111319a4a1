-- ===== src/Sched/Sleep/Tick.antt =====
-- `sleep_tick` takes one tick off every wake time and wakes all that are due.
use ubiqos.Common.{
  ◌==◌, if◌then◌else◌, ==_iff, ==_refl, ==_ne, Bool-cases, length, All, All-map, Distinct,
  length-le_of_Distinct, ℕ, zero, suc, ◌-◌, ◌^◌, ◌≤◌, ◌<◌, ◌≡◌, refl, sym, ap, ◌∙◌, subst, ◌≢◌, inl,
  inr, true, Option, none, some, List, [], ◌∷◌, arith, ℕ_discrete,
}
use ubiqos.Sched.State.{Kernel, max_processes, ready}
use ubiqos.Sched.Ready.{Table}
use ubiqos.Sched.Ready.Fields.{enqueue_state, enqueue_delta, enqueue_sleep_next, enqueue_sleep_head}
use ubiqos.Sched.Sleep.{wake_first, wake_due, count_down, tick_from, sleep_tick, is_positive}
use ubiqos.Sched.Sleep.Wakes.{pids, Wakes, Sleepers, tick_down, Wakes-cong}

abbrev drop_zero : List (ℕ × ℕ) → List (ℕ × ℕ)
drop_zero [] = []
drop_zero ((x, w) ∷ es) = if w == 0 then drop_zero es else (x, w) ∷ es

abbrev dec : List (ℕ × ℕ) → List (ℕ × ℕ)
dec [] = []
dec ((x, w) ∷ es) = (x, w - 1) ∷ dec es

-- The sleepers with one tick left.
abbrev pub due : List (ℕ × ℕ) → List ℕ
due [] = []
due ((x, w) ∷ es) = if w == 1 then x ∷ due es else due es

module _ (k : Kernel) (pid : ℕ) where
  first_sleep :
      (x : ℕ)
      → x ≢ pid
      → (((wake_first k pid).table x).sleep_delta ≡ (k.table x).sleep_delta)
        × (((wake_first k pid).table x).sleep_next ≡ (k.table x).sleep_next)
  unfolding wake_first
  first_sleep x ne = (rw enqueue_delta (ground arith), rw enqueue_sleep_next (ground arith))

  first_head : (wake_first k pid).sleep_head ≡ (k.table pid).sleep_next
  unfolding wake_first
  first_head = enqueue_sleep_head _ pid

  first_state : ((wake_first k pid).table pid).state ≡ ready
  unfolding wake_first
  first_state = rw (enqueue_state) (ground arith)

  first_state_ne : (x : ℕ) → x ≢ pid → ((wake_first k pid).table x).state ≡ (k.table x).state
  unfolding wake_first
  first_state_ne x ne = rw (enqueue_state) (ground arith)

-- One round of the loop.
module _ (fuel : ℕ) (k : Kernel) (head : Option ℕ) (x : ℕ) (at_head : head ≡ some x) where
  due_step :
      (k.table x).sleep_delta ≡ 0
      → wake_due fuel (wake_first k x) (k.table x).sleep_next ≡ wake_due (suc fuel) k head
  unfolding wake_due
  due_step e = rw (at_head, wake_due) (rw ((==_iff _ 0).1 e))

  late_step : (k.table x).sleep_delta ≢ 0 → k ≡ wake_due (suc fuel) k head
  unfolding wake_due
  late_step ne = rw (at_head, wake_due) (rw (==_ne _ 0 ne))

none_step : (fuel : ℕ) (k : Kernel) (head : Option ℕ) → head ≡ none → k ≡ wake_due fuel k head
unfolding wake_due
none_step zero k head e = refl
none_step (suc fuel) k head e = rw (e, wake_due)

-- The loop pops the sleepers with nothing left, and stops at the first that has.
wake_due-Wakes :
    (fuel : ℕ) (k : Kernel) (head : Option ℕ) (es : List (ℕ × ℕ))
    → length (pids es) ≤ fuel
    → k.sleep_head ≡ head
    → Wakes k.table head 0 es
    → Distinct (pids es)
    → Wakes (wake_due fuel k head).table (wake_due fuel k head).sleep_head 0 (drop_zero es)
wake_due-Wakes fuel k head [] lf eh h d =
    subst (λ l. Wakes l.table l.sleep_head 0 []) (none_step fuel k head h) (eh ∙ h)
wake_due-Wakes zero k head ((x, w) ∷ es) lf eh h d = absurd (omega arith)
wake_due-Wakes (suc fuel) k head ((x, w) ∷ es) lf eh h d = elim (ℕ_discrete w 0) [
  | yes e ↦
      subst (λ l. Wakes l.table l.sleep_head 0 (drop_zero ((x, w) ∷ es)))
        (due_step fuel k head x h.0 (omega (arith, h.1)))
        (rw e (
          wake_due-Wakes fuel (wake_first k x) (k.table x).sleep_next es (omega arith)
            (first_head k x)
            (Wakes-cong k.table (wake_first k x).table (k.table x).sleep_next 0 es
              (All-map _ _ (pids es) (λ y ne. first_sleep k x y ne) d.0) (rw e at h.2))
            d.1))
  | no ne ↦
      subst (λ l. Wakes l.table l.sleep_head 0 (drop_zero ((x, w) ∷ es)))
        (late_step fuel k head x h.0 (λ i. ne (omega (arith, h.1))))
        (rw (==_ne w 0 ne) (eh ∙ h.0, h.1, h.2))
]

Wakes-dec :
    (t : Table) (head : Option ℕ) (base : ℕ) (es : List (ℕ × ℕ))
    → 0 < base
    → Wakes t head base es
    → Wakes t head (base - 1) (dec es)
Wakes-dec t head base [] pos h = h
Wakes-dec t head base ((x, w) ∷ es) pos h =
    (h.0, omega (arith, h.1), Wakes-dec t (t x).sleep_next w es (omega (arith, h.1)) h.2)

tick_down-late :
    (t : Table) (head : Option ℕ) (base : ℕ) (es : List (ℕ × ℕ))
    → 1 < base
    → Wakes t head base es
    → (tick_down es ≡ dec es) × (due es ≡ [])
unfolding tick_down
tick_down-late t head base [] pos h = (refl, refl)
tick_down-late t head base ((x, w) ∷ es) pos h =
    let ne : w ≢ 1 = omega (arith, h.1) in
    let ih = tick_down-late t (t x).sleep_next w es (omega (arith, h.1)) h.2 in
    rw (==_ne w 1 ne) (ap (◌∷◌ (x, w - 1)) ih.0, ih.1)

-- Dropping those with nothing left after the tick is dropping those with one tick left before it.
tick_down-dec :
    (t : Table) (head : Option ℕ) (base : ℕ) (es : List (ℕ × ℕ))
    → All (λ e. 0 < e.1) es
    → Wakes t head base es
    → drop_zero (dec es) ≡ tick_down es
unfolding tick_down
tick_down-dec t head base [] pos h = refl
tick_down-dec t head base ((x, w) ∷ es) pos h = elim (ℕ_discrete w 1) [
  | yes e ↦ rw e (tick_down-dec t (t x).sleep_next w es pos.1 h.2)
  | no ne ↦
      rw (==_ne w 1 ne, ==_ne (w - 1) 0 (omega (arith, pos.0)))
        (ap (◌∷◌ (x, w - 1))
          (sym (tick_down-late t (t x).sleep_next w es (omega (arith, pos.0)) h.2).0))
]

-- Who is ready stays ready, whoever else is woken.
ready_stays :
    (fuel : ℕ) (k : Kernel) (head : Option ℕ) (y : ℕ)
    → (k.table y).state ≡ ready
    → ((wake_due fuel k head).table y).state ≡ ready
unfolding wake_due
ready_stays zero k head y r = r
ready_stays (suc fuel) k none y r = r
ready_stays (suc fuel) k (some x) y r = elim (Bool-cases ((k.table x).sleep_delta == 0)) [
  | inl e ↦ rw e (ready_stays fuel (wake_first k x) (k.table x).sleep_next y first)
  | inr e ↦ rw e r
]
  where
    first : ((wake_first k x).table y).state ≡ ready
    first = elim (ℕ_discrete y x) [
      | yes e ↦ rw e (first_state k x)
      | no ne ↦ first_state_ne k x y ne ∙ r
    ]

-- The sleepers with nothing left at the front of a list.
abbrev at_zero : List (ℕ × ℕ) → List ℕ
at_zero [] = []
at_zero ((x, w) ∷ es) = if w == 0 then x ∷ at_zero es else []

wake_due-ready :
    (fuel : ℕ) (k : Kernel) (head : Option ℕ) (es : List (ℕ × ℕ))
    → length (pids es) ≤ fuel
    → Wakes k.table head 0 es
    → Distinct (pids es)
    → All (λ y. ((wake_due fuel k head).table y).state ≡ ready) (at_zero es)
wake_due-ready fuel k head [] lf h d = tt
wake_due-ready zero k head ((x, w) ∷ es) lf h d = absurd (omega arith)
wake_due-ready (suc fuel) k head ((x, w) ∷ es) lf h d = elim (ℕ_discrete w 0) [
  | yes e ↦
      subst (λ l. All (λ y. (l.table y).state ≡ ready) (at_zero ((x, w) ∷ es)))
        (due_step fuel k head x h.0 (omega (arith, h.1)))
        (rw e (
          ready_stays fuel (wake_first k x) (k.table x).sleep_next x (first_state k x),
          wake_due-ready fuel (wake_first k x) (k.table x).sleep_next es (omega arith)
              (Wakes-cong k.table (wake_first k x).table (k.table x).sleep_next 0 es
                (All-map _ _ (pids es) (λ y ne. first_sleep k x y ne) d.0) (rw e at h.2))
              d.1,
        ))
  | no ne ↦ rw (==_ne w 0 ne) tt
]

at_zero-dec :
    (t : Table) (head : Option ℕ) (base : ℕ) (es : List (ℕ × ℕ))
    → All (λ e. 0 < e.1) es
    → Wakes t head base es
    → at_zero (dec es) ≡ due es
at_zero-dec t head base [] pos h = refl
at_zero-dec t head base ((x, w) ∷ es) pos h = elim (ℕ_discrete w 1) [
  | yes e ↦ rw e (ap (◌∷◌ x) (at_zero-dec t (t x).sleep_next w es pos.1 h.2))
  | no ne ↦
      rw (==_ne w 1 ne, ==_ne (w - 1) 0 (omega (arith, pos.0)))
        (sym (tick_down-late t (t x).sleep_next w es (omega (arith, pos.0)) h.2).1)
]

pids-dec : (es : List (ℕ × ℕ)) → pids (dec es) ≡ pids es
pids-dec [] = refl
pids-dec ((x, w) ∷ es) = ap (◌∷◌ x) (pids-dec es)

pids-tick_down :
    (P : ℕ → Type 0) (es : List (ℕ × ℕ)) → All P (pids es) → All P (pids (tick_down es))
unfolding tick_down
pids-tick_down P [] h = tt
pids-tick_down P ((x, w) ∷ es) h = elim (Bool-cases (w == 1)) [
  | inl e ↦ rw e (pids-tick_down P es h.1)
  | inr e ↦ rw e (h.0, pids-tick_down P es h.1)
]

Distinct-tick_down : (es : List (ℕ × ℕ)) → Distinct (pids es) → Distinct (pids (tick_down es))
unfolding tick_down
Distinct-tick_down [] d = tt
Distinct-tick_down ((x, w) ∷ es) d = elim (Bool-cases (w == 1)) [
  | inl e ↦ rw e (Distinct-tick_down es d.1)
  | inr e ↦ rw e (pids-tick_down _ es d.0, Distinct-tick_down es d.1)
]

small-tick_down :
    (es : List (ℕ × ℕ)) → All (λ e. e.1 < 2 ^ 31) es → All (λ e. e.1 < 2 ^ 31) (tick_down es)
unfolding tick_down
small-tick_down [] h = tt
small-tick_down ((x, w) ∷ es) h = elim (Bool-cases (w == 1)) [
  | inl e ↦ rw e (small-tick_down es h.1)
  | inr e ↦ rw e (omega (arith, h.0), small-tick_down es h.1)
]

count_down_ne :
    (t : Table) (x y : ℕ)
    → y ≢ x
    → ((count_down t x y).sleep_delta ≡ (t y).sleep_delta)
      × ((count_down t x y).sleep_next ≡ (t y).sleep_next)
unfolding count_down
count_down_ne t x y ne = (ground arith, ground arith)

-- One decrement takes a tick off every wake time of the list.
count_down-Wakes :
    (t : Table) (x w : ℕ) (es : List (ℕ × ℕ))
    → 0 < w
    → w < 2 ^ 31
    → Wakes t (some x) 0 ((x, w) ∷ es)
    → Distinct (x ∷ pids es)
    → Wakes (count_down t x) (some x) 0 (dec ((x, w) ∷ es))
unfolding count_down
count_down-Wakes t x w es pos small h d =
    rw (positive, ==_refl)
      (
        refl,
        omega (arith, h.1),
        Wakes-cong t (count_down t x) (t x).sleep_next (w - 1) (dec es)
            (rw (pids-dec es) (All-map _ _ (pids es) (count_down_ne t x) d.0))
            (Wakes-dec t (t x).sleep_next w es pos h.2),
      )
  where
    positive : is_positive (t x).sleep_delta ≡ true
    positive = let e : (t x).sleep_delta ≡ w = omega (arith, h.1) in ground arith

tick_down_nil : [] ≡ tick_down []
unfolding tick_down
tick_down_nil = refl

tick_none : (k : Kernel) → k.sleep_head ≡ none → k ≡ sleep_tick k
unfolding sleep_tick
tick_none k e = ap (tick_from k) (sym e)

tick_some :
    (k : Kernel) (h : ℕ)
    → k.sleep_head ≡ some h
    → wake_due max_processes (record k { table = count_down k.table h }) (some h) ≡ sleep_tick k
unfolding sleep_tick
tick_some k h e = ap (tick_from k) (sym e)

-- A tick takes one tick off every sleeper's wake time, when each had at least one left; those with
-- one left are gone from the list, and they are ready.
pub sleep_tick-Sleepers :
    (k : Kernel) (es : List (ℕ × ℕ))
    → Sleepers k es
    → All (λ e. 0 < e.1) es
    → Sleepers (sleep_tick k) (tick_down es)
      × All (λ x. ((sleep_tick k).table x).state ≡ ready) (due es)
sleep_tick-Sleepers k [] v pos =
    subst (λ l. Sleepers l (tick_down []) × Unit {0}) (tick_none k v.wakes)
      (subst (Sleepers k) tick_down_nil v, tt)
sleep_tick-Sleepers k ((x, w) ∷ es) v pos =
    subst
      (λ l.
        Sleepers l (tick_down ((x, w) ∷ es))
        × All (λ y. (l.table y).state ≡ ready) (due ((x, w) ∷ es)))
      (tick_some k x v.wakes.0)
      (
        record {
          wakes =
              subst (Wakes after.table after.sleep_head 0)
                (tick_down-dec k.table k.sleep_head 0 ((x, w) ∷ es) pos v.wakes)
                (wake_due-Wakes max_processes counted (some x) (dec ((x, w) ∷ es)) fuel v.wakes.0
                  down same_pids);
          distinct = Distinct-tick_down ((x, w) ∷ es) v.distinct;
          slots = pids-tick_down _ ((x, w) ∷ es) v.slots;
          small = small-tick_down ((x, w) ∷ es) v.small;
        },
        subst (All (λ y. (after.table y).state ≡ ready))
            (at_zero-dec k.table k.sleep_head 0 ((x, w) ∷ es) pos v.wakes)
            (wake_due-ready max_processes counted (some x) (dec ((x, w) ∷ es)) fuel down same_pids),
      )
  where
    counted : Kernel
    counted = record k { table = count_down k.table x }

    after : Kernel
    after = wake_due max_processes counted (some x)

    same_pids : Distinct (pids (dec ((x, w) ∷ es)))
    same_pids = subst Distinct (sym (pids-dec ((x, w) ∷ es))) v.distinct

    fuel : length (pids (dec ((x, w) ∷ es))) ≤ max_processes
    fuel =
        subst (λ l. length l ≤ max_processes) (sym (pids-dec ((x, w) ∷ es)))
          (length-le_of_Distinct max_processes (pids ((x, w) ∷ es)) v.distinct v.slots)

    down : Wakes (count_down k.table x) (some x) 0 (dec ((x, w) ∷ es))
    down = count_down-Wakes k.table x w es pos.0 v.small.0 (refl, v.wakes.1, v.wakes.2) v.distinct
