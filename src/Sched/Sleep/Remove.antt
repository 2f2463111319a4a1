-- ===== src/Sched/Sleep/Remove.antt =====
-- `sleep_remove` takes a sleeper out and gives its delta to the one behind it.
use ubiqos.Common.{
  ==_refl, ==_ne, length, last?, length-append, All, All-map, All-and, Distinct, last?-ne,
  last?-cons, All-without, Distinct-without, Distinct-apart, All-left, All-right, Distinct-left,
  Distinct-right, Distinct-back, Distinct-across, head_without, behind, behind-last?,
  length-le_of_Distinct, ℕ, zero, suc, ◌+◌, ◌^◌, ◌<◌, ◌≡◌, refl, sym, ap, ◌∙◌, subst, ◌≢◌, ◌⊎◌, inl,
  inr, Option, none, some, List, [], ◌∷◌, ◌++◌, arith, ℕ_discrete,
}
use ubiqos.Sched.Ready.{Table}
use ubiqos.Sched.State.{Kernel, max_processes}
use ubiqos.Sched.Sleep.{sleep_walk, sleep_cut, sleep_remove, add32}
use ubiqos.Sched.Sleep.Wakes.{pids, Wakes, Sleepers, last_wake, without, Wakes-cong, pids-append}

module _ (k : Kernel) (cur : ℕ) (prev : Option ℕ) where
  cut_head :
      (sleep_cut k cur prev).sleep_head ≡ head_without prev k.sleep_head (k.table cur).sleep_next
  unfolding sleep_cut
  cut_head = refl

  cut_link :
      (q : ℕ)
      → prev ≡ some q
      → q ≢ cur
      → ((sleep_cut k cur prev).table q).sleep_next ≡ (k.table cur).sleep_next
  unfolding sleep_cut
  cut_link q e ne = ground arith

  cut_next :
      (x : ℕ)
      → x ≢ cur
      → prev ≢ some x
      → ((sleep_cut k cur prev).table x).sleep_next ≡ (k.table x).sleep_next
  unfolding sleep_cut
  cut_next x ne np = ground arith

  cut_delta :
      (x : ℕ)
      → (k.table cur).sleep_next ≢ some x
      → ((sleep_cut k cur prev).table x).sleep_delta ≡ (k.table x).sleep_delta
  unfolding sleep_cut
  cut_delta x nn = ground arith

  cut_delta_next :
      (n : ℕ)
      → (k.table cur).sleep_next ≡ some n
      → ((sleep_cut k cur prev).table n).sleep_delta
        ≡ add32 (k.table n).sleep_delta (k.table cur).sleep_delta
  unfolding sleep_cut
  cut_delta_next n e = ground arith

-- Taking a sleeper out of a list of wake times.
Wakes-without :
    (t t' : Table) (head : Option ℕ) (base pid wake : ℕ) (es bs : List (ℕ × ℕ))
    → Wakes t head base (es ++ (pid, wake) ∷ bs)
    → Distinct (pids es)
    → Wakes t' (t pid).sleep_next (last_wake base es) bs
    → All (λ x. (t' x).sleep_delta ≡ (t x).sleep_delta) (pids es)
    → ((q : ℕ) → last? (pids es) ≡ some q → (t' q).sleep_next ≡ (t pid).sleep_next)
    → All (λ x. last? (pids es) ≢ some x → (t' x).sleep_next ≡ (t x).sleep_next) (pids es)
    → Wakes t' (head_without (last? (pids es)) head (t pid).sleep_next) base (es ++ bs)
Wakes-without t t' head base pid wake [] bs h d rest same link keep = rest
Wakes-without t t' head base pid wake ((x, w) ∷ []) bs h d rest same link keep =
    (h.0, rw same.0 h.1, rw (link x refl) rest)
Wakes-without t t' head base pid wake ((x, w) ∷ (y, v) ∷ es) bs h d rest same link keep =
    let r =
      Wakes-without t t' (t x).sleep_next w pid wake ((y, v) ∷ es) bs h.2 d.1 rest same.1 link
        keep.1 in
    let (q, e) = last?-cons y (pids es) in
    (
      rw e h.0,
      rw same.0 h.1,
      rw (keep.0 (λ i. last?-ne x x (y ∷ pids es) d.0 i refl)) (rw (e, head_without) at r),
    )

-- The loop finds the sleeper, or leaves the list when it is not there.
walk_finds :
    (fuel : ℕ) (k : Kernel) (pid wake base : ℕ) (prev cur : Option ℕ) (es bs : List (ℕ × ℕ))
    → length (pids es) < fuel
    → Wakes k.table cur base (es ++ (pid, wake) ∷ bs)
    → All (λ x. x ≢ pid) (pids es)
    → sleep_walk fuel k pid prev cur ≡ sleep_cut k pid (behind prev (pids es))
unfolding sleep_walk
walk_finds zero k pid wake base prev cur es bs lt h ne = absurd (omega arith)
walk_finds (suc fuel) k pid wake base prev cur [] bs lt h ne = rw (h.0, sleep_walk) (rw ==_refl)
walk_finds (suc fuel) k pid wake base prev cur ((x, w) ∷ es) bs lt h ne =
    rw (h.0, sleep_walk)
      (rw (==_ne x pid ne.0)
        (walk_finds fuel k pid wake w (some x) (k.table x).sleep_next es bs (omega arith) h.2 ne.1))

walk_passes :
    (fuel : ℕ) (k : Kernel) (pid base : ℕ) (prev cur : Option ℕ) (es : List (ℕ × ℕ))
    → Wakes k.table cur base es
    → All (λ x. x ≢ pid) (pids es)
    → sleep_walk fuel k pid prev cur ≡ k
unfolding sleep_walk
walk_passes zero k pid base prev cur es h ne = refl
walk_passes (suc fuel) k pid base prev cur [] h ne = ap (sleep_walk (suc fuel) k pid prev) h
walk_passes (suc fuel) k pid base prev cur ((x, w) ∷ es) h ne =
    ap (sleep_walk (suc fuel) k pid prev) h.0
    ∙ rw (==_ne x pid ne.0) (walk_passes fuel k pid w (some x) (k.table x).sleep_next es h.2 ne.1)

pids-middle :
    (es bs : List (ℕ × ℕ)) (pid wake : ℕ) → pids (es ++ (pid, wake) ∷ bs) ≡ pids es ++ pid ∷ pids bs
pids-middle es bs pid wake = pids-append es ((pid, wake) ∷ bs)

-- The sleepers behind the one that is taken out keep their wake times.
behind-Wakes :
    (t t' : Table) (pid wake base : ℕ) (bs : List (ℕ × ℕ))
    → (t pid).sleep_delta + base ≡ wake
    → Wakes t (t pid).sleep_next wake bs
    → Distinct (pids bs)
    → All (λ e. e.1 < 2 ^ 31) bs
    → ((n : ℕ)
        → (t pid).sleep_next ≡ some n
        → (t' n).sleep_delta ≡ add32 (t n).sleep_delta (t pid).sleep_delta)
    → All (λ x. (t pid).sleep_next ≢ some x → (t' x).sleep_delta ≡ (t x).sleep_delta) (pids bs)
    → All (λ x. (t' x).sleep_next ≡ (t x).sleep_next) (pids bs)
    → Wakes t' (t pid).sleep_next base bs
behind-Wakes t t' pid wake base [] ed h d small grow same keep = h
behind-Wakes t t' pid wake base ((c, w) ∷ bs) ed h d small grow same keep = (
  h.0,
  rw (grow c h.0) (omega (arith, h.1, small.0)),
  rw keep.0 (
      Wakes-cong t t' (t c).sleep_next w bs
        (All-map _ _ (pids bs) (λ x p. (p.0.0 (λ e. p.1 (sym (some-inj (sym h.0 ∙ e)))), p.0.1))
          (All-and _ _ (pids bs) (All-and _ _ (pids bs) same.1 keep.1) d.0))
        h.2),
)
  where
    some-inj : {m n : ℕ} → some m ≡ some n → m ≡ n
    some-inj e = cc

without-middle :
    (es bs : List (ℕ × ℕ)) (pid wake : ℕ)
    → All (λ x. x ≢ pid) (pids es)
    → without pid (es ++ (pid, wake) ∷ bs) ≡ es ++ bs
unfolding without
without-middle [] bs pid wake ne = rw ==_refl
without-middle ((x, w) ∷ es) bs pid wake ne =
    rw (==_ne x pid ne.0) (ap (◌∷◌ (x, w)) (without-middle es bs pid wake ne.1))

without-absent : (pid : ℕ) (es : List (ℕ × ℕ)) → All (λ x. x ≢ pid) (pids es) → without pid es ≡ es
unfolding without
without-absent pid [] ne = refl
without-absent pid ((x, w) ∷ es) ne =
    rw (==_ne x pid ne.0) (ap (◌∷◌ (x, w)) (without-absent pid es ne.1))

-- A list of sleepers either lacks the process, or has it between two parts.
find_sleeper :
    (pid : ℕ) (es : List (ℕ × ℕ))
    → All (λ x. x ≢ pid) (pids es)
      ⊎ ((fs : List (ℕ × ℕ)) × (wake : ℕ) × (bs : List (ℕ × ℕ)) × (fs ++ (pid, wake) ∷ bs ≡ es))
find_sleeper pid [] = inl tt
find_sleeper pid ((x, w) ∷ es) = elim (ℕ_discrete x pid) [
  | yes e ↦ inr ([], w, es, rw e)
  | no ne ↦ elim (find_sleeper pid es) [
    | inl h ↦ inl (ne, h)
    | inr (fs, wake, bs, e) ↦ inr ((x, w) ∷ fs, wake, bs, ap (◌∷◌ (x, w)) e)
  ]
]

delta_at :
    (t : Table) (head : Option ℕ) (base pid wake : ℕ) (es bs : List (ℕ × ℕ))
    → Wakes t head base (es ++ (pid, wake) ∷ bs)
    → ((t pid).sleep_delta + last_wake base es ≡ wake) × Wakes t (t pid).sleep_next wake bs
delta_at t head base pid wake [] bs h = (h.1, h.2)
delta_at t head base pid wake ((x, w) ∷ es) bs h = delta_at t (t x).sleep_next w pid wake es bs h.2

-- The first of the list behind is not one of those before.
next_not_before :
    (t : Table) (next : Option ℕ) (base : ℕ) (bs : List (ℕ × ℕ)) (x : ℕ)
    → Wakes t next base bs
    → All (λ y. y ≢ x) (pids bs)
    → next ≢ some x
next_not_before t next base [] x h ne = λ e. cc
next_not_before t next base ((y, v) ∷ bs) x h ne = λ e. ne.0 (cc)

module _ (k : Kernel) (pid wake : ℕ) (es bs : List (ℕ × ℕ))
    (v : Sleepers k (es ++ (pid, wake) ∷ bs)) where
  distinct : Distinct (pids es ++ pid ∷ pids bs)
  distinct = subst Distinct (pids-middle es bs pid wake) v.distinct

  apart : All (λ y. y ≢ pid) (pids es ++ pids bs)
  apart = Distinct-apart (pids es) pid (pids bs) distinct

  both : Distinct (pids es ++ pids bs)
  both = Distinct-without (pids es) pid (pids bs) distinct

  small : All (λ e. e.1 < 2 ^ 31) (es ++ bs)
  small = All-without _ es (pid, wake) bs v.small

  cut_found : sleep_remove k pid ≡ sleep_cut k pid (last? (pids es))
  unfolding sleep_remove
  cut_found =
      walk_finds max_processes k pid wake 0 none k.sleep_head es bs
        (omega (
          arith,
          length-le_of_Distinct max_processes (pids (es ++ (pid, wake) ∷ bs)) v.distinct v.slots,
          ap length (pids-middle es bs pid wake),
          length-append (pids es) (pid ∷ pids bs),
        ))
        v.wakes (All-left _ (pids es) (pids bs) apart)
      ∙ ap (sleep_cut k pid) (behind-last? (pids es))

  cut-Wakes :
      Wakes
        (sleep_cut k pid (last? (pids es))).table
        (sleep_cut k pid (last? (pids es))).sleep_head
        0
        (es ++ bs)
  cut-Wakes =
      let (ed, rest) = delta_at k.table k.sleep_head 0 pid wake es bs v.wakes in
      let prev = last? (pids es) in
      let across = Distinct-across (pids es) (pids bs) both in
      rw (cut_head k pid prev) (
        Wakes-without k.table (sleep_cut k pid prev).table k.sleep_head 0 pid wake es bs v.wakes
          (Distinct-left (pids es) (pids bs) both)
          (behind-Wakes k.table (sleep_cut k pid prev).table pid wake (last_wake 0 es) bs ed rest
            (Distinct-right (pids es) (pids bs) both) (All-right _ es bs small)
            (cut_delta_next k pid prev)
            (All-map _ _ (pids bs) (λ x ne nn. cut_delta k pid prev x nn)
              (All-right _ (pids es) (pids bs) apart))
            (All-map _ _ (pids bs)
              (λ x p. cut_next k pid prev x p.0 (λ e. last?-ne x x (pids es) p.1 e refl))
              (All-and _ _ (pids bs) (All-right _ (pids es) (pids bs) apart)
                (Distinct-back (pids es) (pids bs) both))))
          (All-map _ _ (pids es)
            (λ x ne.
              cut_delta k pid prev x
                (next_not_before k.table (k.table pid).sleep_next wake bs x rest ne))
            across)
          (λ q e.
            cut_link k pid prev q e
              (last?-ne pid q (pids es) (All-left _ (pids es) (pids bs) apart) e))
          (All-map _ _ (pids es) (λ x ne np. cut_next k pid prev x ne np)
            (All-left _ (pids es) (pids bs) apart)))

  cut_Sleepers : Sleepers (sleep_remove k pid) (without pid (es ++ (pid, wake) ∷ bs))
  cut_Sleepers =
      subst (Sleepers (sleep_remove k pid))
        (sym (without-middle es bs pid wake (All-left _ (pids es) (pids bs) apart)))
        (subst (λ l. Sleepers l (es ++ bs)) (sym cut_found)
          (record {
            wakes = cut-Wakes;
            distinct = subst Distinct (sym (pids-append es bs)) both;
            slots = subst (All (λ x. x < max_processes)) (sym (pids-append es bs)) (
                All-without _ (pids es) pid (pids bs)
                  (subst (All (λ x. x < max_processes)) (pids-middle es bs pid wake) v.slots));
            small = small;
          }))

-- Taking a process out of the sleep list leaves every other sleeper its wake time; a process that is
-- not asleep may be taken out too, and nothing changes.
pub sleep_remove-Sleepers :
    (k : Kernel) (pid : ℕ) (es : List (ℕ × ℕ))
    → Sleepers k es
    → Sleepers (sleep_remove k pid) (without pid es)
unfolding sleep_remove
sleep_remove-Sleepers k pid es v = elim (find_sleeper pid es) [
  | inl absent ↦ subst (Sleepers (sleep_remove k pid)) (sym (without-absent pid es absent)) (
      subst (λ l. Sleepers l es)
        (sym (walk_passes max_processes k pid 0 none k.sleep_head es v.wakes absent)) v)
  | inr (fs, wake, bs, e) ↦
      subst (λ l. Sleepers (sleep_remove k pid) (without pid l)) e
        (cut_Sleepers k pid wake fs bs (subst (Sleepers k) (sym e) v))
]
