-- ===== src/Sched/Ready/Remove.antt =====
-- `ready_remove` takes a process out of the queue that it stands in.
use ubiqos.Common.{
  if◌then◌else◌, ==_refl, ==_ne, opt_eq, length, last?, last?-snoc, All, All-map, Distinct,
  last?-ne, last?-All, last?-cons, last?-append, All-middle, Distinct-apart, All-left, All-right,
  put, Chain, head_without, behind, behind-last?, ℕ, zero, suc, ◌<◌, ◌≡◌, sym, ap, ◌∙◌, subst, ◌≢◌,
  ◌&&◌, Option, none, some, List, [], ◌∷◌, ◌++◌, append-nil, arith, ℕ_discrete,
  length-le_of_Distinct, length-append,
}
use ubiqos.Sched.State.{Kernel, max_processes}
use ubiqos.Sched.Ready.{ready_cut, ready_walk, ready_remove, is_some}
use ubiqos.Sched.Ready.Queues.{Level, Queues, Level-frame, next_of}
use ubiqos.Sched.Ready.Take.{Level-without}

-- The loop finds the process behind those that stand before it.
walk_finds :
    (fuel : ℕ) (k : Kernel) (p pid : ℕ) (prev cur : Option ℕ) (xs ys : List ℕ)
    → length xs < fuel
    → Chain (next_of k) cur (xs ++ pid ∷ ys)
    → All (λ x. x ≢ pid) xs
    → ready_walk fuel k p pid prev cur ≡ ready_cut k p pid (behind prev xs)
unfolding ready_walk
walk_finds zero k p pid prev cur xs ys lt h ne = absurd (omega arith)
walk_finds (suc fuel) k p pid prev cur [] ys lt h ne = rw (h.0, ready_walk) (rw ==_refl)
walk_finds (suc fuel) k p pid prev cur (x ∷ xs) ys lt h ne =
    rw (h.0, ready_walk)
      (rw (==_ne x pid ne.0)
        (walk_finds fuel k p pid (some x) (k.table x).next_ready xs ys (omega arith) h.1 ne.1))

cut-priority :
    (k : Kernel) (p pid : ℕ) (prev : Option ℕ) (x : ℕ)
    → ((ready_cut k p pid prev).table x).priority ≡ (k.table x).priority
unfolding ready_cut
cut-priority k p pid prev x = ground arith

module _ (k : Kernel) (p pid : ℕ) (prev : Option ℕ) where
  cut_head :
      (ready_cut k p pid prev).ready_head p ≡ head_without prev (k.ready_head p) (next_of k pid)
  unfolding ready_cut
  cut_head = rw ==_refl

  cut_bit :
      (ready_cut k p pid prev).ready_bitmap p
      ≡ (is_some ((ready_cut k p pid prev).ready_head p) && k.ready_bitmap p)
  unfolding ready_cut
  cut_bit = rw ==_refl

  cut_tail :
      (ready_cut k p pid prev).ready_tail p
      ≡ (if opt_eq (k.ready_tail p) pid then prev else k.ready_tail p)
  unfolding ready_cut
  cut_tail = rw ==_refl

  cut_link : (q : ℕ) → prev ≡ some q → q ≢ pid → next_of (ready_cut k p pid prev) q ≡ next_of k pid
  unfolding ready_cut
  cut_link q e ne = ground arith

  cut_keep : (x : ℕ) → x ≢ pid → prev ≢ some x → next_of (ready_cut k p pid prev) x ≡ next_of k x
  unfolding ready_cut
  cut_keep x ne e = ground arith

  module _ (r : ℕ) (ne : r ≢ p) where
    cut_head_ne : (ready_cut k p pid prev).ready_head r ≡ k.ready_head r
    unfolding ready_cut
    cut_head_ne = rw (==_ne r p ne)

    cut_tail_ne : (ready_cut k p pid prev).ready_tail r ≡ k.ready_tail r
    unfolding ready_cut
    cut_tail_ne = rw (==_ne r p ne)

    cut_bit_ne : (ready_cut k p pid prev).ready_bitmap r ≡ k.ready_bitmap r
    unfolding ready_cut
    cut_bit_ne = rw (==_ne r p ne)

-- The tail that the level has afterwards.
tail_after :
    (pid : ℕ) (tail : Option ℕ) (xs ys : List ℕ)
    → Distinct (xs ++ pid ∷ ys)
    → tail ≡ last? (xs ++ pid ∷ ys)
    → (if opt_eq tail pid then last? xs else tail) ≡ last? (xs ++ ys)
tail_after pid tail xs [] d e = rw (e, last?-snoc xs pid, ==_refl pid, append-nil xs)
tail_after pid tail xs (y ∷ ys) d e =
    let (t, i) = last?-cons y ys in
    let ne : t ≢ pid =
      last?-ne pid t (y ∷ ys) (All-right _ xs (y ∷ ys) (Distinct-apart xs pid (y ∷ ys) d)) i in
    rw (e, last?-append xs pid (y ∷ ys), i, ==_ne t pid ne, last?-append xs y ys, i)

cut_own :
    (k : Kernel) (p pid : ℕ) (xs ys : List ℕ)
    → Level k p (xs ++ pid ∷ ys)
    → Level (ready_cut k p pid (last? xs)) p (xs ++ ys)
cut_own k p pid xs ys v =
    Level-without k (ready_cut k p pid (last? xs)) p pid xs ys v (cut_head k p pid (last? xs))
      (cut_bit k p pid (last? xs))
      (λ ne. cut_tail k p pid (last? xs) ∙ tail_after pid _ xs ys v.distinct (v.tail (full xs)))
      (λ q e.
        cut_link k p pid (last? xs) q e
          (last?-ne pid q xs (All-left _ xs ys (Distinct-apart xs pid ys v.distinct)) e))
      (cut_keep k p pid (last? xs)) (cut-priority k p pid (last? xs))
  where
    full : (xs : List ℕ) → xs ++ pid ∷ ys ≢ []
    full [] = λ e. cc
    full (x ∷ xs) = λ e. cc

cut_other :
    (k : Kernel) (p pid r : ℕ) (xs ys zs : List ℕ)
    → Level k p (xs ++ pid ∷ ys)
    → r ≢ p
    → Level k r zs
    → Level (ready_cut k p pid (last? xs)) r zs
cut_other k p pid r xs ys zs w ne v =
    Level-frame k (ready_cut k p pid (last? xs)) r zs (cut_head_ne k p pid (last? xs) r ne)
      (cut_tail_ne k p pid (last? xs) r ne) (cut_bit_ne k p pid (last? xs) r ne)
      (All-map _ _ zs
        (λ x e.
          cut_keep k p pid (last? xs) x
            (λ i. ne (sym e ∙ ap (λ j. (k.table j).priority) i ∙ All-middle _ xs pid ys w.own))
            (λ i. ne (sym e ∙ last?-All _ x xs (All-left _ xs (pid ∷ ys) w.own) i)))
        v.own)
      (All-map _ _ zs (λ x e. cut-priority k p pid (last? xs) x ∙ e) v.own) v

-- A process that stands somewhere in the queue of its priority is taken out: its queue keeps the
-- others in their order, and the other queues stay.
pub ready_remove-Queues :
    (k : Kernel) (q : ℕ → List ℕ) (pid : ℕ) (xs ys : List ℕ)
    → Queues k q
    → q (k.table pid).priority ≡ xs ++ pid ∷ ys
    → All (λ x. x < max_processes) (xs ++ pid ∷ ys)
    → Queues (ready_remove k pid) (put q (k.table pid).priority (xs ++ ys))
unfolding ready_remove
ready_remove-Queues k q pid xs ys v e small r =
    rw found (elim (ℕ_discrete r (k.table pid).priority) [
      | yes i ↦ rw (i, ==_refl) (cut_own k (k.table pid).priority pid xs ys own)
      | no ne ↦ rw (==_ne r _ ne) (cut_other k _ pid r xs ys (q r) own ne (v r))
    ])
  where
    own : Level k (k.table pid).priority (xs ++ pid ∷ ys)
    own = subst (Level k (k.table pid).priority) e (v _)

    lt : length xs < max_processes
    lt = omega (
      arith,
      length-le_of_Distinct max_processes (xs ++ pid ∷ ys) own.distinct small,
      length-append xs (pid ∷ ys),
    )

    found :
        ready_walk max_processes k
          (k.table pid).priority
          pid
          none
          (k.ready_head (k.table pid).priority)
        ≡ ready_cut k (k.table pid).priority pid (last? xs)
    found =
        walk_finds max_processes k _ pid none _ xs ys lt own.chain
          (All-left _ xs ys (Distinct-apart xs pid ys own.distinct))
        ∙ ap (ready_cut k (k.table pid).priority pid) (behind-last? xs)
