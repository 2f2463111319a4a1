-- ===== src/Sched/Ready/Take.antt =====
-- `ready_take_highest` takes the oldest process of the highest level that has one.
use ubiqos.Common.{
  ==_refl, ==_ne, set, is_nil, last?, All-map, All-without, Distinct-without, put, Chain,
  head_without, Chain-without, ℕ, zero, suc, ◌<◌, ◌≡◌, refl, sym, ap, ◌∙◌, subst, ◌≢◌, Bool, true,
  false, not, ◌&&◌, Option, none, some, List, [], ◌∷◌, ◌++◌, arith, ℕ_discrete,
}
use ubiqos.Sched.State.{Kernel, prio_levels}
use ubiqos.Sched.Ready.{ready_take, ready_take_highest, highest, is_some}
use ubiqos.Sched.Ready.Queues.{Level, Queues, Level-frame, Level-ne, next_of}

pub is_some-Chain :
    (next : ℕ → Option ℕ) (head : Option ℕ) (xs : List ℕ)
    → Chain next head xs
    → is_some head ≡ not (is_nil xs)
is_some-Chain next head [] h = rw h
is_some-Chain next head (x ∷ xs) h = rw h.0

-- A level from which one process is taken out of its middle, between `xs` and `ys`.
pub Level-without :
    (k l : Kernel) (p pid : ℕ) (xs ys : List ℕ)
    → Level k p (xs ++ pid ∷ ys)
    → l.ready_head p ≡ head_without (last? xs) (k.ready_head p) (next_of k pid)
    → l.ready_bitmap p ≡ (is_some (l.ready_head p) && k.ready_bitmap p)
    → (xs ++ ys ≢ [] → l.ready_tail p ≡ last? (xs ++ ys))
    → ((q : ℕ) → last? xs ≡ some q → next_of l q ≡ next_of k pid)
    → ((x : ℕ) → x ≢ pid → last? xs ≢ some x → next_of l x ≡ next_of k x)
    → ((x : ℕ) → (l.table x).priority ≡ (k.table x).priority)
    → Level l p (xs ++ ys)
Level-without k l p pid xs ys v eh eb et link keep prio = record {
  chain = chain;
  tail = et;
  bit = eb ∙ bits;
  distinct = Distinct-without xs pid ys v.distinct;
  own = All-map _ _ (xs ++ ys) (λ x e. prio x ∙ e) (All-without _ xs pid ys v.own);
}
  where
    chain : Chain (next_of l) (l.ready_head p) (xs ++ ys)
    chain = rw eh (
        Chain-without (next_of k) (next_of l) (k.ready_head p) xs pid ys v.chain v.distinct link
          keep)

    full :
        (zs : List ℕ) → k.ready_bitmap p ≡ not (is_nil (zs ++ pid ∷ ys)) → k.ready_bitmap p ≡ true
    full [] e = e
    full (z ∷ zs) e = e

    bits : (is_some (l.ready_head p) && k.ready_bitmap p) ≡ not (is_nil (xs ++ ys))
    bits =
        ground (arith, is_some-Chain (next_of l) (l.ready_head p) (xs ++ ys) chain, full xs v.bit)

-- Taking a process changes no field of a process but the link.
ready_take-priority :
    (k : Kernel) (p pid x : ℕ) → ((ready_take k p pid).table x).priority ≡ (k.table x).priority
unfolding ready_take
ready_take-priority k p pid x = ground arith

module _ (k : Kernel) (p pid : ℕ) where
  take_head : (ready_take k p pid).ready_head p ≡ next_of k pid
  unfolding ready_take
  take_head = ground arith

  take_bit :
      (ready_take k p pid).ready_bitmap p
      ≡ (is_some ((ready_take k p pid).ready_head p) && k.ready_bitmap p)
  unfolding ready_take
  take_bit = ground arith

  take_link : (x : ℕ) → x ≢ pid → next_of (ready_take k p pid) x ≡ next_of k x
  unfolding ready_take
  take_link x ne = ground arith

  take_tail : (ready_take k p pid).ready_tail p ≡ k.ready_tail p
  unfolding ready_take
  take_tail = refl

take_own :
    (k : Kernel) (p pid : ℕ) (xs : List ℕ) → Level k p (pid ∷ xs) → Level (ready_take k p pid) p xs
take_own k p pid xs v =
    Level-without k (ready_take k p pid) p pid [] xs v (take_head k p pid) (take_bit k p pid)
      (λ ne. take_tail k p pid ∙ v.tail (λ e. cc) ∙ tails xs ne) (λ q e. cc)
      (λ x ne e. take_link k p pid x ne) (ready_take-priority k p pid)
  where
    tails : (xs : List ℕ) → xs ≢ [] → last? (pid ∷ xs) ≡ last? xs
    tails [] ne = absurd (ne refl)
    tails (x ∷ xs) ne = refl

module _ (k : Kernel) (p pid r : ℕ) (ne : r ≢ p) where
  take_head_ne : (ready_take k p pid).ready_head r ≡ k.ready_head r
  unfolding ready_take
  take_head_ne = ground arith

  take_bit_ne : (ready_take k p pid).ready_bitmap r ≡ k.ready_bitmap r
  unfolding ready_take
  take_bit_ne = ground arith

take_other :
    (k : Kernel) (p pid r : ℕ) (xs : List ℕ)
    → (k.table pid).priority ≡ p
    → r ≢ p
    → Level k r xs
    → Level (ready_take k p pid) r xs
take_other k p pid r xs own ne v =
    Level-frame k (ready_take k p pid) r xs (take_head_ne k p pid r ne) (unfold ready_take in refl)
      (take_bit_ne k p pid r ne)
      (All-map _ _ xs (λ x n. take_link k p pid x n)
        (Level-ne k r pid xs (λ e. ne (sym e ∙ own)) v.own))
      (All-map _ _ xs (λ x e. ready_take-priority k p pid x ∙ e) v.own) v

take_Queues :
    (k : Kernel) (p pid : ℕ) (q : ℕ → List ℕ) (xs : List ℕ)
    → Queues k q
    → q p ≡ pid ∷ xs
    → Queues (ready_take k p pid) (put q p xs)
take_Queues k p pid q xs v e r = elim (ℕ_discrete r p) [
  | yes i ↦ rw (i, ==_refl) (take_own k p pid xs (subst (Level k p) e (v p)))
  | no ne ↦
      rw (==_ne r p ne) (take_other k p pid r (q r) (subst (Level k p) e (v p)).own.0 ne (v r))
]

-- The highest bit below `n` is one that is set, with none set above it.
highest_of_set :
    (n p : ℕ) (bits : ℕ → Bool)
    → p < n
    → bits p ≡ true
    → ((r : ℕ) → p < r → bits r ≡ false)
    → highest n bits ≡ some p
unfolding highest
highest_of_set zero p bits lt set above = absurd (omega arith)
highest_of_set (suc n) p bits lt set above = elim (ℕ_discrete n p) [
  | yes e ↦ rw (e, set)
  | no ne ↦ rw (above n (omega arith)) (highest_of_set n p bits (omega arith) set above)
]

taken_of :
    (k : Kernel) (p pid : ℕ)
    → highest prio_levels k.ready_bitmap ≡ some p
    → k.ready_head p ≡ some pid
    → ready_take_highest k ≡ some (pid, ready_take k p pid)
unfolding ready_take_highest
taken_of k p pid e h = rw (e, ready_take_highest) (rw h)

-- When level `p` holds `pid` first and every level above it is empty, the process taken is `pid`,
-- and the queues are those before with `pid` gone from level `p`.
pub ready_take_highest-Queues :
    (k : Kernel) (q : ℕ → List ℕ) (p pid : ℕ) (xs : List ℕ)
    → Queues k q
    → p < 32
    → q p ≡ pid ∷ xs
    → ((r : ℕ) → p < r → q r ≡ [])
    → (l : Kernel) × (ready_take_highest k ≡ some (pid, l))
      × Queues l (put q p xs)
      × ((x : ℕ)
          → record (l.table x) { next_ready = none } ≡ record (k.table x) { next_ready = none })
ready_take_highest-Queues k q p pid xs v lt e above =
    (ready_take k p pid, taken, take_Queues k p pid q xs v e, same)
  where
    level : Level k p (pid ∷ xs)
    level = subst (Level k p) e (v p)

    empty : (r : ℕ) → p < r → k.ready_bitmap r ≡ false
    empty r h = (v r).bit ∙ ap (λ ys. not (is_nil ys)) (above r h)

    taken : ready_take_highest k ≡ some (pid, ready_take k p pid)
    taken = taken_of k p pid (highest_of_set 32 p k.ready_bitmap lt level.bit empty) level.chain.0

    same :
        (x : ℕ)
        → record ((ready_take k p pid).table x) { next_ready = none }
          ≡ record (k.table x) { next_ready = none }
    same x = unfold ready_take in ground arith
