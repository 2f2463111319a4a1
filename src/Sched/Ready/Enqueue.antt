-- ===== src/Sched/Ready/Enqueue.antt =====
-- `ready_enqueue` appends a process to the queue of its priority.
use ubiqos.Common.{
  ℕ, ◌≡◌, ◌≢◌, sym, ◌⊎◌, inl, inr, none, some, List, [], ◌∷◌, All, last?, arith, All-map, All-and,
  last?-cons, last?-All, ◌∙◌, last?-ne, ℕ_discrete, true, Chain, ◌++◌, not, last?-snoc, put, is_nil,
  Distinct-snoc, Chain-snoc, ==_refl, All-append, ==_ne, refl,
}
use ubiqos.Sched.State.{Kernel}
use ubiqos.Sched.Ready.{ready_enqueue}
use ubiqos.Sched.Ready.Queues.{Level, Level-frame, Level-ne, Queues, next_of}

-- Enqueueing changes no field of a process but the link.
pub ready_enqueue-priority :
    (k : Kernel) (pid x : ℕ) → ((ready_enqueue k pid).table x).priority ≡ (k.table x).priority
unfolding ready_enqueue
ready_enqueue-priority k pid x = ground arith

module _ (k : Kernel) (pid p : ℕ) (ne : p ≢ (k.table pid).priority) where
  heads : (ready_enqueue k pid).ready_head p ≡ k.ready_head p
  unfolding ready_enqueue
  heads = ground arith

  tails : (ready_enqueue k pid).ready_tail p ≡ k.ready_tail p
  unfolding ready_enqueue
  tails = ground arith

  bits : (ready_enqueue k pid).ready_bitmap p ≡ k.ready_bitmap p
  unfolding ready_enqueue
  bits = ground arith

-- The link of a process is kept, unless it is the one enqueued or the last of its level.
link_kept :
    (k : Kernel) (pid x : ℕ)
    → x ≢ pid
    → (k.ready_head (k.table pid).priority ≡ none) ⊎ (k.ready_tail (k.table pid).priority ≢ some x)
    → ((ready_enqueue k pid).table x).next_ready ≡ (k.table x).next_ready
unfolding ready_enqueue
link_kept k pid x ne (inl e) = ground arith
link_kept k pid x ne (inr e) = ground arith

-- Members of a list other than the process and the last of its level keep their links.
links_kept :
    (k : Kernel) (pid : ℕ) (xs ys : List ℕ)
    → Level k (k.table pid).priority ys
    → All (λ x. x ≢ pid) xs
    → ((t : ℕ) → last? ys ≡ some t → All (λ x. x ≢ t) xs)
    → All (λ x. ((ready_enqueue k pid).table x).next_ready ≡ (k.table x).next_ready) xs
links_kept k pid xs [] v fresh apart =
    All-map _ _ xs (λ x ne. link_kept k pid x ne (inl v.chain)) fresh
links_kept k pid xs (y ∷ ys) v fresh apart =
    let (t, e) = last?-cons y ys in
    All-map _ _ xs (λ x ne. link_kept k pid x ne.0 (inr (λ i. ne.1 (cc (v.tail (λ h. cc))))))
      (All-and _ _ xs fresh (apart t e))

-- Of another level nothing changes.
other-Level :
    (k : Kernel) (pid p : ℕ) (xs ys : List ℕ)
    → p ≢ (k.table pid).priority
    → Level k p xs
    → Level k (k.table pid).priority ys
    → Level (ready_enqueue k pid) p xs
other-Level k pid p xs ys ne v w =
    Level-frame k (ready_enqueue k pid) p xs (heads k pid p ne) (tails k pid p ne) (bits k pid p ne)
      (links_kept k pid xs ys w (Level-ne k p pid xs (λ e. ne (sym e)) v.own)
        (λ t e. Level-ne k p t xs (λ i. ne (sym i ∙ last?-All _ t ys w.own e)) v.own))
      (All-map _ _ xs (λ x e. ready_enqueue-priority k pid x ∙ e) v.own) v

-- The ends of the process's own level.
module _ (k : Kernel) (pid : ℕ) where
  own_tail : (ready_enqueue k pid).ready_tail (k.table pid).priority ≡ some pid
  unfolding ready_enqueue
  own_tail = ground arith

  own_bit : (ready_enqueue k pid).ready_bitmap (k.table pid).priority ≡ true
  unfolding ready_enqueue
  own_bit = ground arith

  own_empty :
      k.ready_head (k.table pid).priority ≡ none
      → Chain
          (next_of (ready_enqueue k pid))
          ((ready_enqueue k pid).ready_head (k.table pid).priority)
          (pid ∷ [])
  unfolding ready_enqueue
  own_empty e = (ground arith, ground arith)

  own_head :
      (h : ℕ)
      → k.ready_head (k.table pid).priority ≡ some h
      → (ready_enqueue k pid).ready_head (k.table pid).priority
        ≡ k.ready_head (k.table pid).priority
  unfolding ready_enqueue
  own_head h e = ground arith

  linked :
      (h t : ℕ)
      → k.ready_head (k.table pid).priority ≡ some h
      → k.ready_tail (k.table pid).priority ≡ some t
      → t ≢ pid
      → (((ready_enqueue k pid).table pid).next_ready ≡ none)
        × (((ready_enqueue k pid).table t).next_ready ≡ some pid)
        × ((x : ℕ)
            → x ≢ pid
            → x ≢ t
            → ((ready_enqueue k pid).table x).next_ready ≡ (k.table x).next_ready)
  unfolding ready_enqueue
  linked h t eh et ne = (ground arith, ground arith, λ x n m. ground arith)

own-Chain :
    (k : Kernel) (pid : ℕ) (ys : List ℕ)
    → Level k (k.table pid).priority ys
    → All (λ x. x ≢ pid) ys
    → Chain
        (next_of (ready_enqueue k pid))
        ((ready_enqueue k pid).ready_head (k.table pid).priority)
        (ys ++ pid ∷ [])
own-Chain k pid [] v fresh = own_empty k pid v.chain
own-Chain k pid (y ∷ ys) v fresh =
    let (t, e) = last?-cons y ys in
    let l =
      linked k pid y t v.chain.0 (v.tail (λ h. cc) ∙ e) (λ i. last?-ne pid t (y ∷ ys) fresh e i) in
    rw (own_head k pid y v.chain.0) (
      Chain-snoc (next_of k) (next_of (ready_enqueue k pid)) _ (y ∷ ys) pid t v.chain v.distinct e
        (All-map _ _ (y ∷ ys) (λ x n i. n (sym i)) fresh) l.0 l.1 l.2)

not_nil-snoc : (ys : List ℕ) (a : ℕ) → not (is_nil (ys ++ a ∷ [])) ≡ true
not_nil-snoc [] a = refl
not_nil-snoc (y ∷ ys) a = refl

own-Level :
    (k : Kernel) (pid : ℕ) (ys : List ℕ)
    → Level k (k.table pid).priority ys
    → All (λ x. x ≢ pid) ys
    → Level (ready_enqueue k pid) (k.table pid).priority (ys ++ pid ∷ [])
own-Level k pid ys v fresh = record {
  chain = own-Chain k pid ys v fresh;
  tail = λ h. own_tail k pid ∙ sym (last?-snoc ys pid);
  bit = own_bit k pid ∙ sym (not_nil-snoc ys pid);
  distinct = Distinct-snoc ys pid v.distinct (All-map _ _ ys (λ x n i. n (sym i)) fresh);
  own =
      All-map _ _ (ys ++ pid ∷ []) (λ x e. ready_enqueue-priority k pid x ∙ e)
        (All-append _ ys (pid ∷ []) v.own (refl, tt));
}

-- The ready queues after a process that stands in none of them was enqueued are the queues before,
-- with the process at the end of the queue of its priority.
pub ready_enqueue-Queues :
    (k : Kernel) (pid : ℕ) (q : ℕ → List ℕ)
    → Queues k q
    → All (λ x. x ≢ pid) (q (k.table pid).priority)
    → Queues
        (ready_enqueue k pid)
        (put q (k.table pid).priority (q (k.table pid).priority ++ pid ∷ []))
ready_enqueue-Queues k pid q v fresh p = elim (ℕ_discrete p (k.table pid).priority) [
  | yes e ↦ rw (e, ==_refl) (own-Level k pid _ (v _) fresh)
  | no ne ↦ rw (==_ne p _ ne) (other-Level k pid p _ _ ne (v p) (v _))
]
