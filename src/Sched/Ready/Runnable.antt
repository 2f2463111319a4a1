-- ===== src/Sched/Ready/Runnable.antt =====
-- What the scheduler keeps of the ready queues as a whole: who stands in them is ready, and who is
-- ready stands in them.
use ubiqos.Common.{
  ==_refl, ==_ne, All, All-map, All-and, Distinct, All-without, Distinct-apart, put, ℕ, ◌<◌, ◌≡◌,
  refl, sym, ap, ◌∙◌, subst, ◌≢◌, true, List, ◌∷◌, ◌++◌, ℕ_discrete,
}
use ubiqos.Sched.State.{Kernel, ProcState, ready, max_processes}
use ubiqos.Sched.Ready.{ready_remove}
use ubiqos.Sched.Ready.Queues.{Queues, Level-ne}
use ubiqos.Sched.Ready.Fields.{remove_unlinked}
use ubiqos.Sched.Ready.Remove.{ready_remove-Queues}
use ubiqos.Sched.Ready.Held.{is_member, member_without, member_splits, HeldBy, Held}

-- The queues `q` of the kernel hold the processes that are ready, each in that of its priority, and
-- no other.
pub record Runnable (k : Kernel) (q : ℕ → List ℕ) : Type 0 where
  pub queues : Queues k q
  pub members : (r : ℕ) → All (λ x. (k.table x).state ≡ ready) (q r)
  pub queued : (x : ℕ) → (k.table x).state ≡ ready → is_member x (q (k.table x).priority) ≡ true

pub Runnable-Held :
    (k : Kernel) (q : ℕ → List ℕ) (z : ℕ)
    → Runnable k q
    → (k.table z).state ≢ ready
    → Held (k.table z).state z k
Runnable-Held k q z v ne = (
  q,
  record {
    queues = v.queues;
    members = λ r.
        All-map _ _ (q r) (λ x e. (e, λ i. ne (ap (λ j. (k.table j).state) (sym i) ∙ e)))
          (v.members r);
    queued = λ x n e. v.queued x e;
    own = refl;
  },
)

pub Held-Runnable :
    (k : Kernel) (q : ℕ → List ℕ) (st : ProcState) (z : ℕ)
    → HeldBy k q st z
    → st ≢ ready
    → Runnable k q
Held-Runnable k q st z h ne = record {
  queues = h.queues;
  members = λ r. All-map _ _ (q r) (λ x m. m.0) (h.members r);
  queued = λ x e. h.queued x (λ i. ne (sym h.own ∙ ap (λ j. (k.table j).state) (sym i) ∙ e)) e;
}

-- Taking a ready process out of its queue leaves all others where they stand.
module _ (k : Kernel) (q : ℕ → List ℕ) (z : ℕ) (v : Runnable k q) where
  remove_state : (x : ℕ) → ((ready_remove k z).table x).state ≡ (k.table x).state
  remove_state x = ap (λ p. p.state) (remove_unlinked k z x)

  module _ (xs ys : List ℕ) (e : q (k.table z).priority ≡ xs ++ z ∷ ys) where
    others : (r : ℕ) → All (λ x. x ≢ z) (put q (k.table z).priority (xs ++ ys) r)
    others r = elim (ℕ_discrete r (k.table z).priority) [
      | yes i ↦ rw (i, ==_refl) (Distinct-apart xs z ys (subst Distinct e (v.queues _).distinct))
      | no ne ↦ rw (==_ne r _ ne) (Level-ne k r z (q r) (λ i. ne (sym i)) (v.queues r).own)
    ]

    still : (r : ℕ) → All (λ x. (k.table x).state ≡ ready) (put q (k.table z).priority (xs ++ ys) r)
    still r = elim (ℕ_discrete r (k.table z).priority) [
      | yes i ↦
          rw (i, ==_refl)
            (All-without _ xs z ys (subst (All (λ x. (k.table x).state ≡ ready)) e (v.members _)))
      | no ne ↦ rw (==_ne r _ ne) (v.members r)
    ]

    place :
        (x r : ℕ)
        → x ≢ z
        → is_member x (q r) ≡ true
        → is_member x (put q (k.table z).priority (xs ++ ys) r) ≡ true
    place x r ne h = elim (ℕ_discrete r (k.table z).priority) [
      | yes i ↦
          rw (i, ==_refl)
            (member_without x z xs ys ne (subst (λ l. is_member x l ≡ true) (ap q i ∙ e) h))
      | no n ↦ rw (==_ne r _ n) h
    ]

  pub ready_remove-Held :
      (k.table z).state ≡ ready
      → All (λ x. x < max_processes) (q (k.table z).priority)
      → Held ready z (ready_remove k z)
  ready_remove-Held er small =
      let (xs, ys, e) = member_splits z (q (k.table z).priority) (v.queued z er) in
      let q' : ℕ → List ℕ = put q (k.table z).priority (xs ++ ys) in
      (
        q',
        record {
          queues =
              ready_remove-Queues k q z xs ys v.queues e
                (subst (All (λ x. x < max_processes)) e small);
          members = λ r.
              All-map _ _ (q' r) (λ x m. (remove_state x ∙ m.0, m.1))
                (All-and _ _ (q' r) (still xs ys e r) (others xs ys e r));
          queued = λ x ne s.
              rw (ap (λ p. p.priority) (remove_unlinked k z x))
                (place xs ys e x (k.table x).priority ne (v.queued x (sym (remove_state x) ∙ s)));
          own = remove_state z ∙ er;
        },
      )
