-- ===== src/Sched/Ready/Held.antt =====
-- The ready queues as a whole, but for one process that is on its way out: who stands in them is
-- ready, and who is ready stands in them.
use ubiqos.Common.{
  ◌==◌, if◌then◌else◌, ==_refl, ==_ne, Bool-cases, All, All-append, All-map, put, ℕ, ◌≡◌, refl, sym,
  ap, ◌∙◌, ◌≢◌, inl, inr, Bool, true, false, List, [], ◌∷◌, ◌++◌, ℕ_discrete,
}
use ubiqos.Sched.State.{Kernel, ProcState, ready}
use ubiqos.Sched.Ready.{ready_enqueue}
use ubiqos.Sched.Ready.Queues.{Queues, same_Queues}
use ubiqos.Sched.Ready.Fields.{enqueue_state}
use ubiqos.Sched.Ready.Enqueue.{ready_enqueue-Queues, ready_enqueue-priority}

abbrev pub is_member : ℕ → List ℕ → Bool
is_member x [] = false
is_member x (y ∷ ys) = if x == y then true else is_member x ys

pub member_kept :
    (x y : ℕ) (ys : List ℕ) → is_member x ys ≡ true → is_member x (ys ++ y ∷ []) ≡ true
member_kept x y [] h = cc
member_kept x y (a ∷ ys) h = elim (Bool-cases (x == a)) [
  | inl e ↦ rw e refl
  | inr e ↦ rw e (member_kept x y ys (rw e at h))
]

pub member_last : (x : ℕ) (ys : List ℕ) → is_member x (ys ++ x ∷ []) ≡ true
member_last x [] = rw ==_refl refl
member_last x (a ∷ ys) = elim (Bool-cases (x == a)) [
  | inl e ↦ rw e refl
  | inr e ↦ rw e (member_last x ys)
]

pub member_without :
    (x a : ℕ) (xs ys : List ℕ)
    → x ≢ a
    → is_member x (xs ++ a ∷ ys) ≡ true
    → is_member x (xs ++ ys) ≡ true
member_without x a [] ys ne h = rw (==_ne x a ne) at h
member_without x a (b ∷ xs) ys ne h = elim (Bool-cases (x == b)) [
  | inl e ↦ rw e refl
  | inr e ↦ rw e (member_without x a xs ys ne (rw e at h))
]

-- A member stands somewhere in the list.
pub member_splits :
    (x : ℕ) (l : List ℕ) → is_member x l ≡ true → (xs : List ℕ) × (ys : List ℕ) × (l ≡ xs ++ x ∷ ys)
member_splits x [] h = cc
member_splits x (a ∷ l) h = elim (ℕ_discrete x a) [
  | yes e ↦ ([], l, rw e refl)
  | no ne ↦
      let (xs, ys, e) = member_splits x l (rw (==_ne x a ne) at h) in (a ∷ xs, ys, ap (◌∷◌ a) e)
]

-- The queues `q` of the kernel hold the processes that are ready and no other, the process `z`
-- aside, which stands in none and is in the state `st`.
pub record HeldBy (k : Kernel) (q : ℕ → List ℕ) (st : ProcState) (z : ℕ) : Type 0 where
  pub queues : Queues k q
  pub members : (r : ℕ) → All (λ x. ((k.table x).state ≡ ready) × (x ≢ z)) (q r)
  pub queued :
      (x : ℕ) → x ≢ z → (k.table x).state ≡ ready → is_member x (q (k.table x).priority) ≡ true
  pub own : (k.table z).state ≡ st

abbrev pub Held : ProcState → ℕ → Kernel → Type 0
Held st z k = (q : ℕ → List ℕ) × HeldBy k q st z

-- The second kernel has the queues of the first.
pub record SameLinks (k l : Kernel) : Type 0 where
  pub heads : l.ready_head ≡ k.ready_head
  pub tails : l.ready_tail ≡ k.ready_tail
  pub bits : l.ready_bitmap ≡ k.ready_bitmap
  pub links : (x : ℕ) → (l.table x).next_ready ≡ (k.table x).next_ready
  pub levels : (x : ℕ) → (l.table x).priority ≡ (k.table x).priority

pub links-Queues : (k l : Kernel) (q : ℕ → List ℕ) → SameLinks k l → Queues k q → Queues l q
links-Queues k l q s v = same_Queues k l q s.heads s.tails s.bits s.links s.levels v

-- A change that keeps the links and the state of every process but `z`.
pub frame-Held :
    (k l : Kernel) (st su : ProcState) (z : ℕ)
    → SameLinks k l
    → ((x : ℕ) → x ≢ z → (l.table x).state ≡ (k.table x).state)
    → (l.table z).state ≡ su
    → Held st z k
    → Held su z l
frame-Held k l st su z s es eo (q, h) = (
  q,
  record {
    queues = links-Queues k l q s h.queues;
    members = λ r. All-map _ _ (q r) (λ x m. (es x m.1 ∙ m.0, m.1)) (h.members r);
    queued = λ x ne e. rw (s.levels x) (h.queued x ne (sym (es x ne) ∙ e));
    own = eo;
  },
)

module _ (q : ℕ → List ℕ) (p x : ℕ) where
  put-All :
      (P : ℕ → Type 0) → ((r : ℕ) → All P (q r)) → P x → (r : ℕ) → All P (put q p (q p ++ x ∷ []) r)
  put-All P h px r = elim (ℕ_discrete r p) [
    | yes e ↦ rw (e, ==_refl p) (All-append P (q p) (x ∷ []) (h p) (px, tt))
    | no ne ↦ rw (==_ne r p ne) (h r)
  ]

  put-member : (y r : ℕ) → is_member y (q r) ≡ true → is_member y (put q p (q p ++ x ∷ []) r) ≡ true
  put-member y r h = elim (ℕ_discrete r p) [
    | yes e ↦ rw (e, ==_refl p) (member_kept y x (q p) (rw e at h))
    | no ne ↦ rw (==_ne r p ne) h
  ]

  put-last : is_member x (put q p (q p ++ x ∷ []) p) ≡ true
  put-last = rw ==_refl (member_last x (q p))

-- A process that was not ready is made so and put in its queue.
pub woken-Held :
    (k l : Kernel) (st : ProcState) (z x : ℕ)
    → SameLinks k l
    → ((y : ℕ) → y ≢ x → (l.table y).state ≡ (k.table y).state)
    → (l.table x).state ≡ ready
    → (k.table x).state ≢ ready
    → x ≢ z
    → Held st z k
    → Held st z (ready_enqueue l x)
woken-Held k l st z x s es ex not_ready ne (q, h) = (
  put q p (q p ++ x ∷ []),
  record {
    queues = ready_enqueue-Queues l x q (links-Queues k l q s h.queues) (
        All-map _ _ (q p) (λ y m i. not_ready (ap (λ j. (k.table j).state) (sym i) ∙ m.0))
          (h.members p));
    members =
        put-All q p x (λ y. ((m.table y).state ≡ ready) × (y ≢ z))
          (λ r. All-map _ _ (q r) (λ y i. (stays y i.0, i.1)) (h.members r))
          (enqueue_state l x x ∙ ex, ne);
    queued = λ y nz e. queue_of y nz e;
    own = enqueue_state l x z ∙ es z (λ i. ne (sym i)) ∙ h.own;
  },
)
  where
    m : Kernel
    m = ready_enqueue l x

    p : ℕ
    p = (l.table x).priority

    stays : (y : ℕ) → (k.table y).state ≡ ready → (m.table y).state ≡ ready
    stays y e = enqueue_state l x y ∙ elim (ℕ_discrete y x) [ yes i ↦ rw i ex | no n ↦ es y n ∙ e ]

    queue_of :
        (y : ℕ)
        → y ≢ z
        → (m.table y).state ≡ ready
        → is_member y (put q p (q p ++ x ∷ []) (m.table y).priority) ≡ true
    queue_of y nz e = rw (ready_enqueue-priority l x y) (elim (ℕ_discrete y x) [
      | yes i ↦ rw i (put-last q p x)
      | no n ↦
          put-member q p x y (l.table y).priority
            (rw (s.levels y) (h.queued y nz (sym (es y n) ∙ sym (enqueue_state l x y) ∙ e)))
    ])

-- A table whose entries keep their links, level and state.
abbrev pub SameRun : Kernel → Kernel → Type 0
SameRun k l = SameLinks k l × ((x : ℕ) → (l.table x).state ≡ (k.table x).state)

pub same-Held : (k l : Kernel) (st : ProcState) (z : ℕ) → SameRun k l → Held st z k → Held st z l
same-Held k l st z s h = frame-Held k l st st z s.0 (λ x ne. s.1 x) (s.1 z ∙ h.1.own) h
