-- ===== src/Sched/Ready/Queues.antt =====
-- The abstract view of the ready queues: a list of pids for each priority level.
use ubiqos.Common.{
  is_nil, last?, All, All-map, Distinct, Chain, Chain-cong, ℕ, ◌≡◌, refl, ◌∙◌, ◌≢◌, not, Option,
  List, [],
}
use ubiqos.Sched.State.{Kernel}

abbrev pub next_of : Kernel → ℕ → Option ℕ
next_of k i = (k.table i).next_ready

-- Level `p` of the kernel holds exactly the pids of the list, in their order.
pub record Level (k : Kernel) (p : ℕ) (xs : List ℕ) : Type 0 where
  pub chain : Chain (next_of k) (k.ready_head p) xs
  pub tail : xs ≢ [] → k.ready_tail p ≡ last? xs
  pub bit : k.ready_bitmap p ≡ not (is_nil xs)
  pub distinct : Distinct xs
  pub own : All (λ x. (k.table x).priority ≡ p) xs

-- The ready queues of the kernel are the lists `q`.
abbrev pub Queues : Kernel → (ℕ → List ℕ) → Type 0
Queues k q = (p : ℕ) → Level k p (q p)

-- A level is not touched by what changes neither its ends, its bit nor its members' links.
pub Level-frame :
    (k l : Kernel) (p : ℕ) (xs : List ℕ)
    → l.ready_head p ≡ k.ready_head p
    → l.ready_tail p ≡ k.ready_tail p
    → l.ready_bitmap p ≡ k.ready_bitmap p
    → All (λ x. (l.table x).next_ready ≡ (k.table x).next_ready) xs
    → All (λ x. (l.table x).priority ≡ p) xs
    → Level k p xs
    → Level l p xs
Level-frame k l p xs eh et eb en ep v = record {
  chain = rw eh (Chain-cong (next_of k) (next_of l) (k.ready_head p) xs en v.chain);
  tail = λ h. rw et (v.tail h);
  bit = rw eb v.bit;
  distinct = v.distinct;
  own = ep;
}

-- What differs in priority is not in the list of a level.
pub Level-ne :
    (k : Kernel) (p a : ℕ) (xs : List ℕ)
    → (k.table a).priority ≢ p
    → All (λ x. (k.table x).priority ≡ p) xs
    → All (λ x. x ≢ a) xs
Level-ne k p a xs h own = All-map _ _ xs (λ x e i. h (rw (← i) e)) own

-- A change of the table that leaves every link and every priority leaves the queues.
pub same_Queues :
    (k : Kernel) (l : Kernel) (q : ℕ → List ℕ)
    → l.ready_head ≡ k.ready_head
    → l.ready_tail ≡ k.ready_tail
    → l.ready_bitmap ≡ k.ready_bitmap
    → ((x : ℕ) → (l.table x).next_ready ≡ (k.table x).next_ready)
    → ((x : ℕ) → (l.table x).priority ≡ (k.table x).priority)
    → Queues k q
    → Queues l q
same_Queues k l q eh et eb en ep v p =
    Level-frame k l p (q p) (rw eh refl) (rw et refl) (rw eb refl)
      (All-map _ _ (q p) (λ x e. en x) (v p).own) (All-map _ _ (q p) (λ x e. ep x ∙ e) (v p).own)
      (v p)
