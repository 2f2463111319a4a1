-- ===== src/Sched/Ready/Fields.antt =====
-- Putting a process in a ready queue changes no field of any process but the link of the queue, and
-- nothing else of the kernel but the ends and bits of the queues.
use ubiqos.Common.{
  ◌==◌, Bool-cases, ℕ, zero, suc, ◌≡◌, refl, ap, inl, inr, Option, none, some, arith,
}
use ubiqos.Sched.State.{Kernel, Pcb, max_processes}
use ubiqos.Sched.Ready.{ready_enqueue, ready_cut, ready_walk, ready_remove}

-- A process but for the link of the ready queue.
abbrev pub unlinked : Pcb → Pcb
unlinked p = record p { next_ready = none }

pub enqueue_unlinked :
    (k : Kernel) (pid x : ℕ) → unlinked ((ready_enqueue k pid).table x) ≡ unlinked (k.table x)
unfolding ready_enqueue
enqueue_unlinked k pid x = ground arith

module _ (k : Kernel) (pid x : ℕ) where
  pub enqueue_state : ((ready_enqueue k pid).table x).state ≡ (k.table x).state
  enqueue_state = ap (λ p. p.state) (enqueue_unlinked k pid x)

  pub enqueue_delta : ((ready_enqueue k pid).table x).sleep_delta ≡ (k.table x).sleep_delta
  enqueue_delta = ap (λ p. p.sleep_delta) (enqueue_unlinked k pid x)

  pub enqueue_sleep_next : ((ready_enqueue k pid).table x).sleep_next ≡ (k.table x).sleep_next
  enqueue_sleep_next = ap (λ p. p.sleep_next) (enqueue_unlinked k pid x)

  pub enqueue_a0 : ((ready_enqueue k pid).table x).a0 ≡ (k.table x).a0
  enqueue_a0 = ap (λ p. p.a0) (enqueue_unlinked k pid x)

  pub enqueue_msg_next : ((ready_enqueue k pid).table x).msg_next ≡ (k.table x).msg_next
  enqueue_msg_next = ap (λ p. p.msg_next) (enqueue_unlinked k pid x)

  pub enqueue_msg_head : ((ready_enqueue k pid).table x).msg_head ≡ (k.table x).msg_head
  enqueue_msg_head = ap (λ p. p.msg_head) (enqueue_unlinked k pid x)

  pub enqueue_msg_dest : ((ready_enqueue k pid).table x).msg_dest ≡ (k.table x).msg_dest
  enqueue_msg_dest = ap (λ p. p.msg_dest) (enqueue_unlinked k pid x)

pub enqueue_sleep_head : (k : Kernel) (pid : ℕ) → (ready_enqueue k pid).sleep_head ≡ k.sleep_head
unfolding ready_enqueue
enqueue_sleep_head k pid = refl

pub enqueue_memory : (k : Kernel) (pid : ℕ) → (ready_enqueue k pid).memory ≡ k.memory
unfolding ready_enqueue
enqueue_memory k pid = refl

pub enqueue_pulses : (k : Kernel) (pid : ℕ) → (ready_enqueue k pid).pulses ≡ k.pulses
unfolding ready_enqueue
enqueue_pulses k pid = refl

cut_unlinked :
    (k : Kernel) (p pid : ℕ) (prev : Option ℕ) (x : ℕ)
    → unlinked ((ready_cut k p pid prev).table x) ≡ unlinked (k.table x)
unfolding ready_cut
cut_unlinked k p pid prev x = ground arith

walk_unlinked :
    (fuel : ℕ) (k : Kernel) (p pid : ℕ) (prev cur : Option ℕ) (x : ℕ)
    → unlinked ((ready_walk fuel k p pid prev cur).table x) ≡ unlinked (k.table x)
unfolding ready_walk
walk_unlinked zero k p pid prev cur x = refl
walk_unlinked (suc fuel) k p pid prev none x = refl
walk_unlinked (suc fuel) k p pid prev (some cur) x = elim (Bool-cases (cur == pid)) [
  | inl e ↦ rw e (cut_unlinked k p pid prev x)
  | inr e ↦ rw e (walk_unlinked fuel k p pid (some cur) (k.table cur).next_ready x)
]

-- So does taking one out.
pub remove_unlinked :
    (k : Kernel) (pid x : ℕ) → unlinked ((ready_remove k pid).table x) ≡ unlinked (k.table x)
unfolding ready_remove
remove_unlinked k pid x =
    walk_unlinked max_processes k (k.table pid).priority pid none
      (k.ready_head (k.table pid).priority) x

walk_sleep_head :
    (fuel : ℕ) (k : Kernel) (p pid : ℕ) (prev cur : Option ℕ)
    → (ready_walk fuel k p pid prev cur).sleep_head ≡ k.sleep_head
unfolding ready_walk ready_cut
walk_sleep_head zero k p pid prev cur = refl
walk_sleep_head (suc fuel) k p pid prev none = refl
walk_sleep_head (suc fuel) k p pid prev (some cur) = elim (Bool-cases (cur == pid)) [
  | inl e ↦ rw e refl
  | inr e ↦ rw e (walk_sleep_head fuel k p pid (some cur) (k.table cur).next_ready)
]

pub remove_sleep_head : (k : Kernel) (pid : ℕ) → (ready_remove k pid).sleep_head ≡ k.sleep_head
unfolding ready_remove
remove_sleep_head k pid =
    walk_sleep_head max_processes k (k.table pid).priority pid none
      (k.ready_head (k.table pid).priority)

pub enqueue_calls : (k : Kernel) (pid : ℕ) → (ready_enqueue k pid).calls ≡ k.calls
unfolding ready_enqueue
enqueue_calls k pid = refl
