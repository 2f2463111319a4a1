-- ===== src/Sched/Message/Unlink.antt =====
-- What becomes of the processes that wait for one that is taken apart.
use ubiqos.Common.{
  ==_refl, ==_ne, Bool-cases, opt_eq, for_below_keeps, for_below_does, ℕ, zero, suc, ◌<◌, ◌≡◌, ◌∙◌,
  ◌≢◌, inl, inr, Bool, true, false, ◌&&◌, Option, none, some, arith, ℕ_discrete,
}
use ubiqos.Common.Int.{ℤ, failed}
use ubiqos.Sched.State.{Kernel, ProcState, free, ready, zombie, max_processes}
use ubiqos.Sched.Ready.Fields.{enqueue_state, enqueue_msg_dest}
use ubiqos.Sched.Message.{
  clear_next, clear_dest, clear_ends, clear_serving, unlink_senders, is_wait_reply, release,
  release_waiting, release_queue, release_aside, release_serving, msg_unlink_all,
}

-- Process `i` is blocked on `pid`.
abbrev pub waits_on : Kernel → ℕ → ℕ → Bool
waits_on k pid i = is_wait_reply (k.table i).state && opt_eq (k.table i).msg_dest pid

-- A release makes its process ready and changes the state of no other.
pub release_state : (k : Kernel) (s : ℕ) (a0 : ℤ) → ((release k s a0).table s).state ≡ ready
unfolding release
release_state k s a0 = rw enqueue_state (rw ==_refl)

pub release_state_ne :
    (k : Kernel) (s : ℕ) (a0 : ℤ) (x : ℕ)
    → x ≢ s
    → (((release k s a0).table x).state ≡ (k.table x).state)
unfolding release
release_state_ne k s a0 x ne = rw enqueue_state (rw (==_ne x s ne))

release_dest :
    (k : Kernel) (s : ℕ) (a0 : ℤ) (x : ℕ)
    → ((release k s a0).table x).msg_dest ≡ (k.table x).msg_dest
unfolding release
release_dest k s a0 x = rw enqueue_msg_dest (ground arith)

-- Nobody comes to wait by a release.
release_waits :
    (k : Kernel) (s : ℕ) (a0 : ℤ) (pid x : ℕ)
    → waits_on k pid x ≡ false
    → waits_on (release k s a0) pid x ≡ false
release_waits k s a0 pid x h = elim (ℕ_discrete x s) [
  | yes e ↦ rw (e, release_state k s a0)
  | no ne ↦ rw (release_state_ne k s a0 x ne, release_dest k s a0 x) h
]

module _ (k : Kernel) (pid i x : ℕ) where
  aside_keeps : waits_on k pid x ≡ false → waits_on (release_aside pid i k) pid x ≡ false
  unfolding release_aside
  aside_keeps h = elim (Bool-cases (waits_on k pid i)) [
    | inl e ↦ rw e (release_waits (clear_dest k i) i failed pid x (ground arith))
    | inr e ↦ rw e h
  ]

  aside_does : waits_on (release_aside pid i k) pid i ≡ false
  unfolding release_aside
  aside_does = elim (Bool-cases (waits_on k pid i)) [
    | inl e ↦ rw e (rw (release_state (clear_dest k i) i failed))
    | inr e ↦ rw e e
  ]

serving_keeps :
    (k : Kernel) (pid x : ℕ) (v : Option ℕ)
    → waits_on k pid x ≡ false
    → waits_on (release_serving k pid v) pid x ≡ false
unfolding release_serving
serving_keeps k pid x none h = h
serving_keeps k pid x (some v) h = waiting_keeps (clear_serving k pid) (ground arith)
  where
    waiting_keeps :
        (l : Kernel) → waits_on l pid x ≡ false → waits_on (release_waiting l v) pid x ≡ false
    waiting_keeps l g = elim (Bool-cases (is_wait_reply (l.table v).state)) [
      | inl e ↦ rw e (release_waits l v failed pid x g)
      | inr e ↦ rw e g
    ]

senders_waits :
    (k : Kernel) (pid i : ℕ)
    → suc i < max_processes
    → waits_on (unlink_senders k pid) pid (suc i) ≡ false
unfolding unlink_senders
senders_waits k pid i hi =
    for_below_does (λ l. waits_on l pid (suc i) ≡ false) (λ j. release_aside pid (suc j)) 23 i
      (omega arith) (λ l. aside_does l pid (suc i) (suc i))
      (λ j l h. aside_keeps l pid (suc j) (suc i) h)
      (clear_ends (release_queue max_processes k (k.table pid).msg_head) pid)

-- When a process has been unlinked, no process of the table is left blocked on it.
pub msg_unlink_all-waits :
    (k : Kernel) (pid i : ℕ)
    → 0 < i
    → i < max_processes
    → waits_on (msg_unlink_all k pid) pid i ≡ false
unfolding msg_unlink_all
msg_unlink_all-waits k pid zero lo hi = absurd (omega arith)
msg_unlink_all-waits k pid (suc i) lo hi =
    serving_keeps (unlink_senders k pid) pid (suc i) ((unlink_senders k pid).table pid).msg_serving
      (senders_waits k pid i hi)

-- A process that is gone, a free slot or a zombie.
abbrev pub is_gone : ProcState → Bool
is_gone free = true
is_gone zombie = true
is_gone _ = false

-- What is gone is not blocked as far as unlinking can tell, and stays so.
module _ (st : ProcState) (is : is_gone st ≡ true) where
  release_gone :
      (k : Kernel) (s z : ℕ) → (k.table z).state ≡ st → ((release_waiting k s).table z).state ≡ st
  unfolding release_waiting
  release_gone k s z h = elim (Bool-cases (is_wait_reply (k.table s).state)) [
    | inl e ↦ rw e (release_state_ne k s failed z (λ i. ground arith) ∙ h)
    | inr e ↦ rw e h
  ]

  queue_gone :
      (fuel : ℕ) (k : Kernel) (s : Option ℕ) (z : ℕ)
      → (k.table z).state ≡ st
      → ((release_queue fuel k s).table z).state ≡ st
  unfolding release_queue
  queue_gone zero k s z h = h
  queue_gone (suc fuel) k none z h = h
  queue_gone (suc fuel) k (some s) z h =
      queue_gone fuel (release_waiting (clear_next k s) s) (k.table s).msg_next z
        (release_gone (clear_next k s) s z (ground arith))

  aside_gone :
      (pid i : ℕ) (k : Kernel) (z : ℕ)
      → (k.table z).state ≡ st
      → ((release_aside pid i k).table z).state ≡ st
  unfolding release_aside
  aside_gone pid i k z h = elim (Bool-cases (waits_on k pid i)) [
    | inl e ↦ rw e (release_state_ne (clear_dest k i) i failed z (λ j. ground arith) ∙ ground arith)
    | inr e ↦ rw e h
  ]

  serving_gone :
      (k : Kernel) (pid z : ℕ) (v : Option ℕ)
      → (k.table z).state ≡ st
      → ((release_serving k pid v).table z).state ≡ st
  unfolding release_serving
  serving_gone k pid z none h = h
  serving_gone k pid z (some v) h = release_gone (clear_serving k pid) v z (ground arith)

  senders_gone :
      (k : Kernel) (pid z : ℕ)
      → (k.table z).state ≡ st
      → ((unlink_senders k pid).table z).state ≡ st
  unfolding unlink_senders
  senders_gone k pid z h =
      for_below_keeps (λ l. (l.table z).state ≡ st) (λ j. release_aside pid (suc j)) 23
        (λ j l g. aside_gone pid (suc j) l z g)
        (clear_ends (release_queue max_processes k (k.table pid).msg_head) pid)
        (cleared (release_queue max_processes k (k.table pid).msg_head)
          (queue_gone max_processes k (k.table pid).msg_head z h))
    where
      cleared : (l : Kernel) → (l.table z).state ≡ st → ((clear_ends l pid).table z).state ≡ st
      cleared l g = ground arith

  pub msg_unlink_all-gone :
      (k : Kernel) (pid z : ℕ)
      → (k.table z).state ≡ st
      → ((msg_unlink_all k pid).table z).state ≡ st
  unfolding msg_unlink_all
  msg_unlink_all-gone k pid z h =
      serving_gone (unlink_senders k pid) pid z ((unlink_senders k pid).table pid).msg_serving
        (senders_gone k pid z h)
