-- ===== src/Sched/Message/Asleep.antt =====
-- The unlinking of the messages of a process leaves the sleep list.
use ubiqos.Common.{
  Bool-cases, for_below_keeps, ℕ, zero, suc, refl, inl, inr, Option, none, some, List, arith,
}
use ubiqos.Common.Int.{ℤ, failed}
use ubiqos.Sched.State.{Kernel, ready, max_processes}
use ubiqos.Sched.Ready.{ready_enqueue}
use ubiqos.Sched.Ready.Fields.{enqueue_delta, enqueue_sleep_next, enqueue_sleep_head}
use ubiqos.Sched.Sleep.Wakes.{Sleepers, same_Sleepers}
use ubiqos.Sched.Message.{
  modify, clear_next, clear_dest, clear_ends, clear_serving, unlink_senders, is_wait_reply, release,
  release_waiting, release_queue, release_aside, release_serving, msg_unlink_all,
}
use ubiqos.Sched.Message.Unlink.{waits_on}

pub enqueue-Sleepers :
    (k : Kernel) (x : ℕ) (es : List (ℕ × ℕ)) → Sleepers k es → Sleepers (ready_enqueue k x) es
enqueue-Sleepers k x es v =
    same_Sleepers k (ready_enqueue k x) es (enqueue_sleep_head k x) (enqueue_delta k x)
      (enqueue_sleep_next k x) v

module _ (es : List (ℕ × ℕ)) where
  release-Sleepers : (k : Kernel) (s : ℕ) (a0 : ℤ) → Sleepers k es → Sleepers (release k s a0) es
  unfolding release
  release-Sleepers k s a0 v =
      enqueue-Sleepers
        (record k { table = modify k.table s (λ p. record p { a0 = a0; state = ready }) }) s es
        (same_Sleepers k _ es refl (λ x. ground arith) (λ x. ground arith) v)

  waiting-Sleepers : (k : Kernel) (s : ℕ) → Sleepers k es → Sleepers (release_waiting k s) es
  unfolding release_waiting
  waiting-Sleepers k s v = elim (Bool-cases (is_wait_reply (k.table s).state)) [
    | inl e ↦ rw e (release-Sleepers k s failed v)
    | inr e ↦ rw e v
  ]

  queue-Sleepers :
      (fuel : ℕ) (k : Kernel) (s : Option ℕ) → Sleepers k es → Sleepers (release_queue fuel k s) es
  unfolding release_queue
  queue-Sleepers zero k s v = v
  queue-Sleepers (suc fuel) k none v = v
  queue-Sleepers (suc fuel) k (some s) v =
      queue-Sleepers fuel (release_waiting (clear_next k s) s) (k.table s).msg_next (
        waiting-Sleepers (clear_next k s) s
          (same_Sleepers k (clear_next k s) es refl (λ x. ground arith) (λ x. ground arith) v))

  aside-Sleepers : (pid i : ℕ) (k : Kernel) → Sleepers k es → Sleepers (release_aside pid i k) es
  unfolding release_aside
  aside-Sleepers pid i k v = elim (Bool-cases (waits_on k pid i)) [
    | inl e ↦ rw e (
        release-Sleepers (clear_dest k i) i failed
          (same_Sleepers k (clear_dest k i) es refl (λ x. ground arith) (λ x. ground arith) v))
    | inr e ↦ rw e v
  ]

  serving-Sleepers :
      (k : Kernel) (pid : ℕ) (o : Option ℕ) → Sleepers k es → Sleepers (release_serving k pid o) es
  unfolding release_serving
  serving-Sleepers k pid none v = v
  serving-Sleepers k pid (some s) v =
      waiting-Sleepers (clear_serving k pid) s
        (same_Sleepers k (clear_serving k pid) es refl (λ x. ground arith) (λ x. ground arith) v)

  pub unlink-Sleepers : (k : Kernel) (pid : ℕ) → Sleepers k es → Sleepers (msg_unlink_all k pid) es
  unfolding msg_unlink_all unlink_senders
  unlink-Sleepers k pid v =
      let l : Kernel = release_queue max_processes k (k.table pid).msg_head in
      serving-Sleepers (unlink_senders k pid) pid ((unlink_senders k pid).table pid).msg_serving (
        for_below_keeps (λ m. Sleepers m es) (λ j. release_aside pid (suc j)) 23
          (λ j m g. aside-Sleepers pid (suc j) m g) (clear_ends l pid)
          (same_Sleepers l (clear_ends l pid) es refl (λ x. ground arith) (λ x. ground arith)
            (queue-Sleepers max_processes k (k.table pid).msg_head v)))
