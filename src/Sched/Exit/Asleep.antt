-- ===== src/Sched/Exit/Asleep.antt =====
-- The end of a process and the sleep list: the process leaves it, and so does a parent that waited
-- for messages with a deadline and is told.
use ubiqos.Common.{
  ltb, leb, ◌==◌, if◌then◌else◌, Bool-cases, length, for_below, for_below_keeps, ℕ, suc, ◌-◌, ◌≡◌,
  refl, ap, ◌⊎◌, inl, inr, Bool, true, false, not, ◌&&◌, Option, none, some, List, arith,
}
use ubiqos.Common.Int.{pos}
use ubiqos.Sched.State.{
  Kernel, ProcState, free, ready, wait_recv, wait_reply, zombie, max_processes, max_pulses,
}
use ubiqos.Sched.Ready.{ready_remove}
use ubiqos.Sched.Ready.Fields.{remove_unlinked, remove_sleep_head}
use ubiqos.Sched.Sleep.{sleep_remove}
use ubiqos.Sched.Sleep.Wakes.{Sleepers, same_Sleepers, without}
use ubiqos.Sched.Sleep.Remove.{sleep_remove-Sleepers}
use ubiqos.Sched.Pulse.{slot_of, pulse_at, pulse_to, pulse_deliver, pulse_drop_for, pulse_into}
use ubiqos.Sched.Pulse.Woken.{deliver-Sleepers}
use ubiqos.Sched.Arms.{arms_drop_for}
use ubiqos.Sched.Message.{msg_unlink_all}
use ubiqos.Sched.Message.Unlink.{is_gone}
use ubiqos.Sched.Message.Asleep.{enqueue-Sleepers, unlink-Sleepers}
use ubiqos.Sched.Exit.{
  set_state, set_reason, end_killed, kill_by, is_wait_child, wake_waiter, wake_waiters, free_slot,
  orphan, tell_parent, clear_parent, reap_slot, reap_family, reap, is_free, end_value,
}

-- The sleepers are those of the list, or all of them but one.
abbrev pub FewerSleepers : Kernel → List (ℕ × ℕ) → Type 0
FewerSleepers k es = Sleepers k es ⊎ ((d : ℕ) × Sleepers k (without d es))

module _ (es : List (ℕ × ℕ)) where
  waiter-Sleepers : (pid i : ℕ) (k : Kernel) → Sleepers k es → Sleepers (wake_waiter pid i k) es
  unfolding wake_waiter
  waiter-Sleepers pid i k v =
      elim (Bool-cases (is_wait_child (k.table i).state && (k.table i).wait_pid == pid)) [
        | inl e ↦ rw e (
            enqueue-Sleepers (set_state k i ready) i es (
              same_Sleepers k (set_state k i ready) es refl (λ x. ground arith) (λ x. ground arith)
                v))
        | inr e ↦ rw e v
      ]

  pub waiters-Sleepers : (k : Kernel) (pid : ℕ) → Sleepers k es → Sleepers (wake_waiters k pid) es
  unfolding wake_waiters
  waiters-Sleepers k pid v =
      for_below_keeps (λ m. Sleepers m es) (wake_waiter pid) max_processes
        (λ i l g. waiter-Sleepers pid i l g) k v

  orphan-Sleepers : (pid i : ℕ) (k : Kernel) → Sleepers k es → Sleepers (orphan pid i k) es
  unfolding orphan
  orphan-Sleepers pid i k v =
      same_Sleepers k (orphan pid i k) es (ground arith) (λ x. ground arith) (λ x. ground arith) v

  to_fewer :
      (k : Kernel) (d from type value : ℕ) (s : ProcState)
      → Sleepers k es
      → FewerSleepers (pulse_to k d from type value s).1 es
  unfolding pulse_to
  to_fewer k d from type value free v = inl v
  to_fewer k d from type value wait_recv v =
      by_deadline (k.table d).recv_timed
        (deliver-Sleepers k d (pulse_into from type value) (pos 0) (k.table d).msg_serving es v)
    where
      by_deadline :
          {l : Kernel} (b : Bool) → Sleepers l (if b then without d es else es) → FewerSleepers l es
      by_deadline true w = inr (d, w)
      by_deadline false w = inl w
  to_fewer k d from type value _ v = elim (Bool-cases (leb max_pulses (length k.pulses))) [
    | inl i ↦ rw i (inl v)
    | inr i ↦ rw i (inl (same_Sleepers k _ es refl (λ x. refl) (λ x. refl) v))
  ]

  at_fewer :
      (k : Kernel) (s : Option ℕ) (from type value : ℕ)
      → Sleepers k es
      → FewerSleepers (pulse_at k s from type value).1 es
  unfolding pulse_at
  at_fewer k none from type value v = inl v
  at_fewer k (some d) from type value v = to_fewer k d from type value (k.table d).state v

  tell_fewer :
      (k : Kernel) (pid reason : ℕ) (s : Option ℕ)
      → Sleepers k es
      → FewerSleepers (tell_parent k pid reason s) es
  unfolding tell_parent pulse_deliver
  tell_fewer k pid reason none v = inl v
  tell_fewer k pid reason (some par) v =
      elim (Bool-cases
        (ltb 0 par && not (is_free (k.table par).state) && not ((k.table par).child_pulse == 0))) [
          | inl e ↦
              rw e (
                at_fewer k (slot_of (pos par)) 0 (k.table par).child_pulse (end_value reason pid) v)
          | inr e ↦ rw e (inl v)
        ]

  family_fewer : (k : Kernel) (pid : ℕ) → Sleepers k es → FewerSleepers (reap_family k pid) es
  unfolding reap_family
  family_fewer k pid v =
      let l : Kernel =
        for_below (max_processes - 1) (λ i. orphan pid (suc i)) (wake_waiters k pid) in
      let g : Sleepers l es =
        for_below_keeps (λ m. Sleepers m es) (λ i. orphan pid (suc i)) 23
          (λ i m e. orphan-Sleepers pid (suc i) m e) (wake_waiters k pid)
          (waiters-Sleepers k pid v) in
      tell_fewer (clear_parent l pid) pid (l.table pid).end_reason (l.table pid).parent
        (cleared l pid g)
    where
      cleared : (l : Kernel) (pid : ℕ) → Sleepers l es → Sleepers (clear_parent l pid) es
      cleared l pid g =
          same_Sleepers l (clear_parent l pid) es refl (λ x. ground arith) (λ x. ground arith) g

slot-Sleepers :
    (k : Kernel) (pid : ℕ) (es : List (ℕ × ℕ))
    → Sleepers k es
    → Sleepers (reap_slot k pid) (without pid es)
unfolding reap_slot free_slot pulse_drop_for arms_drop_for
slot-Sleepers k pid es v =
    same_Sleepers l (reap_slot k pid) (without pid es) refl (λ x. ground arith) (λ x. ground arith)
      (unlink-Sleepers (without pid es) (sleep_remove k pid) pid (sleep_remove-Sleepers k pid es v))
  where
    l : Kernel
    l = msg_unlink_all (sleep_remove k pid) pid

pub reap_fewer :
    (k : Kernel) (pid : ℕ) (es : List (ℕ × ℕ))
    → Sleepers k es
    → FewerSleepers (reap k pid) (without pid es)
unfolding reap
reap_fewer k pid es v =
    family_fewer (without pid es) (reap_slot k pid) pid (slot-Sleepers k pid es v)

reason-Sleepers :
    (k : Kernel) (pid r : ℕ) (es : List (ℕ × ℕ)) → Sleepers k es → Sleepers (set_reason k pid r) es
reason-Sleepers k pid r es v =
    same_Sleepers k (set_reason k pid r) es refl (λ x. ground arith) (λ x. ground arith) v

-- A kill takes the process out of the sleep list, whatever it was doing.
pub kill_fewer :
    (k : Kernel) (pid : ℕ) (es : List (ℕ × ℕ)) (s : ProcState)
    → is_gone s ≡ false
    → Sleepers k es
    → FewerSleepers (kill_by k pid s).1 (without pid es)
unfolding kill_by
kill_fewer k pid es free e v = cc
kill_fewer k pid es zombie e v = cc
kill_fewer k pid es wait_reply e v =
    let l : Kernel = sleep_remove (set_reason k pid end_killed) pid in
    inl (
      waiters-Sleepers (without pid es) (set_state l pid zombie) pid (
        same_Sleepers l (set_state l pid zombie) (without pid es) refl (λ x. ground arith)
          (λ x. ground arith)
          (sleep_remove-Sleepers (set_reason k pid end_killed) pid es
            (reason-Sleepers k pid end_killed es v))))
kill_fewer k pid es ready e v =
    let l : Kernel = set_reason k pid end_killed in
    reap_fewer (ready_remove l pid) pid es (
      same_Sleepers l (ready_remove l pid) es (remove_sleep_head l pid)
        (λ x. ap (λ p. p.sleep_delta) (remove_unlinked l pid x))
        (λ x. ap (λ p. p.sleep_next) (remove_unlinked l pid x))
        (reason-Sleepers k pid end_killed es v))
kill_fewer k pid es _ e v =
    reap_fewer (set_reason k pid end_killed) pid es (reason-Sleepers k pid end_killed es v)
