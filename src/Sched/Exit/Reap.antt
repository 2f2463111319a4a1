-- ===== src/Sched/Exit/Reap.antt =====
-- What `reap` leaves of a process and of those that waited for it.
use ubiqos.Common.{
  ltb, leb, ◌==◌, ==_refl, ==_ne, Bool-cases, length, for_below, for_below_keeps, ℕ, suc, ◌-◌, ◌≡◌,
  refl, ap, ◌∙◌, ◌≢◌, inl, inr, true, not, ◌&&◌, Option, none, some, arith,
}
use ubiqos.Common.Int.{ℤ, pos}
use ubiqos.Sched.State.{Kernel, ProcState, free, wait_recv, max_processes, max_pulses}
use ubiqos.Sched.Ready.Fields.{enqueue_state}
use ubiqos.Sched.Sleep.{sleep_remove}
use ubiqos.Sched.Sleep.Fields.{remove_awake}
use ubiqos.Sched.Pulse.{slot_of, pulse_at, pulse_to, pulse_deliver, pulse_drop_for, pulse_into}
use ubiqos.Sched.Message.Handoff.{delivered_other}
use ubiqos.Sched.Arms.{arms_drop_for}
use ubiqos.Sched.Message.Unlink.{is_gone, msg_unlink_all-gone}
use ubiqos.Sched.Exit.{
  is_wait_child, wake_waiter, wake_waiters, free_slot, orphan, tell_parent, clear_parent, reap_slot,
  reap_family, reap, is_free, end_value,
}

-- A process that is gone is not woken, nor told anything.
module _ (st : ProcState) (is : is_gone st ≡ true) (z : ℕ) where
  waiter_gone :
      (pid i : ℕ) (k : Kernel) → (k.table z).state ≡ st → ((wake_waiter pid i k).table z).state ≡ st
  unfolding wake_waiter
  waiter_gone pid i k h =
      elim (Bool-cases (is_wait_child (k.table i).state && (k.table i).wait_pid == pid)) [
        | inl e ↦ rw e (rw enqueue_state (rw (==_ne z i (λ j. ground arith)) h))
        | inr e ↦ rw e h
      ]

  pub waiters_gone :
      (k : Kernel) (pid : ℕ) → (k.table z).state ≡ st → ((wake_waiters k pid).table z).state ≡ st
  unfolding wake_waiters
  waiters_gone k pid h =
      for_below_keeps (λ l. (l.table z).state ≡ st) (wake_waiter pid) max_processes
        (λ i l g. waiter_gone pid i l g) k h

  orphan_gone :
      (pid i : ℕ) (k : Kernel) → (k.table z).state ≡ st → ((orphan pid i k).table z).state ≡ st
  unfolding orphan
  orphan_gone pid i k h = ground arith

  to_gone :
      (k : Kernel) (d from type value : ℕ) (s : ProcState)
      → (k.table d).state ≡ s
      → (k.table z).state ≡ st
      → ((pulse_to k d from type value s).1.table z).state ≡ st
  unfolding pulse_to
  to_gone k d from type value free e h = h
  to_gone k d from type value wait_recv e h =
      delivered_other k d (pulse_into from type value) (pos 0) (k.table d).msg_serving z
        (λ j. ground arith)
      ∙ h
  to_gone k d from type value _ e h = elim (Bool-cases (leb max_pulses (length k.pulses))) [
    | inl i ↦ rw i h
    | inr i ↦ rw i h
  ]

  at_gone :
      (k : Kernel) (s : Option ℕ) (from type value : ℕ)
      → (k.table z).state ≡ st
      → ((pulse_at k s from type value).1.table z).state ≡ st
  unfolding pulse_at
  at_gone k none from type value h = h
  at_gone k (some d) from type value h = to_gone k d from type value (k.table d).state refl h

  pulse_gone :
      (k : Kernel) (dest : ℤ) (from type value : ℕ)
      → (k.table z).state ≡ st
      → ((pulse_deliver k dest from type value).1.table z).state ≡ st
  unfolding pulse_deliver
  pulse_gone k dest from type value h = at_gone k (slot_of dest) from type value h

  tell_gone :
      (k : Kernel) (pid reason : ℕ) (s : Option ℕ)
      → (k.table z).state ≡ st
      → ((tell_parent k pid reason s).table z).state ≡ st
  unfolding tell_parent
  tell_gone k pid reason none h = h
  tell_gone k pid reason (some par) h =
      elim (Bool-cases
        (ltb 0 par && not (is_free (k.table par).state) && not ((k.table par).child_pulse == 0))) [
          | inl e ↦
              rw e (pulse_gone k (pos par) 0 (k.table par).child_pulse (end_value reason pid) h)
          | inr e ↦ rw e h
        ]

  pub family_gone :
      (k : Kernel) (pid : ℕ) → (k.table z).state ≡ st → ((reap_family k pid).table z).state ≡ st
  unfolding reap_family
  family_gone k pid h =
      let l : Kernel =
        for_below (max_processes - 1) (λ i. orphan pid (suc i)) (wake_waiters k pid) in
      let g : (l.table z).state ≡ st =
        for_below_keeps (λ m. (m.table z).state ≡ st) (λ i. orphan pid (suc i)) 23
          (λ i m e. orphan_gone pid (suc i) m e) (wake_waiters k pid) (waiters_gone k pid h) in
      tell_gone (clear_parent l pid) pid (l.table pid).end_reason (l.table pid).parent
        (cleared l pid g)
    where
      cleared :
          (l : Kernel) (pid : ℕ)
          → (l.table z).state ≡ st
          → ((clear_parent l pid).table z).state ≡ st
      cleared l pid g = ground arith

  pub slot_gone :
      (k : Kernel) (pid : ℕ)
      → z ≢ pid
      → (k.table z).state ≡ st
      → ((reap_slot k pid).table z).state ≡ st
  unfolding reap_slot free_slot arms_drop_for pulse_drop_for
  slot_gone k pid ne h = rw (==_ne z pid ne) (
      msg_unlink_all-gone st is (sleep_remove k pid) pid z
        (ap (λ p. p.state) (remove_awake k pid z) ∙ h))

slot_freed : (k : Kernel) (pid : ℕ) → ((reap_slot k pid).table pid).state ≡ free
unfolding reap_slot free_slot
slot_freed k pid = rw ==_refl

-- Taking a process apart frees its slot, whatever it was waiting for and whoever its parent is.
pub reap-free : (k : Kernel) (pid : ℕ) → ((reap k pid).table pid).state ≡ free
unfolding reap
reap-free k pid = family_gone free refl pid (reap_slot k pid) pid (slot_freed k pid)
