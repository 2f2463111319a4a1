-- ===== src/Sched/Exit/Queued.antt =====
-- The end of a process keeps the ready queues: after each part of `reap`, who stands in a queue is
-- ready and who is ready stands in one, the process itself aside until its slot is free.
use ubiqos.Common.{
  ltb, leb, ◌==◌, ==_refl, ==_ne, Bool-cases, length, for_below, for_below_keeps, ℕ, suc, ◌-◌, ◌≡◌,
  refl, ap, ◌≢◌, inl, inr, true, false, not, ◌&&◌, Option, none, some, [], ◌∷◌, ◌++◌, arith,
}
use ubiqos.Common.Int.{pos}
use ubiqos.Sched.State.{Kernel, ProcState, free, ready, wait_recv, max_processes, max_pulses}
use ubiqos.Sched.Ready.Held.{Held, frame-Held, woken-Held, same-Held}
use ubiqos.Sched.Sleep.{sleep_remove}
use ubiqos.Sched.Sleep.Fields.{remove_awake}
use ubiqos.Sched.Pulse.{slot_of, pulse_at, pulse_to, pulse_deliver, pulse_drop_for, pulse_into}
use ubiqos.Sched.Pulse.Woken.{remove-SameLinks, deliver-Held}
use ubiqos.Sched.Arms.{arms_drop_for}
use ubiqos.Sched.Message.{is_wait_reply, msg_unlink_all}
use ubiqos.Sched.Message.Released.{unlink-Held}
use ubiqos.Sched.Message.Unlink.{is_gone}
use ubiqos.Sched.Exit.{
  set_state, is_wait_child, wake_waiter, wake_waiters, free_slot, orphan, tell_parent, clear_parent,
  reap_slot, reap_family, reap, is_free, end_value,
}

pub sleep_remove-Held :
    (k : Kernel) (pid : ℕ) (st : ProcState) (z : ℕ) → Held st z k → Held st z (sleep_remove k pid)
sleep_remove-Held k pid st z =
    same-Held k (sleep_remove k pid) st z
      (remove-SameLinks k pid, λ x. ap (λ p. p.state) (remove_awake k pid x))

-- Who waits for the end of a process that is gone, and its parent, are woken.
module _ (st : ProcState) (z : ℕ) (gone : is_gone st ≡ true) where
  waiter-Held : (pid i : ℕ) (k : Kernel) → Held st z k → Held st z (wake_waiter pid i k)
  unfolding wake_waiter
  waiter-Held pid i k h =
      elim (Bool-cases (is_wait_child (k.table i).state && (k.table i).wait_pid == pid)) [
        | inl e ↦ rw e (
            woken-Held k (set_state k i ready) st z i
              (record {
                heads = refl;
                tails = refl;
                bits = refl;
                links = λ x. ground arith;
                levels = λ x. ground arith;
              })
              (λ y ne. rw (==_ne y i ne) refl) (rw ==_refl refl) (waits k e) (apart k e h.1.own) h)
        | inr e ↦ rw e h
      ]
    where
      waits :
          (k : Kernel)
          → (is_wait_child (k.table i).state && (k.table i).wait_pid == pid) ≡ true
          → (k.table i).state ≢ ready
      waits k e = ground arith

      apart :
          (k : Kernel)
          → (is_wait_child (k.table i).state && (k.table i).wait_pid == pid) ≡ true
          → (k.table z).state ≡ st
          → i ≢ z
      apart k e o = ground arith

  pub waiters-Held : (k : Kernel) (pid : ℕ) → Held st z k → Held st z (wake_waiters k pid)
  unfolding wake_waiters
  waiters-Held k pid h =
      for_below_keeps (Held st z) (wake_waiter pid) max_processes (λ i l g. waiter-Held pid i l g) k
        h

  orphan-Held : (pid i : ℕ) (k : Kernel) → Held st z k → Held st z (orphan pid i k)
  unfolding orphan
  orphan-Held pid i k h =
      same-Held k (orphan pid i k) st z
        (
          record {
            heads = ground arith;
            tails = ground arith;
            bits = ground arith;
            links = λ x. ground arith;
            levels = λ x. ground arith;
          },
          λ x. ground arith,
        )
        h

  to-Held :
      (k : Kernel) (d from type value : ℕ) (s : ProcState)
      → (k.table d).state ≡ s
      → Held st z k
      → Held st z (pulse_to k d from type value s).1
  unfolding pulse_to
  to-Held k d from type value free e h = h
  to-Held k d from type value wait_recv e h =
      deliver-Held k d (pulse_into from type value) (pos 0) (k.table d).msg_serving st z (λ i. cc)
        (apart h.1.own) h
    where
      apart : (k.table z).state ≡ st → d ≢ z
      apart o = ground arith
  to-Held k d from type value _ e h = elim (Bool-cases (leb max_pulses (length k.pulses))) [
    | inl i ↦ rw i h
    | inr i ↦ rw i (queued_pulse h)
  ]
    where
      queued_pulse :
          Held st z k
          → Held st z (record k {
            pulses = k.pulses ++ record { dest = d; from = from; type = type; value = value } ∷ [];
          })
      queued_pulse g =
          same-Held k _ st z
            (
              record {
                heads = refl;
                tails = refl;
                bits = refl;
                links = λ x. refl;
                levels = λ x. refl;
              },
              λ x. refl,
            )
            g

  at-Held :
      (k : Kernel) (s : Option ℕ) (from type value : ℕ)
      → Held st z k
      → Held st z (pulse_at k s from type value).1
  unfolding pulse_at
  at-Held k none from type value h = h
  at-Held k (some d) from type value h = to-Held k d from type value (k.table d).state refl h

  tell-Held :
      (k : Kernel) (pid reason : ℕ) (s : Option ℕ)
      → Held st z k
      → Held st z (tell_parent k pid reason s)
  unfolding tell_parent pulse_deliver
  tell-Held k pid reason none h = h
  tell-Held k pid reason (some par) h =
      elim (Bool-cases
        (ltb 0 par && not (is_free (k.table par).state) && not ((k.table par).child_pulse == 0))) [
          | inl e ↦
              rw e
                (at-Held k (slot_of (pos par)) 0 (k.table par).child_pulse (end_value reason pid) h)
          | inr e ↦ rw e h
        ]

  cleared-Held : (k : Kernel) (pid : ℕ) → Held st z k → Held st z (clear_parent k pid)
  cleared-Held k pid h =
      same-Held k (clear_parent k pid) st z
        (
          record {
            heads = refl;
            tails = refl;
            bits = refl;
            links = λ x. ground arith;
            levels = λ x. ground arith;
          },
          λ x. ground arith,
        )
        h

  family-Held : (k : Kernel) (pid : ℕ) → Held st z k → Held st z (reap_family k pid)
  unfolding reap_family
  family-Held k pid h =
      let l : Kernel =
        for_below (max_processes - 1) (λ i. orphan pid (suc i)) (wake_waiters k pid) in
      let g : Held st z l =
        for_below_keeps (Held st z) (λ i. orphan pid (suc i)) 23
          (λ i m e. orphan-Held pid (suc i) m e) (wake_waiters k pid) (waiters-Held k pid h) in
      tell-Held (clear_parent l pid) pid (l.table pid).end_reason (l.table pid).parent
        (cleared-Held l pid g)

-- The slot becomes free, and its process stands in no queue.
freed-Held :
    (k : Kernel) (pid : ℕ) (st : ProcState) → Held st pid k → Held free pid (free_slot k pid)
unfolding free_slot
freed-Held k pid st h =
    frame-Held k (free_slot k pid) st free pid
      (record {
        heads = refl;
        tails = refl;
        bits = refl;
        links = λ x. ground arith;
        levels = λ x. ground arith;
      })
      (λ x ne. rw (==_ne x pid ne) refl) (rw ==_refl refl) h

pub reap-Held :
    (k : Kernel) (pid : ℕ) (st : ProcState)
    → is_wait_reply st ≡ false
    → Held st pid k
    → Held free pid (reap k pid)
unfolding reap reap_slot pulse_drop_for arms_drop_for
reap-Held k pid st no_reply h = family-Held free pid refl (reap_slot k pid) pid (
    freed-Held (arms_drop_for (pulse_drop_for l pid) pid) pid st (
      same-Held l (arms_drop_for (pulse_drop_for l pid) pid) st pid
        (
          record { heads = refl; tails = refl; bits = refl; links = λ x. refl; levels = λ x. refl },
          λ x. refl,
        )
        (unlink-Held st pid no_reply (sleep_remove k pid) pid (sleep_remove-Held k pid st pid h))))
  where
    l : Kernel
    l = msg_unlink_all (sleep_remove k pid) pid
