-- ===== src/Sched/Message/Released.antt =====
-- The unlinking of the messages of a process keeps the ready queues: who it releases joins them.
use ubiqos.Common.{
  ==_refl, ==_ne, Bool-cases, for_below_keeps, ℕ, zero, suc, ◌≡◌, refl, ap, ◌∙◌, inl, inr, true,
  false, Option, none, some, arith,
}
use ubiqos.Common.Int.{ℤ, failed}
use ubiqos.Sched.State.{Kernel, ProcState, ready, max_processes}
use ubiqos.Sched.Ready.Held.{Held, woken-Held, SameRun, same-Held}
use ubiqos.Sched.Message.{
  modify, clear_next, clear_dest, clear_ends, clear_serving, unlink_senders, is_wait_reply, release,
  release_waiting, release_queue, release_aside, release_serving, msg_unlink_all,
}
use ubiqos.Sched.Message.Unlink.{waits_on}

-- What is cleared of an entry shows neither in the queues nor in the states.
next_SameRun : (k : Kernel) (s : ℕ) → SameRun k (clear_next k s)
next_SameRun k s = (
  record {
    heads = refl;
    tails = refl;
    bits = refl;
    links = λ x. ground arith;
    levels = λ x. ground arith;
  },
  λ x. ground arith,
)

dest_SameRun : (k : Kernel) (s : ℕ) → SameRun k (clear_dest k s)
dest_SameRun k s = (
  record {
    heads = refl;
    tails = refl;
    bits = refl;
    links = λ x. ground arith;
    levels = λ x. ground arith;
  },
  λ x. ground arith,
)

ends_SameRun : (k : Kernel) (s : ℕ) → SameRun k (clear_ends k s)
ends_SameRun k s = (
  record {
    heads = refl;
    tails = refl;
    bits = refl;
    links = λ x. ground arith;
    levels = λ x. ground arith;
  },
  λ x. ground arith,
)

serving_SameRun : (k : Kernel) (s : ℕ) → SameRun k (clear_serving k s)
serving_SameRun k s = (
  record {
    heads = refl;
    tails = refl;
    bits = refl;
    links = λ x. ground arith;
    levels = λ x. ground arith;
  },
  λ x. ground arith,
)

-- The unlinking of the messages of a process releases who waits for a reply and no other.
module _ (st : ProcState) (z : ℕ) (no_reply : is_wait_reply st ≡ false) where
  release-Held :
      (k : Kernel) (s : ℕ) (a0 : ℤ)
      → is_wait_reply (k.table s).state ≡ true
      → Held st z k
      → Held st z (release k s a0)
  unfolding release
  release-Held k s a0 e h =
      woken-Held k
        (record k { table = modify k.table s (λ p. record p { a0 = a0; state = ready }) }) st z s
        (record {
          heads = refl;
          tails = refl;
          bits = refl;
          links = λ x. ground arith;
          levels = λ x. ground arith;
        })
        (λ y ne. rw (==_ne y s ne) refl) (rw ==_refl refl) (λ i. cc (rw i at e))
        (λ i.
          let g : is_wait_reply (k.table s).state ≡ false =
            ap (λ j. is_wait_reply (k.table j).state) i ∙ ap is_wait_reply h.1.own ∙ no_reply in
          cc)
        h

  waiting-Held : (k : Kernel) (s : ℕ) → Held st z k → Held st z (release_waiting k s)
  unfolding release_waiting
  waiting-Held k s h = elim (Bool-cases (is_wait_reply (k.table s).state)) [
    | inl e ↦ rw e (release-Held k s failed e h)
    | inr e ↦ rw e h
  ]

  queue-Held :
      (fuel : ℕ) (k : Kernel) (s : Option ℕ) → Held st z k → Held st z (release_queue fuel k s)
  unfolding release_queue
  queue-Held zero k s h = h
  queue-Held (suc fuel) k none h = h
  queue-Held (suc fuel) k (some s) h =
      queue-Held fuel (release_waiting (clear_next k s) s) (k.table s).msg_next
        (waiting-Held (clear_next k s) s (same-Held k (clear_next k s) st z (next_SameRun k s) h))

  aside-Held : (pid i : ℕ) (k : Kernel) → Held st z k → Held st z (release_aside pid i k)
  unfolding release_aside
  aside-Held pid i k h = elim (Bool-cases (waits_on k pid i)) [
    | inl e ↦ rw e (
        release-Held (clear_dest k i) i failed (reply_kept k e)
          (same-Held k (clear_dest k i) st z (dest_SameRun k i) h))
    | inr e ↦ rw e h
  ]
    where
      reply_kept :
          (k : Kernel)
          → waits_on k pid i ≡ true
          → is_wait_reply ((clear_dest k i).table i).state ≡ true
      reply_kept k e = ground arith

  serving-Held :
      (k : Kernel) (pid : ℕ) (v : Option ℕ) → Held st z k → Held st z (release_serving k pid v)
  unfolding release_serving
  serving-Held k pid none h = h
  serving-Held k pid (some v) h =
      waiting-Held (clear_serving k pid) v
        (same-Held k (clear_serving k pid) st z (serving_SameRun k pid) h)

  pub unlink-Held : (k : Kernel) (pid : ℕ) → Held st z k → Held st z (msg_unlink_all k pid)
  unfolding msg_unlink_all unlink_senders
  unlink-Held k pid h =
      let l : Kernel = release_queue max_processes k (k.table pid).msg_head in
      serving-Held (unlink_senders k pid) pid ((unlink_senders k pid).table pid).msg_serving (
        for_below_keeps (Held st z) (λ j. release_aside pid (suc j)) 23
          (λ j m g. aside-Held pid (suc j) m g) (clear_ends l pid)
          (same-Held l (clear_ends l pid) st z (ends_SameRun l pid)
            (queue-Held max_processes k (k.table pid).msg_head h)))
