-- ===== src/Sched/Exit/Ended.antt =====
-- What `ubiqos_process_kill` leaves of a process and of the ready queues, by the state it was in.
use ubiqos.Common.{
  if◌then◌else◌, ==_refl, ==_ne, Bool-cases, All, All-map, ℕ, ◌<◌, ◌≡◌, refl, sym, ap, ◌∙◌, subst,
  ◌≢◌, inl, inr, false, List, arith,
}
use ubiqos.Common.Int.{ℤ, pos}
use ubiqos.Sched.State.{
  Kernel, ProcState, free, ready, running, wait_read, wait_write, wait_child, sleeping, wait_recv,
  wait_reply, zombie, max_processes,
}
use ubiqos.Sched.Ready.{ready_remove}
use ubiqos.Sched.Ready.Queues.{same_Queues}
use ubiqos.Sched.Ready.Held.{Held, frame-Held, same-Held}
use ubiqos.Sched.Ready.Runnable.{Runnable, Runnable-Held, ready_remove-Held}
use ubiqos.Sched.Sleep.{sleep_remove}
use ubiqos.Sched.Message.{is_wait_reply}
use ubiqos.Sched.Message.Unlink.{is_gone}
use ubiqos.Sched.Exit.{set_state, set_reason, end_killed, kill_by}
use ubiqos.Sched.Exit.Queued.{sleep_remove-Held, waiters-Held, reap-Held}

-- What a kill makes of a process in the state `s`.
abbrev pub end_state : ProcState → ProcState
end_state s = if is_wait_reply s then zombie else free

-- What a kill leaves behind.
abbrev pub Ended : ProcState → ℕ → ℤ × Kernel → Type 0
Ended s pid r = (r.0 ≡ pos 0) × Held (end_state s) pid r.1

reason-Held :
    (k : Kernel) (pid r : ℕ) (st : ProcState) → Held st pid k → Held st pid (set_reason k pid r)
reason-Held k pid r st h =
    same-Held k (set_reason k pid r) st pid
      (
        record {
          heads = refl;
          tails = refl;
          bits = refl;
          links = λ x. ground arith;
          levels = λ x. ground arith;
        },
        λ x. ground arith,
      )
      h

reason-Runnable :
    (k : Kernel) (pid r : ℕ) (q : ℕ → List ℕ) → Runnable k q → Runnable (set_reason k pid r) q
reason-Runnable k pid r q v = record {
  queues =
      same_Queues k (set_reason k pid r) q refl refl refl (λ x. ground arith) (λ x. ground arith)
        v.queues;
  members = λ s. All-map _ _ (q s) (λ x e. same_state x ∙ e) (v.members s);
  queued = λ x e. rw (same_level x) (v.queued x (sym (same_state x) ∙ e));
}
  where
    same_state : (x : ℕ) → ((set_reason k pid r).table x).state ≡ (k.table x).state
    same_state x = ground arith

    same_level : (x : ℕ) → ((set_reason k pid r).table x).priority ≡ (k.table x).priority
    same_level x = ground arith

zombie-Held :
    (k : Kernel) (pid : ℕ) (st : ProcState)
    → Held st pid k
    → Held zombie pid (set_state k pid zombie)
zombie-Held k pid st h =
    frame-Held k (set_state k pid zombie) st zombie pid
      (record {
        heads = refl;
        tails = refl;
        bits = refl;
        links = λ x. ground arith;
        levels = λ x. ground arith;
      })
      (λ x ne. rw (==_ne x pid ne) refl) (rw ==_refl refl) h

-- A process that is not ready stands in no queue.
kill_blocked :
    (k : Kernel) (pid : ℕ) (s : ProcState)
    → is_gone s ≡ false
    → s ≢ ready
    → Held s pid k
    → Ended s pid (kill_by k pid s)
unfolding kill_by
kill_blocked k pid free e n h = cc
kill_blocked k pid zombie e n h = cc
kill_blocked k pid ready e n h = absurd (n refl)
kill_blocked k pid wait_reply e n h =
    let l : Kernel = sleep_remove (set_reason k pid end_killed) pid in
    (
      refl,
      waiters-Held zombie pid refl (set_state l pid zombie) pid (
          zombie-Held l pid wait_reply (
            sleep_remove-Held (set_reason k pid end_killed) pid wait_reply pid
              (reason-Held k pid end_killed wait_reply h))),
    )
kill_blocked k pid running e n h = (
  refl,
  reap-Held (set_reason k pid end_killed) pid running refl (reason-Held k pid end_killed running h),
)
kill_blocked k pid wait_read e n h = (
  refl,
  reap-Held (set_reason k pid end_killed) pid wait_read refl
      (reason-Held k pid end_killed wait_read h),
)
kill_blocked k pid wait_write e n h = (
  refl,
  reap-Held (set_reason k pid end_killed) pid wait_write refl
      (reason-Held k pid end_killed wait_write h),
)
kill_blocked k pid wait_child e n h = (
  refl,
  reap-Held (set_reason k pid end_killed) pid wait_child refl
      (reason-Held k pid end_killed wait_child h),
)
kill_blocked k pid sleeping e n h = (
  refl,
  reap-Held (set_reason k pid end_killed) pid sleeping refl
      (reason-Held k pid end_killed sleeping h),
)
kill_blocked k pid wait_recv e n h = (
  refl,
  reap-Held (set_reason k pid end_killed) pid wait_recv refl
      (reason-Held k pid end_killed wait_recv h),
)

kill_ready :
    (k : Kernel) (pid : ℕ) (q : ℕ → List ℕ)
    → Runnable k q
    → (k.table pid).state ≡ ready
    → All (λ x. x < max_processes) (q (k.table pid).priority)
    → Ended ready pid (kill_by k pid ready)
unfolding kill_by
kill_ready k pid q v e small = (
  refl,
  reap-Held (ready_remove l pid) pid ready refl (
      ready_remove-Held l q pid (reason-Runnable k pid end_killed q v) (same_state ∙ e)
        (subst (λ p. All (λ x. x < max_processes) (q p)) (sym same_level) small)),
)
  where
    l : Kernel
    l = set_reason k pid end_killed

    same_state : (l.table pid).state ≡ (k.table pid).state
    same_state = ground arith

    same_level : (l.table pid).priority ≡ (k.table pid).priority
    same_level = ground arith

pub kill-Ended :
    (k : Kernel) (pid : ℕ) (q : ℕ → List ℕ)
    → is_gone (k.table pid).state ≡ false
    → Runnable k q
    → All (λ x. x < max_processes) (q (k.table pid).priority)
    → Ended (k.table pid).state pid (kill_by k pid (k.table pid).state)
kill-Ended k pid q e v small = by_state (k.table pid).state refl
  where
    blocked : (s : ProcState) → (k.table pid).state ≡ s → s ≢ ready → Ended s pid (kill_by k pid s)
    blocked s es n =
        kill_blocked k pid s (ap is_gone (sym es) ∙ e) n
          (subst (λ t. Held t pid k) es (Runnable-Held k q pid v (λ i. n (sym es ∙ i))))

    by_state : (s : ProcState) → (k.table pid).state ≡ s → Ended s pid (kill_by k pid s)
    by_state ready es = kill_ready k pid q v es small
    by_state free es = blocked free es (λ i. cc)
    by_state zombie es = blocked zombie es (λ i. cc)
    by_state running es = blocked running es (λ i. cc)
    by_state wait_read es = blocked wait_read es (λ i. cc)
    by_state wait_write es = blocked wait_write es (λ i. cc)
    by_state wait_child es = blocked wait_child es (λ i. cc)
    by_state sleeping es = blocked sleeping es (λ i. cc)
    by_state wait_recv es = blocked wait_recv es (λ i. cc)
    by_state wait_reply es = blocked wait_reply es (λ i. cc)

pub end_state_not_ready : (s : ProcState) → end_state s ≢ ready
end_state_not_ready s = elim (Bool-cases (is_wait_reply s)) [
  | inl e ↦ rw e (λ i. cc)
  | inr e ↦ rw e (λ i. cc)
]
