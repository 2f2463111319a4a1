-- ===== src/Sched/Exit/Kill.antt =====
-- What `ubiqos_process_kill` does in each state of the process.
use ubiqos.Common.{
  if◌then◌else◌, All, ℕ, ◌<◌, ◌≡◌, refl, ap, ◌∙◌, ◌⊎◌, inl, inr, true, false, Option, none, some,
  List,
}
use ubiqos.Common.Int.{pos, failed}
use ubiqos.Sched.State.{
  Kernel, ProcState, free, ready, running, wait_read, wait_write, wait_child, sleeping, wait_recv,
  wait_reply, zombie, max_processes,
}
use ubiqos.Sched.Ready.Runnable.{Runnable, Held-Runnable}
use ubiqos.Sched.Sleep.Wakes.{Sleepers, without}
use ubiqos.Sched.Pulse.Laws.{slot_of-pos}
use ubiqos.Sched.Message.{is_wait_reply}
use ubiqos.Sched.Message.Unlink.{is_gone}
use ubiqos.Sched.Exit.{kill_by, kill_module, kill_at, process_kill}
use ubiqos.Sched.Exit.Ended.{end_state, kill-Ended, end_state_not_ready}
use ubiqos.Sched.Exit.Asleep.{FewerSleepers, kill_fewer}

kill_by-refused :
    (k : Kernel) (pid : ℕ) (s : ProcState) → is_gone s ≡ true → kill_by k pid s ≡ (failed, k)
unfolding kill_by
kill_by-refused k pid free e = refl
kill_by-refused k pid zombie e = refl
kill_by-refused k pid ready e = cc
kill_by-refused k pid running e = cc
kill_by-refused k pid wait_read e = cc
kill_by-refused k pid wait_write e = cc
kill_by-refused k pid wait_child e = cc
kill_by-refused k pid sleeping e = cc
kill_by-refused k pid wait_recv e = cc
kill_by-refused k pid wait_reply e = cc

-- A kill of a process that is there and runs a module succeeds. One that waits for a reply becomes a
-- zombie; the slot of any other is free. The ready queues, which before held the processes that were
-- ready and no other, do so after it: the killed process stands in none of them, and whoever was
-- woken stands in its own. The process has left the sleep list `es`, and at most one other has; the
-- rest keep their wake times. Who stands in the queue of the killed one has a slot of the table.
pub process_kill-gone :
    (k : Kernel) (pid m : ℕ) (q : ℕ → List ℕ) (es : List (ℕ × ℕ))
    → 0 < pid
    → pid < max_processes
    → (k.table pid).module_ptr ≡ some m
    → is_gone (k.table pid).state ≡ false
    → Runnable k q
    → All (λ x. x < max_processes) (q (k.table pid).priority)
    → Sleepers k es
    → (l : Kernel) × (after : ℕ → List ℕ) × (process_kill k (pos pid) ≡ (pos 0, l))
      × ((l.table pid).state ≡ (if is_wait_reply (k.table pid).state then zombie else free))
      × Runnable l after
      × FewerSleepers l (without pid es)
unfolding process_kill
process_kill-gone k pid m q es lo hi em e v small w =
    let s : ProcState = (k.table pid).state in
    let (done, rest) = kill-Ended k pid q e v small in
    let (after, h) = rest in
    let l : Kernel = (kill_by k pid s).1 in
    (
      l,
      after,
      ap (kill_at k) (slot_of-pos pid lo hi) ∙ ap (kill_module k pid) em ∙ ap (λ z. (z, l)) done,
      h.own,
      Held-Runnable l after (end_state s) pid h (end_state_not_ready s),
      kill_fewer k pid es s e w,
    )

-- A kill changes nothing, and says so, of a kernel thread, of a free slot and of a zombie.
pub process_kill-refused :
    (k : Kernel) (pid : ℕ)
    → 0 < pid
    → pid < max_processes
    → ((k.table pid).module_ptr ≡ none) ⊎ (is_gone (k.table pid).state ≡ true)
    → process_kill k (pos pid) ≡ (failed, k)
unfolding process_kill
process_kill-refused k pid lo hi h =
    ap (kill_at k) (slot_of-pos pid lo hi) ∙ by_module (k.table pid).module_ptr refl h
  where
    by_module :
        (o : Option ℕ)
        → (k.table pid).module_ptr ≡ o
        → ((k.table pid).module_ptr ≡ none) ⊎ (is_gone (k.table pid).state ≡ true)
        → kill_module k pid o ≡ (failed, k)
    by_module none e g = refl
    by_module (some m) e (inl i) = cc
    by_module (some m) e (inr i) = kill_by-refused k pid (k.table pid).state i
