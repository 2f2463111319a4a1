-- ===== src/Sched/Exit.antt =====
-- kernel/scheduler.c: how a process ends, and the replies that may take a killed one apart. What
-- `reap` asks of other components (paths, sockets, the module directory, the allocator) is recorded
-- in `calls`; the address of an allocation stands for its header.
pub mod Reap
pub mod Queued
pub mod Asleep
pub mod Ended
pub mod Kill
pub mod Zombies
use ubiqos.Common.{
  ltb, ◌==◌, if◌then◌else◌, opt_eq, for_below, ℕ, suc, ◌+◌, ◌-◌, ◌*◌, ◌%◌, ◌^◌, Bool, true, false,
  not, ◌&&◌, Option, none, some, List, [], ◌∷◌, ◌++◌,
}
use ubiqos.Common.Int.{ℤ, pos, negsuc, failed}
use ubiqos.Sched.State.{
  Kernel, Pcb, ProcState, free, ready, running, wait_read, wait_write, wait_child, sleeping,
  wait_recv, wait_reply, zombie, Call, close_all, wifi_forget, lwip_forget, moddir_unlink,
  tlsf_free, set_stack_limit, called, write, max_processes, kernel_pid, prio_levels, prio_idle,
}
use ubiqos.Sched.Ready.{ready_enqueue, ready_remove, ready_take_highest}
use ubiqos.Sched.Sleep.{sleep_remove}
use ubiqos.Sched.Pulse.{slot_of, pulse_deliver, pulse_drop_for}
use ubiqos.Sched.Arms.{arms_drop_for}
use ubiqos.Sched.Message.{modify, msg_unlink_all, release}

abbrev pub set_state : Kernel → ℕ → ProcState → Kernel
set_state k i s = record k { table = modify k.table i (λ p. record p { state = s }) }

abbrev pub is_wait_child : ProcState → Bool
is_wait_child wait_child = true
is_wait_child _ = false

-- Whoever waited for this one can run again.
wake_waiter : ℕ → ℕ → Kernel → Kernel
wake_waiter pid i k =
    if is_wait_child (k.table i).state && (k.table i).wait_pid == pid
    then ready_enqueue (set_state k i ready) i
    else k

unfoldable pub wake_waiters : Kernel → ℕ → Kernel
unfolding wake_waiter
wake_waiters k pid = for_below max_processes (wake_waiter pid) k

-- The calls that give back what the process was given.
frees : List ℕ → List Call
frees [] = []
frees (h ∷ hs) = tlsf_free (some h) ∷ frees hs

unlink_calls : Option ℕ → List Call
unlink_calls none = []
unlink_calls (some m) = moddir_unlink m ∷ []

code_calls : Option ℕ → List Call
code_calls none = []
code_calls (some c) = tlsf_free (some c) ∷ []

unfoldable pub reap_calls : ℕ → Pcb → List Call
unfolding frees unlink_calls code_calls
reap_calls pid p =
    close_all pid
    ∷ wifi_forget pid
    ∷ lwip_forget pid
    ∷ (unlink_calls p.module_ptr
        ++ (frees p.allocs ++ (tlsf_free p.mem_base ∷ code_calls p.code_base)))

-- The slot is free and holds nothing.
unfoldable pub free_slot : Kernel → ℕ → Kernel
unfolding reap_calls
free_slot k pid = record k {
  table =
      modify k.table pid
        (λ p. record p { allocs = []; code_base = none; state = free; mem_base = none });
  calls = k.calls ++ reap_calls pid (k.table pid);
}

-- Its children are nobody's now.
orphan : ℕ → ℕ → Kernel → Kernel
orphan pid i k =
    if opt_eq (k.table i).parent pid
    then record k { table = modify k.table i (λ p. record p { parent = none }) }
    else k

abbrev pub is_free : ProcState → Bool
is_free free = true
is_free _ = false

-- The value of the pulse that tells a parent: the reason and the pid.
abbrev pub end_value : ℕ → ℕ → ℕ
end_value reason pid = (reason * 2 ^ 16) % 2 ^ 32 + pid % 2 ^ 16

-- The parent is told, if it is there and asked.
tell_parent : Kernel → ℕ → ℕ → Option ℕ → Kernel
tell_parent k pid reason none = k
tell_parent k pid reason (some par) =
    let l = (pulse_deliver k (pos par) 0 (k.table par).child_pulse (end_value reason pid)).1 in
    if ltb 0 par && not (is_free (k.table par).state) && not ((k.table par).child_pulse == 0)
    then l
    else k

abbrev clear_parent : Kernel → ℕ → Kernel
clear_parent k pid = record k { table = modify k.table pid (λ p. record p { parent = none }) }

-- The first half of `reap`: nothing leads to the process any more, and its slot is free.
unfoldable pub reap_slot : Kernel → ℕ → Kernel
reap_slot k pid =
    free_slot (arms_drop_for (pulse_drop_for (msg_unlink_all (sleep_remove k pid) pid) pid) pid) pid

-- The other half: those that wait for its end, its children and its parent.
unfoldable pub reap_family : Kernel → ℕ → Kernel
unfolding orphan tell_parent
reap_family k pid =
    let l = for_below (max_processes - 1) (λ i. orphan pid (suc i)) (wake_waiters k pid) in
    tell_parent (clear_parent l pid) pid (l.table pid).end_reason (l.table pid).parent

unfoldable pub reap : Kernel → ℕ → Kernel
reap k pid = reap_family (reap_slot k pid) pid

pub process_exit : Kernel → Kernel
unfolding reap
process_exit k = if k.current == kernel_pid then k else reap k k.current

abbrev pub end_exited : ℕ
end_exited = 0

abbrev pub end_killed : ℕ
end_killed = 1

abbrev pub end_faulted : ℕ
end_faulted = 2

abbrev pub set_reason : Kernel → ℕ → ℕ → Kernel
set_reason k i r = record k { table = modify k.table i (λ p. record p { end_reason = r }) }

pub process_fault_exit : Kernel → Kernel
unfolding reap
process_fault_exit k =
    if k.current == kernel_pid then k else reap (set_reason k k.current end_faulted) k.current

pub process_child_pulse : Kernel → ℕ → ℤ × Kernel
process_child_pulse k type =
    (pos 0, record k { table = modify k.table k.current (λ p. record p { child_pulse = type }) })

-- What a kill does to a process that runs a module, by its state.
pub kill_by : Kernel → ℕ → ProcState → ℤ × Kernel
kill_by k pid free = (failed, k)
kill_by k pid zombie = (failed, k)
kill_by k pid wait_reply = (
  pos 0,
  wake_waiters (set_state (sleep_remove (set_reason k pid end_killed) pid) pid zombie) pid,
)
kill_by k pid ready = (pos 0, reap (ready_remove (set_reason k pid end_killed) pid) pid)
kill_by k pid _ = (pos 0, reap (set_reason k pid end_killed) pid)

-- A kernel thread has no module.
kill_module : Kernel → ℕ → Option ℕ → ℤ × Kernel
unfolding kill_by
kill_module k pid none = (failed, k)
kill_module k pid (some m) = kill_by k pid (k.table pid).state

kill_at : Kernel → Option ℕ → ℤ × Kernel
unfolding kill_module
kill_at k none = (failed, k)
kill_at k (some pid) = kill_module k pid (k.table pid).module_ptr

unfoldable pub process_kill : Kernel → ℤ → ℤ × Kernel
unfolding kill_at
process_kill k pid = kill_at k (slot_of pid)

abbrev clear_dest : Kernel → ℕ → Kernel
clear_dest k i = record k { table = modify k.table i (λ p. record p { msg_dest = none }) }

-- The server no longer serves the process, if that is whom it served.
abbrev stop_serving : Kernel → ℕ → Kernel
stop_serving k pid = record k {
  table =
      modify k.table k.current
        (λ p. record p { msg_serving = if opt_eq p.msg_serving pid then none else p.msg_serving });
}

-- By the state of the sender: a zombie is taken apart, a blocked one is released.
reply_by : Kernel → ℕ → ℤ → ProcState → Kernel
reply_by k s status zombie = reap k s
reply_by k s status wait_reply = release k s status
reply_by k s status _ = k

reply_serving : Kernel → ℤ → Option ℕ → ℤ × Kernel
unfolding reply_by
reply_serving k status none = (failed, k)
reply_serving k status (some s) =
    let l = record k { table = modify k.table k.current (λ p. record p { msg_serving = none }) } in
    (pos 0, reply_by l s status (l.table s).state)

unfoldable pub msg_reply : Kernel → ℤ → ℤ × Kernel
unfolding reply_serving
msg_reply k status = reply_serving k status (k.table k.current).msg_serving

reply_to_by : Kernel → ℕ → ℤ → ProcState → ℤ × Kernel
reply_to_by k pid status zombie = (pos 0, reap (stop_serving k pid) pid)
reply_to_by k pid status wait_reply =
    if opt_eq (k.table pid).msg_dest k.current
    then (pos 0, release (clear_dest (stop_serving k pid) pid) pid status)
    else (failed, k)
reply_to_by k pid status _ = (failed, k)

reply_to_at : Kernel → ℤ → Option ℕ → ℤ × Kernel
unfolding reply_to_by
reply_to_at k status none = (failed, k)
reply_to_at k status (some pid) = reply_to_by k pid status (k.table pid).state

unfoldable pub msg_reply_to : Kernel → ℤ → ℤ → ℤ × Kernel
unfolding reply_to_at
msg_reply_to k pid status = reply_to_at k status (slot_of pid)
