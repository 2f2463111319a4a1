-- ===== src/Sched/Switch.antt =====
-- kernel/scheduler.c: the switch that the trap handler asks for, and what a running process does to
-- its own state.
pub mod Runs
use ubiqos.Common.{
  leb, ◌==◌, if◌then◌else◌, for_below, ℕ, suc, ◌-◌, Bool, true, false, Option, none, some,
}
use ubiqos.Common.Int.{ℤ, pos, failed}
use ubiqos.Sched.State.{
  Kernel, Pcb, ProcState, free, ready, running, wait_read, wait_write, wait_child, set_stack_limit,
  called, kernel_pid, prio_levels, prio_idle, max_processes,
}
use ubiqos.Sched.Ready.{ready_enqueue, ready_take_highest, Table}
use ubiqos.Sched.Pulse.{slot_of}
use ubiqos.Sched.Message.{modify}
use ubiqos.Sched.Exit.{set_state, is_free}

abbrev pub save_sp : Kernel → ℕ → Kernel
save_sp k sp = record k { table = modify k.table k.current (λ p. record p { saved_sp = sp }) }

-- A process that blocked is not put back.
unfoldable pub requeue : Kernel → ProcState → Kernel
requeue k running = ready_enqueue (set_state k k.current ready) k.current
requeue k _ = k

abbrev pub run : Kernel → ℕ → Kernel
run k next =
    called (set_state (record k { current = next }) next running)
      (set_stack_limit (k.table next).stack_limit)

unfoldable pub resume : Option (ℕ × Kernel) → Option (ℕ × Kernel)
resume none = none
resume (some (next, k)) = some ((k.table next).saved_sp, run k next)

-- The stack pointer to take over, `none` where nothing is ready.
unfoldable pub switch : Kernel → ℕ → Option (ℕ × Kernel)
unfolding requeue resume
switch k sp =
    let k1 = save_sp k sp in resume (ready_take_highest (requeue k1 (k1.table k1.current).state))

is_some_slot : Table → Option ℕ → Bool
is_some_slot t none = false
is_some_slot t (some pid) = elim (t pid).module_ptr [ none ↦ false | some m ↦ true ]

pub process_is_module : Kernel → ℤ → Bool
unfolding is_some_slot
process_is_module k pid = is_some_slot k.table (slot_of pid)

pub process_count : Kernel → ℕ
process_count k = for_below max_processes (λ i n. if is_free (k.table i).state then n else suc n) 0

-- What it was, and the kernel with what it is.
unfoldable pub set_priority : Kernel → ℕ → ℕ × Kernel
set_priority k prio =
    let capped = if leb prio_levels prio then prio_levels - 1 else prio in
    let was = (k.table k.current).priority in
    if k.current == kernel_pid
    then (prio_idle, k)
    else if prio == prio_idle
    then (was, k)
    else (was, record k { table = modify k.table k.current (λ p. record p { priority = capped }) })

pub block_on_read : Kernel → ℕ → Kernel
block_on_read k path = record k {
  table = modify k.table k.current (λ p. record p { state = wait_read; wait_path = path });
}

pub block_on_write : Kernel → ℕ → Kernel
block_on_write k path = record k {
  table = modify k.table k.current (λ p. record p { state = wait_write; wait_path = path });
}

block_child : Kernel → Option ℕ → Bool × Kernel
block_child k none = (false, k)
block_child k (some pid) = if is_free (k.table pid).state then (false, k) else (
  true,
  record k {
    table = modify k.table k.current (λ p. record p { state = wait_child; wait_pid = pid });
  },
)

-- False where there is nothing to wait for.
pub block_on_child : Kernel → ℤ → Bool × Kernel
unfolding block_child
block_on_child k pid = block_child k (slot_of pid)
