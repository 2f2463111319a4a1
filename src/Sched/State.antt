-- ===== src/Sched/State.antt =====
-- kernel/scheduler.c: the data that the scheduler keeps. A pid or slot of -1 in a field is `none`, a
-- null pointer is `none`, and the process table, the two tables of queue ends and the bits of
-- `ready_bitmap` are functions from their index. `a0` is the result register in the trap frame at
-- `saved_sp`; `memory` is the place of each message structure, by its address. What other components
-- do when they are called is recorded in `calls`, in order.
use ubiqos.Common.{ℕ, Bool, Option, List, [], ◌∷◌, ◌++◌, put}
use ubiqos.Common.Int.{ℤ}

-- MAX_PROCESSES, on a board that names no smaller table.
abbrev pub max_processes : ℕ
max_processes = 24

abbrev pub kernel_pid : ℕ
kernel_pid = 0

abbrev pub prio_levels : ℕ
prio_levels = 32

abbrev pub prio_idle : ℕ
prio_idle = 0

abbrev pub prio_default : ℕ
prio_default = 16

abbrev pub max_pulses : ℕ
max_pulses = 24

abbrev pub max_arms : ℕ
max_arms = 8

pub data ProcState : Type 0 where
  free ready running wait_read wait_write wait_child sleeping wait_recv wait_reply zombie :
      ProcState

pub record Msg : Type 0 where
  pub type : ℕ
  pub len : ℕ
  pub payload : ℕ
  pub sender : ℕ

pub record Pcb : Type 0 where
  pub state : ProcState
  pub module_ptr : Option ℕ
  pub mem_base : Option ℕ
  pub code_base : Option ℕ
  pub saved_sp : ℕ
  pub stack_limit : ℕ
  pub a0 : ℤ
  pub wait_path : ℕ
  pub wait_pid : ℕ
  pub sleep_delta : ℕ
  pub sleep_next : Option ℕ
  pub recv_timed : Bool
  pub priority : ℕ
  pub next_ready : Option ℕ
  pub allocs : List ℕ
  pub parent : Option ℕ
  pub child_pulse : ℕ
  pub end_reason : ℕ
  pub msg_next : Option ℕ
  pub msg_head : Option ℕ
  pub msg_tail : Option ℕ
  pub msg_serving : Option ℕ
  pub msg_dest : Option ℕ
  pub msg : Msg
  pub msg_out : Option ℕ
  pub intr_pulse : ℕ
  pub intr_deadline : ℤ

pub record Pulse : Type 0 where
  pub dest : ℕ
  pub from : ℕ
  pub type : ℕ
  pub value : ℕ

-- A watch on a descriptor; pid 0 marks a free slot.
pub record Arm : Type 0 where
  pub pid : ℕ
  pub path : ℕ
  pub type : ℕ

-- Calls of other components, as `reap` and `ubiqos_switch` make them.
pub data Call : Type 0 where
  close_all : ℕ → Call
  wifi_forget : ℕ → Call
  lwip_forget : ℕ → Call
  moddir_unlink : ℕ → Call
  tlsf_free : Option ℕ → Call
  set_stack_limit : ℕ → Call

pub record Kernel : Type 0 where
  pub table : ℕ → Pcb
  pub current : ℕ
  pub ready_head : ℕ → Option ℕ
  pub ready_tail : ℕ → Option ℕ
  pub ready_bitmap : ℕ → Bool
  pub sleep_head : Option ℕ
  pub pulses : List Pulse
  pub arms : List Arm
  pub ticks : ℕ
  pub memory : ℕ → Msg
  pub calls : List Call

-- process_table[i] = v
abbrev pub write : Kernel → ℕ → Pcb → Kernel
write k i v = record k { table = put k.table i v }

abbrev pub called : Kernel → Call → Kernel
called k c = record k { calls = k.calls ++ c ∷ [] }
