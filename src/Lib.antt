-- ===== src/Lib.antt =====
-- UbiqOS, a small operating system for microcontrollers: its kernel's core.
--
-- The kernel keeps one table of processes. The scheduler (kernel/scheduler.c) threads four kinds of
-- lists through it: a ready queue for each priority, the sleep list, and for each server the queue of
-- the senders that wait for it. A send blocks its sender until the server replies; a pulse and a
-- watch on a descriptor are the two ways to be told without anyone waiting. The end of a process
-- takes it out of all of them and gives back what it held.
--
--   Sched/State    pcb_t, ubiqos_msg_t, pulse_t, arm_t and the static variables, as one record Kernel.
--                  -1 in a link and a null pointer are `none`; arrays are functions from their index.
--   Sched/Ready    ready_enqueue, ready_remove, ready_take_highest. Ready/Queues is the abstract view:
--                  a list of pids for each level; Ready/Runnable relates it to the states.
--   Sched/Sleep    sleep_insert, sleep_remove, ubiqos_sleep_tick and ubiqos_sleep_begin. Sleep/Wakes is
--                  the abstract view: pids with wake times.
--   Sched/Pulse    pulse_take, pulse_deliver, ubiqos_pulse_send, pulse_drop_for.
--   Sched/Message  ubiqos_msg_send, ubiqos_msg_receive_tmo, msg_unlink_all.
--   Sched/Arms     ubiqos_arm_read, ubiqos_disarm_reads, arms_drop_for, ubiqos_wake_readers.
--   Sched/Exit     wake_waiters, reap, ubiqos_process_exit, ubiqos_process_kill, ubiqos_msg_reply,
--                  ubiqos_msg_reply_to.
--   Sched/Switch   ubiqos_switch, ubiqos_set_priority, the calls that block.
--   Sched/Interrupt  ubiqos_intr_catch, ubiqos_intr_request, ubiqos_intr_tick.
--   Sched/Cwd      the current directories.
--   Loader         relocate_image of kernel/scheduler.c.
--   Files          kernel/tmpfs.c, the files of /tmp, with the allocator as a parameter; a block has the
--                  size that the allocator gave.
--   Volumes        kernel/vfs.c, the table of mounted volumes.
--   Io             kernel/io.c, the I/O manager: Io/State its data, Io/Rings the ring of a pipe, Io/Open,
--                  Io/Close, Io/Transfer, Io/Offset, Io/Front and Io/Register its calls, Io/Counts who
--                  holds what, with every call as a step in Io/Counts/Reach.
--   Modules        kernel/moddir.c, the directory of modules; Modules/Tables libraries and drivers. The
--                  image in flash is the list that kernel/flashmod.c walks; a header is its fields.
--   Clock          kernel/clock.c, dates and stamps; the uptime is an argument.
--   Var            kernel/varfs.c, the lines of /var; the ring of messages is a parameter.
--   Common         tests, lists, linked chains through an array, loops, integers.
--   Witnesses      concrete kernels, with each theorem at one of them.
--
-- Each operation is a function from Kernel to Kernel with its result. A branch on a state or on a
-- link that may be absent is a helper by clauses. A loop along a list of the table runs on fuel, one
-- round for each of the 24 slots: a list without repetition has no more members, and the refinement
-- theorems are about the function with that fuel. The doubling of a file's capacity has 32 rounds,
-- which reach any capacity of up to 2^31. 32-bit subtraction and addition wrap. What other components
-- do when `reap` calls them is recorded as data, in order; whether a descriptor is readable is a
-- parameter of the sweep.
--
-- Sched, Files, Volumes, Io and Modules each keep a state of their own. Where one calls another, the
-- call is a parameter or is recorded: Io takes the scheduler's answers to the interrupt key and its
-- kill, Io/Counts/Reach fills the kill with the end of a process in Io, and the link of a driver that
-- is not built in is an argument of Io/Register, as Modules/Tables gives it. The comparison of two
-- names looks at 16 characters, of which a name in the directory has its NUL within; a loop over the
-- descriptors of a process runs 12 rounds, and one over the processes 24, as in the source.
--
-- Not modelled: the creation of a process and its allocation list (kernel/scheduler.c), the allocator
-- itself (kernel/tlsf.c), hardware registers and trap frames other than the result register, drivers
-- and their status calls, the network, USB, video, cryptography, the commands under modules/ and the
-- vendored libraries.
mod Common
pub mod Sched
pub mod Files
pub mod Loader
pub mod Volumes
pub mod Clock
pub mod Var
pub mod Io
pub mod Modules
mod Witnesses
