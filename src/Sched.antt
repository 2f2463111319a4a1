-- ===== src/Sched.antt =====
-- kernel/scheduler.c: the process table, the ready queues, the sleep list, messages and pulses.
pub mod State
pub mod Ready
pub mod Sleep
pub mod Pulse
pub mod Message
pub mod Arms
pub mod Exit
pub mod Switch
pub mod Interrupt
pub mod Cwd
