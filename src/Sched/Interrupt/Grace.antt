-- ===== src/Sched/Interrupt/Grace.antt =====
-- kernel/scheduler.c: how long a process that was asked to end is left alone.
use ubiqos.Common.{leb, lt→ltb, ==_ne, ℕ, ◌+◌, ◌%◌, ◌^◌, ◌<◌, ◌≡◌, refl, ◌≢◌, false, arith}
use ubiqos.Common.Int.{pos}
use ubiqos.Sched.State.{Pcb}
use ubiqos.Sched.Exit.{is_free}
use ubiqos.Sched.Interrupt.{deadline_of, is_overdue}

deadline_early : (t : ℕ) → t + 500 < 2 ^ 31 → deadline_of t ≡ pos (t + 500)
deadline_early t lt =
    let m : (t + 500) % 2 ^ 32 ≡ t + 500 = omega arith in
    rw m (rw (==_ne (t + 500) 0 (λ e. omega arith), lt→ltb (t + 500) (2 ^ 31) lt) refl)

-- A process in use that asked for a pulse, and was asked at tick `t`, is not overdue for the next 499
-- ticks and is overdue from the 500th on, for as long as the counter stays below 2^31.
pub overdue-grace :
    (p : Pcb) (t later : ℕ)
    → is_free p.state ≡ false
    → p.intr_pulse ≢ 0
    → t + later < 2 ^ 31
    → t + 500 < 2 ^ 31
    → is_overdue (t + later) (record p { intr_deadline = deadline_of t }) ≡ leb 500 later
overdue-grace p t later used asked small fits =
    rw
      (
        deadline_early t fits,
        used,
        ==_ne p.intr_pulse 0 asked,
        ==_ne (t + 500) 0 (λ e. omega arith),
      )
      (ground arith)
