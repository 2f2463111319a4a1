-- ===== src/Sched/Interrupt.antt =====
-- kernel/scheduler.c: Ctrl-C for a process that asked to hear of it. `intr_deadline` is an int32_t,
-- `ticks` the counter of the timer tick.
pub mod Grace
use ubiqos.Common.{
  ltb, ◌==◌, if◌then◌else◌, for_below, ℕ, suc, ◌-◌, ◌^◌, Bool, true, false, not, ◌&&◌, ◌||◌, Option,
  none, some,
}
use ubiqos.Common.Int.{ℤ, pos, negsuc, failed}
use ubiqos.Sched.State.{Kernel, Pcb, max_processes}
use ubiqos.Sched.Sleep.{add32, sub32}
use ubiqos.Sched.Pulse.{slot_of, pulse_deliver}
use ubiqos.Sched.Message.{modify}
use ubiqos.Sched.Exit.{is_free, process_kill}

abbrev pub intr_grace_ticks : ℕ
intr_grace_ticks = 500

-- (int32_t)x and (uint32_t)x
abbrev pub to_int32 : ℕ → ℤ
to_int32 x = if ltb x (2 ^ 31) then pos x else negsuc (2 ^ 32 - 1 - x)

abbrev pub to_uint32 : ℤ → ℕ
to_uint32 (pos n) = n
to_uint32 (negsuc n) = 2 ^ 32 - 1 - n

abbrev pub is_negative : ℤ → Bool
is_negative (pos n) = false
is_negative (negsuc n) = true

-- deadline <= 0
abbrev pub is_off : ℤ → Bool
is_off (pos n) = n == 0
is_off (negsuc n) = true

pub intr_catch : Kernel → ℕ → ℤ × Kernel
intr_catch k type = if k.current == 0 then (failed, k) else (
  pos 0,
  record k { table = modify k.table k.current (λ p. record p { intr_pulse = type }) },
)

abbrev pub set_deadline : Kernel → ℕ → ℤ → Kernel
set_deadline k i d = record k { table = modify k.table i (λ p. record p { intr_deadline = d }) }

-- The tick at which the grace ends, never 0.
abbrev pub deadline_of : ℕ → ℤ
deadline_of ticks = let at_ = add32 ticks intr_grace_ticks in to_int32 (if at_ == 0 then 1 else at_)

unfoldable pub intr_ask : Kernel → Option ℕ → Bool × Kernel
intr_ask k none = (false, k)
intr_ask k (some pid) =
    let p = k.table pid in
    let k1 = set_deadline k pid (deadline_of k.ticks) in
    let told : Bool × Kernel = (true, (pulse_deliver k1 (pos pid) 0 p.intr_pulse 0).1) in
    if is_free p.state || p.intr_pulse == 0 || not (is_negative p.intr_deadline)
    then (false, k)
    else told

-- True when the process was told and is given its grace.
unfoldable pub intr_request : Kernel → ℤ → Bool × Kernel
unfolding intr_ask
intr_request k pid = intr_ask k (slot_of pid)

-- Whether the grace of the process is over.
abbrev pub is_overdue : ℕ → Pcb → Bool
is_overdue ticks p =
    not (is_free p.state)
    && not (p.intr_pulse == 0 || is_off p.intr_deadline)
    && ltb (sub32 ticks (to_uint32 p.intr_deadline)) (2 ^ 31)

unfoldable pub intr_check : ℕ → Kernel → Kernel
intr_check i k =
    let killed = (process_kill (set_deadline k i failed) (pos i)).1 in
    if is_overdue k.ticks (k.table i) then killed else k

unfoldable pub intr_tick : Kernel → Kernel
unfolding intr_check
intr_tick k = for_below (max_processes - 1) (λ i. intr_check (suc i)) k
