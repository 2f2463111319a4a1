-- ===== src/Sched/Pulse.antt =====
-- kernel/scheduler.c: pulses, the small messages that nobody waits on. The ring `pulses` with its
-- count is the list of the entries in use, oldest first.
pub mod Laws
pub mod Woken
use ubiqos.Common.{
  ltb, leb, ◌==◌, if◌then◌else◌, length, put, ℕ, false, ◌&&◌, Option, none, some, List, [], ◌∷◌,
  ◌++◌,
}
use ubiqos.Common.Int.{ℤ, pos, negsuc, failed}
use ubiqos.Sched.State.{
  Kernel, Pcb, Msg, Pulse, ProcState, free, ready, wait_recv, max_processes, max_pulses,
}
use ubiqos.Sched.Ready.{ready_enqueue}
use ubiqos.Sched.Sleep.{sleep_remove}

-- pid > 0 && pid < MAX_PROCESSES, of an int32_t.
unfoldable pub slot_of : ℤ → Option ℕ
slot_of (negsuc n) = none
slot_of (pos n) = if ltb 0 n && ltb n max_processes then some n else none

-- The value rides in `len`; a pulse has no buffer.
abbrev pub pulse_into : ℕ → ℕ → ℕ → Msg
pulse_into from type value = record { type = type; len = value; payload = 0; sender = from }

-- A write through `msg_out`.
abbrev pub write_out : (ℕ → Msg) → Option ℕ → Msg → ℕ → Msg
write_out memory none m = memory
write_out memory (some out) m = put memory out m

-- The oldest pulse for a process, and the ring without it.
unfoldable pub take_first : ℕ → List Pulse → Option (Pulse × List Pulse)
take_first pid [] = none
take_first pid (p ∷ ps) =
    if p.dest == pid
    then some (p, ps)
    else elim (take_first pid ps) [ none ↦ none | some (q, rest) ↦ some (q, p ∷ rest) ]

-- `none` is false: there was none.
unfoldable pub pulse_take : Kernel → ℕ → ℕ → Option Kernel
unfolding take_first
pulse_take k pid out = elim (take_first pid k.pulses) [
  | none ↦ none
  | some (p, rest) ↦
      some
        (record k { memory = put k.memory out (pulse_into p.from p.type p.value); pulses = rest })
]

-- A receiver with a deadline leaves the sleep list before it is woken.
unfoldable pub stop_timer : Kernel → ℕ → Kernel
stop_timer k d =
    let k1 = sleep_remove k d in
    if (k.table d).recv_timed
    then record k1 { table = put k1.table d (record (k1.table d) { recv_timed = false }) }
    else k

-- The receiver gets the message at its `msg_out`, `a0` as its result, and is made ready.
unfoldable pub deliver : Kernel → ℕ → Msg → ℤ → Option ℕ → Kernel
unfolding stop_timer
deliver k d m a0 serving =
    let k1 = stop_timer k d in
    let p = k1.table d in
    ready_enqueue
      (record k1 {
        memory = write_out k1.memory p.msg_out m;
        table =
            put k1.table d
              (record p { msg_out = none; msg_serving = serving; a0 = a0; state = ready });
      })
      d

-- What `pulse_deliver` does once the slot is known to be in range, by the state of its process.
unfoldable pub pulse_to : Kernel → ℕ → ℕ → ℕ → ℕ → ProcState → ℤ × Kernel
pulse_to k d from type value free = (failed, k)
pulse_to k d from type value wait_recv =
    (pos 0, deliver k d (pulse_into from type value) (pos 0) (k.table d).msg_serving)
pulse_to k d from type value _ = if leb max_pulses (length k.pulses) then (failed, k) else (
  pos 0,
  record k {
    pulses = k.pulses ++ record { dest = d; from = from; type = type; value = value } ∷ [];
  },
)

unfoldable pub pulse_at : Kernel → Option ℕ → ℕ → ℕ → ℕ → ℤ × Kernel
unfolding pulse_to
pulse_at k none from type value = (failed, k)
pulse_at k (some d) from type value = pulse_to k d from type value (k.table d).state

unfoldable pub pulse_deliver : Kernel → ℤ → ℕ → ℕ → ℕ → ℤ × Kernel
unfolding pulse_at
pulse_deliver k dest from type value = pulse_at k (slot_of dest) from type value

pub pulse_send : Kernel → ℤ → ℕ → ℕ → ℤ × Kernel
unfolding pulse_deliver
pulse_send k dest type value = pulse_deliver k dest k.current type value

-- Without the pulses that are addressed to the process.
abbrev not_for : ℕ → List Pulse → List Pulse
not_for pid [] = []
not_for pid (p ∷ ps) = if p.dest == pid then not_for pid ps else p ∷ not_for pid ps

unfoldable pub pulse_drop_for : Kernel → ℕ → Kernel
pulse_drop_for k pid = record k { pulses = not_for pid k.pulses }
