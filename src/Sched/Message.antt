-- ===== src/Sched/Message.antt =====
-- kernel/scheduler.c: messages. A send blocks its sender until the reply; the senders that wait for a
-- server are a list through their own table entries. The loop over that list runs on fuel, one round
-- for each slot of the process table.
pub mod Senders
pub mod Handoff
pub mod Unlink
pub mod Released
pub mod Asleep
use ubiqos.Common.{
  ◌==◌, if◌then◌else◌, opt_eq, put, for_below, ℕ, zero, suc, ◌-◌, Bool, true, false, ◌&&◌, Option,
  none, some,
}
use ubiqos.Common.Int.{ℤ, pos, negsuc, failed}
use ubiqos.Sched.State.{
  Kernel, Pcb, Msg, ProcState, free, ready, wait_recv, wait_reply, max_processes,
}
use ubiqos.Sched.Ready.{Table, ready_enqueue}
use ubiqos.Sched.Sleep.{sleep_insert, recv_timeout}
use ubiqos.Sched.Pulse.{slot_of, pulse_take, deliver}

-- process_table[i] after an update of its entry.
abbrev pub modify : Table → ℕ → (Pcb → Pcb) → Table
modify t i f = put t i (f (t i))

-- The sender's own entry: the message, with its pid in it, and the server.
abbrev pub offer : Kernel → ℕ → Msg → Kernel
offer k dest m = record k {
  table = modify k.table k.current (λ p. record p {
    msg = record m { sender = k.current };
    msg_next = none;
    msg_dest = some dest;
  });
}

-- The sender is linked behind the last of the server's queue, or becomes its head.
queue_sender : Table → ℕ → ℕ → Option ℕ → Table
queue_sender t me d none = modify t d (λ p. record p { msg_head = some me; msg_tail = some me })
queue_sender t me d (some last) =
    modify (modify t last (λ p. record p { msg_next = some me })) d
      (λ p. record p { msg_tail = some me })

-- A server that waits gets the message at once; for any other the sender is queued.
hand_or_queue : Kernel → ℕ → ProcState → Kernel
unfolding queue_sender
hand_or_queue k d wait_recv = deliver k d (k.table k.current).msg (pos k.current) (some k.current)
hand_or_queue k d _ = record k { table = queue_sender k.table k.current d (k.table d).msg_tail }

abbrev pub block : Kernel → ℕ → ProcState → Kernel
block k me s = record k { table = modify k.table me (λ p. record p { state = s }) }

send_by : Kernel → ℕ → Msg → ProcState → Bool × Kernel
unfolding hand_or_queue
send_by k d m free = (false, k)
send_by k d m s =
    let k1 = offer k d m in
    (true, block (hand_or_queue k1 d (k1.table d).state) k.current wait_reply)

send_at : Kernel → Option ℕ → Option Msg → Bool × Kernel
unfolding send_by
send_at k none m = (false, k)
send_at k (some d) none = (false, k)
send_at k (some d) (some m) = send_by k d m (k.table d).state

-- True when the sender has been queued and must now block. `none` for `m` is a null pointer.
unfoldable pub msg_send : Kernel → ℤ → Option Msg → Bool × Kernel
unfolding send_at
msg_send k dest m = send_at k (slot_of dest) m

abbrev pub timeout_forever : ℕ
timeout_forever = 0xffffffff

-- The first sender of the queue is taken and its message copied out.
take_sender : Kernel → ℕ → ℕ → Kernel
take_sender k out from =
    let head = (k.table from).msg_next in
    let t = modify k.table k.current (λ p. record p {
      msg_head = head;
      msg_tail = elim head [ none ↦ none | some h ↦ p.msg_tail ];
      msg_serving = some from;
    }) in
    record k {
      table = modify t from (λ p. record p { msg_next = none });
      memory = put k.memory out (k.table from).msg;
    }

-- Nothing is there: a poll returns, and any other receive blocks, with a deadline or without.
wait_message : Kernel → ℕ → ℕ → ℤ × Kernel
wait_message k out ms =
    let k1 = record k {
      table = modify k.table k.current (λ p. record p { msg_out = some out; state = wait_recv });
    } in
    let k2 = sleep_insert k1 k.current ms in
    let k3 = record k2 {
      table = modify k2.table k.current (λ p. record p { recv_timed = true });
    } in
    if ms == 0
    then (recv_timeout, k)
    else if ms == timeout_forever
    then (failed, k1)
    else (failed, k3)

receive_pulse : Kernel → ℕ → ℕ → Option Kernel → ℤ × Kernel
unfolding wait_message
receive_pulse k out ms (some l) = (pos 0, l)
receive_pulse k out ms none = wait_message k out ms

receive_from : Kernel → ℕ → ℕ → Option ℕ → ℤ × Kernel
unfolding take_sender receive_pulse
receive_from k out ms (some from) = (pos from, take_sender k out from)
receive_from k out ms none = receive_pulse k out ms (pulse_take k k.current out)

-- The sender's pid, 0 for a pulse, or -1 when the caller has been put to sleep waiting.
unfoldable pub msg_receive_tmo : Kernel → ℕ → ℕ → ℤ × Kernel
unfolding receive_from
msg_receive_tmo k out ms = receive_from k out ms (k.table k.current).msg_head

pub msg_receive : Kernel → ℕ → ℤ × Kernel
unfolding msg_receive_tmo
msg_receive k out = msg_receive_tmo k out timeout_forever

abbrev pub is_wait_reply : ProcState → Bool
is_wait_reply wait_reply = true
is_wait_reply _ = false

-- A process becomes ready with the result `a0`.
unfoldable pub release : Kernel → ℕ → ℤ → Kernel
release k s a0 =
    ready_enqueue (record k { table = modify k.table s (λ p. record p { a0 = a0; state = ready }) })
      s

release_waiting : Kernel → ℕ → Kernel
release_waiting k s = if is_wait_reply (k.table s).state then release k s failed else k

abbrev clear_next : Kernel → ℕ → Kernel
clear_next k s = record k { table = modify k.table s (λ p. record p { msg_next = none }) }

abbrev clear_dest : Kernel → ℕ → Kernel
clear_dest k s = record k { table = modify k.table s (λ p. record p { msg_dest = none }) }

abbrev clear_ends : Kernel → ℕ → Kernel
clear_ends k s = record k {
  table = modify k.table s (λ p. record p { msg_head = none; msg_tail = none });
}

abbrev clear_serving : Kernel → ℕ → Kernel
clear_serving k s = record k { table = modify k.table s (λ p. record p { msg_serving = none }) }

-- Everyone queued on the process is released with -1.
release_queue : ℕ → Kernel → Option ℕ → Kernel
unfolding release_waiting
release_queue zero k s = k
release_queue (suc fuel) k none = k
release_queue (suc fuel) k (some s) =
    release_queue fuel (release_waiting (clear_next k s) s) (k.table s).msg_next

-- Anyone put aside for a later answer is released too.
release_aside : ℕ → ℕ → Kernel → Kernel
release_aside pid i k =
    if is_wait_reply (k.table i).state && opt_eq (k.table i).msg_dest pid
    then release (clear_dest k i) i failed
    else k

release_serving : Kernel → ℕ → Option ℕ → Kernel
unfolding release_waiting
release_serving k pid none = k
release_serving k pid (some v) = release_waiting (clear_serving k pid) v

-- The senders queued and those put aside.
unlink_senders : Kernel → ℕ → Kernel
unfolding release_queue release_aside
unlink_senders k pid =
    for_below (max_processes - 1) (λ i. release_aside pid (suc i))
      (clear_ends (release_queue max_processes k (k.table pid).msg_head) pid)

unfoldable pub msg_unlink_all : Kernel → ℕ → Kernel
unfolding unlink_senders release_serving
msg_unlink_all k pid =
    let l = unlink_senders k pid in release_serving l pid (l.table pid).msg_serving
