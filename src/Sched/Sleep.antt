-- ===== src/Sched/Sleep.antt =====
-- kernel/scheduler.c: the sleep list, a delta list as in XINU. `sleep_delta` is the bit pattern of an
-- int32_t, so the test `sleep_delta > 0` of the tick is that of a signed number. The loops run on
-- fuel, one round for each slot of the process table.
pub mod Wakes
pub mod Insert
pub mod Tick
pub mod Fields
pub mod Remove
use ubiqos.Common.{
  ltb, leb, ◌==◌, if◌then◌else◌, put, head_without, ℕ, zero, suc, ◌+◌, ◌-◌, ◌%◌, ◌^◌, Bool, false,
  ◌&&◌, Option, none, some,
}
use ubiqos.Common.Int.{ℤ, negsuc}
use ubiqos.Sched.State.{Kernel, Pcb, max_processes, ready, sleeping}
use ubiqos.Sched.Ready.{Table, ready_enqueue}

-- 32-bit addition and subtraction.
abbrev pub add32 : ℕ → ℕ → ℕ
add32 a b = (a + b) % 2 ^ 32

abbrev pub sub32 : ℕ → ℕ → ℕ
sub32 a b = (a + 2 ^ 32 - b) % 2 ^ 32

abbrev pub set_sleep : Table → ℕ → ℕ → Option ℕ → Table
set_sleep t i d n = put t i (record (t i) { sleep_delta = d; sleep_next = n })

-- Where the loop of `sleep_insert` stops.
pub record Spot : Type 0 where
  pub prev : Option ℕ
  pub cur : Option ℕ
  pub remaining : ℕ

pub sleep_find : ℕ → Table → Option ℕ → Option ℕ → ℕ → Spot
sleep_find zero t prev cur remaining = record { prev = prev; cur = cur; remaining = remaining }
sleep_find (suc fuel) t prev none remaining = record {
  prev = prev;
  cur = none;
  remaining = remaining;
}
sleep_find (suc fuel) t prev (some cur) remaining =
    let rest =
      sleep_find fuel t (some cur) (t cur).sleep_next (sub32 remaining (t cur).sleep_delta) in
    if leb (t cur).sleep_delta remaining
    then rest
    else record { prev = prev; cur = some cur; remaining = remaining }

-- process_table[prev].sleep_next = pid, and the delta of `cur` less `remaining`.
pub link_prev : Table → Option ℕ → Option ℕ → Table
link_prev t none pid = t
link_prev t (some q) pid = put t q (record (t q) { sleep_next = pid })

pub lessen : Table → Option ℕ → ℕ → Table
lessen t none r = t
lessen t (some c) r = put t c (record (t c) { sleep_delta = sub32 (t c).sleep_delta r })

sleep_place : Kernel → ℕ → Spot → Kernel
unfolding link_prev lessen
sleep_place k pid s = record k {
  table =
      lessen (link_prev (set_sleep k.table pid s.remaining s.cur) s.prev (some pid)) s.cur
        s.remaining;
  sleep_head = head_without s.prev k.sleep_head (some pid);
}

unfoldable pub sleep_insert : Kernel → ℕ → ℕ → Kernel
unfolding sleep_find sleep_place
sleep_insert k pid ticks =
    sleep_place k pid (sleep_find max_processes k.table none k.sleep_head ticks)

-- The delta of the process behind grows by that of the one taken out.
pub enlarge : Table → Option ℕ → ℕ → Table
enlarge t none d = t
enlarge t (some n) d = put t n (record (t n) { sleep_delta = add32 (t n).sleep_delta d })

sleep_cut : Kernel → ℕ → Option ℕ → Kernel
unfolding link_prev enlarge
sleep_cut k cur prev =
    let next = (k.table cur).sleep_next in
    let t = link_prev (enlarge k.table next (k.table cur).sleep_delta) prev next in
    record k {
      table = put t cur (record (t cur) { sleep_next = none });
      sleep_head = head_without prev k.sleep_head next;
    }

sleep_walk : ℕ → Kernel → ℕ → Option ℕ → Option ℕ → Kernel
sleep_walk zero k pid prev cur = k
sleep_walk (suc fuel) k pid prev none = k
sleep_walk (suc fuel) k pid prev (some cur) =
    let rest = sleep_walk fuel k pid (some cur) (k.table cur).sleep_next in
    if cur == pid then sleep_cut k pid prev else rest

unfoldable pub sleep_remove : Kernel → ℕ → Kernel
unfolding sleep_walk sleep_cut
sleep_remove k pid = sleep_walk max_processes k pid none k.sleep_head

pub sleep_begin : Kernel → ℕ → Kernel
unfolding sleep_insert
sleep_begin k ticks =
    let k1 = record k {
      table = put k.table k.current (record (k.table k.current) { state = sleeping });
    } in
    sleep_insert k1 k.current ticks

-- sleep_delta > 0, of an int32_t.
abbrev pub is_positive : ℕ → Bool
is_positive d = ltb 0 d && ltb d (2 ^ 31)

-- A timed receive that nothing came for returns UBIQOS_RECV_TIMEOUT.
abbrev pub recv_timeout : ℤ
recv_timeout = negsuc 2

pub time_out : Pcb → Pcb
time_out p =
    if p.recv_timed
    then record p { recv_timed = false; msg_out = none; a0 = recv_timeout; state = ready }
    else record p { state = ready }

-- One process that is due leaves the list and becomes ready.
unfoldable pub wake_first : Kernel → ℕ → Kernel
unfolding time_out
wake_first k pid =
    ready_enqueue
      (record k {
        table = put k.table pid (time_out (record (k.table pid) { sleep_next = none }));
        sleep_head = (k.table pid).sleep_next;
      })
      pid

pub wake_due : ℕ → Kernel → Option ℕ → Kernel
wake_due zero k head = k
wake_due (suc fuel) k none = k
wake_due (suc fuel) k (some pid) =
    let rest = wake_due fuel (wake_first k pid) (k.table pid).sleep_next in
    if (k.table pid).sleep_delta == 0 then rest else k

pub count_down : Table → ℕ → Table
count_down t i =
    if is_positive (t i).sleep_delta
    then put t i (record (t i) { sleep_delta = (t i).sleep_delta - 1 })
    else t

tick_from : Kernel → Option ℕ → Kernel
tick_from k none = k
tick_from k (some h) = wake_due max_processes (record k { table = count_down k.table h }) (some h)

unfoldable pub sleep_tick : Kernel → Kernel
unfolding tick_from
sleep_tick k = tick_from k k.sleep_head
