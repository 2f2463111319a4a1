-- ===== src/Witnesses.antt =====
-- Concrete kernels, and each theorem at one of them: three processes 3, 5 and 7 and a server 9 of
-- kernel/scheduler.c.
pub mod Files
pub mod Texts
pub mod Pipes
pub mod Directory
use ubiqos.Common.{
  ltb, leb, ◌==◌, if◌then◌else◌, ltb→lt, lt→ltb, ==_iff, ==_refl, ==_ne, Bool-cases, Option-cases,
  opt_eq, has_some, length, get_or, set, take, drop, is_nil, last?, length-append, last?-snoc, All,
  All-append, All-map, All-and, Distinct, Distinct-snoc, last?-ne, All-weaken, last?-All,
  last?-cons, last?-append, All-without, All-middle, Distinct-without, Distinct-apart, All-left,
  All-right, Distinct-left, Distinct-right, Distinct-back, Distinct-across, put, Chain,
  head_without, Chain-cong, Chain-snoc, Chain-without, behind, behind-last?, find_in,
  length-le_of_Distinct, for_below, for_below_keeps, for_below_does, for_below_within, first_slot,
  first_slot-some, first_slot-none, first_slot-first, ℕ, zero, suc, ◌-◌, ◌*◌, ◌/◌, ◌%◌, ◌≤◌, ◌<◌,
  min, ◌≡◌, refl, sym, ap, ◌∙◌, subst, ◌≢◌, ◌↔◌, ◌⊎◌, inl, inr, Bool, true, false, not, ◌&&◌, ◌||◌,
  Option, none, some, List, [], ◌∷◌, ◌++◌, map, append_assoc, append-nil, arith, dec_lt, dec_le,
  ℕ_discrete,
}
use ubiqos.Common.Int.{pos, failed}
use ubiqos.Sched.State.{
  Kernel, Pcb, Msg, Pulse, ProcState, set_stack_limit, free, ready, running, wait_recv, wait_reply,
  zombie, write,
}
use ubiqos.Sched.Ready.{ready_enqueue, ready_remove, ready_take_highest}
use ubiqos.Sched.Ready.Queues.{Queues}
use ubiqos.Sched.Ready.Enqueue.{ready_enqueue-Queues}
use ubiqos.Sched.Ready.Take.{ready_take_highest-Queues}
use ubiqos.Sched.Ready.Remove.{ready_remove-Queues}
use ubiqos.Sched.Sleep.{sleep_insert, sleep_tick, sleep_remove}
use ubiqos.Sched.Sleep.Wakes.{Sleepers, insert_wake, tick_down, without}
use ubiqos.Sched.Sleep.Insert.{sleep_insert-Sleepers}
use ubiqos.Sched.Sleep.Tick.{due, sleep_tick-Sleepers}
use ubiqos.Sched.Sleep.Remove.{sleep_remove-Sleepers}
use ubiqos.Sched.Pulse.Laws.{inbox, pulse_take-inbox, pulse_take-empty, pulse_deliver-inbox}
use ubiqos.Sched.Pulse.{pulse_take, pulse_deliver}
use ubiqos.Sched.Message.{msg_send, msg_receive_tmo, msg_unlink_all, is_wait_reply}
use ubiqos.Sched.Exit.{reap, process_kill, msg_reply_to}
use ubiqos.Sched.Message.Senders.{Senders, msg_send-Senders, msg_receive-Senders}
use ubiqos.Sched.Message.Handoff.{msg_send-waiting}
use ubiqos.Sched.Message.Unlink.{waits_on, is_gone, msg_unlink_all-waits}
use ubiqos.Sched.Arms.{find_arm, find_free, arm_read, disarm_reads, count_arms}
use ubiqos.Sched.Arms.Watches.{watch, spoken, arm_read-watch, disarm_reads-silent}
use ubiqos.Sched.Switch.{switch}
use ubiqos.Sched.Switch.Runs.{switch-runs}
use ubiqos.Sched.Interrupt.Grace.{overdue-grace}
use ubiqos.Sched.Exit.Reap.{reap-free}
use ubiqos.Sched.Ready.Runnable.{Runnable}
use ubiqos.Sched.Exit.Asleep.{FewerSleepers}
use ubiqos.Sched.Exit.Kill.{process_kill-gone, process_kill-refused}
use ubiqos.Sched.Exit.Zombies.{
  reap-leaves_zombie, msg_reply_to-own, msg_reply_to-other, msg_reply_to-zombie,
}

abbrev no_msg : Msg
no_msg = record { type = 0; len = 0; payload = 0; sender = 0 }

abbrev ping : Msg
ping = record { type = 7; len = 4; payload = 100; sender = 0 }

-- A process that runs a module at address 1 with default priority.
abbrev plain : ProcState → Pcb
plain s = record {
  state = s;
  module_ptr = some 1;
  mem_base = some 4096;
  code_base = none;
  saved_sp = 0;
  stack_limit = 0;
  a0 = pos 0;
  wait_path = 0;
  wait_pid = 0;
  sleep_delta = 0;
  sleep_next = none;
  recv_timed = false;
  priority = 16;
  next_ready = none;
  allocs = [];
  parent = none;
  child_pulse = 0;
  end_reason = 0;
  msg_next = none;
  msg_head = none;
  msg_tail = none;
  msg_serving = none;
  msg_dest = none;
  msg = no_msg;
  msg_out = none;
  intr_pulse = 0;
  intr_deadline = failed;
}

abbrev old_pulse : Pulse
old_pulse = record { dest = 3; from = 5; type = 2; value = 11 }

abbrev other_pulse : Pulse
other_pulse = record { dest = 5; from = 3; type = 2; value = 12 }

-- Process 3 runs, nothing is queued anywhere and every slot holds a running process.
abbrev quiet : Kernel
quiet = record {
  table = λ _. plain running;
  current = 3;
  ready_head = λ _. none;
  ready_tail = λ _. none;
  ready_bitmap = λ _. false;
  sleep_head = none;
  pulses = other_pulse ∷ old_pulse ∷ [];
  arms = record { pid = 0; path = 0; type = 0 } ∷ record { pid = 3; path = 4; type = 9 } ∷ [];
  ticks = 0;
  memory = λ _. no_msg;
  calls = [];
}

abbrev no_queues : ℕ → List ℕ
no_queues _ = []

quiet-Queues : Queues quiet no_queues
quiet-Queues p = record {
  chain = refl;
  tail = λ h. absurd (h refl);
  bit = refl;
  distinct = tt;
  own = tt;
}

ready_enqueue-Queues_example : Queues (ready_enqueue quiet 3) (put no_queues 16 (3 ∷ []))
ready_enqueue-Queues_example = ready_enqueue-Queues quiet 3 no_queues quiet-Queues tt

abbrev two_ready : Kernel
two_ready = ready_enqueue (ready_enqueue quiet 3) 5

abbrev two_queues : ℕ → List ℕ
two_queues = put (put no_queues 16 (3 ∷ [])) 16 (3 ∷ 5 ∷ [])

two_ready-Queues : Queues two_ready two_queues
unfolding ready_enqueue
two_ready-Queues =
    ready_enqueue-Queues (ready_enqueue quiet 3) 5 (put no_queues 16 (3 ∷ []))
      (ready_enqueue-Queues quiet 3 no_queues quiet-Queues tt) (ground arith, tt)

two_queues_above : (r : ℕ) → 16 < r → two_queues r ≡ []
two_queues_above r h = rw (==_ne r 16 (λ e. omega arith))

ready_take_highest-Queues_example :
    (l : Kernel) × (ready_take_highest two_ready ≡ some (3, l))
    × Queues l (put two_queues 16 (5 ∷ []))
    × ((x : ℕ)
        → record (l.table x) { next_ready = none }
          ≡ record (two_ready.table x) { next_ready = none })
ready_take_highest-Queues_example =
    ready_take_highest-Queues two_ready two_queues 16 3 (5 ∷ []) two_ready-Queues (omega arith) refl
      two_queues_above

ready_remove-Queues_example : Queues (ready_remove two_ready 5) (put two_queues 16 (3 ∷ []))
unfolding ready_enqueue
ready_remove-Queues_example =
    ready_remove-Queues two_ready two_queues 5 (3 ∷ []) [] two_ready-Queues refl
      (omega arith, (omega arith, tt))

quiet-Sleepers : Sleepers quiet []
quiet-Sleepers = record { wakes = refl; distinct = tt; slots = tt; small = tt }

sleep_insert-Sleepers_example : Sleepers (sleep_insert quiet 5 10) (insert_wake 5 10 [])
sleep_insert-Sleepers_example =
    sleep_insert-Sleepers quiet 5 10 [] quiet-Sleepers tt (omega arith) (omega arith)

-- Process 5 sleeps for ten ticks and process 7 for one.
abbrev asleep : Kernel
asleep = sleep_insert (sleep_insert quiet 5 10) 7 1

abbrev asleep_list : List (ℕ × ℕ)
asleep_list = (7, 1) ∷ (5, 10) ∷ []

asleep-Sleepers : Sleepers asleep asleep_list
unfolding insert_wake
asleep-Sleepers =
    sleep_insert-Sleepers (sleep_insert quiet 5 10) 7 1 ((5, 10) ∷ [])
      (sleep_insert-Sleepers quiet 5 10 [] quiet-Sleepers tt (omega arith) (omega arith))
      (ground arith, tt) (omega arith) (omega arith)

sleep_tick-Sleepers_example :
    Sleepers (sleep_tick asleep) (tick_down asleep_list)
    × All (λ x. ((sleep_tick asleep).table x).state ≡ ready) (due asleep_list)
sleep_tick-Sleepers_example =
    sleep_tick-Sleepers asleep asleep_list asleep-Sleepers (omega arith, (omega arith, tt))

sleep_remove-Sleepers_example : Sleepers (sleep_remove asleep 5) (without 5 asleep_list)
sleep_remove-Sleepers_example = sleep_remove-Sleepers asleep 5 asleep_list asleep-Sleepers

pulse_take-inbox_example :
    (l : Kernel) × (pulse_take quiet 3 200 ≡ some l)
    × (l.memory 200 ≡ record { type = 2; len = 11; payload = 0; sender = 5 })
    × (inbox 3 l.pulses ≡ [])
    × ((other : ℕ) → other ≢ 3 → inbox other l.pulses ≡ inbox other quiet.pulses)
unfolding inbox
pulse_take-inbox_example = pulse_take-inbox quiet 3 200 old_pulse [] refl

pulse_take-empty_example : pulse_take quiet 7 200 ≡ none
unfolding inbox
pulse_take-empty_example = pulse_take-empty quiet 7 200 refl

-- Process 9 is a server, and process 5 waits in its queue.
abbrev busy : Kernel
busy =
    write (write quiet 9 (record (plain running) { msg_head = some 5; msg_tail = some 5 })) 5
      (record (plain wait_reply) { msg_dest = some 9; msg = ping })

busy-Senders : Senders busy 9 (5 ∷ [])
busy-Senders = record {
  chain = (refl, refl);
  tail = refl;
  distinct = (tt, tt);
  waiting = ((refl, refl), tt);
}

msg_send-Senders_example :
    (l : Kernel) × (msg_send busy (pos 9) (some ping) ≡ (true, l))
    × Senders l 9 (5 ∷ 3 ∷ [])
    × ((l.table 3).msg ≡ record ping { sender = 3 })
msg_send-Senders_example =
    msg_send-Senders busy 9 ping (5 ∷ []) (omega arith) (omega arith) (ground arith) refl
      busy-Senders (ground arith, tt)

-- The same with the server as the current process.
abbrev serving : Kernel
serving = record busy { current = 9 }

serving-Senders : Senders serving 9 (5 ∷ [])
serving-Senders = record {
  chain = (refl, refl);
  tail = refl;
  distinct = (tt, tt);
  waiting = ((refl, refl), tt);
}

msg_receive-Senders_example :
    (l : Kernel) × (msg_receive_tmo serving 200 0 ≡ (pos 5, l))
    × Senders l 9 []
    × (l.memory 200 ≡ ping)
    × ((l.table 9).msg_serving ≡ some 5)
    × ((y : ℕ) → (l.table y).state ≡ (serving.table y).state)
msg_receive-Senders_example = msg_receive-Senders serving 200 0 5 [] (ground arith) serving-Senders

-- Server 9 waits in receive, its message goes to address 200, and it waits for twenty ticks at most.
-- Process 5 sleeps for ten.
abbrev timed_server : Kernel
timed_server = write quiet 9 (record (plain wait_recv) { msg_out = some 200; recv_timed = true })

timed_server-Sleepers : Sleepers timed_server []
timed_server-Sleepers = record { wakes = refl; distinct = tt; slots = tt; small = tt }

abbrev waiting : Kernel
waiting = sleep_insert (sleep_insert timed_server 5 10) 9 20

abbrev waiting_list : List (ℕ × ℕ)
waiting_list = (5, 10) ∷ (9, 20) ∷ []

waiting-Sleepers : Sleepers waiting waiting_list
unfolding insert_wake
waiting-Sleepers =
    sleep_insert-Sleepers (sleep_insert timed_server 5 10) 9 20 ((5, 10) ∷ [])
      (sleep_insert-Sleepers timed_server 5 10 [] timed_server-Sleepers tt (omega arith)
        (omega arith))
      (ground arith, tt) (omega arith) (omega arith)

waiting-Queues : Queues waiting no_queues
unfolding sleep_insert
waiting-Queues p = record {
  chain = refl;
  tail = λ h. absurd (h refl);
  bit = refl;
  distinct = tt;
  own = tt;
}

msg_send-waiting_example :
    (l : Kernel) × (msg_send waiting (pos 9) (some ping) ≡ (true, l))
    × (l.memory 200 ≡ record ping { sender = 3 })
    × ((l.table 9).state ≡ ready)
    × ((l.table 9).a0 ≡ pos 3)
    × ((l.table 9).msg_serving ≡ some 3)
    × ((l.table 9).recv_timed ≡ false)
    × ((l.table 3).state ≡ wait_reply)
    × Queues l (put no_queues 16 (9 ∷ []))
    × Sleepers l (if (waiting.table 9).recv_timed then without 9 waiting_list else waiting_list)
unfolding sleep_insert
msg_send-waiting_example =
    msg_send-waiting waiting 9 200 ping no_queues waiting_list (omega arith) (omega arith)
      (ground arith) refl refl waiting-Queues tt waiting-Sleepers

msg_unlink_all-waits_example : waits_on (msg_unlink_all busy 9) 9 5 ≡ false
msg_unlink_all-waits_example = msg_unlink_all-waits busy 9 5 (omega arith) (omega arith)

arm_read-watch_example :
    watch 3 6 (arm_read quiet 6 8).1.arms
    ≡ (if 3 == 3 && 6 == 6 then some 8 else watch 3 6 quiet.arms)
unfolding arm_read find_arm find_free
arm_read-watch_example =
    arm_read-watch quiet 6 8 3 6 (omega arith) (omega arith) (ground arith) refl

reap-free_example : ((reap busy 9).table 9).state ≡ free
reap-free_example = reap-free busy 9

-- Processes 5 and 7 are ready, in this order.
abbrev two_wait : Kernel
two_wait = write (write quiet 5 (plain ready)) 7 (plain ready)

two_wait-Queues : Queues two_wait no_queues
two_wait-Queues p = record {
  chain = refl;
  tail = λ h. absurd (h refl);
  bit = refl;
  distinct = tt;
  own = tt;
}

abbrev in_line : Kernel
in_line = ready_enqueue (ready_enqueue two_wait 5) 7

abbrev line_queues : ℕ → List ℕ
line_queues = put (put no_queues 16 (5 ∷ [])) 16 (5 ∷ 7 ∷ [])

in_line_ready : (x : ℕ) → (in_line.table x).state ≡ ready → (x ≡ 5) ⊎ (x ≡ 7)
unfolding ready_enqueue
in_line_ready x e = elim (ℕ_discrete x 5) [
  | yes i ↦ inl i
  | no n ↦ elim (ℕ_discrete x 7) [ yes i ↦ inr i | no m ↦ cc (rw (==_ne x 5 n, ==_ne x 7 m) at e) ]
]

in_line-Runnable : Runnable in_line line_queues
unfolding ready_enqueue
in_line-Runnable = record {
  queues =
      ready_enqueue-Queues (ready_enqueue two_wait 5) 7 (put no_queues 16 (5 ∷ []))
        (ready_enqueue-Queues two_wait 5 no_queues two_wait-Queues tt) (ground arith, tt);
  members =
      λ r. elim (ℕ_discrete r 16) [ yes e ↦ rw e (refl, (refl, tt)) | no n ↦ rw (==_ne r 16 n) tt ];
  queued = λ x e. elim (in_line_ready x e) [ inl i ↦ rw i refl | inr i ↦ rw i refl ];
}

in_line-Sleepers : Sleepers in_line []
unfolding ready_enqueue
in_line-Sleepers = record { wakes = refl; distinct = tt; slots = tt; small = tt }

process_kill-gone_example :
    (l : Kernel) × (after : ℕ → List ℕ) × (process_kill in_line (pos 5) ≡ (pos 0, l))
    × ((l.table 5).state ≡ (if is_wait_reply (in_line.table 5).state then zombie else free))
    × Runnable l after
    × FewerSleepers l (without 5 [])
unfolding ready_enqueue
process_kill-gone_example =
    process_kill-gone in_line 5 1 line_queues [] (omega arith) (omega arith) refl refl
      in_line-Runnable (omega arith, (omega arith, tt)) in_line-Sleepers

-- Process 5 was killed while server 9 held its message.
abbrev haunted : Kernel
haunted = write busy 5 (record (busy.table 5) { state = zombie })

reap-leaves_zombie_example : ((reap haunted 9).table 5).state ≡ zombie
reap-leaves_zombie_example = reap-leaves_zombie haunted 9 5 (ground arith) refl

msg_reply_to-zombie_example :
    ((msg_reply_to haunted (pos 5) (pos 42)).0 ≡ pos 0)
    × (((msg_reply_to haunted (pos 5) (pos 42)).1.table 5).state ≡ free)
msg_reply_to-zombie_example =
    msg_reply_to-zombie haunted 5 (pos 42) (omega arith) (omega arith) refl

-- Process 3 runs and process 5 is ready.
abbrev one_ready : Kernel
one_ready = ready_enqueue quiet 5

abbrev one_queue : ℕ → List ℕ
one_queue = put no_queues 16 (5 ∷ [])

abbrev back_queue : ℕ → List ℕ
back_queue = put one_queue 16 (5 ∷ 3 ∷ [])

back_queue_above : (r : ℕ) → 16 < r → back_queue r ≡ []
back_queue_above r h = rw (==_ne r 16 (λ e. omega arith))

switch-runs_example :
    (l : Kernel) × (switch one_ready 900
      ≡ some (if 5 == 3 then 900 else (one_ready.table 5).saved_sp, l))
    × (l.current ≡ 5)
    × (l.calls ≡ one_ready.calls ++ set_stack_limit (one_ready.table 5).stack_limit ∷ [])
    × ((x : ℕ) → (l.table x).saved_sp ≡ (if x == 3 then 900 else (one_ready.table x).saved_sp))
    × ((x : ℕ)
        → (l.table x).state
          ≡ (if x == 5 then running else if x == 3 then ready else (one_ready.table x).state))
    × Queues l (put back_queue 16 (3 ∷ []))
unfolding ready_enqueue
switch-runs_example =
    switch-runs one_ready 900 one_queue 16 5 (3 ∷ [])
      (ready_enqueue-Queues quiet 5 no_queues quiet-Queues tt) refl (ground arith, tt) (omega arith)
      refl back_queue_above

abbrev asks : Pcb
asks = record (plain running) { intr_pulse = 4 }
