-- ===== src/Sched/Arms.antt =====
-- kernel/scheduler.c: watches on descriptors, and the sweep of the timer tick that wakes blocked
-- readers and fires the watches. Whether a descriptor can be read or written is the I/O manager's
-- answer, a parameter of the sweep. The fixed array `arms` is a list; a slot is free when its pid is 0.
pub mod Watches
use ubiqos.Common.{
  ◌==◌, if◌then◌else◌, get_or, set, for_below, ℕ, zero, suc, ◌+◌, ◌-◌, Bool, true, false, ◌&&◌,
  Option, none, some, List, [], ◌∷◌,
}
use ubiqos.Common.Int.{ℤ, pos, failed}
use ubiqos.Sched.State.{
  Kernel, Pcb, Arm, Pulse, ProcState, free, ready, wait_read, wait_write, max_processes, max_arms,
  write,
}
use ubiqos.Sched.Ready.{ready_enqueue}
use ubiqos.Sched.Pulse.{pulse_deliver}

abbrev pub is_watch : ℕ → ℕ → Arm → Bool
is_watch pid path a = a.pid == pid && a.path == path

-- Where the loop of `ubiqos_arm_read` finds the watch of this process on this descriptor, and the
-- first free slot that it remembers.
unfoldable pub find_arm : ℕ → ℕ → List Arm → Option ℕ
find_arm pid path [] = none
find_arm pid path (a ∷ as') =
    if is_watch pid path a
    then some 0
    else elim (find_arm pid path as') [ none ↦ none | some i ↦ some (suc i) ]

unfoldable pub find_free : List Arm → Option ℕ
find_free [] = none
find_free (a ∷ as') =
    if a.pid == 0 then some 0 else elim (find_free as') [ none ↦ none | some i ↦ some (suc i) ]

-- arms[i].pid = 0
unfoldable pub disarm_at : List Arm → ℕ → List Arm
disarm_at [] i = []
disarm_at (a ∷ as') zero = record a { pid = 0 } ∷ as'
disarm_at (a ∷ as') (suc i) = a ∷ disarm_at as' i

-- arms[i].type = type
unfoldable pub retype_at : List Arm → ℕ → ℕ → List Arm
retype_at [] i type = []
retype_at (a ∷ as') zero type = record a { type = type } ∷ as'
retype_at (a ∷ as') (suc i) type = a ∷ retype_at as' i type

arm_new : Kernel → ℕ → ℕ → Option ℕ → ℤ × Kernel
arm_new k path type none = (failed, k)
arm_new k path type (some i) =
    (pos 0, record k { arms = set k.arms i (record { pid = k.current; path = path; type = type }) })

arm_at : Kernel → ℕ → ℕ → Option ℕ → ℤ × Kernel
unfolding arm_new
arm_at k path type (some i) =
    if type == 0
    then (pos 0, record k { arms = disarm_at k.arms i })
    else (pos 0, record k { arms = retype_at k.arms i type })
arm_at k path type none = if type == 0 then (pos 0, k) else arm_new k path type (find_free k.arms)

-- Type 0 cancels; arming a descriptor again replaces its watch.
unfoldable pub arm_read : Kernel → ℕ → ℕ → ℤ × Kernel
unfolding arm_at
arm_read k path type = arm_at k path type (find_arm k.current path k.arms)

-- Every watch of the process is dropped.
unfoldable pub drop_arms : ℕ → List Arm → List Arm
drop_arms pid [] = []
drop_arms pid (a ∷ as') = (if a.pid == pid then record a { pid = 0 } else a) ∷ drop_arms pid as'

abbrev pub count_arms : ℕ → List Arm → ℕ
count_arms pid [] = 0
count_arms pid (a ∷ as') = (if a.pid == pid then 1 else 0) + count_arms pid as'

-- A pulse for the process that a watch produced, which comes from pid 0.
abbrev is_fired : ℕ → Pulse → Bool
is_fired pid p = p.dest == pid && p.from == 0

unfoldable pub drop_fired : ℕ → List Pulse → List Pulse
drop_fired pid [] = []
drop_fired pid (p ∷ ps) = if is_fired pid p then drop_fired pid ps else p ∷ drop_fired pid ps

abbrev pub count_fired : ℕ → List Pulse → ℕ
count_fired pid [] = 0
count_fired pid (p ∷ ps) = (if is_fired pid p then 1 else 0) + count_fired pid ps

unfoldable pub disarm_reads : Kernel → ℕ × Kernel
unfolding drop_arms drop_fired
disarm_reads k = (
  count_arms k.current k.arms + count_fired k.current k.pulses,
  record k { arms = drop_arms k.current k.arms; pulses = drop_fired k.current k.pulses },
)

unfoldable pub arms_drop_for : Kernel → ℕ → Kernel
unfolding drop_arms
arms_drop_for k pid = record k { arms = drop_arms pid k.arms }

no_arm : Arm
no_arm = record { pid = 0; path = 0; type = 0 }

module _ (readable writable : ℕ → ℕ → Bool) where
  -- Whether the sweep makes process `i` ready.
  can_wake : Pcb → ℕ → ProcState → Bool
  can_wake p i wait_read = readable p.wait_path i
  can_wake p i wait_write = writable p.wait_path i
  can_wake p i _ = false

  wake_reader : ℕ → Kernel → Kernel
  unfolding can_wake
  wake_reader i k =
      let l = ready_enqueue (write k i (record (k.table i) { state = ready })) i in
      if can_wake (k.table i) i (k.table i).state then l else k

  abbrev is_free : ProcState → Bool
  is_free free = true
  is_free _ = false

  -- The watch of slot `i`: dropped when its process is gone, fired when its descriptor is readable.
  fire_arm : ℕ → Kernel → Kernel
  unfolding no_arm
  fire_arm i k =
      let a = get_or k.arms i no_arm in
      let dropped = record k { arms = disarm_at k.arms i } in
      let l = (pulse_deliver k (pos a.pid) 0 a.type a.path).1 in
      let fired = record l { arms = disarm_at l.arms i } in
      if a.pid == 0
      then k
      else if is_free (k.table a.pid).state
      then dropped
      else if readable a.path a.pid
      then fired
      else k

  pub wake_readers : Kernel → Kernel
  unfolding wake_reader fire_arm
  wake_readers k =
      for_below max_arms fire_arm (for_below (max_processes - 1) (λ i. wake_reader (suc i)) k)
