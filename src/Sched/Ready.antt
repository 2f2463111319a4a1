-- ===== src/Sched/Ready.antt =====
-- kernel/scheduler.c: the ready queues. One list for each priority, linked through `next_ready`, and
-- a bitmap of the levels that are not empty. The loop of `ready_remove` runs on fuel, one round for
-- each slot of the process table: a queue has no more links than that.
pub mod Queues
pub mod Fields
pub mod Enqueue
pub mod Take
pub mod Remove
pub mod Held
pub mod Runnable
use ubiqos.Common.{
  ℕ, zero, suc, Bool, true, false, Option, none, some, put, if◌then◌else◌, ◌==◌, opt_eq,
  head_without, ◌&&◌,
}
use ubiqos.Sched.State.{Kernel, Pcb, prio_levels, max_processes}

abbrev pub Table : Type 0
Table = ℕ → Pcb

-- process_table[i].next_ready = v
abbrev pub set_next_ready : Table → ℕ → Option ℕ → Table
set_next_ready t i v = put t i (record (t i) { next_ready = v })

-- The last process of a level that is not empty is linked to the new one.
link_last : Table → Option ℕ → Option ℕ → ℕ → Table
link_last t none tail pid = t
link_last t (some h) none pid = t
link_last t (some h) (some last) pid = set_next_ready t last (some pid)

-- The head of a level that is not empty stays.
abbrev first_or : Option ℕ → ℕ → ℕ
first_or none pid = pid
first_or (some h) pid = h

unfoldable pub ready_enqueue : Kernel → ℕ → Kernel
unfolding link_last
ready_enqueue k pid =
    let p = (k.table pid).priority in
    record k {
      table = link_last (set_next_ready k.table pid none) (k.ready_head p) (k.ready_tail p) pid;
      ready_head = put k.ready_head p (some (first_or (k.ready_head p) pid));
      ready_tail = put k.ready_tail p (some pid);
      ready_bitmap = put k.ready_bitmap p true;
    }

-- What the removal of the process behind `prev` makes of the links and of the head.
cut_table : Table → Option ℕ → Option ℕ → Table
cut_table t none next = t
cut_table t (some q) next = set_next_ready t q next

abbrev pub is_some : Option ℕ → Bool
is_some none = false
is_some (some x) = true

-- A level that has a head keeps its bit.
abbrev pub keep_bit : (ℕ → Bool) → ℕ → Option ℕ → ℕ → Bool
keep_bit bits p head = put bits p (is_some head && bits p)

-- What the loop of `ready_remove` does when it has found the process.
ready_cut : Kernel → ℕ → ℕ → Option ℕ → Kernel
unfolding cut_table
ready_cut k p pid prev =
    let next = (k.table pid).next_ready in
    let head = head_without prev (k.ready_head p) next in
    record k {
      table = set_next_ready (cut_table k.table prev next) pid none;
      ready_head = put k.ready_head p head;
      ready_tail =
          put k.ready_tail p (if opt_eq (k.ready_tail p) pid then prev else k.ready_tail p);
      ready_bitmap = keep_bit k.ready_bitmap p head;
    }

ready_walk : ℕ → Kernel → ℕ → ℕ → Option ℕ → Option ℕ → Kernel
ready_walk zero k p pid prev cur = k
ready_walk (suc fuel) k p pid prev none = k
ready_walk (suc fuel) k p pid prev (some cur) =
    let rest = ready_walk fuel k p pid (some cur) (k.table cur).next_ready in
    if cur == pid then ready_cut k p pid prev else rest

unfoldable pub ready_remove : Kernel → ℕ → Kernel
unfolding ready_walk ready_cut
ready_remove k pid =
    let p = (k.table pid).priority in ready_walk max_processes k p pid none (k.ready_head p)

-- The highest bit that is set below `n`.
unfoldable pub highest : ℕ → (ℕ → Bool) → Option ℕ
highest zero bits = none
highest (suc n) bits = let rest = highest n bits in if bits n then some n else rest

unfoldable pub ready_take : Kernel → ℕ → ℕ → Kernel
ready_take k p pid =
    let head = (k.table pid).next_ready in
    record k {
      table = set_next_ready k.table pid none;
      ready_head = put k.ready_head p head;
      ready_bitmap = keep_bit k.ready_bitmap p head;
    }

-- `none` where the source would read through an empty bitmap or an empty head.
unfoldable pub ready_take_highest : Kernel → Option (ℕ × Kernel)
ready_take_highest k = elim (highest prio_levels k.ready_bitmap) [
  | none ↦ none
  | some p ↦ elim (k.ready_head p) [ none ↦ none | some pid ↦ some (pid, ready_take k p pid) ]
]
