-- ===== src/Sched/Sleep/Fields.antt =====
-- Taking a process out of the sleep list, or putting it in, changes no field of any process but the
-- two of the list, and nothing else of the kernel but the list's head.
use ubiqos.Common.{◌==◌, Bool-cases, ℕ, zero, suc, ◌≡◌, refl, inl, inr, Option, none, some, arith}
use ubiqos.Sched.State.{Kernel, Pcb}
use ubiqos.Sched.Sleep.{
  sleep_walk, sleep_cut, sleep_remove, sleep_place, sleep_insert, sleep_find, Spot, max_processes,
}

-- A process but for its place in the sleep list.
abbrev pub awake : Pcb → Pcb
awake p = record p { sleep_delta = 0; sleep_next = none }

-- A kernel but for the table and the head of the sleep list.
abbrev pub same_rest : Kernel → Kernel → Kernel
same_rest l k = record l { table = k.table; sleep_head = none }

cut_awake :
    (k : Kernel) (cur : ℕ) (prev : Option ℕ) (x : ℕ)
    → awake ((sleep_cut k cur prev).table x) ≡ awake (k.table x)
unfolding sleep_cut
cut_awake k cur prev x = ground arith

cut_rest :
    (k : Kernel) (cur : ℕ) (prev : Option ℕ) → same_rest (sleep_cut k cur prev) k ≡ same_rest k k
unfolding sleep_cut
cut_rest k cur prev = refl

walk_keeps :
    (fuel : ℕ) (k : Kernel) (pid : ℕ) (prev cur : Option ℕ)
    → ((x : ℕ) → awake ((sleep_walk fuel k pid prev cur).table x) ≡ awake (k.table x))
      × (same_rest (sleep_walk fuel k pid prev cur) k ≡ same_rest k k)
unfolding sleep_walk
walk_keeps zero k pid prev cur = (λ x. refl, refl)
walk_keeps (suc fuel) k pid prev none = (λ x. refl, refl)
walk_keeps (suc fuel) k pid prev (some cur) = elim (Bool-cases (cur == pid)) [
  | inl e ↦ (λ x. rw e (cut_awake k pid prev x), rw e (cut_rest k pid prev))
  | inr e ↦
      let ih = walk_keeps fuel k pid (some cur) (k.table cur).sleep_next in
      (λ x. rw e (ih.0 x), rw e ih.1)
]

pub remove_awake :
    (k : Kernel) (pid x : ℕ) → awake ((sleep_remove k pid).table x) ≡ awake (k.table x)
unfolding sleep_remove
remove_awake k pid x = (walk_keeps max_processes k pid none k.sleep_head).0 x

pub remove_rest : (k : Kernel) (pid : ℕ) → same_rest (sleep_remove k pid) k ≡ same_rest k k
unfolding sleep_remove
remove_rest k pid = (walk_keeps max_processes k pid none k.sleep_head).1

pub insert_awake :
    (k : Kernel) (pid ticks x : ℕ) → awake ((sleep_insert k pid ticks).table x) ≡ awake (k.table x)
unfolding sleep_insert
insert_awake k pid ticks x =
    place_awake k pid (sleep_find max_processes k.table none k.sleep_head ticks) x
  where
    place_awake :
        (k : Kernel) (pid : ℕ) (s : Spot) (x : ℕ)
        → awake ((sleep_place k pid s).table x) ≡ awake (k.table x)
    place_awake k pid s x = unfold sleep_place in ground arith

pub insert_rest :
    (k : Kernel) (pid ticks : ℕ) → same_rest (sleep_insert k pid ticks) k ≡ same_rest k k
unfolding sleep_insert
insert_rest k pid ticks = refl
