-- ===== src/Sched/Switch/Runs.antt =====
-- kernel/scheduler.c: which process runs after a switch.
use ubiqos.Common.{
  ◌==◌, if◌then◌else◌, ==_refl, ==_ne, Bool-cases, All, put, ℕ, ◌<◌, ◌≡◌, refl, sym, ap, ◌∙◌, subst,
  ◌≢◌, inl, inr, Option, none, some, List, [], ◌∷◌, ◌++◌, arith, ℕ_discrete,
}
use mathlib.Core.Option.{some-injective}
use ubiqos.Sched.State.{Kernel, running, ready, prio_levels, set_stack_limit}
use ubiqos.Sched.Ready.{ready_enqueue, ready_take_highest, ready_take, highest}
use ubiqos.Sched.Ready.Queues.{Queues, same_Queues}
use ubiqos.Sched.Ready.Fields.{unlinked, enqueue_unlinked, enqueue_calls}
use ubiqos.Sched.Ready.Enqueue.{ready_enqueue-Queues}
use ubiqos.Sched.Ready.Take.{ready_take_highest-Queues}
use ubiqos.Sched.Exit.{set_state}
use ubiqos.Sched.Switch.{save_sp, requeue, run, resume, switch}

-- The kernel with the running process back in its queue.
abbrev put_back : Kernel → ℕ → Kernel
put_back k sp = ready_enqueue (set_state (save_sp k sp) k.current ready) k.current

put_back-Queues :
    (k : Kernel) (sp : ℕ) (q : ℕ → List ℕ)
    → Queues k q
    → All (λ x. x ≢ k.current) (q (k.table k.current).priority)
    → let pr = (k.table k.current).priority in
      Queues (put_back k sp) (put q pr (q pr ++ k.current ∷ []))
put_back-Queues k sp q v fresh =
    subst (λ pr. Queues (put_back k sp) (put q pr (q pr ++ k.current ∷ []))) pe
      (ready_enqueue-Queues k2 k.current q
        (same_Queues k k2 q refl refl refl (λ x. ground arith) (λ x. ground arith) v)
        (subst (λ pr. All (λ x. x ≢ k.current) (q pr)) (sym pe) fresh))
  where
    k2 : Kernel
    k2 = set_state (save_sp k sp) k.current ready

    pe : (k2.table k.current).priority ≡ (k.table k.current).priority
    pe = ground arith

run-Queues : (l : Kernel) (next : ℕ) (q : ℕ → List ℕ) → Queues l q → Queues (run l next) q
run-Queues l next q v =
    same_Queues l (run l next) q refl refl refl (λ x. ground arith) (λ x. ground arith) v

switch_steps :
    (k : Kernel) (sp : ℕ)
    → (k.table k.current).state ≡ running
    → switch k sp ≡ resume (ready_take_highest (put_back k sp))
unfolding switch requeue
switch_steps k sp e =
    let s : ((save_sp k sp).table k.current).state ≡ running = rw ==_refl e in
    ap (λ s. resume (ready_take_highest (requeue (save_sp k sp) s))) s

resumed :
    (l : Kernel) (next : ℕ)
    → resume (some (next, l)) ≡ some (((run l next).table next).saved_sp, run l next)
unfolding resume
resumed l next = rw ==_refl refl

-- What a process is once the one that ran is put back and another is taken: links aside, only the
-- stack pointer and the state of the one that ran have changed.
unlinked-put_back :
    (k : Kernel) (sp x : ℕ)
    → unlinked ((put_back k sp).table x)
      ≡ unlinked (
          if x == k.current then record (k.table x) { saved_sp = sp; state = ready } else k.table x)
unlinked-put_back k sp x =
    enqueue_unlinked (set_state (save_sp k sp) k.current ready) k.current x
    ∙ elim (ℕ_discrete x k.current) [
      | yes e ↦ rw (e, ==_refl k.current) refl
      | no ne ↦ rw (==_ne x k.current ne) refl
    ]

module _ (k l : Kernel) (sp next : ℕ)
    (kept : (x : ℕ)
      → unlinked (l.table x)
        ≡ unlinked (
            if x == k.current
            then record (k.table x) { saved_sp = sp; state = ready }
            else k.table x)) where
  stored : (x : ℕ) → (l.table x).saved_sp ≡ (if x == k.current then sp else (k.table x).saved_sp)
  stored x =
      ap (λ p. p.saved_sp) (kept x)
      ∙ elim (Bool-cases (x == k.current)) [ inl e ↦ rw e refl | inr e ↦ rw e refl ]

  run_sp :
      (x : ℕ)
      → ((run l next).table x).saved_sp ≡ (if x == k.current then sp else (k.table x).saved_sp)
  run_sp x = same_sp ∙ stored x
    where
      same_sp : ((run l next).table x).saved_sp ≡ (l.table x).saved_sp
      same_sp = ground arith

  run_state :
      (x : ℕ)
      → ((run l next).table x).state
        ≡ (if x == next then running else if x == k.current then ready else (k.table x).state)
  run_state x = elim (Bool-cases (x == next)) [
    | inl e ↦ rw e refl
    | inr e ↦ rw e (
        ap (λ p. p.state) (kept x)
        ∙ elim (Bool-cases (x == k.current)) [ inl e ↦ rw e refl | inr e ↦ rw e refl ])
  ]

take_calls : (k l : Kernel) (next : ℕ) → ready_take_highest k ≡ some (next, l) → l.calls ≡ k.calls
unfolding ready_take_highest ready_take
take_calls k l next e = by_level (highest prio_levels k.ready_bitmap) e
  where
    by_head :
        (p : ℕ) (o : Option ℕ)
        → elim o as (λ _. Option (ℕ × Kernel)) [
          | none ↦ none
          | some pid ↦ some (pid, ready_take k p pid)
        ]
          ≡ some (next, l)
        → l.calls ≡ k.calls
    by_head p none h = cc
    by_head p (some pid) h =
        let g : (pid, ready_take k p pid) ≡ (next, l) = some-injective _ _ h in
        sym (ap (λ t. t.1.calls) g)

    by_level :
        (o : Option ℕ)
        → elim o as (λ _. Option (ℕ × Kernel)) [
          | none ↦ none
          | some p ↦ elim (k.ready_head p) as (λ _. Option (ℕ × Kernel)) [
            | none ↦ none
            | some pid ↦ some (pid, ready_take k p pid)
          ]
        ]
          ≡ some (next, l)
        → l.calls ≡ k.calls
    by_level none h = cc
    by_level (some p) h = by_head p (k.ready_head p) h

put_back_rest :
    (k : Kernel) (sp : ℕ)
    → ((put_back k sp).calls ≡ k.calls)
      × ((x : ℕ) → ((put_back k sp).table x).stack_limit ≡ (k.table x).stack_limit)
put_back_rest k sp = (
  enqueue_calls (set_state (save_sp k sp) k.current ready) k.current,
  λ x.
      ap (λ p. p.stack_limit) (unlinked-put_back k sp x)
      ∙ elim (Bool-cases (x == k.current)) [ inl e ↦ rw e refl | inr e ↦ rw e refl ],
)

-- A switch away from a process that still runs puts it at the end of the queue of its priority, and
-- then runs the first process of the highest level that has one, which leaves its queue. The stack
-- pointer given is stored for the process that ran and for no other; what is returned is the one
-- that the next process had stored, or the one given when it is the same process; and the
-- limit of the next process's stack is set. The next process
-- is running, the one that ran is ready if it is another, and the state of every other process is as
-- it was. `q` are the queues before, and every level above `p` is empty once the running process is
-- back.
pub switch-runs :
    (k : Kernel) (sp : ℕ) (q : ℕ → List ℕ) (p next : ℕ) (xs : List ℕ)
    → Queues k q
    → (k.table k.current).state ≡ running
    → All (λ x. x ≢ k.current) (q (k.table k.current).priority)
    → let pr = (k.table k.current).priority in
      let back = put q pr (q pr ++ k.current ∷ []) in
      p < 32
      → back p ≡ next ∷ xs
      → ((r : ℕ) → p < r → back r ≡ [])
      → (l : Kernel) × (switch k sp
          ≡ some (if next == k.current then sp else (k.table next).saved_sp, l))
        × (l.current ≡ next)
        × (l.calls ≡ k.calls ++ set_stack_limit (k.table next).stack_limit ∷ [])
        × ((x : ℕ) → (l.table x).saved_sp ≡ (if x == k.current then sp else (k.table x).saved_sp))
        × ((x : ℕ)
            → (l.table x).state ≡ (
                if x == next then running else if x == k.current then ready else (k.table x).state))
        × Queues l (put back p xs)
switch-runs k sp q p next xs v running_ fresh lt e above =
    let (l, taken, vl, same) =
      ready_take_highest-Queues (put_back k sp) _ p next xs (put_back-Queues k sp q v fresh) lt e
        above in
    let kept : (x : ℕ)
        → unlinked (l.table x)
          ≡ unlinked (
              if x == k.current
              then record (k.table x) { saved_sp = sp; state = ready }
              else k.table x) =
      λ x. same x ∙ unlinked-put_back k sp x in
    (
      run l next,
      switch_steps k sp running_
          ∙ ap resume taken
          ∙ resumed l next
          ∙ ap (λ s. some (s, run l next)) (run_sp k l sp next kept next),
      refl,
      ap (λ c. c ++ set_stack_limit (l.table next).stack_limit ∷ [])
            (take_calls (put_back k sp) l next taken ∙ (put_back_rest k sp).0)
          ∙ ap (λ n. k.calls ++ set_stack_limit n ∷ [])
              (ap (λ p. p.stack_limit) (same next) ∙ (put_back_rest k sp).1 next),
      run_sp k l sp next kept,
      run_state k l sp next kept,
      run-Queues l next _ vl,
    )
