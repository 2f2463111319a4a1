-- ===== src/Sched/Pulse/Woken.antt =====
-- What `pulse_deliver` and the handing over of a message do to the lists of the scheduler: the
-- receiver leaves the sleep list and joins the ready queue.
use ubiqos.Common.{
  if◌then◌else◌, ==_refl, ==_ne, Bool-cases, All, put, ℕ, ◌≡◌, refl, sym, ap, ◌∙◌, subst, ◌≢◌, inl,
  inr, false, Option, none, List, [], ◌∷◌, ◌++◌, arith, ℕ_discrete,
}
use ubiqos.Common.Int.{ℤ}
use ubiqos.Sched.State.{Kernel, Msg, ProcState, ready}
use ubiqos.Sched.Ready.{ready_enqueue}
use ubiqos.Sched.Ready.Queues.{Queues}
use ubiqos.Sched.Ready.Fields.{enqueue_delta, enqueue_sleep_next, enqueue_sleep_head}
use ubiqos.Sched.Ready.Enqueue.{ready_enqueue-Queues}
use ubiqos.Sched.Ready.Held.{SameLinks, links-Queues, Held, woken-Held}
use ubiqos.Sched.Sleep.{sleep_remove}
use ubiqos.Sched.Sleep.Fields.{remove_awake, remove_rest}
use ubiqos.Sched.Sleep.Wakes.{Sleepers, same_Sleepers, without}
use ubiqos.Sched.Sleep.Remove.{sleep_remove-Sleepers}
use ubiqos.Sched.Pulse.{stop_timer, deliver, write_out}

pub remove-SameLinks : (k : Kernel) (d : ℕ) → SameLinks k (sleep_remove k d)
remove-SameLinks k d = record {
  heads = ap (λ m. m.ready_head) (remove_rest k d);
  tails = ap (λ m. m.ready_tail) (remove_rest k d);
  bits = ap (λ m. m.ready_bitmap) (remove_rest k d);
  links = λ x. ap (λ p. p.next_ready) (remove_awake k d x);
  levels = λ x. ap (λ p. p.priority) (remove_awake k d x);
}

module _ (k : Kernel) (d : ℕ) where
  pub timer_state : (x : ℕ) → ((stop_timer k d).table x).state ≡ (k.table x).state
  unfolding stop_timer
  timer_state x = elim (Bool-cases (k.table d).recv_timed) [
    | inl e ↦ rw e (elim (ℕ_discrete x d) [
      | yes i ↦ rw i (rw ==_refl (ap (λ p. p.state) (remove_awake k d d)))
      | no ne ↦ rw (==_ne x d ne) (ap (λ p. p.state) (remove_awake k d x))
    ])
    | inr e ↦ rw e
  ]

  -- The flag off, in the kernel without the sleeper.
  abbrev flag_off : Kernel → Kernel
  flag_off l = record l { table = put l.table d (record (l.table d) { recv_timed = false }) }

  timer-SameLinks : SameLinks k (stop_timer k d)
  unfolding stop_timer
  timer-SameLinks = elim (Bool-cases (k.table d).recv_timed) [
    | inl e ↦ rw e (off (sleep_remove k d) (remove-SameLinks k d))
    | inr e ↦
        rw e (record {
          heads = refl;
          tails = refl;
          bits = refl;
          links = λ x. refl;
          levels = λ x. refl;
        })
  ]
    where
      off : (l : Kernel) → SameLinks k l → SameLinks k (flag_off l)
      off l s = record {
        heads = s.heads;
        tails = s.tails;
        bits = s.bits;
        links = λ x. same_link l x ∙ s.links x;
        levels = λ x. same_level l x ∙ s.levels x;
      }
        where
          same_link :
              (l : Kernel) (x : ℕ) → ((flag_off l).table x).next_ready ≡ (l.table x).next_ready
          same_link l x = ground arith

          same_level : (l : Kernel) (x : ℕ) → ((flag_off l).table x).priority ≡ (l.table x).priority
          same_level l x = ground arith

  -- A receiver with a deadline leaves the sleep list.
  timer-Sleepers :
      (es : List (ℕ × ℕ))
      → Sleepers k es
      → Sleepers (stop_timer k d) (if (k.table d).recv_timed then without d es else es)
  unfolding stop_timer
  timer-Sleepers es v = elim (Bool-cases (k.table d).recv_timed) [
    | inl e ↦ rw e (
        same_Sleepers (sleep_remove k d) (flag_off (sleep_remove k d)) (without d es) refl
          (λ x. ground arith) (λ x. ground arith) (sleep_remove-Sleepers k d es v))
    | inr e ↦ rw e v
  ]

module _ (k : Kernel) (d : ℕ) (m : Msg) (a0 : ℤ) (serving : Option ℕ) where
  -- The receiver has its message, and is not yet in its queue.
  abbrev given : Kernel
  given =
      let k1 = stop_timer k d in
      let p = k1.table d in
      record k1 {
        memory = write_out k1.memory p.msg_out m;
        table =
            put k1.table d
              (record p { msg_out = none; msg_serving = serving; a0 = a0; state = ready });
      }

  deliver-given : deliver k d m a0 serving ≡ ready_enqueue given d
  unfolding deliver
  deliver-given = refl

  given-SameLinks : SameLinks k given
  given-SameLinks =
      let s = timer-SameLinks k d in
      record {
        heads = s.heads;
        tails = s.tails;
        bits = s.bits;
        links = λ x. same_link x ∙ s.links x;
        levels = λ x. same_level x ∙ s.levels x;
      }
    where
      same_link : (x : ℕ) → (given.table x).next_ready ≡ ((stop_timer k d).table x).next_ready
      same_link x = ground arith

      same_level : (x : ℕ) → (given.table x).priority ≡ ((stop_timer k d).table x).priority
      same_level x = ground arith

  pub deliver-Queues :
      (q : ℕ → List ℕ)
      → Queues k q
      → All (λ x. x ≢ d) (q (k.table d).priority)
      → let pr = (k.table d).priority in
        Queues (deliver k d m a0 serving) (put q pr (q pr ++ d ∷ []))
  deliver-Queues q v fresh =
      subst (λ pr. Queues (deliver k d m a0 serving) (put q pr (q pr ++ d ∷ []))) level
        (rw deliver-given (
          ready_enqueue-Queues given d q (links-Queues k given q given-SameLinks v)
            (subst (λ pr. All (λ x. x ≢ d) (q pr)) (sym level) fresh)))
    where
      level : (given.table d).priority ≡ (k.table d).priority
      level = given-SameLinks.levels d

  pub deliver-Sleepers :
      (es : List (ℕ × ℕ))
      → Sleepers k es
      → Sleepers (deliver k d m a0 serving) (if (k.table d).recv_timed then without d es else es)
  deliver-Sleepers es v = rw deliver-given (
      same_Sleepers given (ready_enqueue given d) rest (enqueue_sleep_head given d)
        (enqueue_delta given d) (enqueue_sleep_next given d)
        (same_Sleepers (stop_timer k d) given rest refl (λ x. ground arith) (λ x. ground arith)
          (timer-Sleepers k d es v)))
    where
      rest : List (ℕ × ℕ)
      rest = if (k.table d).recv_timed then without d es else es

  pub deliver-Held :
      (st : ProcState) (z : ℕ)
      → (k.table d).state ≢ ready
      → d ≢ z
      → Held st z k
      → Held st z (deliver k d m a0 serving)
  deliver-Held st z not_ready ne h = rw deliver-given (
      woken-Held k given st z d given-SameLinks (λ y n. (rw (==_ne y d n) refl) ∙ timer_state k d y)
        (rw ==_refl refl) not_ready ne h)
