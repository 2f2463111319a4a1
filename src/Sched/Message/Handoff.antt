-- ===== src/Sched/Message/Handoff.antt =====
-- A server that already waits gets a message at once, and its deadline is cancelled.
use ubiqos.Common.{
  if◌then◌else◌, ==_refl, ==_ne, Bool-cases, All, put, ℕ, ◌<◌, ◌≡◌, refl, sym, ap, ◌∙◌, subst, ◌≢◌,
  inl, inr, true, false, Option, none, some, List, [], ◌∷◌, ◌++◌, arith,
}
use ubiqos.Common.Int.{ℤ, pos}
use ubiqos.Sched.State.{Kernel, Msg, ProcState, ready, wait_recv, wait_reply, max_processes}
use ubiqos.Sched.Pulse.Laws.{slot_of-pos}
use ubiqos.Sched.Message.{offer, block, hand_or_queue, send_by, send_at, msg_send}
use ubiqos.Sched.Ready.Fields.{enqueue_unlinked, enqueue_state, enqueue_a0, enqueue_memory}
use ubiqos.Sched.Sleep.Fields.{remove_awake}
use ubiqos.Sched.Ready.Queues.{Queues, same_Queues}
use ubiqos.Sched.Sleep.Wakes.{Sleepers, same_Sleepers, without}
use ubiqos.Sched.Pulse.Woken.{timer_state, deliver-Queues, deliver-Sleepers}
use ubiqos.Sched.Pulse.{stop_timer, deliver, write_out}

-- What a delivery leaves, for a receiver with a place to put the message.
module _ (k : Kernel) (d : ℕ) where
  timer_msg_out : ((stop_timer k d).table d).msg_out ≡ (k.table d).msg_out
  unfolding stop_timer
  timer_msg_out = elim (Bool-cases (k.table d).recv_timed) [
    | inl e ↦ rw e (rw ==_refl (ap (λ p. p.msg_out) (remove_awake k d d)))
    | inr e ↦ rw e
  ]

  timer_off : ((stop_timer k d).table d).recv_timed ≡ false
  unfolding stop_timer
  timer_off = elim (Bool-cases (k.table d).recv_timed) [
    | inl e ↦ rw e (rw ==_refl)
    | inr e ↦ rw e e
  ]

module _ (k : Kernel) (d : ℕ) (m : Msg) (a0 : ℤ) (serving : Option ℕ) where
  delivered_state : ((deliver k d m a0 serving).table d).state ≡ ready
  unfolding deliver
  delivered_state = rw enqueue_state (rw ==_refl)

  delivered_a0 : ((deliver k d m a0 serving).table d).a0 ≡ a0
  unfolding deliver
  delivered_a0 = rw enqueue_a0 (rw ==_refl)

  delivered_rest :
      (((deliver k d m a0 serving).table d).msg_serving ≡ serving)
      × (((deliver k d m a0 serving).table d).msg_out ≡ none)
      × (((deliver k d m a0 serving).table d).recv_timed ≡ false)
  unfolding deliver
  delivered_rest = (
    ap (λ p. p.msg_serving) (enqueue_unlinked _ d d) ∙ rw ==_refl,
    ap (λ p. p.msg_out) (enqueue_unlinked _ d d) ∙ rw ==_refl,
    ap (λ p. p.recv_timed) (enqueue_unlinked _ d d) ∙ rw ==_refl (timer_off k d),
  )

  delivered_memory :
      (out : ℕ) → (k.table d).msg_out ≡ some out → (deliver k d m a0 serving).memory out ≡ m
  unfolding deliver
  delivered_memory out e =
      ap (λ f. f out) (enqueue_memory _ d)
      ∙ written (stop_timer k d).memory out _ (timer_msg_out k d ∙ e)
    where
      written : (f : ℕ → Msg) (out : ℕ) (o : Option ℕ) → o ≡ some out → write_out f o m out ≡ m
      written f out o e = rw (e, write_out) (rw ==_refl)

  pub delivered_other :
      (x : ℕ) → x ≢ d → ((deliver k d m a0 serving).table x).state ≡ (k.table x).state
  unfolding deliver
  delivered_other x ne = rw enqueue_state (rw (==_ne x d ne) (timer_state k d x))

-- The kernel after a send to a server that waits.
handed : Kernel → ℕ → Msg → Kernel
handed k d m =
    let k1 = offer k d m in
    block (deliver k1 d (k1.table k.current).msg (pos k.current) (some k.current)) k.current
      wait_reply

-- What the offer of a message changes.
module _ (k : Kernel) (d : ℕ) (m : Msg) where
  offer_keeps :
      (x : ℕ)
      → (((offer k d m).table x).state ≡ (k.table x).state)
        × (((offer k d m).table x).msg_out ≡ (k.table x).msg_out)
  offer_keeps x = (ground arith, ground arith)

  offer_msg : ((offer k d m).table k.current).msg ≡ record m { sender = k.current }
  offer_msg = rw ==_refl

send_waiting :
    (k : Kernel) (d : ℕ) (m : Msg) (s t : ProcState)
    → s ≡ wait_recv
    → t ≡ wait_recv
    → send_by k d m s ≡ (true, block (hand_or_queue (offer k d m) d t) k.current wait_reply)
    → send_by k d m s ≡ (true, handed k d m)
unfolding hand_or_queue handed
send_waiting k d m s t es et e =
    e ∙ ap (λ u. (true, block (hand_or_queue (offer k d m) d u) k.current wait_reply)) et

msg_send-handed :
    (k : Kernel) (d : ℕ) (m : Msg)
    → 0 < d
    → d < max_processes
    → (k.table d).state ≡ wait_recv
    → msg_send k (pos d) (some m) ≡ (true, handed k d m)
unfolding msg_send send_by
msg_send-handed k d m lo hi e =
    ap (λ s. send_at k s (some m)) (slot_of-pos d lo hi)
    ∙ send_waiting k d m (k.table d).state ((offer k d m).table d).state e
        ((offer_keeps k d m d).0 ∙ e) (by_state (k.table d).state e)
  where
    by_state :
        (s : ProcState)
        → s ≡ wait_recv
        → send_by k d m s ≡ (
          true,
          block (hand_or_queue (offer k d m) d ((offer k d m).table d).state) k.current wait_reply,
        )
    by_state s i = rw (i, send_by)

sender_waits : (k : Kernel) (d : ℕ) (m : Msg) → ((handed k d m).table k.current).state ≡ wait_reply
unfolding handed
sender_waits k d m = rw ==_refl

-- The lists of the scheduler after a send to a server that waits.
module _ (k : Kernel) (d : ℕ) (m : Msg) where
  handed-Queues :
      (q : ℕ → List ℕ)
      → Queues k q
      → All (λ x. x ≢ d) (q (k.table d).priority)
      → let pr = (k.table d).priority in Queues (handed k d m) (put q pr (q pr ++ d ∷ []))
  unfolding handed
  handed-Queues q v fresh =
      let pr : ℕ = (k.table d).priority in
      same_Queues given (handed k d m) (put q pr (q pr ++ d ∷ [])) refl refl refl
        (λ x. ground arith) (λ x. ground arith)
        (subst (λ p. Queues given (put q p (q p ++ d ∷ []))) level
          (deliver-Queues k1 d k2 (pos k.current) (some k.current) q
            (same_Queues k k1 q refl refl refl (λ x. ground arith) (λ x. ground arith) v)
            (subst (λ p. All (λ x. x ≢ d) (q p)) (sym level) fresh)))
    where
      k1 : Kernel
      k1 = offer k d m

      k2 : Msg
      k2 = (k1.table k.current).msg

      given : Kernel
      given = deliver k1 d k2 (pos k.current) (some k.current)

      level : (k1.table d).priority ≡ (k.table d).priority
      level = ground arith

  handed-Sleepers :
      (es : List (ℕ × ℕ))
      → Sleepers k es
      → Sleepers (handed k d m) (if (k.table d).recv_timed then without d es else es)
  unfolding handed
  handed-Sleepers es v =
      same_Sleepers given (handed k d m) (if (k.table d).recv_timed then without d es else es) refl
        (λ x. ground arith) (λ x. ground arith)
        (subst (λ b. Sleepers given (if b then without d es else es)) timed
          (deliver-Sleepers k1 d k2 (pos k.current) (some k.current) es
            (same_Sleepers k k1 es refl (λ x. ground arith) (λ x. ground arith) v)))
    where
      k1 : Kernel
      k1 = offer k d m

      k2 : Msg
      k2 = (k1.table k.current).msg

      given : Kernel
      given = deliver k1 d k2 (pos k.current) (some k.current)

      timed : (k1.table d).recv_timed ≡ (k.table d).recv_timed
      timed = ground arith

-- A send to a server that waits in receive hands the message over at once: it stands where the server
-- asked for it, with the sender's pid in it; the server is ready and last in the queue of its
-- priority, its receive returns the sender, and the sender is blocked until the reply. A deadline of
-- the server is off: it has left the sleep list, where all others keep their wake times; without a
-- deadline the list is as it was. `q` are the ready queues before, with the server not in its own,
-- and `es` the sleepers with their wake times.
pub msg_send-waiting :
    (k : Kernel) (d out : ℕ) (m : Msg) (q : ℕ → List ℕ) (es : List (ℕ × ℕ))
    → 0 < d
    → d < max_processes
    → d ≢ k.current
    → (k.table d).state ≡ wait_recv
    → (k.table d).msg_out ≡ some out
    → Queues k q
    → All (λ x. x ≢ d) (q (k.table d).priority)
    → Sleepers k es
    → let pr = (k.table d).priority in
      (l : Kernel) × (msg_send k (pos d) (some m) ≡ (true, l))
      × (l.memory out ≡ record m { sender = k.current })
      × ((l.table d).state ≡ ready)
      × ((l.table d).a0 ≡ pos k.current)
      × ((l.table d).msg_serving ≡ some k.current)
      × ((l.table d).recv_timed ≡ false)
      × ((l.table k.current).state ≡ wait_reply)
      × Queues l (put q pr (q pr ++ d ∷ []))
      × Sleepers l (if (k.table d).recv_timed then without d es else es)
unfolding handed
msg_send-waiting k d out m q es lo hi ne e eo v fresh w = (
  handed k d m,
  msg_send-handed k d m lo hi e,
  delivered_memory k1 d k2 a0 sv out ((offer_keeps k d m d).1 ∙ eo) ∙ offer_msg k d m,
  rw (==_ne d k.current ne) (delivered_state k1 d k2 a0 sv),
  rw (==_ne d k.current ne) (delivered_a0 k1 d k2 a0 sv),
  rw (==_ne d k.current ne) ((delivered_rest k1 d k2 a0 sv).0),
  rw (==_ne d k.current ne) ((delivered_rest k1 d k2 a0 sv).2),
  sender,
  handed-Queues k d m q v fresh,
  handed-Sleepers k d m es w,
)
  where
    k1 : Kernel
    k1 = offer k d m

    k2 : Msg
    k2 = (k1.table k.current).msg

    a0 : ℤ
    a0 = pos k.current

    sv : Option ℕ
    sv = some k.current

    sender : ((handed k d m).table k.current).state ≡ wait_reply
    sender = sender_waits k d m
