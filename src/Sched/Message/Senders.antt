-- ===== src/Sched/Message/Senders.antt =====
-- The senders that wait for a server form a queue: a send puts its sender at the end, a receive takes
-- the first.
use ubiqos.Common.{
  ==_refl, last?, last?-snoc, All, All-append, All-map, All-and, Distinct, Distinct-snoc, last?-ne,
  last?-cons, Chain, Chain-cong, Chain-snoc, ℕ, ◌<◌, ◌≡◌, refl, sym, ap, ◌∙◌, ◌≢◌, true, Option,
  none, some, List, [], ◌∷◌, ◌++◌, arith,
}
use ubiqos.Common.Int.{pos}
use ubiqos.Sched.State.{Kernel, Msg, ProcState, free, wait_recv, wait_reply, max_processes}
use ubiqos.Sched.Pulse.Laws.{is_elsewhere, slot_of-pos}
use ubiqos.Sched.Message.{
  offer, queue_sender, hand_or_queue, block, send_by, send_at, msg_send, take_sender, receive_from,
  msg_receive_tmo,
}

abbrev pub msg_link : Kernel → ℕ → Option ℕ
msg_link k i = (k.table i).msg_next

-- The senders queued on a server, oldest first.
pub record Senders (k : Kernel) (d : ℕ) (xs : List ℕ) : Type 0 where
  pub chain : Chain (msg_link k) (k.table d).msg_head xs
  pub tail : (k.table d).msg_tail ≡ last? xs
  pub distinct : Distinct xs
  pub waiting : All (λ x. ((k.table x).state ≡ wait_reply) × ((k.table x).msg_dest ≡ some d)) xs

-- The kernel after a send that had to queue.
queued : Kernel → ℕ → Msg → Kernel
queued k d m =
    let k1 = offer k d m in
    block (record k1 { table = queue_sender k1.table k.current d (k1.table d).msg_tail }) k.current
      wait_reply

hand_elsewhere :
    (k : Kernel) (d : ℕ) (s : ProcState)
    → is_elsewhere s ≡ true
    → hand_or_queue k d s
      ≡ record k { table = queue_sender k.table k.current d (k.table d).msg_tail }
unfolding hand_or_queue
hand_elsewhere k d free e = cc
hand_elsewhere k d wait_recv e = cc
hand_elsewhere k d _ e = refl

send_elsewhere :
    (k : Kernel) (d : ℕ) (m : Msg) (s : ProcState)
    → is_elsewhere s ≡ true
    → send_by k d m s ≡ (
      true,
      block (hand_or_queue (offer k d m) d ((offer k d m).table d).state) k.current wait_reply,
    )
unfolding send_by
send_elsewhere k d m free e = cc
send_elsewhere k d m wait_recv e = cc
send_elsewhere k d m _ e = refl

offer_state :
    (k : Kernel) (d : ℕ) (m : Msg) (x : ℕ) → ((offer k d m).table x).state ≡ (k.table x).state
offer_state k d m x = ground arith

msg_send-queued :
    (k : Kernel) (d : ℕ) (m : Msg)
    → 0 < d
    → d < max_processes
    → is_elsewhere (k.table d).state ≡ true
    → msg_send k (pos d) (some m) ≡ (true, queued k d m)
unfolding msg_send queued
msg_send-queued k d m lo hi e =
    ap (λ s. send_at k s (some m)) (slot_of-pos d lo hi)
    ∙ send_elsewhere k d m (k.table d).state e
    ∙ ap (λ l. (true, block l k.current wait_reply))
        (hand_elsewhere (offer k d m) d _ (ap is_elsewhere (offer_state k d m d) ∙ e))

-- What a send that had to queue writes.
module _ (k : Kernel) (d : ℕ) (m : Msg) (ne : d ≢ k.current) where
  sender_entry :
      (((queued k d m).table k.current).state ≡ wait_reply)
      × (((queued k d m).table k.current).msg_dest ≡ some d)
      × (((queued k d m).table k.current).msg ≡ record m { sender = k.current })
  unfolding queued queue_sender
  sender_entry = (ground arith, ground arith, ground arith)

  others_keep :
      (x : ℕ)
      → x ≢ k.current
      → (((queued k d m).table x).state ≡ (k.table x).state)
        × (((queued k d m).table x).msg_dest ≡ (k.table x).msg_dest)
  unfolding queued queue_sender
  others_keep x nx = (ground arith, ground arith)

  new_tail : ((queued k d m).table d).msg_tail ≡ some k.current
  unfolding queued queue_sender
  new_tail = ground arith

  first_sender :
      (k.table d).msg_tail ≡ none
      → (((queued k d m).table d).msg_head ≡ some k.current)
        × (((queued k d m).table k.current).msg_next ≡ none)
  unfolding queued queue_sender
  first_sender e = (ground arith, ground arith)

  module _ (t : ℕ) (e : (k.table d).msg_tail ≡ some t) (nt : t ≢ k.current) where
    next_sender :
        (((queued k d m).table d).msg_head ≡ (k.table d).msg_head)
        × (((queued k d m).table k.current).msg_next ≡ none)
        × (((queued k d m).table t).msg_next ≡ some k.current)
    unfolding queued queue_sender
    next_sender = (ground arith, ground arith, ground arith)

    links_kept : (x : ℕ) → x ≢ k.current → x ≢ t → msg_link (queued k d m) x ≡ msg_link k x
    unfolding queued queue_sender
    links_kept x nx nt' = ground arith

queued-Chain :
    (k : Kernel) (d : ℕ) (m : Msg) (xs : List ℕ)
    → d ≢ k.current
    → Senders k d xs
    → All (λ x. x ≢ k.current) xs
    → Chain (msg_link (queued k d m)) ((queued k d m).table d).msg_head (xs ++ k.current ∷ [])
queued-Chain k d m [] ne v fresh = first_sender k d m ne v.tail
queued-Chain k d m (y ∷ ys) ne v fresh =
    let (t, e) = last?-cons y ys in
    let nt = last?-ne k.current t (y ∷ ys) fresh e in
    let (h, n, l) = next_sender k d m ne t (v.tail ∙ e) nt in
    rw h (
      Chain-snoc (msg_link k) (msg_link (queued k d m)) (k.table d).msg_head (y ∷ ys) k.current t
        v.chain v.distinct e (All-map _ _ (y ∷ ys) (λ x i j. i (sym j)) fresh) n l
        (links_kept k d m ne t (v.tail ∙ e) nt))

-- A send to a server that is busy succeeds: the sender blocks with its message, marked with its own
-- pid, at the end of the server's queue, and those before it keep their places.
pub msg_send-Senders :
    (k : Kernel) (d : ℕ) (m : Msg) (xs : List ℕ)
    → 0 < d
    → d < max_processes
    → d ≢ k.current
    → is_elsewhere (k.table d).state ≡ true
    → Senders k d xs
    → All (λ x. x ≢ k.current) xs
    → (l : Kernel) × (msg_send k (pos d) (some m) ≡ (true, l))
      × Senders l d (xs ++ k.current ∷ [])
      × ((l.table k.current).msg ≡ record m { sender = k.current })
msg_send-Senders k d m xs lo hi ne busy v fresh = (
  queued k d m,
  msg_send-queued k d m lo hi busy,
  record {
    chain = queued-Chain k d m xs ne v fresh;
    tail = new_tail k d m ne ∙ sym (last?-snoc xs k.current);
    distinct = Distinct-snoc xs k.current v.distinct (All-map _ _ xs (λ x i j. i (sym j)) fresh);
    waiting =
        All-append _ xs (k.current ∷ [])
          (All-map _ _ xs (λ x p. ((kept x p.1).0 ∙ p.0.0, (kept x p.1).1 ∙ p.0.1))
            (All-and _ _ xs v.waiting fresh))
          (((sender_entry k d m ne).0, (sender_entry k d m ne).1), tt);
  },
  (sender_entry k d m ne).2,
)
  where
    kept :
        (x : ℕ)
        → x ≢ k.current
        → (((queued k d m).table x).state ≡ (k.table x).state)
          × (((queued k d m).table x).msg_dest ≡ (k.table x).msg_dest)
    kept = others_keep k d m ne

module _ (k : Kernel) (out x : ℕ) (ne : x ≢ k.current) where
  taken_message : (take_sender k out x).memory out ≡ (k.table x).msg
  unfolding take_sender
  taken_message = rw ==_refl

  taken_head : ((take_sender k out x).table k.current).msg_head ≡ (k.table x).msg_next
  unfolding take_sender
  taken_head = ground arith

  taken_serving : ((take_sender k out x).table k.current).msg_serving ≡ some x
  unfolding take_sender
  taken_serving = ground arith

  taken_tail_none :
      (k.table x).msg_next ≡ none → ((take_sender k out x).table k.current).msg_tail ≡ none
  unfolding take_sender
  taken_tail_none e = ground arith

  taken_tail_some :
      (h : ℕ)
      → (k.table x).msg_next ≡ some h
      → ((take_sender k out x).table k.current).msg_tail ≡ (k.table k.current).msg_tail
  unfolding take_sender
  taken_tail_some h e = ground arith

  taken_keeps :
      (y : ℕ)
      → (((take_sender k out x).table y).state ≡ (k.table y).state)
        × (((take_sender k out x).table y).msg_dest ≡ (k.table y).msg_dest)
  unfolding take_sender
  taken_keeps y = (ground arith, ground arith)

  taken_link : (y : ℕ) → y ≢ x → msg_link (take_sender k out x) y ≡ msg_link k y
  unfolding take_sender
  taken_link y n = ground arith

taken_tail :
    (k : Kernel) (out x : ℕ) (xs : List ℕ)
    → x ≢ k.current
    → Senders k k.current (x ∷ xs)
    → ((take_sender k out x).table k.current).msg_tail ≡ last? xs
taken_tail k out x [] ne v = taken_tail_none k out x ne v.chain.1
taken_tail k out x (y ∷ ys) ne v = taken_tail_some k out x ne y v.chain.1.0 ∙ v.tail

-- A receive with senders waiting takes the one that has waited longest: it returns that sender's pid,
-- copies its message to the place asked for and notes whom the server serves; the others stay in
-- their order, and no process changes its state.
pub msg_receive-Senders :
    (k : Kernel) (out ms x : ℕ) (xs : List ℕ)
    → x ≢ k.current
    → Senders k k.current (x ∷ xs)
    → (l : Kernel) × (msg_receive_tmo k out ms ≡ (pos x, l))
      × Senders l k.current xs
      × (l.memory out ≡ (k.table x).msg)
      × ((l.table k.current).msg_serving ≡ some x)
      × ((y : ℕ) → (l.table y).state ≡ (k.table y).state)
unfolding msg_receive_tmo
msg_receive-Senders k out ms x xs ne v = (
  take_sender k out x,
  ap (receive_from k out ms) v.chain.0,
  record {
    chain = rw (taken_head k out x ne) (
        Chain-cong (msg_link k) (msg_link (take_sender k out x)) (k.table x).msg_next xs
          (All-map _ _ xs (λ y n. taken_link k out x ne y n) v.distinct.0) v.chain.1);
    tail = taken_tail k out x xs ne v;
    distinct = v.distinct.1;
    waiting =
        All-map _ _ xs
          (λ y p. ((taken_keeps k out x ne y).0 ∙ p.0, (taken_keeps k out x ne y).1 ∙ p.1))
          v.waiting.1;
  },
  taken_message k out x ne,
  taken_serving k out x ne,
  λ y. (taken_keeps k out x ne y).0,
)
