-- ===== src/Sched/Exit/Zombies.antt =====
-- Replies, and the processes that were killed while a server held them.
use ubiqos.Common.{
  ==_refl, opt_eq, ℕ, ◌<◌, ◌≡◌, refl, sym, ap, ◌∙◌, subst, ◌≢◌, true, false, none, some, arith,
}
use ubiqos.Common.Int.{ℤ, pos, failed}
use ubiqos.Sched.State.{Kernel, free, ready, wait_reply, zombie, max_processes}
use ubiqos.Sched.Ready.Fields.{enqueue_a0, enqueue_msg_dest}
use ubiqos.Sched.Pulse.Laws.{slot_of-pos}
use ubiqos.Sched.Message.{release}
use ubiqos.Sched.Message.Unlink.{release_state, release_state_ne}
use ubiqos.Sched.Exit.{
  reap, reap_slot, stop_serving, clear_dest, reply_to_by, reply_to_at, msg_reply_to,
}
use ubiqos.Sched.Exit.Reap.{reap-free, slot_gone, family_gone}

-- A zombie survives the end of any other process, also of the server that held its message: nothing
-- that `reap` does for those who wait on the process takes a zombie apart.
pub reap-leaves_zombie :
    (k : Kernel) (pid z : ℕ)
    → z ≢ pid
    → (k.table z).state ≡ zombie
    → ((reap k pid).table z).state ≡ zombie
unfolding reap
reap-leaves_zombie k pid z ne h =
    family_gone zombie refl z (reap_slot k pid) pid (slot_gone zombie refl z k pid ne h)

released_a0 : (k : Kernel) (s : ℕ) (a0 : ℤ) → ((release k s a0).table s).a0 ≡ a0
unfolding release
released_a0 k s a0 = rw enqueue_a0 (rw ==_refl)

released_dest :
    (k : Kernel) (s : ℕ) (a0 : ℤ) → ((release (clear_dest k s) s a0).table s).msg_dest ≡ none
unfolding release
released_dest k s a0 = rw enqueue_msg_dest (ground arith)

clear_state :
    (k : Kernel) (pid x : ℕ)
    → ((clear_dest (stop_serving k pid) pid).table x).state ≡ (k.table x).state
clear_state k pid x = ground arith

-- An answer to a sender that waits for the process that gives it makes the sender ready, with the
-- answer as the result of its send, and leaves every other process in its state.
pub msg_reply_to-own :
    (k : Kernel) (pid : ℕ) (status : ℤ)
    → 0 < pid
    → pid < max_processes
    → (k.table pid).state ≡ wait_reply
    → (k.table pid).msg_dest ≡ some k.current
    → (l : Kernel) × (msg_reply_to k (pos pid) status ≡ (pos 0, l))
      × ((l.table pid).state ≡ ready)
      × ((l.table pid).a0 ≡ status)
      × ((l.table pid).msg_dest ≡ none)
      × ((x : ℕ) → x ≢ pid → (l.table x).state ≡ (k.table x).state)
unfolding msg_reply_to
msg_reply_to-own k pid status lo hi es ed = (
  release (clear_dest (stop_serving k pid) pid) pid status,
  ap (reply_to_at k status) (slot_of-pos pid lo hi) ∙ ap (reply_to_by k pid status) es ∙ own,
  release_state (clear_dest (stop_serving k pid) pid) pid status,
  released_a0 (clear_dest (stop_serving k pid) pid) pid status,
  released_dest (stop_serving k pid) pid status,
  λ x ne.
      release_state_ne (clear_dest (stop_serving k pid) pid) pid status x ne ∙ clear_state k pid x,
)
  where
    own :
        reply_to_by k pid status wait_reply
        ≡ (pos 0, release (clear_dest (stop_serving k pid) pid) pid status)
    own =
        let e : opt_eq (k.table pid).msg_dest k.current ≡ true = ground arith in rw (e, reply_to_by)

-- An answer to a sender that waits for another server is refused, and nothing changes.
pub msg_reply_to-other :
    (k : Kernel) (pid d : ℕ) (status : ℤ)
    → 0 < pid
    → pid < max_processes
    → (k.table pid).state ≡ wait_reply
    → (k.table pid).msg_dest ≡ some d
    → d ≢ k.current
    → msg_reply_to k (pos pid) status ≡ (failed, k)
unfolding msg_reply_to
msg_reply_to-other k pid d status lo hi es ed ne =
    ap (reply_to_at k status) (slot_of-pos pid lo hi) ∙ ap (reply_to_by k pid status) es ∙ refused
  where
    refused : reply_to_by k pid status wait_reply ≡ (failed, k)
    refused =
        let e : opt_eq (k.table pid).msg_dest k.current ≡ false = ground arith in
        rw (e, reply_to_by)

-- An answer to a zombie takes it apart and succeeds, whichever server gives it: the server that the
-- zombie's message went to is not asked for.
pub msg_reply_to-zombie :
    (k : Kernel) (pid : ℕ) (status : ℤ)
    → 0 < pid
    → pid < max_processes
    → (k.table pid).state ≡ zombie
    → ((msg_reply_to k (pos pid) status).0 ≡ pos 0)
      × (((msg_reply_to k (pos pid) status).1.table pid).state ≡ free)
unfolding msg_reply_to
msg_reply_to-zombie k pid status lo hi es =
    subst (λ r. (r.0 ≡ pos 0) × ((r.1.table pid).state ≡ free))
      (sym (ap (reply_to_at k status) (slot_of-pos pid lo hi) ∙ ap (reply_to_by k pid status) es))
      (refl, reap-free (stop_serving k pid) pid)
