-- ===== src/Sched/Cwd.antt =====
-- kernel/scheduler.c: the current directory of each process, a buffer of 64 characters. The buffers
-- are a function from the pid to the characters by their index; a path is the list of its characters
-- before the NUL.
pub mod Text
use ubiqos.Common.{
  ltb, leb, ◌==◌, if◌then◌else◌, is_nil, put, ℕ, zero, suc, ◌-◌, Bool, true, false, ◌||◌, List, [],
  ◌∷◌,
}
use ubiqos.Sched.State.{max_processes}

abbrev pub cwd_size : ℕ
cwd_size = 64

abbrev pub Buffer : Type 0
Buffer = ℕ → ℕ

-- The copying loop: at most up to index `max - 1`, from index `i`; what is left of the path, the
-- index reached and the buffer.
unfoldable pub copy_in : Buffer → ℕ → ℕ → List ℕ → List ℕ × (ℕ × Buffer)
copy_in dst i max [] = ([], (i, dst))
copy_in dst i max (c ∷ cs) =
    let rest = copy_in (put dst i c) (suc i) max cs in
    if ltb i (max - 1) then rest else (c ∷ cs, (i, dst))

unfoldable pub cwd_set : Buffer → List ℕ → Bool × Buffer
unfolding copy_in
cwd_set dst abs =
    let r = copy_in dst 0 cwd_size abs in
    if is_nil r.0 then (true, put r.1.1 r.1.0 0) else (false, r.1.1)

unfoldable pub cwd_set_of : (ℕ → Buffer) → ℕ → List ℕ → Bool × (ℕ → Buffer)
unfolding cwd_set
cwd_set_of cwds pid abs =
    let r = cwd_set (cwds pid) abs in
    if leb max_processes pid then (false, cwds) else (r.0, put cwds pid r.1)

-- The loop of `ubiqos_cwd_inherit` on the `n` indices from `i`.
unfoldable pub inherit_from : Buffer → Buffer → ℕ → ℕ → Buffer
inherit_from parent child i zero = put child i 0
inherit_from parent child i (suc n) =
    let rest = inherit_from parent (put child i (parent i)) (suc i) n in
    if parent i == 0 then put child i 0 else rest

unfoldable pub cwd_inherit : (ℕ → Buffer) → ℕ → ℕ → ℕ → Buffer
unfolding inherit_from
cwd_inherit cwds parent child =
    if leb max_processes parent || leb max_processes child
    then cwds
    else put cwds child (inherit_from (cwds parent) (cwds child) 0 (cwd_size - 1))
