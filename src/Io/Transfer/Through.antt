-- ===== src/Io/Transfer/Through.antt =====
-- kernel/io.c: what is written into a pipe that was made is what comes out of it.
use ubiqos.Common.{
  ◌==◌, if◌then◌else◌, lt→ltb, ==_refl, ==_ne, has_some, length, take, length-append, put, ℕ, suc,
  ◌+◌, ◌<◌, ◌≡◌, refl, sym, ap, ◌∙◌, subst, ◌≢◌, Bool, true, false, not, ◌&&◌, ◌||◌, Option, none,
  some, List, [], ◌∷◌, ◌++◌, append-nil, arith,
}
use mathlib.Core.Option.{some-injective}
use ubiqos.Common.Int.{ℤ, pos, failed}
use ubiqos.Io.State.{Io, Ring, Pair, index_in, max_procs, max_paths}
use ubiqos.Io.Open.{holds_none, fresh_ring, pipe_in, pipe_by, io_pipe}
use ubiqos.Io.Rings.{pipe_used, ring_write, ring_read}
use ubiqos.Io.Rings.Fifo.{
  bytes_from, waiting, waiting-length, taken, ring_write-waiting, ring_read-waiting,
}
use ubiqos.Io.Counts.Slots.{first_two-some}
use ubiqos.Io.Transfer.{
  PipeEnd, out_ring, pipe_of, path_at, pipe_entry, pipe_write, pipe_read, io_write, io_read,
}
use ubiqos.Io.Transfer.Ready.{read-pipe, write-pipe}

take-all : (bs : List ℕ) → take (length bs) bs ≡ bs
take-all [] = refl
take-all (b ∷ bs) = ap (◌∷◌ b) (take-all bs)

nothing_left : (xs ys bs : List ℕ) → xs ++ ys ≡ bs → length xs ≡ length bs → xs ≡ bs
nothing_left xs [] bs e k = sym (append-nil xs) ∙ e
nothing_left xs (y ∷ ys) bs e k = absurd (
    let n : length xs + suc (length ys) ≡ length bs =
      sym (length-append xs (y ∷ ys)) ∙ ap length e in
    omega (arith, n, k))

-- Through a ring that starts empty.
ring-through :
    (r : Ring) (bs : List ℕ)
    → length bs < 128
    → let w = ring_write (fresh_ring r) bs in (w.0 ≡ length bs) × ((ring_read 127 w.1).0 ≡ bs)
unfolding waiting bytes_from pipe_used
ring-through r bs lt =
    let (k, wait, ring) = ring_write-waiting (fresh_ring r) bs (omega arith, omega arith) in
    let all : taken (fresh_ring r) (length bs) ≡ length bs = omega (arith, lt) in
    let w = ring_write (fresh_ring r) bs in
    let full : waiting w.1 ≡ bs = wait ∙ rw (all, take-all bs) refl in
    let (out, count, ring2) = ring_read-waiting 127 w.1 ring in
    let used : pipe_used w.1 ≡ length bs = sym (waiting-length w.1) ∙ ap length full in
    (
      k ∙ all,
      nothing_left _ (waiting (ring_read 127 w.1).1) bs (out ∙ full)
          (count ∙ omega (arith, used, lt)),
    )

some_ne : {A : Type 0} {x : A} → none ≢ some x
some_ne e = cc

pipe_entry-at :
    (io : Io) (owner : ℤ) (pid fd : ℕ)
    → index_in max_procs owner ≡ some pid
    → fd < 12
    → pipe_entry io (pos fd) owner ≡ pipe_of (io.paths pid fd) (io.paths pid fd).pipe
unfolding pipe_entry path_at index_in
pipe_entry-at io owner pid fd e lt =
    by_index (index_in max_procs owner) (index_in max_paths (pos fd)) e (rw (lt→ltb fd 12 lt) refl)
  where
    by_index :
        (o p : Option ℕ)
        → o ≡ some pid
        → p ≡ some fd
        → (elim (path_at io o p) [ none ↦ none | some t ↦ pipe_of t t.pipe ])
          ≡ pipe_of (io.paths pid fd) (io.paths pid fd).pipe
    by_index none p eo ep = absurd (some_ne eo)
    by_index (some i) none eo ep = absurd (some_ne ep)
    by_index (some i) (some j) eo ep = rw (some-injective i pid eo, some-injective j fd ep) refl

one_way : ℕ → Bool → PipeEnd
one_way q side = record { ring = q; back = none; write = side }

pipe_write-paths : (k : Io) (e : PipeEnd) (buf : List ℕ) → (pipe_write k e buf).1.paths ≡ k.paths
unfolding pipe_write
pipe_write-paths k e buf =
    by_refusal ((not e.write && not (has_some e.back)) || (k.pipes (out_ring e)).readers == 0)
  where
    by_refusal :
        (c : Bool)
        → let w = ring_write (k.pipes (out_ring e)) buf in
          let r : ℤ × Io =
            if c
            then (failed, k)
            else (pos w.0, record k { pipes = put k.pipes (out_ring e) w.1 }) in
          r.1.paths ≡ k.paths
    by_refusal true = refl
    by_refusal false = refl

-- The state with the pipe in it.
made : Io → ℕ → ℕ → Pair → Io
made io pid q t = (pipe_in io pid (some q) (some t)).1

made_is :
    (io : Io) (pid q : ℕ) (t : Pair) → (some t, made io pid q t) ≡ pipe_in io pid (some q) (some t)
unfolding made pipe_in
made_is io pid q t = refl

module _ (dev_readable dev_writable : ℕ → Option ℤ) (dev_read : ℕ → Option (ℕ → ℤ × List ℕ))
    (dev_write : ℕ → List ℕ → ℤ) (dev_at_eof : ℕ → Option Bool) where
  -- What comes out at the first descriptor when the bytes go in at the second.
  pub Through : Io → Pair → ℤ → List ℕ → Type 0
  Through k fds owner bs =
      let w = io_write dev_write k (pos fds.second) bs owner in
      (w.0 ≡ pos (length bs)) × ((io_read dev_read w.1 (pos fds.first) 127 owner).1 ≡ bs)

  pipe_write-fresh :
      (k : Io) (q : ℕ) (r : Ring) (bs : List ℕ)
      → k.pipes q ≡ fresh_ring r
      → length bs < 128
      → let w = pipe_write k (one_way q true) bs in
        (w.0 ≡ pos (length bs)) × ((pipe_read w.1 (one_way q false) 127).1 ≡ bs)
  unfolding pipe_write pipe_read one_way
  pipe_write-fresh k q r bs e lt =
      let (n, out) = ring-through r bs lt in rw (e) (ap pos n, rw (==_refl q) out)

  ends-Through :
      (k : Io) (fds : Pair) (owner : ℤ) (pid q : ℕ) (r : Ring) (bs : List ℕ)
      → index_in max_procs owner ≡ some pid
      → fds.first < 12
      → fds.second < 12
      → pipe_of (k.paths pid fds.first) (k.paths pid fds.first).pipe ≡ some (one_way q false)
      → pipe_of (k.paths pid fds.second) (k.paths pid fds.second).pipe ≡ some (one_way q true)
      → k.pipes q ≡ fresh_ring r
      → length bs < 128
      → Through k fds owner bs
  unfolding Through pipe_write
  ends-Through k fds owner pid q r bs eo la lb ea eb eq lt =
      let w = pipe_write k (one_way q true) bs in
      let into : io_write dev_write k (pos fds.second) bs owner ≡ w =
        write-pipe dev_readable dev_writable dev_read dev_write dev_at_eof k (pos fds.second) owner
          (one_way q true) (pipe_entry-at k owner pid fds.second eo lb ∙ eb) bs in
      let out : io_read dev_read w.1 (pos fds.first) 127 owner
          ≡ pipe_read w.1 (one_way q false) 127 =
        read-pipe dev_readable dev_writable dev_read dev_write dev_at_eof w.1 (pos fds.first) owner
          (one_way q false) (pipe_entry-at w.1 owner pid fds.first eo la ∙ same) 127 in
      let (n, bytes) = pipe_write-fresh k q r bs eq lt in rw into (n, rw out bytes)
    where
      same :
          pipe_of
            ((pipe_write k (one_way q true) bs).1.paths pid fds.first)
            ((pipe_write k (one_way q true) bs).1.paths pid fds.first).pipe
          ≡ some (one_way q false)
      same =
          subst (λ p. pipe_of (p pid fds.first) (p pid fds.first).pipe ≡ some (one_way q false))
            (sym (pipe_write-paths k (one_way q true) bs)) ea

  made-Through :
      (io : Io) (pid q : ℕ) (t : Pair) (owner : ℤ) (bs : List ℕ)
      → index_in max_procs owner ≡ some pid
      → (t.first < t.second) × (t.second < 12)
      → length bs < 128
      → Through (made io pid q t) t owner bs
  unfolding made pipe_in pipe_of one_way
  made-Through io pid q t owner bs eo (lt, lb) ln =
      ends-Through (made io pid q t) t owner pid q (io.pipes q) bs eo (omega (arith, lt, lb)) lb
        (rw (==_refl pid, ==_ne t.first t.second (λ e. omega (arith, lt, e)), ==_refl t.first) refl)
        (rw (==_refl pid, ==_refl t.second) refl) (rw (==_refl q) refl) ln

  -- When a pipe was made, up to 127 bytes written to its second descriptor go in whole, and a read of
  -- its first then gives them, in order.
  pub io_pipe-Through :
      (io : Io) (owner : ℤ) (fds : Pair) (k : Io) (bs : List ℕ)
      → io_pipe io owner ≡ (some fds, k)
      → length bs < 128
      → Through k fds owner bs
  unfolding io_pipe pipe_by
  io_pipe-Through io owner fds k bs e lt = by_owner (index_in max_procs owner) refl e
    where
      by_parts :
          (pid : ℕ) (ring : Option ℕ) (found : Option Pair)
          → index_in max_procs owner ≡ some pid
          → ((t : Pair) → found ≡ some t → (t.first < t.second) × (t.second < 12))
          → pipe_in io pid ring found ≡ (some fds, k)
          → Through k fds owner bs
      by_parts pid none found eo lo h = absurd (some_ne (ap (λ r. r.0) h))
      by_parts pid (some q) none eo lo h = absurd (some_ne (ap (λ r. r.0) h))
      by_parts pid (some q) (some t) eo lo h =
          let te : t ≡ fds =
            some-injective _ _ (ap (λ r. r.0) (made_is io pid q t) ∙ ap (λ r. r.0) h) in
          let ke : made io pid q t ≡ k = ap (λ r. r.1) (made_is io pid q t) ∙ ap (λ r. r.1) h in
          subst (λ u. Through k u owner bs) te
            (subst (λ u. Through u t owner bs) ke
              (made-Through io pid q t owner bs eo (lo t refl) lt))

      by_owner :
          (o : Option ℕ)
          → index_in max_procs owner ≡ o
          → pipe_by io o ≡ (some fds, k)
          → Through k fds owner bs
      by_owner none eo h = absurd (some_ne (ap (λ r. r.0) h))
      by_owner (some pid) eo h =
          by_parts pid _ _ eo
            (λ t f.
              let (a, b, c, d) =
                first_two-some max_paths (λ fd. holds_none (io.paths pid fd)) t f in
              (a, b))
            h
