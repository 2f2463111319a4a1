-- ===== src/Io/Counts/Steps.antt =====
-- kernel/io.c: every call of the I/O manager that makes, copies or drops descriptors, as a step; the
-- counts are right in every state that the steps reach.
use ubiqos.Common.{
  ◌==◌, if◌then◌else◌, ==_iff, has_some, first_slot, first_slot-some, ℕ, ◌<◌, ◌≡◌, refl, Bool, true,
  false, Option, none, some, List, [], ◌∷◌, ◌++◌, arith,
}
use ubiqos.Common.Int.{ℤ, pos}
use ubiqos.Io.State.{
  PathEntry, Io, Pair, set_path, device_at, index_in, is_free, first_two, max_procs, max_paths,
  max_open_files, max_pipes, driver_close,
}
use ubiqos.Io.Open.{
  holds_none, find_device, open_device, open_by, io_open, file_by, io_open_file, is_idle, pipe_by,
  io_pipe, pair_by, io_pipepair,
}
use ubiqos.Io.Close.{
  file_release, pipe_release, device_shared, call_close, close_device, close_at, close_by, io_close,
}
use ubiqos.Io.Counts.{same_counts, Counted, recount}
use ubiqos.Io.Counts.Slots.{first_two-some, index_in-some}
use ubiqos.Io.Counts.Release.{file_release-Counted, pipe_release-Counted}
use ubiqos.Io.Counts.Make.{
  IsVacant, holds_none-IsVacant, is_free-IsVacant, file_in-Counted, pipe_in-Counted,
  pair_in-Counted, open_slot-Counted,
}

-- A descriptor that changes in its device alone.
pub device-Counted :
    (io : Io) (pid fd : ℕ) (d : Option ℕ)
    → pid < 24
    → fd < 12
    → Counted io
    → Counted (set_path io pid fd (record (io.paths pid fd) { device = d }))
device-Counted io pid fd d lp lf v =
    recount io _ pid fd (record (io.paths pid fd) { device = d }) lp lf refl (λ s. refl) (λ r. refl)
      (λ r. refl) (v.single pid fd) v

pub free_fd :
    (io : Io) (pid : ℕ) (test : PathEntry → Bool)
    → ((p : PathEntry) → test p ≡ true → IsVacant p)
    → (i : ℕ) → first_slot max_paths (λ fd. test (io.paths pid fd)) 0 ≡ some i
    → (i < 12) × IsVacant (io.paths pid i)
free_fd io pid test vacant i e =
    let (lo, hi, t) = first_slot-some max_paths (λ fd. test (io.paths pid fd)) 0 i e in
    (omega (arith, hi), vacant (io.paths pid i) t)

two_fds :
    (io : Io) (pid : ℕ) (test : PathEntry → Bool)
    → ((p : PathEntry) → test p ≡ true → IsVacant p)
    → (t : Pair) → first_two max_paths (λ fd. test (io.paths pid fd)) ≡ some t
    → (t.first < t.second)
      × (t.second < 12)
      × IsVacant (io.paths pid t.first)
      × IsVacant (io.paths pid t.second)
two_fds io pid test vacant t e =
    let (lt, hi, a, b) = first_two-some max_paths (λ fd. test (io.paths pid fd)) t e in
    (lt, hi, vacant (io.paths pid t.first) a, vacant (io.paths pid t.second) b)

pub io_open_file-Counted :
    (io : Io) (path : Option (List ℕ)) (owner : ℤ)
    → Counted io
    → Counted (io_open_file io path owner).1
unfolding io_open_file file_by
io_open_file-Counted io path owner v = by_owner path (index_in max_procs owner) refl
  where
    by_owner :
        (path : Option (List ℕ)) (o : Option ℕ)
        → index_in max_procs owner ≡ o
        → Counted (file_by io path o).1
    by_owner path none e = v
    by_owner none (some pid) e = v
    by_owner (some path) (some pid) e =
        file_in-Counted io pid path _ _ (index_in-some max_procs owner pid e)
          (λ s k.
            (==_iff _ 0).0 (first_slot-some max_open_files (λ i. (io.files i).refs == 0) 0 s k).2)
          (free_fd io pid is_free is_free-IsVacant) v

pub io_open-Counted :
    (has_open open_ok : ℕ → Bool) (io : Io) (name : List ℕ) (owner : ℤ)
    → Counted io
    → Counted (io_open has_open open_ok io name owner).1
unfolding io_open open_by open_device
io_open-Counted has_open open_ok io name owner v = by_owner (index_in max_procs owner) refl
  where
    by_device :
        (pid : ℕ) (o : Option ℕ) → pid < 24 → Counted (open_device has_open open_ok io pid o).1
    by_device pid none lp = v
    by_device pid (some d) lp =
        open_slot-Counted has_open open_ok io pid d _ lp
          (free_fd io pid holds_none holds_none-IsVacant) v

    by_owner :
        (o : Option ℕ)
        → index_in max_procs owner ≡ o
        → Counted (open_by has_open open_ok io name o).1
    by_owner none e = v
    by_owner (some pid) e =
        by_device pid (find_device io.devices name) (index_in-some max_procs owner pid e)

pub io_pipe-Counted : (io : Io) (owner : ℤ) → Counted io → Counted (io_pipe io owner).1
unfolding io_pipe pipe_by
io_pipe-Counted io owner v = by_owner (index_in max_procs owner) refl
  where
    by_owner : (o : Option ℕ) → index_in max_procs owner ≡ o → Counted (pipe_by io o).1
    by_owner none e = v
    by_owner (some pid) e =
        pipe_in-Counted io pid _ _ (index_in-some max_procs owner pid e)
          (λ q k. (first_slot-some max_pipes (λ i. is_idle (io.pipes i)) 0 q k).2)
          (two_fds io pid holds_none holds_none-IsVacant) v

pub io_pipepair-Counted : (io : Io) (owner : ℤ) → Counted io → Counted (io_pipepair io owner).1
unfolding io_pipepair pair_by
io_pipepair-Counted io owner v = by_owner (index_in max_procs owner) refl
  where
    by_owner : (o : Option ℕ) → index_in max_procs owner ≡ o → Counted (pair_by io o).1
    by_owner none e = v
    by_owner (some pid) e =
        pair_in-Counted io pid _ _ (index_in-some max_procs owner pid e)
          (λ q k.
            let (lt, hi, a, b) = first_two-some max_pipes (λ i. is_idle (io.pipes i)) q k in
            (lt, a, b))
          (two_fds io pid is_free is_free-IsVacant) v

module _ (has_close : ℕ → Bool) where
  call_close-Counted : (io : Io) (d : ℕ) → Counted io → Counted (call_close has_close io d)
  unfolding call_close
  call_close-Counted io d v = by_close (has_close (device_at io d).driver)
    where
      by_close :
          (b : Bool)
          → Counted (
              if b
              then record io { calls = io.calls ++ driver_close (device_at io d).driver ∷ [] }
              else io)
      by_close true = same_counts io _ refl refl refl v
      by_close false = v

  close_device-Counted :
      (io : Io) (pid fd : ℕ) (d : Option ℕ)
      → pid < 24
      → fd < 12
      → Counted io
      → Counted (close_device has_close io pid fd d).1
  unfolding close_device call_close
  close_device-Counted io pid fd none lp lf v = v
  close_device-Counted io pid fd (some d) lp lf v =
      by_shared (device_shared max_paths io pid fd d) (has_close (device_at io d).driver)
    where
      cleared : PathEntry
      cleared = record (io.paths pid fd) { device = none }

      base : Counted (set_path io pid fd cleared)
      base = device-Counted io pid fd none lp lf v

      by_shared :
          (b c : Bool)
          → let called : Io =
              if b
              then io
              else (if c
                  then record io { calls = io.calls ++ driver_close (device_at io d).driver ∷ [] }
                  else io) in
            Counted (set_path called pid fd cleared)
      by_shared true c = base
      by_shared false true = same_counts _ _ refl refl refl base
      by_shared false false = base

  pub close_at-Counted :
      (io : Io) (pid fd : ℕ)
      → pid < 24
      → fd < 12
      → Counted io
      → Counted (close_at has_close io pid fd).1
  unfolding close_at
  close_at-Counted io pid fd lp lf v =
      by_kind (has_some (io.paths pid fd).file) (has_some (io.paths pid fd).pipe)
    where
      by_kind :
          (f q : Bool)
          → let r : ℤ × Io =
              if f
              then (pos 0, file_release io pid fd)
              else (if q
                  then (pos 0, pipe_release io pid fd)
                  else close_device has_close io pid fd (io.paths pid fd).device) in
            Counted r.1
      by_kind true q = file_release-Counted pid fd lp lf io v
      by_kind false true = pipe_release-Counted pid fd lp lf io v
      by_kind false false = close_device-Counted io pid fd (io.paths pid fd).device lp lf v

  pub io_close-Counted :
      (io : Io) (path owner : ℤ) → Counted io → Counted (io_close has_close io path owner).1
  unfolding io_close close_by
  io_close-Counted io path owner v =
      by_index (index_in max_procs owner) (index_in max_paths path) refl refl
    where
      by_index :
          (o p : Option ℕ)
          → index_in max_procs owner ≡ o
          → index_in max_paths path ≡ p
          → Counted (close_by has_close io o p).1
      by_index none p eo ep = v
      by_index (some pid) none eo ep = v
      by_index (some pid) (some fd) eo ep =
          close_at-Counted io pid fd (index_in-some max_procs owner pid eo)
            (index_in-some max_paths path fd ep) v
