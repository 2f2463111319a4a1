-- ===== src/Io/Close.antt =====
-- kernel/io.c: what lets a descriptor go, and what copies one: close, dup, inheriting, the end of a
-- process.

use ubiqos.Common.{
  ◌==◌, if◌then◌else◌, opt_eq, has_some, put, for_below, first_slot, ℕ, zero, suc, ◌+◌, ◌-◌, Bool,
  true, false, not, ◌&&◌, ◌||◌, Option, none, some, [], ◌∷◌, ◌++◌,
}
use ubiqos.Common.Int.{ℤ, pos, negsuc, failed}
use ubiqos.Io.State.{
  PathEntry, Io, driver_close, device_at, set_path, index_in, is_free, max_procs, max_paths,
}

abbrev pub fewer_refs : Io → ℕ → Io
fewer_refs io s = record io {
  files = put io.files s (record (io.files s) { refs = (io.files s).refs - 1 });
}

abbrev pub fewer_readers : Io → ℕ → Io
fewer_readers io q = record io {
  pipes = put io.pipes q (record (io.pipes q) { readers = (io.pipes q).readers - 1 });
}

abbrev pub fewer_writers : Io → ℕ → Io
fewer_writers io q = record io {
  pipes = put io.pipes q (record (io.pipes q) { writers = (io.pipes q).writers - 1 });
}

abbrev pub more_refs : Io → ℕ → Io
more_refs io s = record io {
  files = put io.files s (record (io.files s) { refs = (io.files s).refs + 1 });
}

abbrev pub more_readers : Io → ℕ → Io
more_readers io q = record io {
  pipes = put io.pipes q (record (io.pipes q) { readers = (io.pipes q).readers + 1 });
}

abbrev pub more_writers : Io → ℕ → Io
more_writers io q = record io {
  pipes = put io.pipes q (record (io.pipes q) { writers = (io.pipes q).writers + 1 });
}

unfoldable pub file_release_of : Io → ℕ → ℕ → Option ℕ → Io
file_release_of io pid fd none = io
file_release_of io pid fd (some s) =
    set_path (fewer_refs io s) pid fd (record (io.paths pid fd) { file = none })

unfoldable pub file_release : Io → ℕ → ℕ → Io
unfolding file_release_of
file_release io pid fd = file_release_of io pid fd (io.paths pid fd).file

-- By the ring it reads, the ring it writes when it is a two-way end, and the side of a one-way pipe.
unfoldable pub pipe_release_of : Io → ℕ → ℕ → Option ℕ → Option ℕ → Bool → Io
pipe_release_of io pid fd none back write = io
pipe_release_of io pid fd (some q) (some b) write =
    set_path (fewer_writers (fewer_readers io q) b) pid fd
      (record (io.paths pid fd) { pipe = none; pipe_back = none })
pipe_release_of io pid fd (some q) none true =
    set_path (fewer_writers io q) pid fd (record (io.paths pid fd) { pipe = none })
pipe_release_of io pid fd (some q) none false =
    set_path (fewer_readers io q) pid fd (record (io.paths pid fd) { pipe = none })

unfoldable pub pipe_release : Io → ℕ → ℕ → Io
unfolding pipe_release_of
pipe_release io pid fd =
    let p = io.paths pid fd in pipe_release_of io pid fd p.pipe p.pipe_back p.pipe_write

-- The counts of one more descriptor that holds what the given one does.
unfoldable pub share_file : Io → Option ℕ → Io
share_file io none = io
share_file io (some s) = more_refs io s

unfoldable pub share_pipe : Io → Option ℕ → Option ℕ → Bool → Io
share_pipe io none back write = io
share_pipe io (some q) (some b) write = more_writers (more_readers io q) b
share_pipe io (some q) none true = more_writers io q
share_pipe io (some q) none false = more_readers io q

unfoldable pub share : Io → PathEntry → Io
unfolding share_file share_pipe
share io p = share_pipe (share_file io p.file) p.pipe p.pipe_back p.pipe_write

-- One round of the loop of `ubiqos_io_inherit`, and of `ubiqos_io_dup`: the slot gets a copy.
unfoldable pub copy_path : Io → ℕ → ℕ → PathEntry → Io
unfolding share
copy_path io pid fd p = share (set_path io pid fd p) p

unfoldable pub inherit_between : Io → Option ℕ → Option ℕ → Io
unfolding copy_path
inherit_between io none child = io
inherit_between io (some parent) none = io
inherit_between io (some parent) (some child) =
    for_below max_paths (λ fd k. copy_path k child fd (k.paths parent fd)) io

unfoldable pub io_inherit : Io → ℤ → ℤ → Io
unfolding inherit_between
io_inherit io parent child =
    inherit_between io (index_in max_procs parent) (index_in max_procs child)

-- Whether another of the first `n` descriptors names the device.
unfoldable pub device_shared : ℕ → Io → ℕ → ℕ → ℕ → Bool
device_shared zero io pid fd d = false
device_shared (suc n) io pid fd d =
    let rest = device_shared n io pid fd d in
    (not (n == fd) && opt_eq (io.paths pid n).device d) || rest

abbrev pub names_something : PathEntry → Bool
names_something p = has_some p.device || has_some p.file || has_some p.pipe

module _ (has_close : ℕ → Bool) where
  -- The driver's close is optional.
  unfoldable pub call_close : Io → ℕ → Io
  call_close io d =
      let driver = (device_at io d).driver in
      if has_close driver then record io { calls = io.calls ++ driver_close driver ∷ [] } else io

  unfoldable pub close_device : Io → ℕ → ℕ → Option ℕ → ℤ × Io
  unfolding call_close device_shared
  close_device io pid fd none = (failed, io)
  close_device io pid fd (some d) =
      let called = if device_shared max_paths io pid fd d then io else call_close io d in
      (pos 0, set_path called pid fd (record (io.paths pid fd) { device = none }))

  -- A descriptor on a file, else one on a pipe, else one on a device.
  unfoldable pub close_at : Io → ℕ → ℕ → ℤ × Io
  unfolding close_device
  close_at io pid fd =
      let p = io.paths pid fd in
      if has_some p.file
      then (pos 0, file_release io pid fd)
      else if has_some p.pipe
      then (pos 0, pipe_release io pid fd)
      else close_device io pid fd p.device

  unfoldable pub close_by : Io → Option ℕ → Option ℕ → ℤ × Io
  unfolding close_at
  close_by io none fd = (failed, io)
  close_by io (some pid) none = (failed, io)
  close_by io (some pid) (some fd) = close_at io pid fd

  unfoldable pub io_close : Io → ℤ → ℤ → ℤ × Io
  unfolding close_by
  io_close io path owner = close_by io (index_in max_procs owner) (index_in max_paths path)

  -- The copy in its slot: `none` where there is no room.
  unfoldable pub dup_to : Io → ℕ → ℕ → Option ℕ → ℤ × Io
  unfolding copy_path
  dup_to io pid fd none = (failed, io)
  dup_to io pid fd (some new) = (pos new, copy_path io pid new (io.paths pid fd))

  -- dup2 closes what stood there first.
  unfoldable pub dup_over : Io → ℕ → ℕ → Option ℕ → ℤ × Io
  unfolding dup_to close_at
  dup_over io pid fd none = (failed, io)
  dup_over io pid fd (some new) =
      if new == fd then (pos fd, io) else dup_to (close_at io pid new).1 pid fd (some new)

  unfoldable pub dup_new : Io → ℕ → ℕ → ℤ → ℤ × Io
  unfolding dup_to dup_over
  dup_new io pid fd (negsuc n) =
      dup_to io pid fd (first_slot max_paths (λ i. is_free (io.paths pid i)) 0)
  dup_new io pid fd (pos n) = dup_over io pid fd (index_in max_paths (pos n))

  unfoldable pub dup_by : Io → Option ℕ → Option ℕ → ℤ → ℤ × Io
  unfolding dup_new
  dup_by io none fd new = (failed, io)
  dup_by io (some pid) none new = (failed, io)
  dup_by io (some pid) (some fd) new =
      let r = dup_new io pid fd new in if names_something (io.paths pid fd) then r else (failed, io)

  unfoldable pub io_dup : Io → ℤ → ℤ → ℤ → ℤ × Io
  unfolding dup_by
  io_dup io path new owner = dup_by io (index_in max_procs owner) (index_in max_paths path) new

  unfoldable pub drop_device : Io → ℕ → ℕ → Option ℕ → Io
  unfolding call_close
  drop_device io pid fd none = io
  drop_device io pid fd (some d) =
      set_path (call_close io d) pid fd (record (io.paths pid fd) { device = none })

  -- One round of `ubiqos_io_close_all`.
  unfoldable pub drop_path : ℕ → ℕ → Io → Io
  unfolding drop_device
  drop_path pid fd io =
      let k = pipe_release (file_release io pid fd) pid fd in
      drop_device k pid fd (k.paths pid fd).device

  unfoldable pub close_all_of : Io → Option ℕ → Io
  unfolding drop_path
  close_all_of io none = io
  close_all_of io (some pid) = for_below max_paths (drop_path pid) io

  unfoldable pub io_close_all : Io → ℤ → Io
  unfolding close_all_of
  io_close_all io owner = close_all_of io (index_in max_procs owner)
