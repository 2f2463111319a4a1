-- ===== src/Io/Open.antt =====
-- kernel/io.c: what makes a descriptor: opening a device or a file, a pipe, a two-way pair.
use ubiqos.Common.{
  ◌==◌, if◌then◌else◌, has_some, take, put, first_slot, ℕ, suc, Bool, true, false, not, ◌&&◌, ◌||◌,
  Option, none, some, List, [], ◌∷◌, ◌++◌,
}
use ubiqos.Common.Int.{ℤ, pos, failed}
use ubiqos.Io.State.{
  Device, PathEntry, Ring, Io, driver_open, device_at, set_path, index_in, is_free, Pair, first_two,
  max_procs, max_paths, max_open_files, max_pipes,
}
use ubiqos.Files.{name_eq}

-- The device of a name, the first in the order of registration.
unfoldable pub find_device : List Device → List ℕ → Option ℕ
find_device [] name = none
find_device (d ∷ ds) name =
    if name_eq d.name name
    then some 0
    else elim (find_device ds name) [ none ↦ none | some i ↦ some (suc i) ]

abbrev pub holds_none : PathEntry → Bool
holds_none p = not (has_some p.device) && not (has_some p.file) && not (has_some p.pipe)

-- What is left of an unused slot's flag stays.
abbrev pub take_device : PathEntry → ℕ → PathEntry
take_device p d = record p { device = some d; file = none; pipe = none; pipe_back = none }

module _ (has_open open_ok : ℕ → Bool) where
  -- A driver that has no open cannot refuse.
  abbrev pub opens : ℕ → Bool
  opens driver = not (has_open driver) || open_ok driver

  unfoldable pub call_open : Io → ℕ → Io
  call_open io driver =
      if has_open driver then record io { calls = io.calls ++ driver_open driver ∷ [] } else io

  unfoldable pub open_slot : Io → ℕ → ℕ → Option ℕ → ℤ × Io
  open_slot io pid d none = (failed, io)
  open_slot io pid d (some fd) =
      let driver = (device_at io d).driver in
      let called = call_open io driver in
      if opens driver
      then (pos fd, set_path called pid fd (take_device (io.paths pid fd) d))
      else (failed, called)

  unfoldable pub open_device : Io → ℕ → Option ℕ → ℤ × Io
  unfolding open_slot
  open_device io pid none = (failed, io)
  open_device io pid (some d) =
      open_slot io pid d (first_slot max_paths (λ fd. holds_none (io.paths pid fd)) 0)

  unfoldable pub open_by : Io → List ℕ → Option ℕ → ℤ × Io
  unfolding open_device
  open_by io name none = (failed, io)
  open_by io name (some pid) = open_device io pid (find_device io.devices name)

  unfoldable pub io_open : Io → List ℕ → ℤ → ℤ × Io
  unfolding open_by find_device
  io_open io name owner = open_by io name (index_in max_procs owner)

  unfoldable pub open_as_at : Io → ℕ → ℕ → Option ℕ → ℤ × Io
  unfolding call_open
  open_as_at io pid fd none = (failed, io)
  open_as_at io pid fd (some d) =
      let driver = (device_at io d).driver in
      let called = call_open io driver in
      if opens driver
      then (pos fd, set_path called pid fd (record (io.paths pid fd) { device = some d }))
      else (failed, called)

  unfoldable pub open_as_by : Io → List ℕ → Option ℕ → Option ℕ → ℤ × Io
  unfolding open_as_at
  open_as_by io name none fd = (failed, io)
  open_as_by io name (some pid) none = (failed, io)
  open_as_by io name (some pid) (some fd) = open_as_at io pid fd (find_device io.devices name)

  unfoldable pub io_open_as : Io → List ℕ → ℤ → ℤ → ℤ × Io
  unfolding open_as_by find_device
  io_open_as io name owner path =
      open_as_by io name (index_in max_procs owner) (index_in max_paths path)

-- What fits of a path into its 64 characters.
abbrev pub file_name : List ℕ → List ℕ
file_name path = take 63 path

unfoldable pub file_in : Io → ℕ → List ℕ → Option ℕ → Option ℕ → ℤ × Io
file_in io pid path none fd = (failed, io)
file_in io pid path (some slot) none = (failed, io)
file_in io pid path (some slot) (some fd) = (
  pos fd,
  record (set_path io pid fd (record (io.paths pid fd) { file = some slot })) {
    files = put io.files slot (record { path = file_name path; pos_ = 0; refs = 1 });
  },
)

unfoldable pub file_by : Io → Option (List ℕ) → Option ℕ → ℤ × Io
unfolding file_in
file_by io path none = (failed, io)
file_by io none (some pid) = (failed, io)
file_by io (some path) (some pid) =
    file_in io pid path (first_slot max_open_files (λ i. (io.files i).refs == 0) 0)
      (first_slot max_paths (λ fd. is_free (io.paths pid fd)) 0)

-- `none` is a null path.
unfoldable pub io_open_file : Io → Option (List ℕ) → ℤ → ℤ × Io
unfolding file_by
io_open_file io path owner = file_by io path (index_in max_procs owner)

abbrev pub is_idle : Ring → Bool
is_idle r = r.readers == 0 && r.writers == 0

-- A ring that has one reader and one writer; its bytes are what was there before.
abbrev pub fresh_ring : Ring → Ring
fresh_ring r = record r { head = 0; tail = 0; readers = 1; writers = 1; foreground = none }

abbrev pub read_end : PathEntry → ℕ → PathEntry
read_end p q = record p { pipe = some q; pipe_back = none; pipe_write = false }

abbrev pub write_end : PathEntry → ℕ → PathEntry
write_end p q = record p { pipe = some q; pipe_back = none; pipe_write = true }

-- The two descriptors, or -1 as `none`.
unfoldable pub pipe_in : Io → ℕ → Option ℕ → Option Pair → Option Pair × Io
pipe_in io pid none fds = (none, io)
pipe_in io pid (some q) none = (none, io)
pipe_in io pid (some q) (some fds) =
    let k = set_path io pid fds.first (read_end (io.paths pid fds.first) q) in
    (
      some fds,
      record (set_path k pid fds.second (write_end (k.paths pid fds.second) q)) {
        pipes = put io.pipes q (fresh_ring (io.pipes q));
      },
    )

unfoldable pub pipe_by : Io → Option ℕ → Option Pair × Io
unfolding pipe_in
pipe_by io none = (none, io)
pipe_by io (some pid) =
    pipe_in io pid (first_slot max_pipes (λ i. is_idle (io.pipes i)) 0)
      (first_two max_paths (λ fd. holds_none (io.paths pid fd)))

unfoldable pub io_pipe : Io → ℤ → Option Pair × Io
unfolding pipe_by first_two
io_pipe io owner = pipe_by io (index_in max_procs owner)

abbrev pub crossed : PathEntry → ℕ → ℕ → PathEntry
crossed p reads writes = record p { pipe = some reads; pipe_back = some writes; pipe_write = false }

unfoldable pub pair_in : Io → ℕ → Option Pair → Option Pair → Option Pair × Io
pair_in io pid none fds = (none, io)
pair_in io pid (some q) none = (none, io)
pair_in io pid (some q) (some fds) =
    let k = set_path io pid fds.first (crossed (io.paths pid fds.first) q.first q.second) in
    (
      some fds,
      record (set_path k pid fds.second (crossed (k.paths pid fds.second) q.second q.first)) {
        pipes =
            put (put io.pipes q.first (fresh_ring (io.pipes q.first))) q.second
              (fresh_ring (io.pipes q.second));
      },
    )

unfoldable pub pair_by : Io → Option ℕ → Option Pair × Io
unfolding pair_in
pair_by io none = (none, io)
pair_by io (some pid) =
    pair_in io pid (first_two max_pipes (λ i. is_idle (io.pipes i)))
      (first_two max_paths (λ fd. is_free (io.paths pid fd)))

unfoldable pub io_pipepair : Io → ℤ → Option Pair × Io
unfolding pair_by first_two
io_pipepair io owner = pair_by io (index_in max_procs owner)
