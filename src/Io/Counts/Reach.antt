-- ===== src/Io/Counts/Reach.antt =====
-- kernel/io.c: every call that changes the I/O manager's state, as a step, and the states they reach.
use ubiqos.Common.{
  leb, if◌then◌else◌, length, take, ℕ, ◌<◌, refl, inl, Bool, true, false, Option, none, some, List,
  [], ◌∷◌, ◌++◌,
}
use ubiqos.Common.Int.{ℤ, pos}
use ubiqos.Io.State.{Driver, Io}
use ubiqos.Io.Open.{io_open, io_open_as, io_open_file, io_pipe, io_pipepair}
use ubiqos.Io.Close.{io_close, io_dup, io_inherit, io_close_all}
use ubiqos.Io.Transfer.{io_write, io_read}
use ubiqos.Io.Offset.{io_file_advance, io_file_seek}
use ubiqos.Io.Front.{io_set_foreground, io_interrupt, io_interrupt_path, io_hangup}
use ubiqos.Io.Register.{
  find_driver, Descriptor, start_driver, driver_from_module, driver_for, register,
  io_add_descriptor, io_init,
}
use ubiqos.Io.Counts.{Counted, same_counts, sum_below, holders, reads_of, writes_of}
use ubiqos.Io.Counts.Make.{IsVacant}
use ubiqos.Io.Counts.Steps.{
  io_open_file-Counted, io_open-Counted, io_pipe-Counted, io_pipepair-Counted, io_close-Counted,
}
use ubiqos.Io.Counts.Copy.{io_dup-Counted, io_inherit-Counted, io_open_as-Counted}
use ubiqos.Io.Counts.End.{io_close_all-Counted}
use ubiqos.Io.Counts.Traffic.{
  io_write-Counted, io_read-Counted, io_file_advance-Counted, io_file_seek-Counted,
  io_set_foreground-Counted,
}
use ubiqos.Io.Counts.Keys.{io_interrupt_path-Counted, io_interrupt-Counted, io_hangup-Counted}

-- What is not the I/O manager's: the drivers' entries and answers, and the scheduler's answers, to the
-- key (`told`) and to a kill (`ended`).
pub record World : Type 0 where
  pub has_open : ℕ → Bool
  pub open_ok : ℕ → Bool
  pub has_close : ℕ → Bool
  pub has_write : ℕ → Bool
  pub dev_write : ℕ → List ℕ → ℤ
  pub dev_read : ℕ → Option (ℕ → ℤ × List ℕ)
  pub driver_module : List ℕ → Option Driver
  pub starts : ℕ → Bool
  pub configure : ℕ → Option (Option (List ℕ) → Bool)
  pub told : ℕ → Bool
  pub ended : ℕ → Bool

abbrev pub linked : World → List ℕ → Bool → Option Driver × Bool
linked w name s = (w.driver_module name, s)

abbrev pub asked : World → ℕ → Bool → Bool × Bool
asked w victim s = (w.told victim, s)

-- A process that is ended lets its descriptors go.
unfoldable pub killed : World → ℕ → Io × Bool → Io × Bool
killed w victim (io, s) =
    if w.ended victim then (io_close_all w.has_close io (pos victim), s) else (io, s)

pub data IoStep : Io → Io → Type 0 where
  open_step :
      (w : World) (io : Io) (name : List ℕ) (owner : ℤ)
      → IoStep io (io_open w.has_open w.open_ok io name owner).1
  open_as_step :
      (w : World) (io : Io) (name : List ℕ) (owner path : ℤ)
      → IoStep io (io_open_as w.has_open w.open_ok io name owner path).1
  open_file_step :
      (io : Io) (path : Option (List ℕ)) (owner : ℤ) → IoStep io (io_open_file io path owner).1
  pipe_step : (io : Io) (owner : ℤ) → IoStep io (io_pipe io owner).1
  pipepair_step : (io : Io) (owner : ℤ) → IoStep io (io_pipepair io owner).1
  close_step :
      (w : World) (io : Io) (path owner : ℤ) → IoStep io (io_close w.has_close io path owner).1
  dup_step :
      (w : World) (io : Io) (path new owner : ℤ)
      → IoStep io (io_dup w.has_close io path new owner).1
  inherit_step :
      (io : Io) (parent : ℤ) (child : ℕ)
      → ((fd : ℕ) → fd < 12 → IsVacant (io.paths child fd))
      → IoStep io (io_inherit io parent (pos child))
  close_all_step : (w : World) (io : Io) (owner : ℤ) → IoStep io (io_close_all w.has_close io owner)
  write_step :
      (w : World) (io : Io) (path : ℤ) (buf : List ℕ) (owner : ℤ)
      → IoStep io (io_write w.dev_write io path buf owner).1
  read_step :
      (w : World) (io : Io) (path : ℤ) (len : ℕ) (owner : ℤ)
      → IoStep io (io_read w.dev_read io path len owner).2
  advance_step : (io : Io) (path owner : ℤ) (n : ℕ) → IoStep io (io_file_advance io path owner n)
  seek_step :
      (io : Io) (path owner offset : ℤ) (whence : ℕ)
      → IoStep io (io_file_seek io path owner offset whence).1
  foreground_step :
      (io : Io) (path pid owner : ℤ) → IoStep io (io_set_foreground io path pid owner).1
  key_step :
      (w : World) (io : Io) (name : List ℕ)
      → IoStep io (io_interrupt (asked w) (killed w) w.has_write io false name).1.0
  key_path_step :
      (w : World) (io : Io) (path owner : ℤ)
      → IoStep io (io_interrupt_path (asked w) (killed w) io false path owner).1.0
  hangup_step :
      (w : World) (io : Io) (path owner : ℤ)
      → IoStep io (io_hangup (asked w) (killed w) io false path owner).1.0
  register_step :
      (w : World) (io : Io) (desc : Descriptor)
      → IoStep io (io_add_descriptor (linked w) w.starts w.configure io false desc).1.0

-- Any number of steps.
pub data IoReach : Io → Io → Type 0 where
  stay : (io : Io) → IoReach io io
  after : (io k l : Io) → IoReach io k → IoStep k l → IoReach io l

killed-Counted :
    (w : World) (victim : ℕ) (z : Io × Bool) → Counted z.0 → Counted (killed w victim z).0
unfolding killed
killed-Counted w victim z v = by_end (w.ended victim)
  where
    by_end :
        (b : Bool)
        → let r : Io × Bool = if b then (io_close_all w.has_close z.0 (pos victim), z.1) else z in
          Counted r.0
    by_end true = io_close_all-Counted w.has_close z.0 (pos victim) v
    by_end false = v

driver_for-Counted :
    (w : World) (io : Io) (name : List ℕ)
    → Counted io
    → Counted (driver_for (linked w) w.starts w.configure io false name).1.0
unfolding driver_for driver_from_module start_driver
driver_for-Counted w io name v = by_known (find_driver io.drivers name)
  where
    by_start :
        (b : Bool) (d : Driver)
        → let r : Option ℕ × (Io × Bool) =
            if b
            then (some d.number, (record io { drivers = io.drivers ++ d ∷ [] }, false))
            else (none, (io, false)) in
          Counted r.1.0
    by_start true d = same_counts _ _ refl refl refl v
    by_start false d = v

    by_driver :
        (o : Option Driver) → Counted (start_driver (linked w) w.starts w.configure io false o).1.0
    by_driver none = v
    by_driver (some d) = by_start (w.starts d.number) d

    by_room :
        (b : Bool)
        → let r : Option ℕ × (Io × Bool) =
            if b
            then (none, (io, false))
            else start_driver (linked w) w.starts w.configure io false (w.driver_module name) in
          Counted r.1.0
    by_room true = v
    by_room false = by_driver (w.driver_module name)

    by_known :
        (o : Option ℕ)
        → let r : Option ℕ × (Io × Bool) = elim o [
          | none ↦ driver_from_module (linked w) w.starts w.configure io false name
          | some d ↦ (some d, (io, false))
        ] in
          Counted r.1.0
    by_known (some d) = v
    by_known none = by_room (leb 16 (length io.drivers))

register-Counted :
    (w : World) (io : Io) (desc : Descriptor) (d : Option ℕ)
    → Counted io
    → Counted (register (linked w) w.starts w.configure io desc d).1
unfolding register
register-Counted w io desc none v = v
register-Counted w io desc (some d) v = by_answer _
  where
    by_answer :
        (b : Bool)
        → let r : Bool × Io =
            if b
            then (
              true,
              record io {
                devices =
                    io.devices
                    ++ record { name = take 15 desc.device_name; driver = d; foreground = none }
                      ∷ [];
              },
            )
            else (false, io) in
          Counted r.1
    by_answer true = same_counts _ _ refl refl refl v
    by_answer false = v

io_add_descriptor-Counted :
    (w : World) (io : Io) (desc : Descriptor)
    → Counted io
    → Counted (io_add_descriptor (linked w) w.starts w.configure io false desc).1.0
unfolding io_add_descriptor
io_add_descriptor-Counted w io desc v = by_room (leb 16 (length io.devices))
  where
    by_room :
        (b : Bool)
        → let f = driver_for (linked w) w.starts w.configure io false desc.driver_name in
          let r = register (linked w) w.starts w.configure f.1.0 desc f.0 in
          let z : Bool × (Io × Bool) = if b then (false, (io, false)) else (r.0, (r.1, f.1.1)) in
          Counted z.1.0
    by_room true = v
    by_room false = register-Counted w _ desc _ (driver_for-Counted w io desc.driver_name v)

step-Counted : (io l : Io) → IoStep io l → Counted io → Counted l
step-Counted _ _ (open_step w io name owner) v =
    io_open-Counted w.has_open w.open_ok io name owner v
step-Counted _ _ (open_as_step w io name owner path) v =
    io_open_as-Counted w.has_open w.open_ok io name owner path v
step-Counted _ _ (open_file_step io path owner) v = io_open_file-Counted io path owner v
step-Counted _ _ (pipe_step io owner) v = io_pipe-Counted io owner v
step-Counted _ _ (pipepair_step io owner) v = io_pipepair-Counted io owner v
step-Counted _ _ (close_step w io path owner) v = io_close-Counted w.has_close io path owner v
step-Counted _ _ (dup_step w io path new owner) v = io_dup-Counted w.has_close io path new owner v
step-Counted _ _ (inherit_step io parent child vac) v = io_inherit-Counted io parent child vac v
step-Counted _ _ (close_all_step w io owner) v = io_close_all-Counted w.has_close io owner v
step-Counted _ _ (write_step w io path buf owner) v =
    io_write-Counted w.dev_write io path buf owner v
step-Counted _ _ (read_step w io path len owner) v = io_read-Counted w.dev_read io path len owner v
step-Counted _ _ (advance_step io path owner n) v = io_file_advance-Counted io path owner n v
step-Counted _ _ (seek_step io path owner offset whence) v =
    io_file_seek-Counted io path owner offset whence v
step-Counted _ _ (foreground_step io path pid owner) v =
    io_set_foreground-Counted io path pid owner v
step-Counted _ _ (key_step w io name) v =
    io_interrupt-Counted (asked w) (killed w) (killed-Counted w) w.has_write io false name v
step-Counted _ _ (key_path_step w io path owner) v =
    io_interrupt_path-Counted (asked w) (killed w) (killed-Counted w) io false path owner v
step-Counted _ _ (hangup_step w io path owner) v =
    io_hangup-Counted (asked w) (killed w) (killed-Counted w) io false path owner v
step-Counted _ _ (register_step w io desc) v = io_add_descriptor-Counted w io desc v

-- The memory before anything has run.
abbrev pub zeroed : Io
zeroed = record {
  drivers = [];
  devices = [];
  paths = λ pid fd. record {
    device = none;
    file = some 0;
    pipe = some 0;
    pipe_back = some 0;
    pipe_write = false;
  };
  files = λ s. record { path = []; pos_ = 0; refs = 0 };
  pipes =
      λ r. record { buf = λ i. 0; head = 0; tail = 0; readers = 0; writers = 0; foreground = none };
  calls = [];
}

init-Counted : (built_in : List Driver) (null : ℕ) → Counted (io_init built_in null zeroed)
unfolding io_init holders sum_below reads_of writes_of
init-Counted built_in null = record {
  refs = λ s. refl;
  readers = λ r. refl;
  writers = λ r. refl;
  single = λ i j. (inl refl, λ e. refl);
}

keep-Counted : (io l : Io) → IoReach io l → Counted io → Counted l
keep-Counted _ _ (stay io) v = v
keep-Counted _ _ (after io k l r s) v = step-Counted k l s (keep-Counted io k r v)

-- In every state that calls of the I/O manager reach from its start, the number of references of an
-- open file and the numbers of readers and of writers of a ring are the numbers of descriptors, of all
-- processes, that hold it; no descriptor is on a file and on a pipe at once, and none names a second
-- ring without a first. A process that inherits must hold no file and no pipe.
pub reach-Counted :
    (built_in : List Driver) (null : ℕ) (io : Io)
    → IoReach (io_init built_in null zeroed) io
    → Counted io
reach-Counted built_in null io r =
    keep-Counted (io_init built_in null zeroed) io r (init-Counted built_in null)
