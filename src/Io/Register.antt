-- ===== src/Io/Register.antt =====
-- kernel/io.c: the drivers that are linked in and the devices that descriptors register.
pub mod Once
use ubiqos.Common.{
  ltb, leb, ◌==◌, if◌then◌else◌, length, get_or, take, ℕ, zero, suc, ◌+◌, Bool, true, false, ◌&&◌,
  Option, none, some, List, [], ◌∷◌, ◌++◌,
}
use ubiqos.Io.State.{Driver, Device, Io, no_device, max_pipes}
use ubiqos.Io.Open.{find_device, is_idle}

-- UBIQOS_MAX_DEVICES
abbrev pub max_devices : ℕ
max_devices = 16

-- How many rings are spoken for.
unfoldable pub pipes_used : ℕ → Io → ℕ
pipes_used zero io = 0
pipes_used (suc n) io = pipes_used n io + (if is_idle (io.pipes n) then 0 else 1)

abbrev pub io_pipes_used : Io → ℕ
io_pipes_used io = pipes_used max_pipes io

abbrev pub lower : ℕ → ℕ
lower c = if leb 65 c && leb c 90 then c + 32 else c

-- The same letters, in either case.
unfoldable pub name_eq_ci : List ℕ → List ℕ → Bool
name_eq_ci [] [] = true
name_eq_ci [] (b ∷ bs) = false
name_eq_ci (a ∷ as_) [] = false
name_eq_ci (a ∷ as_) (b ∷ bs) = (lower a == lower b) && name_eq_ci as_ bs

unfoldable pub find_driver : List Driver → List ℕ → Option ℕ
unfolding name_eq_ci
find_driver [] name = none
find_driver (d ∷ ds) name =
    if name_eq_ci d.module_name name then some d.number else find_driver ds name

-- The part of a descriptor module that the I/O manager reads; the tail is for the driver.
pub record Descriptor : Type 0 where
  pub device_name : List ℕ
  pub driver_name : List ℕ
  pub tail_ : Option (List ℕ)

unfoldable pub io_device_count : Io → ℕ
io_device_count io = length io.devices

unfoldable pub io_device_nth : Io → ℕ → Option (List ℕ)
io_device_nth io i =
    if ltb i (length io.devices) then some (take 15 (get_or io.devices i no_device).name) else none

unfoldable pub io_has_device : Io → List ℕ → Bool
unfolding find_device
io_has_device io name = elim (find_device io.devices name) [ none ↦ false | some d ↦ true ]

-- UBIQOS_MAX_DRIVERS
abbrev pub max_drivers : ℕ
max_drivers = 16

-- `link` finds and links a driver of the module directory, whose state it changes; `starts` is what the
-- driver's init answers; `configure` is its own entry, where it has one, and says whether it took the
-- tail.
module _ {ℓ} {S : Type ℓ} (link : List ℕ → S → Option Driver × S) (starts : ℕ → Bool)
    (configure : ℕ → Option (Option (List ℕ) → Bool)) where
  unfoldable pub start_driver : Io → S → Option Driver → Option ℕ × (Io × S)
  start_driver io s none = (none, (io, s))
  start_driver io s (some d) =
      if starts d.number
      then (some d.number, (record io { drivers = io.drivers ++ d ∷ [] }, s))
      else (none, (io, s))

  -- A driver that was linked is remembered with those that are built in.
  unfoldable pub driver_from_module : Io → S → List ℕ → Option ℕ × (Io × S)
  unfolding start_driver
  driver_from_module io s name =
      let l = link name s in
      if leb max_drivers (length io.drivers) then (none, (io, s)) else start_driver io l.1 l.0

  -- A driver that is there comes before one of the module directory.
  unfoldable pub driver_for : Io → S → List ℕ → Option ℕ × (Io × S)
  unfolding find_driver driver_from_module
  driver_for io s name = elim (find_driver io.drivers name) [
    | none ↦ driver_from_module io s name
    | some d ↦ (some d, (io, s))
  ]

  unfoldable pub register : Io → Descriptor → Option ℕ → Bool × Io
  register io desc none = (false, io)
  register io desc (some driver) =
      let device : Device = record {
        name = take 15 desc.device_name;
        driver = driver;
        foreground = none;
      } in
      let accepted : Bool = elim (configure driver) [ none ↦ true | some f ↦ f desc.tail_ ] in
      if accepted then (true, record io { devices = io.devices ++ device ∷ [] }) else (false, io)

  unfoldable pub io_add_descriptor : Io → S → Descriptor → Bool × (Io × S)
  unfolding register driver_for
  io_add_descriptor io s desc =
      let f = driver_for io s desc.driver_name in
      let r = register f.1.0 desc f.0 in
      if leb max_devices (length io.devices) then (false, (io, s)) else (r.0, (r.1, f.1.1))

-- At the start: the drivers are those that are built in, every descriptor names nothing, and the one device is null.
unfoldable pub io_init : List Driver → ℕ → Io → Io
io_init built_in null_driver io = record io {
  drivers = built_in;
  devices =
      record { name = 110 ∷ 117 ∷ 108 ∷ 108 ∷ []; driver = null_driver; foreground = none } ∷ [];
  paths = λ pid fd. record (io.paths pid fd) {
    device = none;
    file = none;
    pipe = none;
    pipe_back = none;
  };
}
