-- ===== src/Io/State.antt =====
-- kernel/io.c: devices, the table of descriptors of each process, open files and the rings of pipes.
-- An index of -1 and a null pointer are `none`; a table is a function from its index. The drivers are
-- numbers, and what is called of them is recorded in `calls`, in order.
use ubiqos.Common.{
  ltb, if◌then◌else◌, has_some, get_or, put, first_slot, ℕ, suc, ◌-◌, Bool, not, ◌&&◌, Option, none,
  some, List, [],
}
use ubiqos.Common.Int.{ℤ, pos, negsuc}

-- UBIQOS_MAX_PROCS, and UBIQOS_MAX_PATHS and UBIQOS_MAX_OPEN_FILES on a board that names no others.
abbrev pub max_procs : ℕ
max_procs = 24

abbrev pub max_paths : ℕ
max_paths = 12

abbrev pub max_open_files : ℕ
max_open_files = 16

abbrev pub max_pipes : ℕ
max_pipes = 8

abbrev pub pipe_buf : ℕ
pipe_buf = 128

pub record Device : Type 0 where
  pub name : List ℕ
  pub driver : ℕ
  pub foreground : Option ℕ

-- One descriptor.
pub record PathEntry : Type 0 where
  pub device : Option ℕ
  pub file : Option ℕ
  pub pipe : Option ℕ
  pub pipe_back : Option ℕ
  pub pipe_write : Bool

pub record OpenFile : Type 0 where
  pub path : List ℕ
  pub pos_ : ℕ
  pub refs : ℕ

pub record Ring : Type 0 where
  pub buf : ℕ → ℕ
  pub head : ℕ
  pub tail : ℕ
  pub readers : ℕ
  pub writers : ℕ
  pub foreground : Option ℕ

-- A driver: its module's name and its number.
pub record Driver : Type 0 where
  pub module_name : List ℕ
  pub number : ℕ

-- A call of a driver.
pub data DriverCall : Type 0 where
  driver_open : ℕ → DriverCall
  driver_close : ℕ → DriverCall
  driver_write : ℕ → List ℕ → DriverCall
  driver_read : ℕ → ℕ → DriverCall

pub record Io : Type 0 where
  pub drivers : List Driver
  pub devices : List Device
  pub paths : ℕ → ℕ → PathEntry
  pub files : ℕ → OpenFile
  pub pipes : ℕ → Ring
  pub calls : List DriverCall

abbrev pub no_device : Device
no_device = record { name = []; driver = 0; foreground = none }

abbrev pub device_at : Io → ℕ → Device
device_at io d = get_or io.devices d no_device

-- paths[pid][fd] = p
abbrev pub put_path : (ℕ → ℕ → PathEntry) → ℕ → ℕ → PathEntry → ℕ → ℕ → PathEntry
put_path paths pid fd p = put paths pid (put (paths pid) fd p)

abbrev pub set_path : Io → ℕ → ℕ → PathEntry → Io
set_path io pid fd p = record io { paths = put_path io.paths pid fd p }

-- 0 <= n && n < max, of an int32_t.
unfoldable pub index_in : ℕ → ℤ → Option ℕ
index_in max (negsuc n) = none
index_in max (pos n) = if ltb n max then some n else none

-- A descriptor slot that nobody is using.
abbrev pub is_free : PathEntry → Bool
is_free p =
    not (has_some p.device)
    && not (has_some p.file)
    && not (has_some p.pipe)
    && not (has_some p.pipe_back)

pub record Pair : Type 0 where
  pub first : ℕ
  pub second : ℕ

unfoldable pub pair_with : ℕ → Option ℕ → Option Pair
pair_with a none = none
pair_with a (some b) = some (record { first = a; second = b })

unfoldable pub second_after : ℕ → (ℕ → Bool) → Option ℕ → Option Pair
unfolding pair_with first_slot
second_after n p none = none
second_after n p (some a) = pair_with a (first_slot (n - suc a) p (suc a))

-- The first two slots below `n` that pass the test.
unfoldable pub first_two : ℕ → (ℕ → Bool) → Option Pair
unfolding second_after
first_two n p = second_after n p (first_slot n p 0)
