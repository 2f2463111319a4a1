-- ===== src/Witnesses/Pipes.antt =====
-- Concrete states of kernel/io.c, and each theorem on it at one of them.
use mathlib.Core.Option.{some-injective}
use ubiqos.Common.{
  length, take, first_slot, ℕ, ◌<◌, min, ◌≡◌, refl, subst, ◌≢◌, ◌↔◌, ◌⊎◌, Bool, true, false, Option,
  none, some, List, [], ◌∷◌, ◌++◌, arith,
}
use ubiqos.Common.Int.{ℤ, pos, failed}
use ubiqos.Io.State.{Driver, Ring, Io, Pair, index_in, first_two, second_after, pair_with}
use ubiqos.Io.Open.{io_pipe, pipe_by, pipe_in}
use ubiqos.Io.Close.{io_close, io_close_all}
use ubiqos.Io.Rings.{pipe_used, ring_write, ring_read}
use ubiqos.Io.Rings.Fifo.{IsRing, waiting, taken, ring_write-waiting, ring_read-waiting}
use ubiqos.Io.Transfer.{
  PipeEnd, pipe_entry, path_at, pipe_of, io_write, io_read, io_readable, io_writable, io_at_eof,
}
use ubiqos.Io.Transfer.Ready.{readable-means, writable-means}
use ubiqos.Io.Transfer.Through.{Through, io_pipe-Through}
use ubiqos.Io.Register.{
  name_eq_ci, find_driver, start_driver, driver_from_module, driver_for, io_init,
}
use ubiqos.Io.Register.Once.{driver_for-again}
use ubiqos.Io.Counts.{Counted}
use ubiqos.Io.Counts.Empty.{IsEmpty, io_close_all-IsEmpty}
use ubiqos.Io.Counts.Reach.{World, pipe_step, close_step, stay, after, zeroed, reach-Counted}

-- After the start.
abbrev started : Io
started = io_init [] 0 zeroed

-- Process 1 has made a pipe.
abbrev piped : Io
piped = (io_pipe started (pos 1)).1

-- Its descriptors.
abbrev ends : Pair
ends = record { first = 0; second = 1 }

abbrev no_entry : ℕ → Option ℤ
no_entry driver = none

abbrev no_read : ℕ → Option (ℕ → ℤ × List ℕ)
no_read driver = none

abbrev no_write : ℕ → List ℕ → ℤ
no_write driver buf = failed

abbrev no_eof : ℕ → Option Bool
no_eof driver = none

abbrev outside : World
outside = record {
  has_open = λ d. false;
  open_ok = λ d. false;
  has_close = λ d. true;
  has_write = λ d. false;
  dev_write = no_write;
  dev_read = no_read;
  driver_module = λ name. none;
  starts = λ d. true;
  configure = λ d. none;
  told = λ pid. false;
  ended = λ pid. true;
}

abbrev two_bytes : List ℕ
two_bytes = 104 ∷ 105 ∷ []

reach-Counted_example : Counted (io_close (λ d. true) piped (pos 0) (pos 1)).1
reach-Counted_example = reach-Counted [] 0 _ (
    after started piped _ (after started started piped (stay started) (pipe_step started (pos 1)))
      (close_step outside piped (pos 0) (pos 1)))

piped-Counted : Counted piped
piped-Counted =
    reach-Counted [] 0 piped
      (after started started piped (stay started) (pipe_step started (pos 1)))

io_close_all-IsEmpty_example :
    ((fd : ℕ) → fd < 12 → IsEmpty ((io_close_all (λ d. true) piped (pos 1)).paths 1 fd))
    × ((i j : ℕ) → i ≢ 1 → (io_close_all (λ d. true) piped (pos 1)).paths i j ≡ piped.paths i j)
io_close_all-IsEmpty_example = io_close_all-IsEmpty (λ d. true) piped 1 (omega arith) piped-Counted

io_pipe-Through_example :
    Through no_entry no_entry no_read no_write no_eof piped ends (pos 1) two_bytes
unfolding io_pipe pipe_by pipe_in io_init first_two second_after pair_with first_slot index_in
io_pipe-Through_example =
    io_pipe-Through no_entry no_entry no_read no_write no_eof started (pos 1) ends piped two_bytes
      refl (omega arith)

-- Five bytes wait, from index 126 on, around the end.
abbrev around : Ring
around = record { buf = λ i. i; head = 3; tail = 126; readers = 1; writers = 1; foreground = none }

ring_write-waiting_example :
    ((ring_write around two_bytes).0 ≡ taken around 2)
    × (waiting (ring_write around two_bytes).1 ≡ waiting around ++ take (taken around 2) two_bytes)
    × IsRing (ring_write around two_bytes).1
ring_write-waiting_example = ring_write-waiting around two_bytes (omega arith, omega arith)

ring_read-waiting_example :
    ((ring_read 3 around).0 ++ waiting (ring_read 3 around).1 ≡ waiting around)
    × (length (ring_read 3 around).0 ≡ min 3 (pipe_used around))
    × IsRing (ring_read 3 around).1
ring_read-waiting_example = ring_read-waiting 3 around (omega arith, omega arith)

abbrev reader : PipeEnd
reader = record { ring = 0; back = none; write = false }

abbrev writer : PipeEnd
writer = record { ring = 0; back = none; write = true }

readable-means_example : (io_readable no_entry no_entry piped (pos 0) (pos 1) ≡ true) ↔ (
    ((io_read no_read piped (pos 0) 1 (pos 1)).1 ≢ [])
    ⊎ (io_at_eof no_eof piped (pos 0) (pos 1) ≡ true))
unfolding pipe_entry path_at pipe_of io_pipe pipe_by pipe_in io_init first_two second_after
    pair_with first_slot index_in
readable-means_example =
    readable-means no_entry no_entry no_read no_write no_eof piped (pos 0) (pos 1) reader 0 refl
      refl

writable-means_example :
    (io_writable no_entry no_entry piped (pos 1) (pos 1) ≡ true)
    ↔ ((io_write no_write piped (pos 1) two_bytes (pos 1)).0 ≢ pos 0)
unfolding pipe_entry path_at pipe_of io_pipe pipe_by pipe_in io_init first_two second_after
    pair_with first_slot index_in
writable-means_example =
    writable-means no_entry no_entry no_read no_write no_eof piped (pos 1) (pos 1) writer 104
      (105 ∷ []) refl refl

-- "adc"
abbrev adc : List ℕ
adc = 97 ∷ 100 ∷ 99 ∷ []

-- A directory that has the driver 7, and notes that it was asked.
abbrev link_adc : List ℕ → Bool → Option Driver × Bool
link_adc name s = (some (record { module_name = adc; number = 7 }), true)

abbrev always : ℕ → Bool
always d = true

abbrev no_configure : ℕ → Option (Option (List ℕ) → Bool)
no_configure d = none

abbrev with_adc : Io × Bool
with_adc = (driver_for link_adc always no_configure started false adc).1

driver_for-again_example :
    driver_for link_adc always no_configure with_adc.0 with_adc.1 adc ≡ (some 7, with_adc)
unfolding driver_for driver_from_module start_driver find_driver name_eq_ci io_init
driver_for-again_example =
    driver_for-again link_adc always no_configure started false adc 7 with_adc
      (λ d e.
        subst (λ x. name_eq_ci x.module_name adc ≡ true)
          (some-injective (record { module_name = adc; number = 7 }) d e) refl)
      refl
