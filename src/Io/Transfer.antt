-- ===== src/Io/Transfer.antt =====
-- kernel/io.c: reading and writing through a descriptor, and asking whether it is ready. What a driver
-- answers is a parameter; an entry that a driver may leave out is `none`.
pub mod Ready
pub mod Through
use ubiqos.Common.{
  ltb, ◌==◌, if◌then◌else◌, has_some, length, put, ℕ, ◌+◌, ◌-◌, Bool, true, false, not, ◌&&◌, ◌||◌,
  Option, none, some, List, [], ◌∷◌, ◌++◌,
}
use ubiqos.Common.Int.{ℤ, pos, failed, negsuc}
use ubiqos.Io.State.{
  PathEntry, Ring, Io, driver_write, driver_read, device_at, index_in, max_procs, max_paths,
  pipe_buf,
}
use ubiqos.Io.Rings.{pipe_used, ring_write, ring_read}

-- A descriptor on a pipe: the ring it reads, the ring it writes when it is a two-way end, and the
-- side of a one-way pipe.
pub record PipeEnd : Type 0 where
  pub ring : ℕ
  pub back : Option ℕ
  pub write : Bool

unfoldable pub pipe_of : PathEntry → Option ℕ → Option PipeEnd
pipe_of p none = none
pipe_of p (some q) = some (record { ring = q; back = p.pipe_back; write = p.pipe_write })

unfoldable pub path_at : Io → Option ℕ → Option ℕ → Option PathEntry
path_at io none fd = none
path_at io (some pid) none = none
path_at io (some pid) (some fd) = some (io.paths pid fd)

-- The slot of a descriptor, where both numbers are in range.
abbrev pub slot_of : Io → ℤ → ℤ → Option PathEntry
slot_of io path owner = path_at io (index_in max_procs owner) (index_in max_paths path)

unfoldable pub pipe_entry : Io → ℤ → ℤ → Option PipeEnd
unfolding pipe_of path_at
pipe_entry io path owner = elim (slot_of io path owner) [ none ↦ none | some p ↦ pipe_of p p.pipe ]

unfoldable pub path_of : Io → ℤ → ℤ → Option ℕ
unfolding path_at
path_of io path owner = elim (slot_of io path owner) [ none ↦ none | some p ↦ p.device ]

unfoldable pub file_entry : Io → ℤ → ℤ → Option ℕ
unfolding path_at
file_entry io path owner = elim (slot_of io path owner) [ none ↦ none | some p ↦ p.file ]

abbrev pub write_only : PipeEnd → Bool
write_only e = e.write && not (has_some e.back)

-- The ring that is written: the second of a two-way end.
abbrev pub out_ring : PipeEnd → ℕ
out_ring e = elim e.back [ none ↦ e.ring | some b ↦ b ]

unfoldable pub pipe_write : Io → PipeEnd → List ℕ → ℤ × Io
unfolding ring_write
pipe_write io e buf =
    let r = out_ring e in
    let w = ring_write (io.pipes r) buf in
    if (not e.write && not (has_some e.back)) || (io.pipes r).readers == 0
    then (failed, io)
    else (pos w.0, record io { pipes = put io.pipes r w.1 })

unfoldable pub pipe_read : Io → PipeEnd → ℕ → ℤ × List ℕ × Io
unfolding ring_read
pipe_read io e len =
    let w = ring_read len (io.pipes e.ring) in
    if write_only e
    then (failed, [], io)
    else (pos (length w.0), w.0, record io { pipes = put io.pipes e.ring w.1 })

unfoldable pub pipe_ready : Io → PipeEnd → ℤ
unfolding pipe_used
pipe_ready io e =
    let r = io.pipes e.ring in
    if write_only e then pos 0 else pos (pipe_used r + (if r.writers == 0 then 1 else 0))

unfoldable pub pipe_writable : Io → PipeEnd → Bool
unfolding pipe_used
pipe_writable io e =
    let r = io.pipes (out_ring e) in
    (e.write || has_some e.back) && (ltb (pipe_used r) (pipe_buf - 1) || r.readers == 0)

unfoldable pub pipe_ended : Io → PipeEnd → Bool
unfolding pipe_used
pipe_ended io e = let r = io.pipes e.ring in not e.write && pipe_used r == 0 && r.writers == 0

module _ (dev_write : ℕ → List ℕ → ℤ) where
  unfoldable pub device_write : Io → Option ℕ → List ℕ → ℤ × Io
  device_write io none buf = (failed, io)
  device_write io (some d) buf =
      let driver = (device_at io d).driver in
      (dev_write driver buf, record io { calls = io.calls ++ driver_write driver buf ∷ [] })

  unfoldable pub io_write : Io → ℤ → List ℕ → ℤ → ℤ × Io
  unfolding device_write pipe_write pipe_entry path_of
  io_write io path buf owner = elim (pipe_entry io path owner) [
    | some e ↦ pipe_write io e buf
    | none ↦ device_write io (path_of io path owner) buf
  ]

unfoldable pub driver_reads : Io → ℕ → ℕ → Option (ℕ → ℤ × List ℕ) → ℤ × List ℕ × Io
driver_reads io driver len none = (failed, [], io)
driver_reads io driver len (some read) =
    let r = read len in (r.0, r.1, record io { calls = io.calls ++ driver_read driver len ∷ [] })

module _ (dev_read : ℕ → Option (ℕ → ℤ × List ℕ)) where
  unfoldable pub device_read : Io → Option ℕ → ℕ → ℤ × List ℕ × Io
  unfolding driver_reads
  device_read io none len = (failed, [], io)
  device_read io (some d) len =
      let driver = (device_at io d).driver in driver_reads io driver len (dev_read driver)

  unfoldable pub io_read : Io → ℤ → ℕ → ℤ → ℤ × List ℕ × Io
  unfolding device_read pipe_read pipe_entry path_of
  io_read io path len owner = elim (pipe_entry io path owner) [
    | some e ↦ pipe_read io e len
    | none ↦ device_read io (path_of io path owner) len
  ]

abbrev pub positive : ℤ → Bool
positive z = elim z [ pos n ↦ not (n == 0) | negsuc n ↦ false ]

module _ (dev_readable dev_writable : ℕ → Option ℤ) where
  unfoldable pub io_readable_count : Io → ℤ → ℤ → ℤ
  unfolding pipe_ready pipe_entry path_of
  io_readable_count io path owner = elim (pipe_entry io path owner) [
    | some e ↦ pipe_ready io e
    | none ↦ elim (path_of io path owner) [
      | none ↦ failed
      | some d ↦ elim (dev_readable (device_at io d).driver) [ none ↦ pos 0 | some n ↦ n ]
    ]
  ]

  unfoldable pub io_readable : Io → ℤ → ℤ → Bool
  unfolding io_readable_count
  io_readable io path owner = positive (io_readable_count io path owner)

  unfoldable pub io_writable : Io → ℤ → ℤ → Bool
  unfolding pipe_writable pipe_entry path_of
  io_writable io path owner = elim (pipe_entry io path owner) [
    | some e ↦ pipe_writable io e
    | none ↦ elim (path_of io path owner) [
      | none ↦ false
      | some d ↦ elim (dev_writable (device_at io d).driver) [ none ↦ true | some n ↦ positive n ]
    ]
  ]

module _ (dev_at_eof : ℕ → Option Bool) where
  unfoldable pub io_at_eof : Io → ℤ → ℤ → Bool
  unfolding pipe_ended pipe_entry path_of
  io_at_eof io path owner = elim (pipe_entry io path owner) [
    | some e ↦ pipe_ended io e
    | none ↦ elim (path_of io path owner) [
      | none ↦ false
      | some d ↦ elim (dev_at_eof (device_at io d).driver) [ none ↦ false | some b ↦ b ]
    ]
  ]
