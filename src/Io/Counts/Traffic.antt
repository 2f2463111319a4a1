-- ===== src/Io/Counts/Traffic.antt =====
-- kernel/io.c: reading, writing, moving in a file and naming the process in front keep the counts.
use ubiqos.Common.{
  ltb, ◌==◌, if◌then◌else◌, ==_refl, ==_ne, length, put, ℕ, zero, suc, ◌+◌, ◌%◌, ◌^◌, ◌≡◌, refl,
  Bool, true, false, Option, none, some, List, [], ◌∷◌, ℕ_discrete,
}
use ubiqos.Common.Int.{ℤ, pos, failed}
use ubiqos.Io.State.{Ring, Io, device_at}
use ubiqos.Io.Rings.{pipe_used, push, ring_write, pop, ring_read}
use ubiqos.Io.Transfer.{
  PipeEnd, pipe_entry, path_of, file_entry, out_ring, pipe_write, pipe_read, device_write, io_write,
  driver_reads, device_read, io_read,
}
use ubiqos.Io.Offset.{move_file, io_file_advance, seek_to, seek_in, io_file_seek}
use ubiqos.Io.Front.{front_of, put_front, device_front, io_set_foreground}
use ubiqos.Io.Counts.{Counted, same_sums, same_counts}

ring_write-holders :
    (r : Ring) (bs : List ℕ)
    → ((ring_write r bs).1.readers ≡ r.readers) × ((ring_write r bs).1.writers ≡ r.writers)
unfolding ring_write
ring_write-holders r [] = (refl, refl)
ring_write-holders r (b ∷ bs) = by_room (ltb (pipe_used r) 127) (ring_write-holders (push r b) bs)
  where
    by_room :
        (c : Bool)
        → ((ring_write (push r b) bs).1.readers ≡ r.readers)
          × ((ring_write (push r b) bs).1.writers ≡ r.writers)
        → let rest = ring_write (push r b) bs in
          let w : ℕ × Ring = if c then (suc rest.0, rest.1) else (0, r) in
          (w.1.readers ≡ r.readers) × (w.1.writers ≡ r.writers)
    by_room true same = same
    by_room false same = (refl, refl)

ring_read-holders :
    (n : ℕ) (r : Ring)
    → ((ring_read n r).1.readers ≡ r.readers) × ((ring_read n r).1.writers ≡ r.writers)
unfolding ring_read
ring_read-holders zero r = (refl, refl)
ring_read-holders (suc n) r = by_rest (pipe_used r == 0) (ring_read-holders n (pop r))
  where
    by_rest :
        (c : Bool)
        → ((ring_read n (pop r)).1.readers ≡ r.readers)
          × ((ring_read n (pop r)).1.writers ≡ r.writers)
        → let rest = ring_read n (pop r) in
          let w : List ℕ × Ring = if c then ([], r) else (r.buf r.tail ∷ rest.0, rest.1) in
          (w.1.readers ≡ r.readers) × (w.1.writers ≡ r.writers)
    by_rest true same = (refl, refl)
    by_rest false same = same

-- A ring that changes in its bytes alone, or in who is in front.
ring-Counted :
    (io : Io) (q : ℕ) (r : Ring)
    → r.readers ≡ (io.pipes q).readers
    → r.writers ≡ (io.pipes q).writers
    → Counted io
    → Counted (record io { pipes = put io.pipes q r })
ring-Counted io q r er ew v =
    same_sums io _ refl (λ s. refl) (λ i. at_readers i) (λ i. at_writers i) v
  where
    at_readers : (i : ℕ) → (put io.pipes q r i).readers ≡ (io.pipes i).readers
    at_readers i = elim (ℕ_discrete i q) [
      | yes e ↦ rw (e, ==_refl q) er
      | no ne ↦ rw (==_ne i q ne) refl
    ]

    at_writers : (i : ℕ) → (put io.pipes q r i).writers ≡ (io.pipes i).writers
    at_writers i = elim (ℕ_discrete i q) [
      | yes e ↦ rw (e, ==_refl q) ew
      | no ne ↦ rw (==_ne i q ne) refl
    ]

move_file-Counted : (io : Io) (slot to : ℕ) → Counted io → Counted (move_file io slot to)
move_file-Counted io slot to v = same_sums io _ refl at_refs (λ r. refl) (λ r. refl) v
  where
    at_refs : (s : ℕ) → ((move_file io slot to).files s).refs ≡ (io.files s).refs
    at_refs s = elim (ℕ_discrete s slot) [
      | yes e ↦ rw (e, ==_refl slot) refl
      | no ne ↦ rw (==_ne s slot ne) refl
    ]

pub put_front-Counted : (io : Io) (r : ℕ) (f : Option ℕ) → Counted io → Counted (put_front io r f)
put_front-Counted io r f v = ring-Counted io r _ refl refl v

pub device_front-Counted :
    (io : Io) (d : ℕ) (f : Option ℕ) → Counted io → Counted (device_front io d f)
device_front-Counted io d f v = same_counts _ _ refl refl refl v

pipe_write-Counted :
    (io : Io) (e : PipeEnd) (buf : List ℕ) → Counted io → Counted (pipe_write io e buf).1
unfolding pipe_write
pipe_write-Counted io e buf v = by_refusal _
  where
    by_refusal :
        (c : Bool)
        → let w = ring_write (io.pipes (out_ring e)) buf in
          let r : ℤ × Io =
            if c
            then (failed, io)
            else (pos w.0, record io { pipes = put io.pipes (out_ring e) w.1 }) in
          Counted r.1
    by_refusal true = v
    by_refusal false =
        let (er, ew) = ring_write-holders (io.pipes (out_ring e)) buf in
        ring-Counted io (out_ring e) _ er ew v

pipe_read-Counted : (io : Io) (e : PipeEnd) (len : ℕ) → Counted io → Counted (pipe_read io e len).2
unfolding pipe_read
pipe_read-Counted io e len v = by_refusal _
  where
    by_refusal :
        (c : Bool)
        → let w = ring_read len (io.pipes e.ring) in
          let r : ℤ × List ℕ × Io =
            if c
            then (failed, [], io)
            else (pos (length w.0), w.0, record io { pipes = put io.pipes e.ring w.1 }) in
          Counted r.2
    by_refusal true = v
    by_refusal false =
        let (er, ew) = ring_read-holders len (io.pipes e.ring) in ring-Counted io e.ring _ er ew v

pub io_write-Counted :
    (dev_write : ℕ → List ℕ → ℤ) (io : Io) (path : ℤ) (buf : List ℕ) (owner : ℤ)
    → Counted io
    → Counted (io_write dev_write io path buf owner).1
unfolding io_write device_write
io_write-Counted dev_write io path buf owner v =
    by_entry (pipe_entry io path owner) (path_of io path owner)
  where
    by_entry :
        (e : Option PipeEnd) (d : Option ℕ)
        → let r : ℤ × Io = elim e [
          | some p ↦ pipe_write io p buf
          | none ↦ device_write dev_write io d buf
        ] in
          Counted r.1
    by_entry (some p) d = pipe_write-Counted io p buf v
    by_entry none none = v
    by_entry none (some d) = same_counts _ _ refl refl refl v

pub io_read-Counted :
    (dev_read : ℕ → Option (ℕ → ℤ × List ℕ)) (io : Io) (path : ℤ) (len : ℕ) (owner : ℤ)
    → Counted io
    → Counted (io_read dev_read io path len owner).2
unfolding io_read device_read driver_reads
io_read-Counted dev_read io path len owner v =
    by_entry (pipe_entry io path owner) (path_of io path owner)
  where
    by_driver :
        (driver : ℕ) (read : Option (ℕ → ℤ × List ℕ)) → Counted (driver_reads io driver len read).2
    by_driver driver none = v
    by_driver driver (some read) = same_counts _ _ refl refl refl v

    by_entry :
        (e : Option PipeEnd) (d : Option ℕ)
        → let r : ℤ × List ℕ × Io = elim e [
          | some p ↦ pipe_read io p len
          | none ↦ device_read dev_read io d len
        ] in
          Counted r.2
    by_entry (some p) d = pipe_read-Counted io p len v
    by_entry none none = v
    by_entry none (some d) = by_driver (device_at io d).driver (dev_read (device_at io d).driver)

pub io_file_advance-Counted :
    (io : Io) (path owner : ℤ) (n : ℕ) → Counted io → Counted (io_file_advance io path owner n)
unfolding io_file_advance
io_file_advance-Counted io path owner n v = by_entry (file_entry io path owner)
  where
    by_entry :
        (e : Option ℕ)
        → let r : Io = elim e [
          | none ↦ io
          | some s ↦ move_file io s (((io.files s).pos_ + n) % 2 ^ 32)
        ] in
          Counted r
    by_entry none = v
    by_entry (some s) = move_file-Counted io s _ v

pub io_file_seek-Counted :
    (io : Io) (path owner offset : ℤ) (whence : ℕ)
    → Counted io
    → Counted (io_file_seek io path owner offset whence).1
unfolding io_file_seek seek_in
io_file_seek-Counted io path owner offset whence v = by_entry (file_entry io path owner)
  where
    by_target : (s : ℕ) (to : Option ℕ) → Counted (seek_in io s to).1
    by_target s none = v
    by_target s (some to) = move_file-Counted io s to v

    by_entry :
        (e : Option ℕ)
        → let r : ℤ × Io = elim e [
          | none ↦ (failed, io)
          | some s ↦ seek_in io s (seek_to (io.files s).pos_ offset whence)
        ] in
          Counted r.1
    by_entry none = v
    by_entry (some s) = by_target s _

pub io_set_foreground-Counted :
    (io : Io) (path pid owner : ℤ) → Counted io → Counted (io_set_foreground io path pid owner).1
unfolding io_set_foreground
io_set_foreground-Counted io path pid owner v =
    by_entry (pipe_entry io path owner) (path_of io path owner)
  where
    by_entry :
        (e : Option PipeEnd) (d : Option ℕ)
        → let r : ℤ × Io = elim e [
          | some p ↦ (pos 0, put_front io p.ring (front_of pid))
          | none ↦ elim d [
            | none ↦ (failed, io)
            | some i ↦ (pos 0, device_front io i (front_of pid))
          ]
        ] in
          Counted r.1
    by_entry (some p) d = put_front-Counted io p.ring (front_of pid) v
    by_entry none none = v
    by_entry none (some i) = device_front-Counted io i (front_of pid) v
