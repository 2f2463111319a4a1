-- ===== src/Io/Transfer/Ready.antt =====
-- kernel/io.c: what a pipe says of being ready, and what reading and writing it then does.
use ubiqos.Common.{
  ltb, ◌==◌, if◌then◌else◌, ltb→lt, lt→ltb, ==_ne, has_some, put, ℕ, suc, ◌+◌, ◌<◌, ◌≡◌, refl, ap,
  ◌≢◌, ◌↔◌, ◌⊎◌, inl, inr, Bool, true, false, not, ◌&&◌, ◌||◌, Option, some, List, [], ◌∷◌, arith,
  ℕ_discrete,
}
use ubiqos.Common.Int.{ℤ, pos, failed}
use ubiqos.Io.State.{Io, Ring}
use ubiqos.Io.Rings.{pipe_used, ring_write, ring_read}
use ubiqos.Io.Transfer.{
  PipeEnd, pipe_entry, out_ring, positive, pipe_write, pipe_read, pipe_ready, pipe_writable,
  pipe_ended, io_write, io_read, io_readable_count, io_readable, io_writable, io_at_eof,
}

read_some : (n : ℕ) (r : Ring) → pipe_used r ≢ 0 → (ring_read (suc n) r).0 ≢ []
unfolding ring_read
read_some n r ne = rw (==_ne (pipe_used r) 0 ne) (λ e. cc)

read_none : (n : ℕ) (r : Ring) → pipe_used r ≡ 0 → (ring_read (suc n) r).0 ≡ []
unfolding ring_read
read_none n r e = rw e refl

write_some : (r : Ring) (b : ℕ) (bs : List ℕ) → pipe_used r < 127 → (ring_write r (b ∷ bs)).0 ≢ 0
unfolding ring_write
write_some r b bs lt = rw (lt→ltb (pipe_used r) 127 lt) (λ e. omega (arith, e))

write_none :
    (r : Ring) (b : ℕ) (bs : List ℕ) → ltb (pipe_used r) 127 ≡ false → (ring_write r (b ∷ bs)).0 ≡ 0
unfolding ring_write
write_none r b bs e = rw e refl

abbrev no_bytes : List ℕ
no_bytes = []

-- At an empty ring: ready is the end.
empty_ready :
    (b : Bool) → (positive (pos (0 + (if b then 1 else 0))) ≡ true) ↔ ((no_bytes ≢ []) ⊎ (b ≡ true))
empty_ready true = (λ t. inr refl, λ t. refl)
empty_ready false = (λ t. cc, λ t. elim t [ inl ne ↦ absurd (ne refl) | inr k ↦ cc ])

ring_ready :
    (r : Ring) (n : ℕ)
    → (positive (pos (pipe_used r + (if r.writers == 0 then 1 else 0))) ≡ true)
      ↔ (((ring_read (suc n) r).0 ≢ []) ⊎ ((pipe_used r == 0 && r.writers == 0) ≡ true))
ring_ready r n = elim (ℕ_discrete (pipe_used r) 0) [
  | no ne ↦ (
    λ t. inl (read_some n r ne),
    λ t.
        rw (==_ne (pipe_used r + (if r.writers == 0 then 1 else 0)) 0 (λ k. omega (arith, ne, k)))
          refl,
  )
  | yes z ↦ rw (z, read_none n r z) (empty_ready (r.writers == 0))
]

pipe_ready-read :
    (io : Io) (e : PipeEnd) (n : ℕ)
    → e.write ≡ false
    → (positive (pipe_ready io e) ≡ true)
      ↔ (((pipe_read io e (suc n)).1 ≢ []) ⊎ (pipe_ended io e ≡ true))
unfolding pipe_ready pipe_read pipe_ended
pipe_ready-read io e n h = rw h (ring_ready (io.pipes e.ring) n)

not_or : (x y : Bool) → (x || y) ≡ true → (not x && not y) ≡ false
not_or true y k = refl
not_or false true k = refl
not_or false false k = cc

pipe_writable-write :
    (io : Io) (e : PipeEnd) (b : ℕ) (bs : List ℕ)
    → (e.write || has_some e.back) ≡ true
    → (pipe_writable io e ≡ true) ↔ ((pipe_write io e (b ∷ bs)).0 ≢ pos 0)
unfolding pipe_writable pipe_write
pipe_writable-write io e b bs w =
    rw (w, not_or e.write (has_some e.back) w)
      (by_readers ((io.pipes (out_ring e)).readers == 0)
        (ltb (pipe_used (io.pipes (out_ring e))) 127) refl)
  where
    by_readers :
        (c d : Bool)
        → ltb (pipe_used (io.pipes (out_ring e))) 127 ≡ d
        → let z : ℤ × Io = if c then (failed, io) else (
          pos (ring_write (io.pipes (out_ring e)) (b ∷ bs)).0,
          record io {
            pipes = put io.pipes (out_ring e) (ring_write (io.pipes (out_ring e)) (b ∷ bs)).1;
          },
        ) in
          ((d || c) ≡ true) ↔ (z.0 ≢ pos 0)
    by_readers true true ed = (λ t. λ k. cc, λ t. refl)
    by_readers true false ed = (λ t. λ k. cc, λ t. refl)
    by_readers false true ed = (
      λ t. λ k. write_some (io.pipes (out_ring e)) b bs (ltb→lt _ 127 ed) (pos-injective k),
      λ t. refl,
    )
      where
        pos-injective : {m n : ℕ} → pos m ≡ pos n → m ≡ n
        pos-injective k = cc
    by_readers false false ed =
        (λ t. cc, λ t. absurd (t (ap pos (write_none (io.pipes (out_ring e)) b bs ed))))

module _ (dev_readable dev_writable : ℕ → Option ℤ) (dev_read : ℕ → Option (ℕ → ℤ × List ℕ))
    (dev_write : ℕ → List ℕ → ℤ) (dev_at_eof : ℕ → Option Bool) where
  module _ (io : Io) (path owner : ℤ) (e : PipeEnd) (h : pipe_entry io path owner ≡ some e) where
    readable-pipe : io_readable_count dev_readable dev_writable io path owner ≡ pipe_ready io e
    unfolding io_readable_count
    readable-pipe = rw (h, io_readable_count) refl

    writable-pipe : io_writable dev_readable dev_writable io path owner ≡ pipe_writable io e
    unfolding io_writable
    writable-pipe = rw (h, io_writable) refl

    pub read-pipe : (n : ℕ) → io_read dev_read io path n owner ≡ pipe_read io e n
    unfolding io_read
    read-pipe n = rw (h, io_read) refl

    pub write-pipe : (buf : List ℕ) → io_write dev_write io path buf owner ≡ pipe_write io e buf
    unfolding io_write
    write-pipe buf = rw (h, io_write) refl

    at_eof-pipe : io_at_eof dev_at_eof io path owner ≡ pipe_ended io e
    unfolding io_at_eof
    at_eof-pipe = rw (h, io_at_eof) refl

  -- A descriptor that reads a pipe is reported as readable exactly when a read, of one byte or more,
  -- would give a byte or the pipe is at its end: nobody is told to wait for nothing.
  pub readable-means :
      (io : Io) (path owner : ℤ) (e : PipeEnd) (n : ℕ)
      → pipe_entry io path owner ≡ some e
      → e.write ≡ false
      → (io_readable dev_readable dev_writable io path owner ≡ true) ↔ (
          ((io_read dev_read io path (suc n) owner).1 ≢ [])
          ⊎ (io_at_eof dev_at_eof io path owner ≡ true))
  unfolding io_readable
  readable-means io path owner e n h w =
      rw
        (
          readable-pipe io path owner e h,
          read-pipe io path owner e h (suc n),
          at_eof-pipe io path owner e h,
        )
        (pipe_ready-read io e n w)

  -- A descriptor that writes a pipe is reported as writable exactly when a write, of one byte or
  -- more, does not answer 0, which is the answer that makes the caller wait.
  pub writable-means :
      (io : Io) (path owner : ℤ) (e : PipeEnd) (b : ℕ) (bs : List ℕ)
      → pipe_entry io path owner ≡ some e
      → (e.write || has_some e.back) ≡ true
      → (io_writable dev_readable dev_writable io path owner ≡ true)
        ↔ ((io_write dev_write io path (b ∷ bs) owner).0 ≢ pos 0)
  writable-means io path owner e b bs h w =
      rw (writable-pipe io path owner e h, write-pipe io path owner e h (b ∷ bs))
        (pipe_writable-write io e b bs w)
