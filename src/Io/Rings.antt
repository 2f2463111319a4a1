-- ===== src/Io/Rings.antt =====
-- kernel/io.c: the ring of a pipe. Both indices count up to UBIQOS_PIPE_BUF; one byte stays free, so
-- that a full ring is not an empty one.
pub mod Fifo
use ubiqos.Common.{ltb, ◌==◌, if◌then◌else◌, put, ℕ, zero, suc, ◌+◌, ◌-◌, ◌%◌, ◌^◌, List, [], ◌∷◌}
use ubiqos.Io.State.{Ring, pipe_buf}

-- The subtraction wraps at 32 bits.
unfoldable pub pipe_used : Ring → ℕ
pipe_used r = (r.head + 2 ^ 32 - r.tail) % 2 ^ 32 % pipe_buf

-- One round of the loop that writes.
abbrev pub push : Ring → ℕ → Ring
push r b = record r { buf = put r.buf r.head b; head = (r.head + 1) % pipe_buf }

-- How many bytes went in.
unfoldable pub ring_write : Ring → List ℕ → ℕ × Ring
unfolding pipe_used
ring_write r [] = (0, r)
ring_write r (b ∷ bs) =
    let rest = ring_write (push r b) bs in
    if ltb (pipe_used r) (pipe_buf - 1) then (suc rest.0, rest.1) else (0, r)

abbrev pub pop : Ring → Ring
pop r = record r { tail = (r.tail + 1) % pipe_buf }

-- At most `n` bytes.
unfoldable pub ring_read : ℕ → Ring → List ℕ × Ring
unfolding pipe_used
ring_read zero r = ([], r)
ring_read (suc n) r =
    let rest = ring_read n (pop r) in
    if pipe_used r == 0 then ([], r) else (r.buf r.tail ∷ rest.0, rest.1)
