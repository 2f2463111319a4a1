-- ===== src/Io/Rings/Fifo.antt =====
-- kernel/io.c: a ring is a queue of bytes.
use ubiqos.Common.{
  ltb, lt→ltb, ==_refl, ==_ne, length, take, put, ℕ, zero, suc, ◌+◌, ◌-◌, ◌%◌, ◌<◌, min, ◌≡◌, refl,
  sym, ap, ◌∙◌, ◌≢◌, false, List, [], ◌∷◌, ◌++◌, append_assoc, append-nil, arith, dec_lt,
  ℕ_discrete,
}
use ubiqos.Io.State.{Ring}
use ubiqos.Io.Rings.{pipe_used, push, ring_write, pop, ring_read}

abbrev pub IsRing : Ring → Type 0
IsRing r = (r.head < 128) × (r.tail < 128)

-- The `n` bytes from index `i` on, around the end.
unfoldable pub bytes_from : (ℕ → ℕ) → ℕ → ℕ → List ℕ
bytes_from buf i zero = []
bytes_from buf i (suc n) = buf i ∷ bytes_from buf ((i + 1) % 128) n

-- The bytes that wait in the ring, the oldest first.
unfoldable pub waiting : Ring → List ℕ
unfolding bytes_from pipe_used
waiting r = bytes_from r.buf r.tail (pipe_used r)

bytes_from-length : (buf : ℕ → ℕ) (i n : ℕ) → length (bytes_from buf i n) ≡ n
unfolding bytes_from
bytes_from-length buf i zero = refl
bytes_from-length buf i (suc n) = ap suc (bytes_from-length buf ((i + 1) % 128) n)

-- A byte written behind the last of the bytes comes last.
bytes_from-put :
    (buf : ℕ → ℕ) (i n h b : ℕ)
    → i < 128
    → n < 128
    → (i + n) % 128 ≡ h
    → bytes_from (put buf h b) i (suc n) ≡ bytes_from buf i n ++ b ∷ []
unfolding bytes_from
bytes_from-put buf i zero h b li ln e = let z : i ≡ h = omega (arith, e) in rw (z, ==_refl h) refl
bytes_from-put buf i (suc n) h b li ln e =
    let ne : i ≢ h = λ k. omega (arith, e, k) in
    rw (==_ne i h ne) (
      ap (◌∷◌ (buf i))
        (bytes_from-put buf ((i + 1) % 128) n h b (omega arith) (omega arith) (omega (arith, e))))

pub waiting-length : (r : Ring) → length (waiting r) ≡ pipe_used r
unfolding waiting
waiting-length r = bytes_from-length r.buf r.tail (pipe_used r)

push-IsRing : (r : Ring) (b : ℕ) → IsRing r → IsRing (push r b)
push-IsRing r b h = (omega arith, h.1)

pop-IsRing : (r : Ring) → IsRing r → IsRing (pop r)
pop-IsRing r h = (h.0, omega arith)

used-push :
    (r : Ring) (b : ℕ) → IsRing r → pipe_used r < 127 → pipe_used (push r b) ≡ suc (pipe_used r)
unfolding pipe_used
used-push r b h lt = omega (arith, h.0, h.1)

used-pop : (r : Ring) → IsRing r → pipe_used r ≢ 0 → suc (pipe_used (pop r)) ≡ pipe_used r
unfolding pipe_used
used-pop r h ne = omega (arith, h.0, h.1)

used_head : (r : Ring) → IsRing r → (r.tail + pipe_used r) % 128 ≡ r.head
unfolding pipe_used
used_head r h = omega (arith, h.0, h.1)

pub pipe_used-bound : (r : Ring) → pipe_used r < 128
unfolding pipe_used
pipe_used-bound r = omega arith

take-nil : (n : ℕ) → take {A = ℕ} n [] ≡ []
take-nil zero = refl
take-nil (suc n) = refl

waiting-push :
    (r : Ring) (b : ℕ) → IsRing r → pipe_used r < 127 → waiting (push r b) ≡ waiting r ++ b ∷ []
unfolding waiting
waiting-push r b h lt =
    rw (used-push r b h lt)
      (bytes_from-put r.buf r.tail (pipe_used r) r.head b h.1 (omega arith) (used_head r h))

waiting-pop : (r : Ring) → IsRing r → pipe_used r ≢ 0 → waiting r ≡ r.buf r.tail ∷ waiting (pop r)
unfolding waiting
waiting-pop r h ne = rw (← used-pop r h ne) refl

-- How many of `n` more bytes the ring takes.
abbrev pub taken : Ring → ℕ → ℕ
taken r n = min n (127 - pipe_used r)

-- A write into a ring whose indices are below 128 appends as many of its bytes as there is room for
-- to what waits there, and says how many.
pub ring_write-waiting :
    (r : Ring) (bs : List ℕ)
    → IsRing r
    → ((ring_write r bs).0 ≡ taken r (length bs))
      × (waiting (ring_write r bs).1 ≡ waiting r ++ take (taken r (length bs)) bs)
      × IsRing (ring_write r bs).1
unfolding ring_write
ring_write-waiting r [] h =
    (omega arith, sym (ap (λ l. waiting r ++ l) (take-nil _) ∙ append-nil (waiting r)), h)
ring_write-waiting r (b ∷ bs) h = elim (dec_lt (pipe_used r) 127) [
  | yes lt ↦
      let (k, w, v) = ring_write-waiting (push r b) bs (push-IsRing r b h) in
      let u : pipe_used (push r b) ≡ suc (pipe_used r) = used-push r b h lt in
      let e : taken r (suc (length bs)) ≡ suc (taken (push r b) (length bs)) =
        omega (arith, u, lt) in
      rw (lt→ltb (pipe_used r) 127 lt, e)
        (ap suc k, w ∙ rw (waiting-push r b h lt) (append_assoc (waiting r) (b ∷ []) _), v)
  | no ge ↦
      let t : ltb (pipe_used r) 127 ≡ false = ground arith in
      let e : taken r (suc (length bs)) ≡ 0 = omega (arith, ge) in
      rw (t, e) (refl, sym (append-nil (waiting r)), h)
]

-- A read of a ring whose indices are below 128 takes the oldest bytes, as many as it asks for or as
-- there are, and leaves the others.
pub ring_read-waiting :
    (n : ℕ) (r : Ring)
    → IsRing r
    → ((ring_read n r).0 ++ waiting (ring_read n r).1 ≡ waiting r)
      × (length (ring_read n r).0 ≡ min n (pipe_used r))
      × IsRing (ring_read n r).1
unfolding ring_read
ring_read-waiting zero r h = (refl, omega arith, h)
ring_read-waiting (suc n) r h = elim (ℕ_discrete (pipe_used r) 0) [
  | yes z ↦ rw (z) (refl, omega arith, h)
  | no ne ↦
      let (w, k, v) = ring_read-waiting n (pop r) (pop-IsRing r h) in
      let u : suc (pipe_used (pop r)) ≡ pipe_used r = used-pop r h ne in
      rw (==_ne (pipe_used r) 0 ne)
        (ap (◌∷◌ (r.buf r.tail)) w ∙ sym (waiting-pop r h ne), omega (arith, k, u), v)
]
