-- ===== src/Io/Front.antt =====
-- kernel/io.c: the process in front of a terminal, the interrupt key and the hangup. The scheduler's
-- state and its two calls are parameters.
use ubiqos.Common.{
  ◌==◌, if◌then◌else◌, opt_eq, set, put, for_below, ℕ, zero, suc, Bool, true, false, not, ◌||◌,
  Option, none, some, List, [], ◌∷◌, ◌++◌,
}
use ubiqos.Common.Int.{ℤ, pos, negsuc, failed, int_eq}
use ubiqos.Io.State.{PathEntry, Io, driver_write, device_at, max_procs, max_paths}
use ubiqos.Io.Open.{find_device}
use ubiqos.Io.Transfer.{PipeEnd, pipe_entry, path_of, out_ring}

-- A pid that is not positive is nobody.
unfoldable pub front_of : ℤ → Option ℕ
front_of (pos zero) = none
front_of (pos (suc n)) = some (suc n)
front_of (negsuc n) = none

abbrev pub put_front : Io → ℕ → Option ℕ → Io
put_front io r f = record io { pipes = put io.pipes r (record (io.pipes r) { foreground = f }) }

abbrev pub device_front : Io → ℕ → Option ℕ → Io
device_front io d f = record io {
  devices = set io.devices d (record (device_at io d) { foreground = f });
}

unfoldable pub io_set_foreground : Io → ℤ → ℤ → ℤ → ℤ × Io
unfolding front_of pipe_entry path_of
io_set_foreground io path pid owner = elim (pipe_entry io path owner) [
  | some e ↦ (pos 0, put_front io e.ring (front_of pid))
  | none ↦ elim (path_of io path owner) [
    | none ↦ (failed, io)
    | some d ↦ (pos 0, device_front io d (front_of pid))
  ]
]

-- "^C\r\n"
abbrev pub echo : List ℕ
echo = 94 ∷ 67 ∷ 13 ∷ 10 ∷ []

-- Whether a descriptor is on one of the two rings of the end `e`.
unfoldable pub on_rings : PipeEnd → Option ℕ → Option ℕ → Bool
on_rings e none back = false
on_rings e (some q) back =
    q == e.ring
    || opt_eq e.back q
    || opt_eq back e.ring
    || elim e.back [ none ↦ false | some b ↦ opt_eq back b ]

unfoldable pub holds_ring : ℕ → PipeEnd → (ℕ → PathEntry) → Bool
unfolding on_rings
holds_ring zero e paths = false
holds_ring (suc n) e paths = holds_ring n e paths || on_rings e (paths n).pipe (paths n).pipe_back

-- Telling a process of the key, which only the scheduler's state hears of, and ending one, which lets
-- its descriptors go as well.
module _ {ℓ} {S : Type ℓ} (intr_request : ℕ → S → Bool × S) (kill : ℕ → Io × S → Io × S) where
  -- The victim is told, or it is ended and in front no more.
  unfoldable pub tell_or_end : ℕ → Io → Io → S → Io × S
  tell_or_end victim io cleared s =
      let t = intr_request victim s in if t.0 then (io, t.1) else kill victim (cleared, t.1)

  unfoldable pub interrupt_device : (ℕ → Bool) → Io → S → ℕ → Option ℕ → Bool × (Io × S)
  unfolding tell_or_end
  interrupt_device has_write io s d none = (false, (io, s))
  interrupt_device has_write io s d (some victim) =
      let driver = (device_at io d).driver in
      let k : Io =
        if has_write driver
        then record io { calls = io.calls ++ driver_write driver echo ∷ [] }
        else io in
      (true, tell_or_end victim k (device_front k d none) s)

  unfoldable pub io_interrupt : (ℕ → Bool) → Io → S → List ℕ → Bool × (Io × S)
  unfolding interrupt_device find_device
  io_interrupt has_write io s name = elim (find_device io.devices name) [
    | none ↦ (false, (io, s))
    | some d ↦ interrupt_device has_write io s d (device_at io d).foreground
  ]

  unfoldable pub interrupt_ring : Io → S → ℕ → Option ℕ → Bool × (Io × S)
  unfolding tell_or_end
  interrupt_ring io s r none = (false, (io, s))
  interrupt_ring io s r (some victim) = (true, tell_or_end victim io (put_front io r none) s)

  unfoldable pub io_interrupt_path : Io → S → ℤ → ℤ → Bool × (Io × S)
  unfolding interrupt_ring pipe_entry
  io_interrupt_path io s path owner = elim (pipe_entry io path owner) [
    | none ↦ (false, (io, s))
    | some e ↦ interrupt_ring io s (out_ring e) (io.pipes (out_ring e)).foreground
  ]

  -- One process: ended where it is neither the caller nor process 0 and holds one of the rings.
  unfoldable pub hangup_round : PipeEnd → ℤ → ℕ → ℕ × (Io × S) → ℕ × (Io × S)
  unfolding holds_ring
  hangup_round e owner pid (n, (io, s)) =
      if pid == 0 || int_eq (pos pid) owner || not (holds_ring max_paths e (io.paths pid))
      then (n, (io, s))
      else (suc n, kill pid (io, s))

  -- How many were ended.
  unfoldable pub io_hangup : Io → S → ℤ → ℤ → ℤ × (Io × S)
  unfolding hangup_round pipe_entry
  io_hangup io s path owner = elim (pipe_entry io path owner) [
    | none ↦ (failed, (io, s))
    | some e ↦
        let r : ℕ × (Io × S) = for_below max_procs (hangup_round e owner) (0, (io, s)) in
        (pos r.0, r.1)
  ]
