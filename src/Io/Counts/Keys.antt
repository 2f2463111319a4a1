-- ===== src/Io/Counts/Keys.antt =====
-- kernel/io.c: the interrupt key and the hangup keep the counts.
use ubiqos.Common.{
  if◌then◌else◌, for_below, for_below_keeps, ℕ, suc, refl, Bool, true, false, Option, none, some,
  List, [], ◌∷◌, ◌++◌,
}
use ubiqos.Common.Int.{ℤ, pos, failed}
use ubiqos.Io.State.{Io, device_at, driver_write, max_procs}
use ubiqos.Io.Open.{find_device}
use ubiqos.Io.Transfer.{PipeEnd, pipe_entry, out_ring}
use ubiqos.Io.Front.{
  tell_or_end, interrupt_device, io_interrupt, interrupt_ring, io_interrupt_path, hangup_round,
  io_hangup, echo,
}
use ubiqos.Io.Counts.{Counted, same_counts}
use ubiqos.Io.Counts.Traffic.{put_front-Counted, device_front-Counted}

-- Where ending a process keeps the counts, so do the key and the hangup.
module _ {ℓ} {S : Type ℓ} (intr_request : ℕ → S → Bool × S) (kill : ℕ → Io × S → Io × S)
    (keeps : (victim : ℕ) (w : Io × S) → Counted w.0 → Counted (kill victim w).0) where
  tell_or_end-Counted :
      (victim : ℕ) (io cleared : Io) (s : S)
      → Counted io
      → Counted cleared
      → Counted (tell_or_end intr_request kill victim io cleared s).0
  unfolding tell_or_end
  tell_or_end-Counted victim io cleared s v c = by_told (intr_request victim s).0
    where
      by_told :
          (b : Bool)
          → let w : Io × S =
              if b
              then (io, (intr_request victim s).1)
              else kill victim (cleared, (intr_request victim s).1) in
            Counted w.0
      by_told true = v
      by_told false = keeps victim (cleared, (intr_request victim s).1) c

  pub io_interrupt_path-Counted :
      (io : Io) (s : S) (path owner : ℤ)
      → Counted io
      → Counted (io_interrupt_path intr_request kill io s path owner).1.0
  unfolding io_interrupt_path interrupt_ring
  io_interrupt_path-Counted io s path owner v = by_entry (pipe_entry io path owner)
    where
      by_front : (r : ℕ) (f : Option ℕ) → Counted (interrupt_ring intr_request kill io s r f).1.0
      by_front r none = v
      by_front r (some victim) = tell_or_end-Counted victim io _ s v (put_front-Counted io r none v)

      by_entry :
          (e : Option PipeEnd)
          → let w : Bool × (Io × S) = elim e [
            | none ↦ (false, (io, s))
            | some p ↦
                interrupt_ring intr_request kill io s
                  (out_ring p)
                  (io.pipes (out_ring p)).foreground
          ] in
            Counted w.1.0
      by_entry none = v
      by_entry (some p) = by_front (out_ring p) _

  pub io_interrupt-Counted :
      (has_write : ℕ → Bool) (io : Io) (s : S) (name : List ℕ)
      → Counted io
      → Counted (io_interrupt intr_request kill has_write io s name).1.0
  unfolding io_interrupt interrupt_device
  io_interrupt-Counted has_write io s name v = by_device (find_device io.devices name)
    where
      echoed : ℕ → Bool → Io
      echoed d b =
          if b
          then record io { calls = io.calls ++ driver_write (device_at io d).driver echo ∷ [] }
          else io

      echoed-Counted : (d : ℕ) (b : Bool) → Counted (echoed d b)
      echoed-Counted d true = same_counts _ _ refl refl refl v
      echoed-Counted d false = v

      by_front :
          (d : ℕ) (f : Option ℕ)
          → Counted (interrupt_device intr_request kill has_write io s d f).1.0
      by_front d none = v
      by_front d (some victim) =
          let k : Io = echoed d (has_write (device_at io d).driver) in
          let c : Counted k = echoed-Counted d (has_write (device_at io d).driver) in
          tell_or_end-Counted victim k _ s c (device_front-Counted k d none c)

      by_device :
          (o : Option ℕ)
          → let w : Bool × (Io × S) = elim o [
            | none ↦ (false, (io, s))
            | some d ↦
                interrupt_device intr_request kill has_write io s d (device_at io d).foreground
          ] in
            Counted w.1.0
      by_device none = v
      by_device (some d) = by_front d _

  hangup_round-Counted :
      (e : PipeEnd) (owner : ℤ) (pid : ℕ) (w : ℕ × (Io × S))
      → Counted w.1.0
      → Counted (hangup_round intr_request kill e owner pid w).1.0
  unfolding hangup_round
  hangup_round-Counted e owner pid w v = by_choice _
    where
      by_choice :
          (b : Bool)
          → let z : ℕ × (Io × S) = if b then w else (suc w.0, kill pid w.1) in Counted z.1.0
      by_choice true = v
      by_choice false = keeps pid w.1 v

  pub io_hangup-Counted :
      (io : Io) (s : S) (path owner : ℤ)
      → Counted io
      → Counted (io_hangup intr_request kill io s path owner).1.0
  unfolding io_hangup
  io_hangup-Counted io s path owner v = by_entry (pipe_entry io path owner)
    where
      by_entry :
          (o : Option PipeEnd)
          → let w : ℤ × (Io × S) = elim o [
            | none ↦ (failed, (io, s))
            | some e ↦
                let r : ℕ × (Io × S) =
                  for_below max_procs (hangup_round intr_request kill e owner) (0, (io, s)) in
                (pos r.0, r.1)
          ] in
            Counted w.1.0
      by_entry none = v
      by_entry (some e) =
          for_below_keeps (λ z. Counted z.1.0) (hangup_round intr_request kill e owner) max_procs
            (λ pid z h. hangup_round-Counted e owner pid z h) (0, (io, s)) v
