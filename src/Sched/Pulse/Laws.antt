-- ===== src/Sched/Pulse/Laws.antt =====
-- Each process sees the shared ring as a queue of its own, its inbox.
use ubiqos.Common.{
  ◌==◌, if◌then◌else◌, ==_refl, ==_ne, Bool-cases, length, put, ℕ, ◌<◌, ◌≡◌, refl, sym, ap, ◌∙◌,
  ◌≢◌, inl, inr, Bool, true, false, none, some, List, [], ◌∷◌, ◌++◌, append-nil, arith,
}
use ubiqos.Common.Int.{pos}
use ubiqos.Sched.State.{Kernel, Pulse, ProcState, free, wait_recv, max_processes, max_pulses}
use ubiqos.Sched.Pulse.{
  take_first, pulse_take, pulse_into, pulse_to, pulse_at, pulse_deliver, slot_of,
}

-- The pulses for a process, oldest first.
unfoldable pub inbox : ℕ → List Pulse → List Pulse
inbox pid [] = []
inbox pid (p ∷ ps) = if p.dest == pid then p ∷ inbox pid ps else inbox pid ps

inbox-append : (pid : ℕ) (ps qs : List Pulse) → inbox pid (ps ++ qs) ≡ inbox pid ps ++ inbox pid qs
unfolding inbox
inbox-append pid [] qs = refl
inbox-append pid (p ∷ ps) qs = elim (Bool-cases (p.dest == pid)) [
  | inl e ↦ rw e (ap (◌∷◌ p) (inbox-append pid ps qs))
  | inr e ↦ rw e (inbox-append pid ps qs)
]

take_first-inbox :
    (pid : ℕ) (ps : List Pulse) (p : Pulse) (rest : List Pulse)
    → inbox pid ps ≡ p ∷ rest
    → (left : List Pulse) × (take_first pid ps ≡ some (p, left))
      × (inbox pid left ≡ rest)
      × ((other : ℕ) → other ≢ pid → inbox other left ≡ inbox other ps)
unfolding inbox take_first
take_first-inbox pid [] p rest e = cc
take_first-inbox pid (q ∷ ps) p rest e = elim (Bool-cases (q.dest == pid)) [
  | inl h ↦ (ps, ground arith, ground arith, λ other ne. ground arith)
  | inr h ↦
      let (left, t, i, o) = take_first-inbox pid ps p rest (rw h at e) in
      (q ∷ left, rw (h, t), rw (h, i), λ other ne. ground (arith, o other ne))
]

take_first-none : (pid : ℕ) (ps : List Pulse) → inbox pid ps ≡ [] → take_first pid ps ≡ none
unfolding inbox take_first
take_first-none pid [] e = refl
take_first-none pid (q ∷ ps) e = elim (Bool-cases (q.dest == pid)) [
  | inl h ↦ cc (rw h at e)
  | inr h ↦ rw (h, take_first-none pid ps (rw h at e))
]

-- Taking a pulse gives the oldest that the process has, copies its type, its value and its sender to
-- the place asked for, and leaves the others of its inbox and every other inbox as they were.
pub pulse_take-inbox :
    (k : Kernel) (pid out : ℕ) (p : Pulse) (rest : List Pulse)
    → inbox pid k.pulses ≡ p ∷ rest
    → (l : Kernel) × (pulse_take k pid out ≡ some l)
      × (l.memory out ≡ record { type = p.type; len = p.value; payload = 0; sender = p.from })
      × (inbox pid l.pulses ≡ rest)
      × ((other : ℕ) → other ≢ pid → inbox other l.pulses ≡ inbox other k.pulses)
unfolding pulse_take
pulse_take-inbox k pid out p rest e =
    let (left, t, i, o) = take_first-inbox pid k.pulses p rest e in
    (
      record k { memory = put k.memory out (pulse_into p.from p.type p.value); pulses = left },
      rw (t, pulse_take),
      rw ==_refl,
      i,
      o,
    )

-- A process with no pulse gets none.
pub pulse_take-empty :
    (k : Kernel) (pid out : ℕ) → inbox pid k.pulses ≡ [] → pulse_take k pid out ≡ none
unfolding pulse_take
pulse_take-empty k pid out e = rw (take_first-none pid k.pulses e, pulse_take)

-- A process that is there and is not waiting to receive.
abbrev pub is_elsewhere : ProcState → Bool
is_elsewhere free = false
is_elsewhere wait_recv = false
is_elsewhere _ = true

pulse_to-elsewhere :
    (k : Kernel) (d from type value : ℕ) (s : ProcState)
    → is_elsewhere s ≡ true
    → length k.pulses < max_pulses
    → pulse_to k d from type value s ≡ (
      pos 0,
      record k {
        pulses = k.pulses ++ record { dest = d; from = from; type = type; value = value } ∷ [];
      },
    )
unfolding pulse_to
pulse_to-elsewhere k d from type value free e lt = cc
pulse_to-elsewhere k d from type value wait_recv e lt = cc
pulse_to-elsewhere k d from type value _ e lt = ground arith

pub slot_of-pos : (d : ℕ) → 0 < d → d < max_processes → slot_of (pos d) ≡ some d
unfolding slot_of
slot_of-pos d lo hi = ground arith

deliver_elsewhere :
    (k : Kernel) (d from type value : ℕ)
    → 0 < d
    → d < max_processes
    → is_elsewhere (k.table d).state ≡ true
    → length k.pulses < max_pulses
    → pulse_deliver k (pos d) from type value ≡ (
      pos 0,
      record k {
        pulses = k.pulses ++ record { dest = d; from = from; type = type; value = value } ∷ [];
      },
    )
unfolding pulse_deliver
deliver_elsewhere k d from type value lo hi e lt =
    ap (λ s. pulse_at k s from type value) (slot_of-pos d lo hi)
    ∙ pulse_to-elsewhere k d from type value (k.table d).state e lt

-- A pulse to a process that is there and does not wait for one is put at the end of that process's
-- inbox while the ring has room, and no other inbox changes.
pub pulse_deliver-inbox :
    (k : Kernel) (d from type value : ℕ)
    → 0 < d
    → d < max_processes
    → is_elsewhere (k.table d).state ≡ true
    → length k.pulses < max_pulses
    → let p : Pulse = record { dest = d; from = from; type = type; value = value } in
      ((pulse_deliver k (pos d) from type value).0 ≡ pos 0)
      × (inbox d (pulse_deliver k (pos d) from type value).1.pulses ≡ inbox d k.pulses ++ p ∷ [])
      × ((other : ℕ)
          → other ≢ d
          → inbox other (pulse_deliver k (pos d) from type value).1.pulses ≡ inbox other k.pulses)
unfolding inbox
pulse_deliver-inbox k d from type value lo hi e lt =
    rw (deliver_elsewhere k d from type value lo hi e lt) (
      refl,
      inbox-append d k.pulses _ ∙ rw ==_refl,
      λ other ne.
          inbox-append other k.pulses _
          ∙ rw (==_ne d other (λ i. ne (sym i))) (append-nil (inbox other k.pulses)),
    )
