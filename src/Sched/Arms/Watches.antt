-- ===== src/Sched/Arms/Watches.antt =====
-- The watches as a map from a process and a descriptor to the type of pulse that is asked for.
use ubiqos.Common.{
  ◌==◌, if◌then◌else◌, ==_ne, length, set, ℕ, zero, suc, ◌+◌, ◌<◌, ◌≡◌, refl, ◌≢◌, ◌&&◌, Option,
  none, some, List, [], ◌∷◌, arith,
}
use ubiqos.Common.Int.{pos}
use ubiqos.Sched.State.{Kernel, Arm, Pulse}
use ubiqos.Sched.Pulse.Laws.{inbox}
use ubiqos.Sched.Arms.{
  is_watch, find_arm, find_free, retype_at, arm_new, arm_at, arm_read, drop_arms, drop_fired,
  disarm_reads, count_arms, count_fired,
}

-- The type of the first watch of the process on the descriptor.
unfoldable pub watch : ℕ → ℕ → List Arm → Option ℕ
watch pid path [] = none
watch pid path (a ∷ as') = if is_watch pid path a then some a.type else watch pid path as'

find-watch : (pid path : ℕ) (l : List Arm) → find_arm pid path l ≡ none → watch pid path l ≡ none
unfolding find_arm watch
find-watch pid path [] e = refl
find-watch pid path (a ∷ l) e = ground (arith, find-watch pid path l)

retype-watch :
    (pid path type i : ℕ) (l : List Arm) (p r : ℕ)
    → find_arm pid path l ≡ some i
    → watch p r (retype_at l i type) ≡ (if p == pid && r == path then some type else watch p r l)
unfolding find_arm watch retype_at
retype-watch pid path type i [] p r e = cc
retype-watch pid path type zero (a ∷ l) p r e = ground arith
retype-watch pid path type (suc i) (a ∷ l) p r e =
    ground (arith, retype-watch pid path type i l p r)

set-watch :
    (pid path type i : ℕ) (l : List Arm) (p r : ℕ)
    → 0 < pid
    → 0 < p
    → find_free l ≡ some i
    → watch pid path l ≡ none
    → watch p r (set l i (record { pid = pid; path = path; type = type }))
      ≡ (if p == pid && r == path then some type else watch p r l)
unfolding find_free watch
set-watch pid path type i [] p r lo lp e n = cc
set-watch pid path type zero (a ∷ l) p r lo lp e n = ground arith
set-watch pid path type (suc i) (a ∷ l) p r lo lp e n =
    ground (arith, set-watch pid path type i l p r)

arm_new-watch :
    (k : Kernel) (path type : ℕ) (s : Option ℕ) (p r : ℕ)
    → find_free k.arms ≡ s
    → 0 < k.current
    → 0 < p
    → watch k.current path k.arms ≡ none
    → (arm_new k path type s).0 ≡ pos 0
    → watch p r (arm_new k path type s).1.arms
      ≡ (if p == k.current && r == path then some type else watch p r k.arms)
unfolding arm_new
arm_new-watch k path type none p r e lo lp n ok = cc
arm_new-watch k path type (some i) p r e lo lp n ok =
    set-watch k.current path type i k.arms p r lo lp e n

arm_at-watch :
    (k : Kernel) (path type : ℕ) (s : Option ℕ) (p r : ℕ)
    → find_arm k.current path k.arms ≡ s
    → type ≢ 0
    → 0 < k.current
    → 0 < p
    → (arm_at k path type s).0 ≡ pos 0
    → watch p r (arm_at k path type s).1.arms
      ≡ (if p == k.current && r == path then some type else watch p r k.arms)
unfolding arm_at
arm_at-watch k path type (some i) p r e nt lo lp ok =
    rw (==_ne type 0 nt) (retype-watch k.current path type i k.arms p r e)
arm_at-watch k path type none p r e nt lo lp ok = rw (==_ne type 0 nt) (
    arm_new-watch k path type (find_free k.arms) p r refl lo lp (find-watch k.current path k.arms e)
      (rw (==_ne type 0 nt) at ok))

-- A process that arms a descriptor, and is not refused, then has a watch of that type on it, whether
-- it had one before or not; every other watch of every process stays.
pub arm_read-watch :
    (k : Kernel) (path type p r : ℕ)
    → 0 < k.current
    → 0 < p
    → type ≢ 0
    → (arm_read k path type).0 ≡ pos 0
    → watch p r (arm_read k path type).1.arms
      ≡ (if p == k.current && r == path then some type else watch p r k.arms)
unfolding arm_read
arm_read-watch k path type p r lo lp nt ok =
    arm_at-watch k path type (find_arm k.current path k.arms) p r refl nt lo lp ok

drop-watch :
    (pid : ℕ) (l : List Arm) (p r : ℕ)
    → 0 < pid
    → 0 < p
    → watch p r (drop_arms pid l) ≡ (if p == pid then none else watch p r l)
unfolding watch drop_arms
drop-watch pid [] p r lo lp = ground arith
drop-watch pid (a ∷ l) p r lo lp = ground (arith, drop-watch pid l p r)

-- The pulses of an inbox that do not come from the kernel.
unfoldable pub spoken : List Pulse → List Pulse
spoken [] = []
spoken (p ∷ ps) = if p.from == 0 then spoken ps else p ∷ spoken ps

drop_fired-inbox :
    (pid : ℕ) (ps : List Pulse) → inbox pid (drop_fired pid ps) ≡ spoken (inbox pid ps)
unfolding inbox drop_fired spoken
drop_fired-inbox pid [] = refl
drop_fired-inbox pid (p ∷ ps) = ground (arith, drop_fired-inbox pid ps)

drop_fired-other :
    (pid other : ℕ) (ps : List Pulse)
    → other ≢ pid
    → inbox other (drop_fired pid ps) ≡ inbox other ps
unfolding inbox drop_fired
drop_fired-other pid other [] ne = refl
drop_fired-other pid other (p ∷ ps) ne = ground (arith, drop_fired-other pid other ps)

drop_fired-length :
    (pid : ℕ) (ps : List Pulse) → length (drop_fired pid ps) + count_fired pid ps ≡ length ps
unfolding drop_fired
drop_fired-length pid [] = omega arith
drop_fired-length pid (p ∷ ps) = ground (arith, drop_fired-length pid ps)

-- After a process has disarmed its reads it has no watch and no pulse that a watch has sent; pulses
-- that other processes sent it stay in their order, and so does everything of other processes.
pub disarm_reads-silent :
    (k : Kernel) (p r other : ℕ)
    → 0 < k.current
    → 0 < p
    → other ≢ k.current
    → (watch p r (disarm_reads k).1.arms ≡ (if p == k.current then none else watch p r k.arms))
      × (inbox k.current (disarm_reads k).1.pulses ≡ spoken (inbox k.current k.pulses))
      × (inbox other (disarm_reads k).1.pulses ≡ inbox other k.pulses)
      × (length (disarm_reads k).1.pulses + (disarm_reads k).0
          ≡ length k.pulses + count_arms k.current k.arms)
unfolding disarm_reads
disarm_reads-silent k p r other lo lp ne = (
  drop-watch k.current k.arms p r lo lp,
  drop_fired-inbox k.current k.pulses,
  drop_fired-other k.current other k.pulses ne,
  omega (arith, drop_fired-length k.current k.pulses),
)
