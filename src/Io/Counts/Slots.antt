-- ===== src/Io/Counts/Slots.antt =====
-- kernel/io.c: what the searches for a free slot give.
use ubiqos.Common.{
  first_slot, first_slot-some, ℕ, suc, ◌-◌, ◌<◌, ◌≡◌, refl, subst, Bool, true, Option, none, some,
  arith,
}
use mathlib.Core.Option.{some-injective}
use ubiqos.Common.Int.{ℤ, pos, negsuc}
use ubiqos.Io.State.{index_in, Pair, pair_with, second_after, first_two}

-- Two different slots, each of which passes the test.
pub first_two-some :
    (n : ℕ) (p : ℕ → Bool) (t : Pair)
    → first_two n p ≡ some t
    → (t.first < t.second) × (t.second < n) × (p t.first ≡ true) × (p t.second ≡ true)
unfolding first_two
first_two-some n p t h = by_first (first_slot n p 0) refl h
  where
    by_second :
        (a : ℕ) (o : Option ℕ)
        → p a ≡ true
        → a < n
        → first_slot (n - suc a) p (suc a) ≡ o
        → pair_with a o ≡ some t
        → (t.first < t.second) × (t.second < n) × (p t.first ≡ true) × (p t.second ≡ true)
    by_second a none pa la e k = cc
    by_second a (some b) pa la e k =
        let (lo, hi, pb) = first_slot-some (n - suc a) p (suc a) b e in
        subst
          (λ t. (t.first < t.second) × (t.second < n) × (p t.first ≡ true) × (p t.second ≡ true))
          (some-injective _ _ k) (omega arith, omega arith, pa, pb)

    by_first :
        (o : Option ℕ)
        → first_slot n p 0 ≡ o
        → second_after n p o ≡ some t
        → (t.first < t.second) × (t.second < n) × (p t.first ≡ true) × (p t.second ≡ true)
    by_first none e k = cc
    by_first (some a) e k =
        let (lo, hi, pa) = first_slot-some n p 0 a e in
        by_second a (first_slot (n - suc a) p (suc a)) pa (omega arith) refl k

pub index_in-some : (max : ℕ) (n : ℤ) (i : ℕ) → index_in max n ≡ some i → i < max
unfolding index_in
index_in-some max (negsuc n) i h = cc
index_in-some max (pos n) i h = ground arith

pub index_in-pos : (max n i : ℕ) → index_in max (pos n) ≡ some i → (i < max) × (i ≡ n)
unfolding index_in
index_in-pos max n i e = ground arith
