-- ===== src/Io/Register/Once.antt =====
-- kernel/io.c: a driver of the module directory is linked once.
use ubiqos.Common.{
  leb, if◌then◌else◌, Bool-cases, length, ℕ, ◌≡◌, refl, ap, subst, ◌≢◌, inl, inr, Bool, true, false,
  Option, none, some, List, [], ◌∷◌, ◌++◌,
}
use ubiqos.Io.State.{Driver, Io}
use ubiqos.Io.Register.{name_eq_ci, find_driver, start_driver, driver_from_module, driver_for}

find_driver-append :
    (ds : List Driver) (d : Driver) (name : List ℕ)
    → find_driver ds name ≡ none
    → name_eq_ci d.module_name name ≡ true
    → find_driver (ds ++ d ∷ []) name ≡ some d.number
unfolding find_driver
find_driver-append [] d name h e = rw e refl
find_driver-append (c ∷ ds) d name h e = elim (Bool-cases (name_eq_ci c.module_name name)) [
  | inl t ↦ absurd (let k : some c.number ≡ none = rw t at h in cc)
  | inr f ↦ rw f (find_driver-append ds d name (rw f at h) e)
]

some_apart : {A : Type 0} {x : A} → none ≢ some x
some_apart e = cc

module _ {ℓ} {S : Type ℓ} (link : List ℕ → S → Option Driver × S) (starts : ℕ → Bool)
    (configure : ℕ → Option (Option (List ℕ) → Bool)) where
  -- Asking again for a driver that was found finds the same driver and links nothing, when a driver of
  -- the module directory has the name that it was asked for by, in either case of its letters.
  pub driver_for-again :
      (io : Io) (s : S) (name : List ℕ) (n : ℕ) (k : Io × S)
      → ((d : Driver) → (link name s).0 ≡ some d → name_eq_ci d.module_name name ≡ true)
      → driver_for link starts configure io s name ≡ (some n, k)
      → driver_for link starts configure k.0 k.1 name ≡ (some n, k)
  unfolding driver_for driver_from_module start_driver
  driver_for-again io s name n k named h = by_known (find_driver io.drivers name) refl h
    where
      found :
          (j : Io) (t : S) (m : ℕ)
          → find_driver j.drivers name ≡ some m
          → driver_for link starts configure j t name ≡ (some m, (j, t))
      found j t m e = rw (e, driver_for) refl

      by_start :
          (d : Driver) (b : Bool)
          → find_driver io.drivers name ≡ none
          → (link name s).0 ≡ some d
          → let r : Option ℕ × (Io × S) =
              if b
              then (some d.number, (record io { drivers = io.drivers ++ d ∷ [] }, (link name s).1))
              else (none, (io, (link name s).1)) in
            r ≡ (some n, k) → driver_for link starts configure k.0 k.1 name ≡ (some n, k)
      by_start d false e l q = absurd (some_apart (ap (λ r. r.0) q))
      by_start d true e l q =
          subst (λ r. driver_for link starts configure r.1.0 r.1.1 name ≡ r) q
            (found _ _ d.number (find_driver-append io.drivers d name e (named d l)))

      by_driver :
          (o : Option Driver)
          → find_driver io.drivers name ≡ none
          → (link name s).0 ≡ o
          → start_driver link starts configure io (link name s).1 o ≡ (some n, k)
          → driver_for link starts configure k.0 k.1 name ≡ (some n, k)
      by_driver none e l q = absurd (some_apart (ap (λ r. r.0) q))
      by_driver (some d) e l q = by_start d (starts d.number) e l q

      by_room :
          (b : Bool)
          → find_driver io.drivers name ≡ none
          → let r : Option ℕ × (Io × S) =
              if b
              then (none, (io, s))
              else start_driver link starts configure io (link name s).1 (link name s).0 in
            r ≡ (some n, k) → driver_for link starts configure k.0 k.1 name ≡ (some n, k)
      by_room true e q = absurd (some_apart (ap (λ r. r.0) q))
      by_room false e q = by_driver (link name s).0 e refl q

      by_known :
          (o : Option ℕ)
          → find_driver io.drivers name ≡ o
          → let r : Option ℕ × (Io × S) = elim o [
            | none ↦ driver_from_module link starts configure io s name
            | some d ↦ (some d, (io, s))
          ] in
            r ≡ (some n, k) → driver_for link starts configure k.0 k.1 name ≡ (some n, k)
      by_known (some m) e q =
          subst (λ r. driver_for link starts configure r.1.0 r.1.1 name ≡ r) q (found io s m e)
      by_known none e q = by_room (leb 16 (length io.drivers)) e q
