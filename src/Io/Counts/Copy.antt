-- ===== src/Io/Counts/Copy.antt =====
-- kernel/io.c: dup, what a child inherits, and opening a device under a given number keep the counts.
use ubiqos.Common.{
  ◌==◌, if◌then◌else◌, ==_refl, ==_ne, has_some, for_below, ℕ, zero, suc, ◌≤◌, ◌<◌, ◌≡◌, refl, sym,
  subst, inl, inr, Bool, true, false, not, ◌||◌, Option, none, some, List, [], ◌∷◌, ◌++◌, arith,
}
use ubiqos.Common.Int.{ℤ, pos, negsuc, failed}
use ubiqos.Io.State.{
  PathEntry, Io, set_path, put_path, device_at, index_in, is_free, max_procs, max_paths,
  driver_open, driver_close,
}
use ubiqos.Io.Open.{call_open, open_as_at, open_as_by, io_open_as}
use ubiqos.Io.Close.{
  file_release, file_release_of, pipe_release, pipe_release_of, device_shared, call_close,
  close_device, close_at, copy_path, inherit_between, io_inherit, dup_to, dup_over, dup_new,
  names_something, dup_by, io_dup,
}
use ubiqos.Io.Counts.{IsSingle, Counted, same_counts}
use ubiqos.Io.Counts.Slots.{index_in-some, index_in-pos}
use ubiqos.Io.Counts.Release.{copy_path-paths, copy_path-Counted}
use ubiqos.Io.Counts.Make.{IsVacant, is_free-IsVacant}
use ubiqos.Io.Counts.Steps.{free_fd, device-Counted, close_at-Counted}

put_path_same :
    (paths : ℕ → ℕ → PathEntry) (pid fd : ℕ) (p : PathEntry) → put_path paths pid fd p pid fd ≡ p
put_path_same paths pid fd p = rw (==_refl pid, ==_refl fd) refl

put_path-IsVacant :
    (paths : ℕ → ℕ → PathEntry) (pid fd : ℕ) (p : PathEntry)
    → IsVacant p
    → IsVacant (put_path paths pid fd p pid fd)
put_path-IsVacant paths pid fd p h = subst IsVacant (sym (put_path_same paths pid fd p)) h

module _ (has_close : ℕ → Bool) (io : Io) (pid fd : ℕ) where
  file_release-IsVacant :
      (s : ℕ)
      → (io.paths pid fd).pipe ≡ none
      → IsVacant ((file_release_of io pid fd (some s)).paths pid fd)
  unfolding file_release_of
  file_release-IsVacant s e = put_path-IsVacant io.paths pid fd _ (refl, e)

  pipe_release-IsVacant :
      (q : ℕ) (b : Option ℕ) (w : Bool)
      → (io.paths pid fd).file ≡ none
      → IsVacant ((pipe_release_of io pid fd (some q) b w).paths pid fd)
  unfolding pipe_release_of
  pipe_release-IsVacant q (some b) w e = put_path-IsVacant io.paths pid fd _ (e, refl)
  pipe_release-IsVacant q none true e = put_path-IsVacant io.paths pid fd _ (e, refl)
  pipe_release-IsVacant q none false e = put_path-IsVacant io.paths pid fd _ (e, refl)

  close_device-IsVacant :
      (d : Option ℕ)
      → IsVacant (io.paths pid fd)
      → IsVacant ((close_device has_close io pid fd d).1.paths pid fd)
  unfolding close_device call_close
  close_device-IsVacant none h = h
  close_device-IsVacant (some d) h =
      by_shared (device_shared max_paths io pid fd d) (has_close (device_at io d).driver)
    where
      by_shared :
          (b c : Bool)
          → let called : Io =
              if b
              then io
              else (if c
                  then record io { calls = io.calls ++ driver_close (device_at io d).driver ∷ [] }
                  else io) in
            IsVacant
              ((set_path called pid fd (record (io.paths pid fd) { device = none })).paths pid fd)
      by_shared true c = put_path-IsVacant io.paths pid fd _ h
      by_shared false true = put_path-IsVacant io.paths pid fd _ h
      by_shared false false = put_path-IsVacant io.paths pid fd _ h

  -- A closed descriptor is on no file and no pipe.
  pub close_at-IsVacant :
      IsSingle (io.paths pid fd) → IsVacant ((close_at has_close io pid fd).1.paths pid fd)
  unfolding close_at file_release pipe_release
  close_at-IsVacant one = by_kind (io.paths pid fd).file (io.paths pid fd).pipe refl refl
    where
      by_kind :
          (f q : Option ℕ)
          → (io.paths pid fd).file ≡ f
          → (io.paths pid fd).pipe ≡ q
          → let r : ℤ × Io =
              if has_some f
              then (pos 0, file_release_of io pid fd f)
              else (if has_some q
                  then (
                    pos 0,
                    pipe_release_of io pid fd q
                        (io.paths pid fd).pipe_back
                        (io.paths pid fd).pipe_write,
                  )
                  else close_device has_close io pid fd (io.paths pid fd).device) in
            IsVacant (r.1.paths pid fd)
      by_kind (some s) q ef eq = file_release-IsVacant s (elim one.0 [ inl e ↦ cc | inr e ↦ e ])
      by_kind none (some q) ef eq = pipe_release-IsVacant q _ _ ef
      by_kind none none ef eq = close_device-IsVacant (io.paths pid fd).device (ef, eq)

module _ (has_close : ℕ → Bool) (pid fd : ℕ) (lp : pid < 24) (lf : fd < 12) where
  dup_to-Counted :
      (io : Io) (new : Option ℕ)
      → ((i : ℕ) → new ≡ some i → (i < 12) × IsVacant (io.paths pid i))
      → Counted io
      → Counted (dup_to has_close io pid fd new).1
  unfolding dup_to
  dup_to-Counted io none h v = v
  dup_to-Counted io (some i) h v =
      let (li, vac) = h i refl in
      copy_path-Counted pid i lp li io (io.paths pid fd) vac.0 vac.1 (v.single pid fd) v

  dup_over-Counted :
      (io : Io) (new : Option ℕ)
      → ((i : ℕ) → new ≡ some i → i < 12)
      → Counted io
      → Counted (dup_over has_close io pid fd new).1
  unfolding dup_over
  dup_over-Counted io none h v = v
  dup_over-Counted io (some i) h v = by_same (i == fd)
    where
      by_same :
          (b : Bool)
          → let r : ℤ × Io =
              if b
              then (pos fd, io)
              else dup_to has_close (close_at has_close io pid i).1 pid fd (some i) in
            Counted r.1
      by_same true = v
      by_same false =
          dup_to-Counted (close_at has_close io pid i).1 (some i)
            (λ j e.
              let k : i ≡ j = cc in
              subst (λ x. (x < 12) × IsVacant ((close_at has_close io pid i).1.paths pid x)) k
                (h i refl, close_at-IsVacant has_close io pid i (v.single pid i)))
            (close_at-Counted has_close io pid i lp (h i refl) v)

  dup_new-Counted : (io : Io) (new : ℤ) → Counted io → Counted (dup_new has_close io pid fd new).1
  unfolding dup_new
  dup_new-Counted io (negsuc n) v = dup_to-Counted io _ (free_fd io pid is_free is_free-IsVacant) v
  dup_new-Counted io (pos n) v =
      dup_over-Counted io (index_in max_paths (pos n)) (λ i e. index_in-some max_paths (pos n) i e)
        v

  dup_at-Counted :
      (io : Io) (new : ℤ) → Counted io → Counted (dup_by has_close io (some pid) (some fd) new).1
  unfolding dup_by
  dup_at-Counted io new v = by_use (names_something (io.paths pid fd))
    where
      by_use : (b : Bool) → Counted (if b then dup_new has_close io pid fd new else (failed, io)).1
      by_use true = dup_new-Counted io new v
      by_use false = v

module _ (has_close : ℕ → Bool) where
  pub io_dup-Counted :
      (io : Io) (path new owner : ℤ) → Counted io → Counted (io_dup has_close io path new owner).1
  unfolding io_dup dup_by
  io_dup-Counted io path new owner v =
      by_index (index_in max_procs owner) (index_in max_paths path) refl refl
    where
      by_index :
          (o p : Option ℕ)
          → index_in max_procs owner ≡ o
          → index_in max_paths path ≡ p
          → Counted (dup_by has_close io o p new).1
      by_index none p eo ep = v
      by_index (some pid) none eo ep = v
      by_index (some pid) (some fd) eo ep =
          dup_at-Counted has_close pid fd (index_in-some max_procs owner pid eo)
            (index_in-some max_paths path fd ep) io new v

-- The slots of the child that the loop has not come to are as before.
Untouched : Io → ℕ → ℕ → Io → Type 0
Untouched io child n k = (j : ℕ) → n ≤ j → k.paths child j ≡ io.paths child j

abbrev inherit_round : ℕ → ℕ → ℕ → Io → Io
inherit_round parent child fd k = copy_path k child fd (k.paths parent fd)

inherit_round-Untouched :
    (io : Io) (parent child n : ℕ) (k : Io)
    → Untouched io child n k
    → Untouched io child (suc n) (inherit_round parent child n k)
unfolding Untouched
inherit_round-Untouched io parent child n k h j le =
    rw
      (
        copy_path-paths k child n (k.paths parent n),
        ==_refl child,
        ==_ne j n (λ e. omega (arith, e, le)),
      )
      (h j (omega arith))

inherit_loop-Counted :
    (io : Io) (parent child : ℕ)
    → child < 24
    → ((fd : ℕ) → fd < 12 → IsVacant (io.paths child fd))
    → Counted io
    → (n : ℕ) → n ≤ 12
    → Counted (for_below n (inherit_round parent child) io)
      × Untouched io child n (for_below n (inherit_round parent child) io)
unfolding for_below Untouched
inherit_loop-Counted io parent child lc vac v zero le = (v, λ j l. refl)
inherit_loop-Counted io parent child lc vac v (suc n) le =
    let k : Io = for_below n (inherit_round parent child) io in
    let (c, u) = inherit_loop-Counted io parent child lc vac v n (omega arith) in
    let same : k.paths child n ≡ io.paths child n = u n (omega arith) in
    (
      copy_path-Counted child n lc (omega arith) k (k.paths parent n)
          (rw same (vac n (omega arith)).0) (rw same (vac n (omega arith)).1) (c.single parent n) c,
      inherit_round-Untouched io parent child n k u,
    )

-- A child whose slots are on no file and no pipe.
pub io_inherit-Counted :
    (io : Io) (parent : ℤ) (child : ℕ)
    → ((fd : ℕ) → fd < 12 → IsVacant (io.paths child fd))
    → Counted io
    → Counted (io_inherit io parent (pos child))
unfolding io_inherit inherit_between
io_inherit-Counted io parent child vac v =
    by_index (index_in max_procs parent) (index_in max_procs (pos child)) refl
  where
    by_index :
        (p c : Option ℕ) → index_in max_procs (pos child) ≡ c → Counted (inherit_between io p c)
    by_index none c e = v
    by_index (some p) none e = v
    by_index (some p) (some c) e =
        let (lt, same) = index_in-pos max_procs child c e in
        (inherit_loop-Counted io p c lt (λ fd lf. rw same (vac fd lf)) v 12 (omega arith)).0

module _ (has_open open_ok : ℕ → Bool) where
  open_as_at-Counted :
      (io : Io) (pid fd : ℕ) (d : Option ℕ)
      → pid < 24
      → fd < 12
      → Counted io
      → Counted (open_as_at has_open open_ok io pid fd d).1
  unfolding open_as_at call_open
  open_as_at-Counted io pid fd none lp lf v = v
  open_as_at-Counted io pid fd (some d) lp lf v =
      by_result (has_open (device_at io d).driver) (open_ok (device_at io d).driver)
    where
      base : Counted (set_path io pid fd (record (io.paths pid fd) { device = some d }))
      base = device-Counted io pid fd (some d) lp lf v

      by_result :
          (h b : Bool)
          → let called : Io =
              if h
              then record io { calls = io.calls ++ driver_open (device_at io d).driver ∷ [] }
              else io in
            let r : ℤ × Io =
              if not h || b
              then (pos fd, set_path called pid fd (record (io.paths pid fd) { device = some d }))
              else (failed, called) in
            Counted r.1
      by_result true false = same_counts _ _ refl refl refl v
      by_result true true = same_counts _ _ refl refl refl base
      by_result false b = base

  pub io_open_as-Counted :
      (io : Io) (name : List ℕ) (owner path : ℤ)
      → Counted io
      → Counted (io_open_as has_open open_ok io name owner path).1
  unfolding io_open_as open_as_by
  io_open_as-Counted io name owner path v =
      by_index (index_in max_procs owner) (index_in max_paths path) refl refl
    where
      by_index :
          (o p : Option ℕ)
          → index_in max_procs owner ≡ o
          → index_in max_paths path ≡ p
          → Counted (open_as_by has_open open_ok io name o p).1
      by_index none p eo ep = v
      by_index (some pid) none eo ep = v
      by_index (some pid) (some fd) eo ep =
          open_as_at-Counted io pid fd _ (index_in-some max_procs owner pid eo)
            (index_in-some max_paths path fd ep) v
