-- ===== src/Io/Counts/Make.antt =====
-- kernel/io.c: opening a file, a pipe and a two-way pair keep the counts.
use ubiqos.Common.{
  ◌==◌, if◌then◌else◌, ==_refl, ==_ne, has_some, put, ℕ, ◌+◌, ◌<◌, ◌≡◌, refl, sym, subst, inl, inr,
  Bool, true, false, not, ◌&&◌, ◌||◌, Option, none, some, List, [], ◌∷◌, ◌++◌, arith, ℕ_discrete,
}
use ubiqos.Common.Int.{ℤ, pos, failed}
use ubiqos.Io.State.{device_at, driver_open, set_path, PathEntry, Io, put_path, is_free, Ring, Pair}
use ubiqos.Io.Open.{
  holds_none, take_device, call_open, open_slot, file_name, file_in, is_idle, fresh_ring, read_end,
  write_end, pipe_in, crossed, pair_in,
}
use ubiqos.Io.Counts.{
  same_counts, IsSingle, put_path-IsSingle, ind, has_file, reads_of, writes_of, reads, writes,
  holders, Counted, holders-set, recount,
}
use ubiqos.Io.Counts.Release.{no_pipe-reads, no_pipe-writes}

-- A slot that names no file and no pipe.
abbrev pub IsVacant : PathEntry → Type 0
IsVacant p = (p.file ≡ none) × (p.pipe ≡ none)

pub holds_none-IsVacant : (p : PathEntry) → holds_none p ≡ true → IsVacant p
holds_none-IsVacant p h = by_fields p.device p.file p.pipe h
  where
    by_fields :
        (d f q : Option ℕ)
        → (not (has_some d) && not (has_some f) && not (has_some q)) ≡ true
        → (f ≡ none) × (q ≡ none)
    by_fields none none none h = (refl, refl)
    by_fields (some d) f q h = cc
    by_fields none (some f) q h = cc
    by_fields none none (some q) h = cc

pub is_free-IsVacant : (p : PathEntry) → is_free p ≡ true → IsVacant p
is_free-IsVacant p h = ground arith

-- When two descriptors change, one after the other.
pub recount_two :
    (io l : Io) (pid a b : ℕ) (p q : PathEntry)
    → pid < 24
    → a < 12
    → b < 12
    → l.paths ≡ put_path (put_path io.paths pid a p) pid b q
    → IsVacant (io.paths pid a)
    → IsVacant (put_path io.paths pid a p pid b)
    → ((s : ℕ) → (l.files s).refs ≡ (io.files s).refs + has_file s p + has_file s q)
    → ((r : ℕ) → (l.pipes r).readers ≡ (io.pipes r).readers + reads r p + reads r q)
    → ((r : ℕ) → (l.pipes r).writers ≡ (io.pipes r).writers + writes r p + writes r q)
    → IsSingle p
    → IsSingle q
    → Counted io
    → Counted l
recount_two io l pid a b p q lp la lb e va vb hf hr hw hp hq v = record {
  refs = λ s. rw e (both (has_file s) _ _ (rw va.0 refl) (rw vb.0 refl) (hf s) (v.refs s));
  readers = λ r. rw e (
      both (reads r) _ _ (no_pipe-reads r _ _ _ va.1) (no_pipe-reads r _ _ _ vb.1) (hr r)
        (v.readers r));
  writers = λ r. rw e (
      both (writes r) _ _ (no_pipe-writes r _ _ _ va.1) (no_pipe-writes r _ _ _ vb.1) (hw r)
        (v.writers r));
  single = λ i j. rw e (
      put_path-IsSingle (put_path io.paths pid a p) pid b q
        (put_path-IsSingle io.paths pid a p v.single hp) hq i j);
}
  where
    both :
        (f : PathEntry → ℕ) (n m : ℕ)
        → f (io.paths pid a) ≡ 0
        → f (put_path io.paths pid a p pid b) ≡ 0
        → n ≡ m + f p + f q
        → m ≡ holders f io.paths
        → n ≡ holders f (put_path (put_path io.paths pid a p) pid b q)
    both f n m za zb hn hm =
        add_up _ _ _ _ _ _ _ za zb hn hm (holders-set f io.paths pid a lp la p)
          (holders-set f (put_path io.paths pid a p) pid b lp lb q)
      where
        add_up :
            (x y z w fp fq g : ℕ)
            → z ≡ 0
            → w ≡ 0
            → n ≡ m + fp + fq
            → m ≡ g
            → x + z ≡ g + fp
            → y + w ≡ x + fq
            → n ≡ y
        add_up x y z w fp fq g za zb hn hm h k = omega (arith, za, zb, hn, hm, h, k)

is_idle-zero : (r : Ring) → is_idle r ≡ true → (r.readers ≡ 0) × (r.writers ≡ 0)
is_idle-zero r h = ground arith

pub file_in-Counted :
    (io : Io) (pid : ℕ) (path : List ℕ) (slot fd : Option ℕ)
    → pid < 24
    → ((s : ℕ) → slot ≡ some s → (io.files s).refs ≡ 0)
    → ((i : ℕ) → fd ≡ some i → (i < 12) × IsVacant (io.paths pid i))
    → Counted io
    → Counted (file_in io pid path slot fd).1
unfolding file_in
file_in-Counted io pid path none fd lp hs hf v = v
file_in-Counted io pid path (some slot) none lp hs hf v = v
file_in-Counted io pid path (some slot) (some fd) lp hs hf v =
    let (lf, va) = hf fd refl in
    recount io _ pid fd (record (io.paths pid fd) { file = some slot }) lp lf refl
      (λ s. rw va.0 (files s)) (λ r. refl) (λ r. refl) (inr va.1, (v.single pid fd).1) v
  where
    files :
        (s : ℕ)
        → (put io.files slot (record { path = file_name path; pos_ = 0; refs = 1 }) s).refs + 0
          ≡ (io.files s).refs + ind (slot == s)
    files s = elim (ℕ_discrete s slot) [
      | yes e ↦ rw (e, ==_refl slot, hs slot refl) refl
      | no ne ↦ rw (==_ne s slot ne, ==_ne slot s (λ e. ne (sym e))) refl
    ]

-- The counts of a ring that was idle and now has a reader and a writer.
fresh_counts :
    (rings : ℕ → Ring) (q r : ℕ)
    → is_idle (rings q) ≡ true
    → ((put rings q (fresh_ring (rings q)) r).readers ≡ (rings r).readers + ind (q == r))
      × ((put rings q (fresh_ring (rings q)) r).writers ≡ (rings r).writers + ind (q == r))
fresh_counts rings q r h = elim (ℕ_discrete r q) [
  | yes e ↦
      let z = is_idle-zero (rings q) h in rw (e, ==_refl q) (omega (arith, z.0), omega (arith, z.1))
  | no ne ↦ rw (==_ne r q ne, ==_ne q r (λ e. ne (sym e))) (omega arith, omega arith)
]

pub pipe_in-Counted :
    (io : Io) (pid : ℕ) (ring : Option ℕ) (fds : Option Pair)
    → pid < 24
    → ((q : ℕ) → ring ≡ some q → is_idle (io.pipes q) ≡ true)
    → ((t : Pair)
        → fds ≡ some t
        → (t.first < t.second)
          × (t.second < 12)
          × IsVacant (io.paths pid t.first)
          × IsVacant (io.paths pid t.second))
    → Counted io
    → Counted (pipe_in io pid ring fds).1
unfolding pipe_in reads_of writes_of
pipe_in-Counted io pid none fds lp hq hf v = v
pipe_in-Counted io pid (some q) none lp hq hf v = v
pipe_in-Counted io pid (some q) (some t) lp hq hf v =
    let (lt, lb, va, vb) = hf t refl in
    let same : put_path io.paths pid t.first (read_end (io.paths pid t.first) q) pid t.second
        ≡ io.paths pid t.second =
      rw (==_refl pid, ==_ne t.second t.first (λ e. omega (arith, lt, e))) refl in
    recount_two io _ pid t.first t.second (read_end (io.paths pid t.first) q)
      (write_end (put_path io.paths pid t.first (read_end (io.paths pid t.first) q) pid t.second) q)
      lp (omega (arith, lt, lb)) lb refl va (rw same vb) (λ s. rw (same, va.0, vb.0) (omega arith))
      (λ r. let c = fresh_counts io.pipes q r (hq q refl) in omega (arith, c.0))
      (λ r. let c = fresh_counts io.pipes q r (hq q refl) in omega (arith, c.1)) (inl va.0, λ e. cc)
      (inl (rw same vb.0), λ e. cc) v

pub pair_in-Counted :
    (io : Io) (pid : ℕ) (rings fds : Option Pair)
    → pid < 24
    → ((q : Pair)
        → rings ≡ some q
        → (q.first < q.second)
          × (is_idle (io.pipes q.first) ≡ true)
          × (is_idle (io.pipes q.second) ≡ true))
    → ((t : Pair)
        → fds ≡ some t
        → (t.first < t.second)
          × (t.second < 12)
          × IsVacant (io.paths pid t.first)
          × IsVacant (io.paths pid t.second))
    → Counted io
    → Counted (pair_in io pid rings fds).1
unfolding pair_in reads_of writes_of
pair_in-Counted io pid none fds lp hq hf v = v
pair_in-Counted io pid (some q) none lp hq hf v = v
pair_in-Counted io pid (some q) (some t) lp hq hf v =
    let (lt, lb, va, vb) = hf t refl in
    let (lq, ia, ib) = hq q refl in
    let same : put_path io.paths pid t.first (crossed (io.paths pid t.first) q.first q.second) pid
          t.second
        ≡ io.paths pid t.second =
      rw (==_refl pid, ==_ne t.second t.first (λ e. omega (arith, lt, e))) refl in
    recount_two io _ pid t.first t.second (crossed (io.paths pid t.first) q.first q.second)
      (crossed
        (put_path io.paths pid t.first (crossed (io.paths pid t.first) q.first q.second) pid
          t.second)
        q.second q.first)
      lp (omega (arith, lt, lb)) lb refl va (rw same vb) (λ s. rw (same, va.0, vb.0) (omega arith))
      (λ r. (counts lq ia ib r).0) (λ r. (counts lq ia ib r).1) (inl va.0, λ e. cc)
      (inl (rw same vb.0), λ e. cc) v
  where
    counts :
        q.first < q.second
        → is_idle (io.pipes q.first) ≡ true
        → is_idle (io.pipes q.second) ≡ true
        → (r : ℕ)
        → let rings =
            put
              (put io.pipes q.first (fresh_ring (io.pipes q.first)))
              q.second
              (fresh_ring (io.pipes q.second)) in
          ((rings r).readers ≡ (io.pipes r).readers + ind (q.first == r) + ind (q.second == r))
          × ((rings r).writers ≡ (io.pipes r).writers + ind (q.second == r) + ind (q.first == r))
    counts lq ia ib r =
        let mid : ℕ → Ring = put io.pipes q.first (fresh_ring (io.pipes q.first)) in
        let same : mid q.second ≡ io.pipes q.second =
          rw (==_ne q.second q.first (λ e. omega (arith, lq, e))) refl in
        let one = fresh_counts io.pipes q.first r ia in
        let two =
          subst
            (λ x.
              ((put mid q.second (fresh_ring x) r).readers ≡ (mid r).readers + ind (q.second == r))
              × ((put mid q.second (fresh_ring x) r).writers
                  ≡ (mid r).writers + ind (q.second == r)))
            same (fresh_counts mid q.second r (rw same ib)) in
        (omega (arith, one.0, two.0), omega (arith, one.1, two.1))

pub open_slot-Counted :
    (has_open open_ok : ℕ → Bool) (io : Io) (pid d : ℕ) (fd : Option ℕ)
    → pid < 24
    → ((i : ℕ) → fd ≡ some i → (i < 12) × IsVacant (io.paths pid i))
    → Counted io
    → Counted (open_slot has_open open_ok io pid d fd).1
unfolding open_slot call_open reads_of writes_of
open_slot-Counted has_open open_ok io pid d none lp hf v = v
open_slot-Counted has_open open_ok io pid d (some fd) lp hf v =
    by_result (has_open (device_at io d).driver) (open_ok (device_at io d).driver)
  where
    called : Bool → Io
    called h =
        if h then record io { calls = io.calls ++ driver_open (device_at io d).driver ∷ [] } else io

    base : Counted (set_path io pid fd (take_device (io.paths pid fd) d))
    base =
        let (lf, va) = hf fd refl in
        recount io _ pid fd (take_device (io.paths pid fd) d) lp lf refl (λ s. rw va.0 refl)
          (λ r.
            rw (no_pipe-reads r _ (io.paths pid fd).pipe_back (io.paths pid fd).pipe_write va.1)
              refl)
          (λ r.
            rw (no_pipe-writes r _ (io.paths pid fd).pipe_back (io.paths pid fd).pipe_write va.1)
              refl)
          (inl refl, λ e. refl) v

    opened : (h : Bool) → Counted (set_path (called h) pid fd (take_device (io.paths pid fd) d))
    opened true = same_counts _ _ refl refl refl base
    opened false = base

    by_result :
        (h b : Bool)
        → let r : ℤ × Io =
            if not h || b
            then (pos fd, set_path (called h) pid fd (take_device (io.paths pid fd) d))
            else (failed, called h) in
          Counted r.1
    by_result true false = same_counts _ _ refl refl refl v
    by_result true true = opened true
    by_result false b = opened false
