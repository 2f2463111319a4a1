-- ===== src/Io/Counts/Release.antt =====
-- kernel/io.c: letting a descriptor go, and copying one, keep the counts.
use ubiqos.Common.{
  ◌==◌, opt_eq, ℕ, ◌+◌, ◌-◌, ◌≤◌, ◌<◌, ◌≡◌, refl, sym, ap, ◌∙◌, subst, inl, inr, Bool, true, false,
  Option, none, some, arith,
}
use ubiqos.Io.State.{PathEntry, Io, set_path, put_path}
use ubiqos.Io.Close.{
  fewer_refs, fewer_readers, fewer_writers, more_refs, more_readers, more_writers, file_release_of,
  file_release, pipe_release_of, pipe_release, share_file, share_pipe, share, copy_path,
}
use ubiqos.Io.Counts.{
  IsSingle, ind, has_file, reads_of, writes_of, reads, writes, Counted, holders-has, recount,
}

-- The counts after each of the steps on one of them.
module _ (io : Io) (q r : ℕ) where
  fewer_refs-refs : ((fewer_refs io q).files r).refs ≡ (io.files r).refs - ind (q == r)
  fewer_refs-refs = ground arith

  more_refs-refs : ((more_refs io q).files r).refs ≡ (io.files r).refs + ind (q == r)
  more_refs-refs = ground arith

  fewer_readers-readers :
      ((fewer_readers io q).pipes r).readers ≡ (io.pipes r).readers - ind (q == r)
  fewer_readers-readers = ground arith

  fewer_readers-writers : ((fewer_readers io q).pipes r).writers ≡ (io.pipes r).writers
  fewer_readers-writers = ground arith

  fewer_writers-writers :
      ((fewer_writers io q).pipes r).writers ≡ (io.pipes r).writers - ind (q == r)
  fewer_writers-writers = ground arith

  fewer_writers-readers : ((fewer_writers io q).pipes r).readers ≡ (io.pipes r).readers
  fewer_writers-readers = ground arith

  more_readers-readers : ((more_readers io q).pipes r).readers ≡ (io.pipes r).readers + ind (q == r)
  more_readers-readers = ground arith

  more_readers-writers : ((more_readers io q).pipes r).writers ≡ (io.pipes r).writers
  more_readers-writers = ground arith

  more_writers-writers : ((more_writers io q).pipes r).writers ≡ (io.pipes r).writers + ind (q == r)
  more_writers-writers = ground arith

  more_writers-readers : ((more_writers io q).pipes r).readers ≡ (io.pipes r).readers
  more_writers-readers = ground arith

-- What sharing adds to each count.
share_file-refs :
    (io : Io) (o : Option ℕ) (s : ℕ)
    → ((share_file io o).files s).refs ≡ (io.files s).refs + ind (opt_eq o s)
unfolding share_file
share_file-refs io none s = omega arith
share_file-refs io (some t) s = more_refs-refs io t s

share_file-pipes : (io : Io) (o : Option ℕ) → (share_file io o).pipes ≡ io.pipes
unfolding share_file
share_file-pipes io none = refl
share_file-pipes io (some t) = refl

pub share_file-paths : (io : Io) (o : Option ℕ) → (share_file io o).paths ≡ io.paths
unfolding share_file
share_file-paths io none = refl
share_file-paths io (some t) = refl

share_pipe-files : (io : Io) (o b : Option ℕ) (w : Bool) → (share_pipe io o b w).files ≡ io.files
unfolding share_pipe
share_pipe-files io none b w = refl
share_pipe-files io (some q) (some b) w = refl
share_pipe-files io (some q) none true = refl
share_pipe-files io (some q) none false = refl

pub share_pipe-paths :
    (io : Io) (o b : Option ℕ) (w : Bool) → (share_pipe io o b w).paths ≡ io.paths
unfolding share_pipe
share_pipe-paths io none b w = refl
share_pipe-paths io (some q) (some b) w = refl
share_pipe-paths io (some q) none true = refl
share_pipe-paths io (some q) none false = refl

share_pipe-readers :
    (io : Io) (o b : Option ℕ) (w : Bool) (r : ℕ)
    → ((share_pipe io o b w).pipes r).readers ≡ (io.pipes r).readers + reads_of r o b w
unfolding share_pipe reads_of
share_pipe-readers io none b w r = omega arith
share_pipe-readers io (some q) (some b) w r =
    more_writers-readers (more_readers io q) b r ∙ more_readers-readers io q r
share_pipe-readers io (some q) none true r = more_writers-readers io q r ∙ omega arith
share_pipe-readers io (some q) none false r = more_readers-readers io q r

share_pipe-writers :
    (io : Io) (o b : Option ℕ) (w : Bool) (r : ℕ)
    → ((share_pipe io o b w).pipes r).writers ≡ (io.pipes r).writers + writes_of r o b w
unfolding share_pipe writes_of
share_pipe-writers io none b w r = omega arith
share_pipe-writers io (some q) (some b) w r =
    more_writers-writers (more_readers io q) b r
    ∙ ap (λ n. n + ind (b == r)) (more_readers-writers io q r)
share_pipe-writers io (some q) none true r = more_writers-writers io q r
share_pipe-writers io (some q) none false r = more_readers-writers io q r ∙ omega arith

pub no_pipe-reads : (r : ℕ) (o b : Option ℕ) (w : Bool) → o ≡ none → reads_of r o b w ≡ 0
unfolding reads_of
no_pipe-reads r none b w e = refl
no_pipe-reads r (some q) b w e = cc

pub no_pipe-writes : (r : ℕ) (o b : Option ℕ) (w : Bool) → o ≡ none → writes_of r o b w ≡ 0
unfolding writes_of
no_pipe-writes r none b w e = refl
no_pipe-writes r (some q) b w e = cc

plus_nothing : (n m z : ℕ) → z ≡ 0 → n ≡ m → n + z ≡ m
plus_nothing n m z h e = omega (arith, h, e)

back_again : (n m : ℕ) → m ≤ n → (n - m) + m ≡ n + 0
back_again n m le = omega arith

-- Only the slot itself changes.
pub copy_path-paths :
    (io : Io) (pid fd : ℕ) (p : PathEntry)
    → (copy_path io pid fd p).paths ≡ put_path io.paths pid fd p
unfolding copy_path share
copy_path-paths io pid fd p =
    share_pipe-paths (share_file (set_path io pid fd p) p.file) p.pipe p.pipe_back p.pipe_write
    ∙ share_file-paths (set_path io pid fd p) p.file

module _ (pid fd : ℕ) (lp : pid < 24) (lf : fd < 12) where
  pub file_release-Counted : (io : Io) → Counted io → Counted (file_release io pid fd)
  unfolding file_release file_release_of
  file_release-Counted io v = by_file (io.paths pid fd).file refl
    where
      by_file : (o : Option ℕ) → (io.paths pid fd).file ≡ o → Counted (file_release_of io pid fd o)
      by_file none e = v
      by_file (some t) e =
          recount io _ pid fd (record (io.paths pid fd) { file = none }) lp lf refl
            (λ s. rw (fewer_refs-refs io t s) (rw e (back_again _ _ (held s)))) (λ r. refl)
            (λ r. refl) (inl refl, (v.single pid fd).1) v
        where
          held : (s : ℕ) → ind (t == s) ≤ (io.files s).refs
          held s =
              subst (λ o. ind (opt_eq o s) ≤ (io.files s).refs) e
                (subst (λ n. has_file s (io.paths pid fd) ≤ n) (sym (v.refs s))
                  (holders-has (has_file s) io.paths pid fd lp lf))

  pub pipe_release-Counted : (io : Io) → Counted io → Counted (pipe_release io pid fd)
  unfolding pipe_release pipe_release_of reads_of writes_of
  pipe_release-Counted io v =
      by_pipe (io.paths pid fd).pipe (io.paths pid fd).pipe_back (io.paths pid fd).pipe_write refl
        refl refl
    where
      reading : (r : ℕ) → reads r (io.paths pid fd) ≤ (io.pipes r).readers
      reading r = rw (v.readers r) (holders-has (reads r) io.paths pid fd lp lf)

      writing : (r : ℕ) → writes r (io.paths pid fd) ≤ (io.pipes r).writers
      writing r = rw (v.writers r) (holders-has (writes r) io.paths pid fd lp lf)

      by_pipe :
          (o b : Option ℕ) (w : Bool)
          → (io.paths pid fd).pipe ≡ o
          → (io.paths pid fd).pipe_back ≡ b
          → (io.paths pid fd).pipe_write ≡ w
          → Counted (pipe_release_of io pid fd o b w)
      by_pipe none b w eo eb ew = v
      by_pipe (some q) (some b) w eo eb ew =
          recount io _ pid fd (record (io.paths pid fd) { pipe = none; pipe_back = none }) lp lf
            refl (λ s. refl)
            (λ r.
              rw (fewer_writers-readers (fewer_readers io q) b r, fewer_readers-readers io q r)
                (rw (eo, eb) (back_again _ _ (rw (eo, eb) at (reading r)))))
            (λ r.
              rw (fewer_writers-writers (fewer_readers io q) b r, fewer_readers-writers io q r)
                (rw (eo, eb) (back_again _ _ (rw (eo, eb) at (writing r)))))
            (inr refl, λ e. refl) v
      by_pipe (some q) none true eo eb ew =
          recount io _ pid fd (record (io.paths pid fd) { pipe = none }) lp lf refl (λ s. refl)
            (λ r. rw (fewer_writers-readers io q r) (rw (eo, eb, ew) refl))
            (λ r.
              rw (fewer_writers-writers io q r)
                (rw (eo, eb, ew) (back_again _ _ (rw (eo, eb, ew) at (writing r)))))
            (inr refl, λ e. eb) v
      by_pipe (some q) none false eo eb ew =
          recount io _ pid fd (record (io.paths pid fd) { pipe = none }) lp lf refl (λ s. refl)
            (λ r.
              rw (fewer_readers-readers io q r)
                (rw (eo, eb, ew) (back_again _ _ (rw (eo, eb, ew) at (reading r)))))
            (λ r. rw (fewer_readers-writers io q r) (rw (eo, eb, ew) refl)) (inr refl, λ e. eb) v

  -- A copy into a slot that holds no file and no pipe.
  pub copy_path-Counted :
      (io : Io) (p : PathEntry)
      → (io.paths pid fd).file ≡ none
      → (io.paths pid fd).pipe ≡ none
      → IsSingle p
      → Counted io
      → Counted (copy_path io pid fd p)
  unfolding copy_path share
  copy_path-Counted io p nf np one v =
      recount io (copy_path io pid fd p) pid fd p lp lf (copy_path-paths io pid fd p)
        (λ s. plus_nothing _ _ _ (rw nf refl) (rw files (share_file-refs k p.file s)))
        (λ r. plus_nothing _ _ _ (no_pipe-reads r _ _ _ np) (
          share_pipe-readers (share_file k p.file) p.pipe p.pipe_back p.pipe_write r
          ∙ rw (share_file-pipes k p.file) refl))
        (λ r. plus_nothing _ _ _ (no_pipe-writes r _ _ _ np) (
          share_pipe-writers (share_file k p.file) p.pipe p.pipe_back p.pipe_write r
          ∙ rw (share_file-pipes k p.file) refl))
        one v
    where
      k : Io
      k = set_path io pid fd p

      files : (copy_path io pid fd p).files ≡ (share_file k p.file).files
      files = share_pipe-files (share_file k p.file) p.pipe p.pipe_back p.pipe_write
