-- ===== src/Io/Counts/Empty.antt =====
-- kernel/io.c: a process that has ended holds no descriptor, and the others hold theirs.
use ubiqos.Common.{
  if◌then◌else◌, lt→ltb, ==_refl, ==_ne, for_below, for_below_keeps, for_below_does, ℕ, ◌<◌, ◌≡◌,
  refl, sym, ◌∙◌, subst, ◌≢◌, ◌⊎◌, inl, inr, Bool, true, false, Option, none, some, [], ◌∷◌, ◌++◌,
  ℕ_discrete,
}
use ubiqos.Common.Int.{pos}
use ubiqos.Io.State.{PathEntry, Io, device_at, index_in, driver_close}
use ubiqos.Io.Close.{
  call_close, drop_device, drop_path, close_all_of, io_close_all, pipe_release, file_release,
  file_release_of, pipe_release_of,
}
use ubiqos.Io.Counts.{put_path, Counted, IsPaired}

-- A slot that names nothing at all.
abbrev pub IsEmpty : PathEntry → Type 0
IsEmpty p = (p.device ≡ none) × (p.file ≡ none) × (p.pipe ≡ none) × (p.pipe_back ≡ none)

-- A slot that names nothing, its second ring aside.
abbrev NamesNone : PathEntry → Type 0
NamesNone p = (p.device ≡ none) × (p.file ≡ none) × (p.pipe ≡ none)

put_path_at :
    (paths : ℕ → ℕ → PathEntry) (pid fd : ℕ) (p : PathEntry) → put_path paths pid fd p pid fd ≡ p
put_path_at paths pid fd p = rw (==_refl pid, ==_refl fd) refl

put_path_apart :
    (paths : ℕ → ℕ → PathEntry) (pid fd i j : ℕ) (p : PathEntry)
    → ((i ≢ pid) ⊎ (j ≢ fd))
    → put_path paths pid fd p i j ≡ paths i j
put_path_apart paths pid fd i j p (inl ne) = rw (==_ne i pid ne) refl
put_path_apart paths pid fd i j p (inr ne) = elim (ℕ_discrete i pid) [
  | yes e ↦ rw (e, ==_refl pid, ==_ne j fd ne) refl
  | no n ↦ rw (==_ne i pid n) refl
]

module _ (io : Io) (pid fd : ℕ) where
  file_release-file : ((file_release io pid fd).paths pid fd).file ≡ none
  unfolding file_release file_release_of
  file_release-file = by_file (io.paths pid fd).file refl
    where
      by_file :
          (o : Option ℕ)
          → (io.paths pid fd).file ≡ o
          → ((file_release_of io pid fd o).paths pid fd).file ≡ none
      by_file none e = e
      by_file (some s) e =
          rw (put_path_at io.paths pid fd (record (io.paths pid fd) { file = none })) refl

  pipe_release-pipe : ((pipe_release io pid fd).paths pid fd).pipe ≡ none
  unfolding pipe_release pipe_release_of
  pipe_release-pipe =
      by_pipe (io.paths pid fd).pipe (io.paths pid fd).pipe_back (io.paths pid fd).pipe_write refl
    where
      by_pipe :
          (o b : Option ℕ) (w : Bool)
          → (io.paths pid fd).pipe ≡ o
          → ((pipe_release_of io pid fd o b w).paths pid fd).pipe ≡ none
      by_pipe none b w e = e
      by_pipe (some q) (some b) w e =
          rw
            (put_path_at io.paths pid fd
              (record (io.paths pid fd) { pipe = none; pipe_back = none }))
            refl
      by_pipe (some q) none true e =
          rw (put_path_at io.paths pid fd (record (io.paths pid fd) { pipe = none })) refl
      by_pipe (some q) none false e =
          rw (put_path_at io.paths pid fd (record (io.paths pid fd) { pipe = none })) refl

  pipe_release-file : ((pipe_release io pid fd).paths pid fd).file ≡ (io.paths pid fd).file
  unfolding pipe_release pipe_release_of
  pipe_release-file =
      by_pipe (io.paths pid fd).pipe (io.paths pid fd).pipe_back (io.paths pid fd).pipe_write
    where
      by_pipe :
          (o b : Option ℕ) (w : Bool)
          → ((pipe_release_of io pid fd o b w).paths pid fd).file ≡ (io.paths pid fd).file
      by_pipe none b w = refl
      by_pipe (some q) (some b) w =
          rw
            (put_path_at io.paths pid fd
              (record (io.paths pid fd) { pipe = none; pipe_back = none }))
            refl
      by_pipe (some q) none true =
          rw (put_path_at io.paths pid fd (record (io.paths pid fd) { pipe = none })) refl
      by_pipe (some q) none false =
          rw (put_path_at io.paths pid fd (record (io.paths pid fd) { pipe = none })) refl

  file_release-IsPaired :
      IsPaired (io.paths pid fd) → IsPaired ((file_release io pid fd).paths pid fd)
  unfolding file_release file_release_of
  file_release-IsPaired h = by_file (io.paths pid fd).file
    where
      by_file : (o : Option ℕ) → IsPaired ((file_release_of io pid fd o).paths pid fd)
      by_file none = h
      by_file (some s) =
          subst IsPaired
            (sym (put_path_at io.paths pid fd (record (io.paths pid fd) { file = none }))) h

  pipe_release-back :
      IsPaired (io.paths pid fd) → ((pipe_release io pid fd).paths pid fd).pipe_back ≡ none
  unfolding pipe_release pipe_release_of
  pipe_release-back h = by_pipe _ _ (io.paths pid fd).pipe_write refl refl
    where
      by_pipe :
          (o b : Option ℕ) (w : Bool)
          → (io.paths pid fd).pipe ≡ o
          → (io.paths pid fd).pipe_back ≡ b
          → ((pipe_release_of io pid fd o b w).paths pid fd).pipe_back ≡ none
      by_pipe none b w e eb = h e
      by_pipe (some q) (some b) w e eb =
          rw
            (put_path_at io.paths pid fd
              (record (io.paths pid fd) { pipe = none; pipe_back = none }))
            refl
      by_pipe (some q) none true e eb =
          rw (put_path_at io.paths pid fd (record (io.paths pid fd) { pipe = none })) eb
      by_pipe (some q) none false e eb =
          rw (put_path_at io.paths pid fd (record (io.paths pid fd) { pipe = none })) eb

module _ (has_close : ℕ → Bool) where
  call_close-paths : (io : Io) (d : ℕ) → (call_close has_close io d).paths ≡ io.paths
  unfolding call_close
  call_close-paths io d = by_close (has_close (device_at io d).driver)
    where
      by_close :
          (b : Bool)
          → (if b
              then record io { calls = io.calls ++ driver_close (device_at io d).driver ∷ [] }
              else io).paths
            ≡ io.paths
      by_close true = refl
      by_close false = refl

  drop_device-NamesNone :
      (io : Io) (pid fd : ℕ) (d : Option ℕ)
      → (io.paths pid fd).device ≡ d
      → (io.paths pid fd).file ≡ none
      → (io.paths pid fd).pipe ≡ none
      → NamesNone ((drop_device has_close io pid fd d).paths pid fd)
  unfolding drop_device
  drop_device-NamesNone io pid fd none ed ef ep = (ed, ef, ep)
  drop_device-NamesNone io pid fd (some d) ed ef ep =
      subst NamesNone
        (sym (
          put_path_at (call_close has_close io d).paths pid fd
            (record (io.paths pid fd) { device = none })))
        (refl, ef, ep)

  drop_path-NamesNone :
      (pid fd : ℕ) (io : Io) → NamesNone ((drop_path has_close pid fd io).paths pid fd)
  unfolding drop_path
  drop_path-NamesNone pid fd io =
      let f : Io = file_release io pid fd in
      drop_device-NamesNone (pipe_release f pid fd) pid fd _ refl
        (pipe_release-file f pid fd ∙ file_release-file io pid fd) (pipe_release-pipe f pid fd)

  file_release-apart :
      (io : Io) (pid fd i j : ℕ)
      → ((i ≢ pid) ⊎ (j ≢ fd))
      → (file_release io pid fd).paths i j ≡ io.paths i j
  unfolding file_release file_release_of
  file_release-apart io pid fd i j ne = by_file (io.paths pid fd).file
    where
      by_file : (o : Option ℕ) → (file_release_of io pid fd o).paths i j ≡ io.paths i j
      by_file none = refl
      by_file (some s) = put_path_apart io.paths pid fd i j _ ne

  pipe_release-apart :
      (io : Io) (pid fd i j : ℕ)
      → ((i ≢ pid) ⊎ (j ≢ fd))
      → (pipe_release io pid fd).paths i j ≡ io.paths i j
  unfolding pipe_release pipe_release_of
  pipe_release-apart io pid fd i j ne =
      by_pipe (io.paths pid fd).pipe (io.paths pid fd).pipe_back (io.paths pid fd).pipe_write
    where
      by_pipe :
          (o b : Option ℕ) (w : Bool) → (pipe_release_of io pid fd o b w).paths i j ≡ io.paths i j
      by_pipe none b w = refl
      by_pipe (some q) (some b) w = put_path_apart io.paths pid fd i j _ ne
      by_pipe (some q) none true = put_path_apart io.paths pid fd i j _ ne
      by_pipe (some q) none false = put_path_apart io.paths pid fd i j _ ne

  drop_device-apart :
      (io : Io) (pid fd i j : ℕ) (d : Option ℕ)
      → ((i ≢ pid) ⊎ (j ≢ fd))
      → (drop_device has_close io pid fd d).paths i j ≡ io.paths i j
  unfolding drop_device
  drop_device-apart io pid fd i j none ne = refl
  drop_device-apart io pid fd i j (some d) ne =
      put_path_apart (call_close has_close io d).paths pid fd i j _ ne
      ∙ rw (call_close-paths io d) refl

  drop_path-apart :
      (io : Io) (pid fd i j : ℕ)
      → ((i ≢ pid) ⊎ (j ≢ fd))
      → (drop_path has_close pid fd io).paths i j ≡ io.paths i j
  unfolding drop_path
  drop_path-apart io pid fd i j ne =
      let f : Io = file_release io pid fd in
      drop_device-apart (pipe_release f pid fd) pid fd i j _ ne
      ∙ pipe_release-apart f pid fd i j ne
      ∙ file_release-apart io pid fd i j ne

  drop_device-back :
      (io : Io) (pid fd : ℕ) (d : Option ℕ)
      → (io.paths pid fd).pipe_back ≡ none
      → ((drop_device has_close io pid fd d).paths pid fd).pipe_back ≡ none
  unfolding drop_device
  drop_device-back io pid fd none e = e
  drop_device-back io pid fd (some d) e =
      subst (λ p. p.pipe_back ≡ none)
        (sym (
          put_path_at (call_close has_close io d).paths pid fd
            (record (io.paths pid fd) { device = none })))
        e

  drop_path-IsPaired :
      (pid fd j : ℕ) (io : Io)
      → IsPaired (io.paths pid fd)
      → IsPaired ((drop_path has_close pid j io).paths pid fd)
  unfolding drop_path
  drop_path-IsPaired pid fd j io h = elim (ℕ_discrete fd j) [
    | yes e ↦
        let f : Io = file_release io pid j in
        let h' : IsPaired (io.paths pid j) = rw (← e) h in
        rw e (λ _.
          drop_device-back (pipe_release f pid j) pid j _
            (pipe_release-back f pid j (file_release-IsPaired io pid j h')))
    | no ne ↦ subst IsPaired (sym (drop_path-apart io pid j pid fd (inr ne))) h
  ]

  -- When a process ends, none of its descriptors names anything any more, neither a device, nor a
  -- file, nor either ring of a pipe, and those of every other process are as they were. The
  -- counts are right before, as they are in every state that the calls reach.
  pub io_close_all-IsEmpty :
      (io : Io) (pid : ℕ)
      → pid < 24
      → Counted io
      → ((fd : ℕ) → fd < 12 → IsEmpty ((io_close_all has_close io (pos pid)).paths pid fd))
        × ((i j : ℕ) → i ≢ pid → (io_close_all has_close io (pos pid)).paths i j ≡ io.paths i j)
  unfolding io_close_all close_all_of index_in
  io_close_all-IsEmpty io pid lt v = rw (lt→ltb pid 24 lt) (
    λ fd lf.
        let (d, f, p) = dropped fd lf in
        (
          d,
          f,
          p,
          for_below_keeps (λ k. IsPaired (k.paths pid fd)) (drop_path has_close pid) 12
              (λ j k h. drop_path-IsPaired pid fd j k h) io ((v.single pid fd).1) p,
        ),
    λ i j ne.
        for_below_keeps (λ k. k.paths i j ≡ io.paths i j) (drop_path has_close pid) 12
          (λ n k h. drop_path-apart k pid n i j (inl ne) ∙ h) io refl,
  )
    where
      again :
          (fd j : ℕ) (k : Io)
          → NamesNone (k.paths pid fd)
          → NamesNone ((drop_path has_close pid j k).paths pid fd)
      again fd j k h = elim (ℕ_discrete fd j) [
        | yes e ↦ rw e (drop_path-NamesNone pid j k)
        | no ne ↦ subst NamesNone (sym (drop_path-apart k pid j pid fd (inr ne))) h
      ]

      dropped :
          (fd : ℕ) → fd < 12 → NamesNone ((for_below 12 (drop_path has_close pid) io).paths pid fd)
      dropped fd lf =
          for_below_does (λ k. NamesNone (k.paths pid fd)) (drop_path has_close pid) 12 fd lf
            (drop_path-NamesNone pid fd) (λ j k h. again fd j k h) io
