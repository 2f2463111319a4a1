-- ===== src/Io/Counts/End.antt =====
-- kernel/io.c: the end of a process lets all its descriptors go.
use ubiqos.Common.{
  if◌then◌else◌, for_below_within, ℕ, ◌<◌, ◌≡◌, refl, Bool, true, false, Option, none, some, [],
  ◌∷◌, ◌++◌,
}
use ubiqos.Common.Int.{ℤ}
use ubiqos.Io.State.{Io, set_path, device_at, index_in, max_procs, max_paths, driver_close}
use ubiqos.Io.Close.{call_close, drop_device, drop_path, close_all_of, io_close_all}
use ubiqos.Io.Counts.{Counted, same_counts}
use ubiqos.Io.Counts.Slots.{index_in-some}
use ubiqos.Io.Counts.Release.{file_release-Counted, pipe_release-Counted}
use ubiqos.Io.Counts.Steps.{device-Counted}

module _ (has_close : ℕ → Bool) where
  drop_device-Counted :
      (io : Io) (pid fd : ℕ) (d : Option ℕ)
      → pid < 24
      → fd < 12
      → Counted io
      → Counted (drop_device has_close io pid fd d)
  unfolding drop_device call_close
  drop_device-Counted io pid fd none lp lf v = v
  drop_device-Counted io pid fd (some d) lp lf v = by_close (has_close (device_at io d).driver)
    where
      base : Counted (set_path io pid fd (record (io.paths pid fd) { device = none }))
      base = device-Counted io pid fd none lp lf v

      by_close :
          (b : Bool)
          → let called : Io =
              if b
              then record io { calls = io.calls ++ driver_close (device_at io d).driver ∷ [] }
              else io in
            Counted (set_path called pid fd (record (io.paths pid fd) { device = none }))
      by_close true = same_counts _ _ refl refl refl base
      by_close false = base

  drop_path-Counted :
      (pid fd : ℕ) (io : Io)
      → pid < 24
      → fd < 12
      → Counted io
      → Counted (drop_path has_close pid fd io)
  unfolding drop_path
  drop_path-Counted pid fd io lp lf v =
      drop_device-Counted _ pid fd _ lp lf
        (pipe_release-Counted pid fd lp lf _ (file_release-Counted pid fd lp lf io v))

  pub io_close_all-Counted :
      (io : Io) (owner : ℤ) → Counted io → Counted (io_close_all has_close io owner)
  unfolding io_close_all close_all_of
  io_close_all-Counted io owner v = by_index (index_in max_procs owner) refl
    where
      by_index :
          (o : Option ℕ) → index_in max_procs owner ≡ o → Counted (close_all_of has_close io o)
      by_index none e = v
      by_index (some pid) e =
          for_below_within Counted (drop_path has_close pid) max_paths
            (λ fd k lf c. drop_path-Counted pid fd k (index_in-some max_procs owner pid e) lf c) io
            v
