-- ===== src/Io/Counts.antt =====
-- kernel/io.c: who holds what. The number of descriptors, over all processes, that hold an open file,
-- an end that reads a ring and an end that writes it; and the counts that the kernel keeps of them.
pub mod Slots
pub mod Release
pub mod Make
pub mod Steps
pub mod Copy
pub mod End
pub mod Empty
pub mod Traffic
pub mod Keys
pub mod Reach
use ubiqos.Common.{
  ◌==◌, if◌then◌else◌, ==_refl, ==_ne, opt_eq, ℕ, zero, suc, ◌+◌, ◌≤◌, ◌<◌, ◌≡◌, refl, ap, ◌∙◌, ◌≢◌,
  ◌⊎◌, Bool, true, false, Option, none, some, arith, ℕ_discrete,
}
use ubiqos.Io.State.{PathEntry, Io, put_path, max_procs, max_paths}

unfoldable pub sum_below : ℕ → (ℕ → ℕ) → ℕ
sum_below zero g = 0
sum_below (suc n) g = g n + sum_below n g

abbrev pub ind : Bool → ℕ
ind b = if b then 1 else 0

abbrev pub has_file : ℕ → PathEntry → ℕ
has_file s p = ind (opt_eq p.file s)

-- A two-way end reads its first ring and writes its second; a one-way end does one of them.
unfoldable pub reads_of : ℕ → Option ℕ → Option ℕ → Bool → ℕ
reads_of r none back write = 0
reads_of r (some q) (some b) write = ind (q == r)
reads_of r (some q) none true = 0
reads_of r (some q) none false = ind (q == r)

unfoldable pub writes_of : ℕ → Option ℕ → Option ℕ → Bool → ℕ
writes_of r none back write = 0
writes_of r (some q) (some b) write = ind (b == r)
writes_of r (some q) none true = ind (q == r)
writes_of r (some q) none false = 0

abbrev pub reads : ℕ → PathEntry → ℕ
reads r p = reads_of r p.pipe p.pipe_back p.pipe_write

abbrev pub writes : ℕ → PathEntry → ℕ
writes r p = writes_of r p.pipe p.pipe_back p.pipe_write

-- Over all descriptors of all processes.
unfoldable pub holders : (PathEntry → ℕ) → (ℕ → ℕ → PathEntry) → ℕ
unfolding sum_below
holders f paths = sum_below max_procs (λ pid. sum_below max_paths (λ fd. f (paths pid fd)))

-- A slot that writes one ring reads another: it has no second ring without a first.
abbrev pub IsPaired : PathEntry → Type 0
IsPaired p = p.pipe ≡ none → p.pipe_back ≡ none

-- A descriptor is not on a file and on a pipe at once, and its rings are paired.
abbrev pub IsSingle : PathEntry → Type 0
IsSingle p = ((p.file ≡ none) ⊎ (p.pipe ≡ none)) × IsPaired p

-- Every count is the number of descriptors that it counts, and every descriptor is single.
pub record Counted (io : Io) : Type 0 where
  pub refs : (s : ℕ) → (io.files s).refs ≡ holders (has_file s) io.paths
  pub readers : (r : ℕ) → (io.pipes r).readers ≡ holders (reads r) io.paths
  pub writers : (r : ℕ) → (io.pipes r).writers ≡ holders (writes r) io.paths
  pub single : (pid fd : ℕ) → IsSingle (io.paths pid fd)

sum_below-same :
    (n : ℕ) (g h : ℕ → ℕ) → ((j : ℕ) → j < n → h j ≡ g j) → sum_below n h ≡ sum_below n g
unfolding sum_below
sum_below-same zero g h e = refl
sum_below-same (suc n) g h e =
    rw (e n (omega arith), sum_below-same n g h (λ j lt. e j (omega arith))) refl

-- A sum in which one term changes.
sum_below-change :
    (n i : ℕ) (g h : ℕ → ℕ)
    → i < n
    → ((j : ℕ) → j ≢ i → h j ≡ g j)
    → sum_below n h + g i ≡ sum_below n g + h i
unfolding sum_below
sum_below-change zero i g h lt e = absurd (omega arith)
sum_below-change (suc n) i g h lt e = elim (ℕ_discrete n i) [
  | yes k ↦
      let s : sum_below n h ≡ sum_below n g =
        sum_below-same n g h (λ j l. e j (λ m. omega arith)) in
      omega (arith, s, ap h k, ap g k)
  | no k ↦ omega (arith, e n k, sum_below-change n i g h (omega arith) e)
]

sum_below-has : (n i : ℕ) (g : ℕ → ℕ) → i < n → g i ≤ sum_below n g
unfolding sum_below
sum_below-has zero i g lt = absurd (omega arith)
sum_below-has (suc n) i g lt = elim (ℕ_discrete n i) [
  | yes k ↦ rw k (omega arith)
  | no k ↦ omega (arith, sum_below-has n i g (omega arith))
]

transfer : (a b i j x y : ℕ) → i + x ≡ j + y → a + j ≡ b + i → a + x ≡ b + y
transfer a b i j x y h k = omega (arith, h, k)

-- The same in two dimensions.
sums-change :
    (n m : ℕ) (f : PathEntry → ℕ) (paths : ℕ → ℕ → PathEntry) (pid fd : ℕ) (p : PathEntry)
    → pid < n
    → fd < m
    → sum_below n (λ i. sum_below m (λ j. f (put_path paths pid fd p i j))) + f (paths pid fd)
      ≡ sum_below n (λ i. sum_below m (λ j. f (paths i j))) + f p
sums-change n m f paths pid fd p lp lf =
    transfer _ _ _ _ _ _
      (sum_below-change m fd (λ j. f (paths pid j)) (λ j. f (put_path paths pid fd p pid j)) lf
          (λ j ne. rw (==_refl pid, ==_ne j fd ne) refl)
        ∙ ap (λ x. sum_below m (λ j. f (paths pid j)) + x) at_)
      (sum_below-change n pid (λ i. sum_below m (λ j. f (paths i j)))
        (λ i. sum_below m (λ j. f (put_path paths pid fd p i j))) lp
        (λ i ne. rw (==_ne i pid ne) refl))
  where
    at_ : f (put_path paths pid fd p pid fd) ≡ f p
    at_ = rw (==_refl pid, ==_refl fd) refl

le_both : (a b c : ℕ) → a ≤ b → b ≤ c → a ≤ c
le_both a b c h k = omega arith

sums-has :
    (n m : ℕ) (f : PathEntry → ℕ) (paths : ℕ → ℕ → PathEntry) (pid fd : ℕ)
    → pid < n
    → fd < m
    → f (paths pid fd) ≤ sum_below n (λ i. sum_below m (λ j. f (paths i j)))
sums-has n m f paths pid fd lp lf =
    le_both _ _ _ (sum_below-has m fd (λ j. f (paths pid j)) lf)
      (sum_below-has n pid (λ i. sum_below m (λ j. f (paths i j))) lp)

module _ (f : PathEntry → ℕ) (paths : ℕ → ℕ → PathEntry) (pid fd : ℕ) (lp : pid < 24)
    (lf : fd < 12) where
  -- One descriptor changes.
  pub holders-set :
      (p : PathEntry)
      → holders f (put_path paths pid fd p) + f (paths pid fd) ≡ holders f paths + f p
  unfolding holders
  holders-set p = sums-change 24 12 f paths pid fd p lp lf

  pub holders-has : f (paths pid fd) ≤ holders f paths
  unfolding holders
  holders-has = sums-has 24 12 f paths pid fd lp lf

pub put_path-IsSingle :
    (paths : ℕ → ℕ → PathEntry) (pid fd : ℕ) (p : PathEntry)
    → ((i j : ℕ) → IsSingle (paths i j))
    → IsSingle p
    → (i j : ℕ) → IsSingle (put_path paths pid fd p i j)
put_path-IsSingle paths pid fd p all one i j = elim (ℕ_discrete i pid) [
  | no ne ↦ rw (==_ne i pid ne) (all i j)
  | yes e ↦ elim (ℕ_discrete j fd) [
    | no ne ↦ rw (e, ==_refl pid, ==_ne j fd ne) (all pid j)
    | yes k ↦ rw (e, k, ==_refl pid, ==_refl fd) one
  ]
]

-- When one descriptor changes, and every count by as much as that descriptor counts for it, the
-- counts stay right.
pub recount :
    (io l : Io) (pid fd : ℕ) (p : PathEntry)
    → pid < 24
    → fd < 12
    → l.paths ≡ put_path io.paths pid fd p
    → ((s : ℕ) → (l.files s).refs + has_file s (io.paths pid fd) ≡ (io.files s).refs + has_file s p)
    → ((r : ℕ) → (l.pipes r).readers + reads r (io.paths pid fd) ≡ (io.pipes r).readers + reads r p)
    → ((r : ℕ)
        → (l.pipes r).writers + writes r (io.paths pid fd) ≡ (io.pipes r).writers + writes r p)
    → IsSingle p
    → Counted io
    → Counted l
recount io l pid fd p lp lf e hf hr hw hs v = record {
  refs =
      λ s. rw e (omega (arith, hf s, v.refs s, holders-set (has_file s) io.paths pid fd lp lf p));
  readers =
      λ r. rw e (omega (arith, hr r, v.readers r, holders-set (reads r) io.paths pid fd lp lf p));
  writers =
      λ r. rw e (omega (arith, hw r, v.writers r, holders-set (writes r) io.paths pid fd lp lf p));
  single = λ i j. rw e (put_path-IsSingle io.paths pid fd p v.single hs i j);
}

-- What keeps every descriptor and every count keeps their agreement.
pub same_sums :
    (io l : Io)
    → l.paths ≡ io.paths
    → ((s : ℕ) → (l.files s).refs ≡ (io.files s).refs)
    → ((r : ℕ) → (l.pipes r).readers ≡ (io.pipes r).readers)
    → ((r : ℕ) → (l.pipes r).writers ≡ (io.pipes r).writers)
    → Counted io
    → Counted l
same_sums io l ep ef er ew v = record {
  refs = λ s. rw ep (ef s ∙ v.refs s);
  readers = λ r. rw ep (er r ∙ v.readers r);
  writers = λ r. rw ep (ew r ∙ v.writers r);
  single = λ i j. rw ep (v.single i j);
}

pub same_counts :
    (io l : Io)
    → l.paths ≡ io.paths
    → l.files ≡ io.files
    → l.pipes ≡ io.pipes
    → Counted io
    → Counted l
same_counts io l ep ef eq v =
    same_sums io l ep (λ s. rw ef refl) (λ r. rw eq refl) (λ r. rw eq refl) v
