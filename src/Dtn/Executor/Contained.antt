-- ===== src/Dtn/Executor/Contained.antt =====
-- Preparing a job touches nothing outside its own directories.
use ma_sinafadavi_claude.Prelude.{
  true, Option, none, some, List, [], ◌∷◌, Str, Bytes, Result, ok, err, Exec, after, ◌≡◌, refl,
  arith, ◌⊎◌, inl, inr, Option-cases, no_such_name,
}
use ma_sinafadavi_claude.Dtn.Storage.{copy_to_file}
use ma_sinafadavi_claude.Dtn.Storage.Views.{view}
use ma_sinafadavi_claude.Dtn.Storage.Lost.{copy_to_file-view}
use ma_sinafadavi_claude.Dtn.Job.{JobInfo}
use ma_sinafadavi_claude.Dtn.Executor.Paths.{FilePath, is_relative_to, is_relative_to_self, parent}
use ma_sinafadavi_claude.Dtn.Executor.Environment.{
  Disk, mkdir, copy, if_given, inside, make_dirs, write_files, make_parent, wasm_path, stdin_path,
  data_directory, prepare_data, prepare_outputs, prepare_files, prepare_stdin,
  prepare_wasi_environment,
}

module _ (W D : FilePath → Type 0) where
  -- every write and every directory is allowed
  abbrev pub AllWrites : List (FilePath × Bytes) → Type 0
  AllWrites [] = Unit
  AllWrites ((p, c) ∷ ws) = W p × AllWrites ws

  abbrev pub AllMade : List FilePath → Type 0
  AllMade [] = Unit
  AllMade (p ∷ ps) = D p × AllMade ps

  pub record IsContained (d : Disk) : Type 0 where
    pub writes : AllWrites d.writes
    pub made : AllMade d.made

  mkdir-IsContained : (p : FilePath) (d : Disk) → D p → IsContained d → IsContained (mkdir p d)
  unfolding mkdir
  mkdir-IsContained p d h c = record { writes = c.writes; made = (h, c.made) }

  copy-IsContained :
      (n : Str) (p : FilePath) (d : Disk) → W p → IsContained d → IsContained (copy n p d).1
  unfolding copy
  copy-IsContained n p d h c = elim (Option-cases (view d.storage n)) [
    | inl lost ↦
        let q : (copy_to_file n (λ x. (p, x) ∷ d.writes) d.storage).0 ≡ err (no_such_name n) =
          ground (arith, copy_to_file-view n (λ x. (p, x) ∷ d.writes) d.storage) in
        rw (q, copy) (record { writes = c.writes; made = c.made })
    | inr (x, held) ↦
        let q : (copy_to_file n (λ x. (p, x) ∷ d.writes) d.storage).0 ≡ ok ((p, x) ∷ d.writes) =
          ground (arith, copy_to_file-view n (λ x. (p, x) ∷ d.writes) d.storage) in
        rw (q, copy) (record { writes = (h, c.writes); made = c.made })
  ]

  -- A step that keeps containment, then a step that does.
  after-IsContained :
      {A B : Type 0} (r : Result A × Disk) (f : A → Exec Disk B)
      → IsContained r.1
      → ((a : A) (d : Disk) → r.0 ≡ ok a → IsContained d → IsContained (f a d).1)
      → IsContained (after r f).1
  after-IsContained (ok a, d) f c h = h a d refl c
  after-IsContained (err e, d) f c h = c

  if_given-IsContained :
      (o : Option Str) (f : Str → Exec Disk (Unit {0})) (d : Disk)
      → ((s : Str) (d : Disk) → IsContained d → IsContained (f s d).1)
      → IsContained d
      → IsContained (if_given o f d).1
  unfolding if_given
  if_given-IsContained none f d h c = c
  if_given-IsContained (some []) f d h c = c
  if_given-IsContained (some (x ∷ xs)) f d h c = h (x ∷ xs) d c

-- the files that a job in `base` may write: its module, its stdin, and what lies in its data
-- directory
abbrev pub MayWrite : (FilePath → FilePath) → FilePath → FilePath → Type 0
MayWrite resolve base p =
    (p ≡ wasm_path resolve base)
    ⊎ ((p ≡ stdin_path resolve base) ⊎ (is_relative_to p (data_directory resolve base) ≡ true))

-- the directories that it may make: `base`, what lies in the data directory, and parents of that
abbrev pub MayMake : (FilePath → FilePath) → FilePath → FilePath → Type 0
MayMake resolve base p =
    (p ≡ base)
    ⊎ ((is_relative_to p (data_directory resolve base) ≡ true)
        ⊎ ((q : FilePath) × (p ≡ parent q)
            × (is_relative_to q (data_directory resolve base) ≡ true)))

module _ (resolve : FilePath → FilePath) (base : FilePath) where
  abbrev Contained : Disk → Type 0
  Contained = IsContained (MayWrite resolve base) (MayMake resolve base)

  abbrev data_dir : FilePath
  data_dir = data_directory resolve base

  inside-eq-ok :
      (p : Str) (abs : FilePath)
      → inside resolve data_dir p ≡ ok abs
      → is_relative_to abs data_dir ≡ true
  unfolding inside
  inside-eq-ok p abs h = ground arith

  make_dirs-IsContained :
      (ps : List Str) (d : Disk) → Contained d → Contained (make_dirs resolve data_dir ps d).1
  unfolding make_dirs
  make_dirs-IsContained [] d c = c
  make_dirs-IsContained (p ∷ ps) d c =
      after-IsContained (MayWrite resolve base) (MayMake resolve base)
        (inside resolve data_dir p, d) (λ abs d'. make_dirs resolve data_dir ps (mkdir abs d')) c
        (step (λ d' k. make_dirs-IsContained ps d' k))
    where
      step :
          ((d' : Disk) → Contained d' → Contained (make_dirs resolve data_dir ps d').1)
          → (abs : FilePath) (d' : Disk) → inside resolve data_dir p ≡ ok abs
          → Contained d'
          → Contained (make_dirs resolve data_dir ps (mkdir abs d')).1
      step rest abs d' h k = rest (mkdir abs d') (
          mkdir-IsContained (MayWrite resolve base) (MayMake resolve base) abs d'
            (inr (inl (inside-eq-ok p abs h))) k)

  make_parent-IsContained :
      (p : Str) (d : Disk) → Contained d → Contained (make_parent resolve data_dir p d).1
  unfolding make_parent
  make_parent-IsContained p d c =
      after-IsContained (MayWrite resolve base) (MayMake resolve base)
        (inside resolve data_dir p, d) (λ abs d'. (ok tt, mkdir (parent abs) d')) c
        (λ abs d' h k.
          mkdir-IsContained (MayWrite resolve base) (MayMake resolve base) (parent abs) d'
            (inr (inr (abs, refl, inside-eq-ok p abs h))) k)

  write_files-IsContained :
      (ps : List (Str × Str)) (d : Disk)
      → Contained d
      → Contained (write_files resolve data_dir ps d).1
  unfolding write_files
  write_files-IsContained [] d c = c
  write_files-IsContained ((p, n) ∷ ps) d c =
      after-IsContained (MayWrite resolve base) (MayMake resolve base)
        (inside resolve data_dir p, d)
        (λ abs d₁. after (copy n abs (mkdir (parent abs) d₁)) λ _. write_files resolve data_dir ps)
        c (step (λ d' k. write_files-IsContained ps d' k))
    where
      step :
          ((d' : Disk) → Contained d' → Contained (write_files resolve data_dir ps d').1)
          → (abs : FilePath) (d₁ : Disk) → inside resolve data_dir p ≡ ok abs
          → Contained d₁
          → Contained
              (after (copy n abs (mkdir (parent abs) d₁)) (λ _. write_files resolve data_dir ps)).1
      step rest abs d₁ h k =
          after-IsContained (MayWrite resolve base) (MayMake resolve base)
            (copy n abs (mkdir (parent abs) d₁)) (λ _. write_files resolve data_dir ps)
            (copy-IsContained (MayWrite resolve base) (MayMake resolve base) n abs
              (mkdir (parent abs) d₁) (inr (inr (inside-eq-ok p abs h)))
              (mkdir-IsContained (MayWrite resolve base) (MayMake resolve base) (parent abs) d₁
                (inr (inr (abs, refl, inside-eq-ok p abs h))) k))
            (λ _ d₂ _ l. rest d₂ l)

  prepare_outputs-IsContained :
      (job : JobInfo) (d : Disk)
      → Contained d
      → Contained (prepare_outputs resolve job data_dir d).1
  unfolding prepare_outputs
  prepare_outputs-IsContained job d c =
      let W = MayWrite resolve base in
      let D = MayMake resolve base in
      let parent_of = make_parent resolve data_dir in
      after-IsContained W D (if_given job.stdout_file parent_of d)
        (λ _. if_given job.stderr_file parent_of)
        (if_given-IsContained W D job.stdout_file parent_of d make_parent-IsContained c)
        (λ _ d' _ k.
          if_given-IsContained W D job.stderr_file parent_of d' make_parent-IsContained k)

  prepare_files-IsContained :
      (job : JobInfo) (d : Disk) → Contained d → Contained (prepare_files resolve job data_dir d).1
  unfolding prepare_files
  prepare_files-IsContained job d c =
      after-IsContained (MayWrite resolve base) (MayMake resolve base)
        (write_files resolve data_dir job.data_files d) (λ _. prepare_outputs resolve job data_dir)
        (write_files-IsContained job.data_files d c)
        (λ _ d' _ k. prepare_outputs-IsContained job d' k)

  prepare_data-IsContained :
      (job : JobInfo) (d : Disk) → Contained d → Contained (prepare_data resolve job data_dir d).1
  unfolding prepare_data
  prepare_data-IsContained job d c =
      let W = MayWrite resolve base in
      let D = MayMake resolve base in
      after-IsContained W D (make_dirs resolve data_dir job.dirs (mkdir data_dir d))
        (λ _. prepare_files resolve job data_dir)
        (make_dirs-IsContained job.dirs (mkdir data_dir d)
          (mkdir-IsContained W D data_dir d (inr (inl (is_relative_to_self data_dir))) c))
        (λ _ d' _ k. prepare_files-IsContained job d' k)

  prepare_stdin-IsContained :
      (job : JobInfo) (d : Disk) → Contained d → Contained (prepare_stdin resolve job base d).1
  unfolding prepare_stdin
  prepare_stdin-IsContained job d c =
      let W = MayWrite resolve base in
      let D = MayMake resolve base in
      let to_stdin = λ (n : Str). copy n (stdin_path resolve base) in
      after-IsContained W D (if_given job.stdin_file to_stdin d)
        (λ _. prepare_data resolve job data_dir)
        (if_given-IsContained W D job.stdin_file to_stdin d
          (λ n d' k. copy-IsContained W D n (stdin_path resolve base) d' (inr (inl refl)) k) c)
        (λ _ d' _ k. prepare_data-IsContained job d' k)

  -- Whatever paths a job names and whatever they resolve to, preparing it writes only its module,
  -- its stdin file and files in its data directory, and makes only its own directory, directories
  -- in the data directory and parents of paths in it; so also where an exception ends it. What was
  -- written before it was so too.
  pub prepare_wasi_environment-IsContained :
      (job : JobInfo) (d : Disk)
      → IsContained (MayWrite resolve base) (MayMake resolve base) d
      → IsContained
          (MayWrite resolve base)
          (MayMake resolve base)
          (prepare_wasi_environment resolve job base d).1
  unfolding prepare_wasi_environment
  prepare_wasi_environment-IsContained job d c =
      let W = MayWrite resolve base in
      let D = MayMake resolve base in
      after-IsContained W D (copy job.wasm_module (wasm_path resolve base) (mkdir base d))
        (λ _. prepare_stdin resolve job base)
        (copy-IsContained W D job.wasm_module (wasm_path resolve base) (mkdir base d) (inl refl)
          (mkdir-IsContained W D base d (inl refl) c))
        (λ _ d' _ k. prepare_stdin-IsContained job d' k)
