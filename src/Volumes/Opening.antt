-- ===== src/Volumes/Opening.antt =====
-- volumes.rs: `VolumeReader::open`. The loop over the volumes has no bound of its own; `fuel` is the
-- number of rounds, and none means that it was not enough.
use zip_mania.Prelude.{
  ℕ, zero, suc, ◌+◌, ◌<◌, ◌≡◌, ◌≢◌, refl, ap, arith, Option, none, some, List, [], ◌∷◌, ◌++◌,
  length, length-append, All,
}
use zip_mania.Errors.{Result, ok, err, io_error}
use zip_mania.Volumes.{Volume, VolumeReader}
use zip_mania.Volumes.Names.{volume_name, split_base, split_base-volume_name}
use zip_mania.Volumes.Whole.{IsValid, Measured, whole}

-- What the disk has under a name: nothing, a file that cannot be opened or measured, or these bytes.
pub data Found : Type 0 where
  absent closed : Found
  holds : List ℕ → Found

abbrev pub Disk : Type 0
Disk = List ℕ → Found

-- A volume in front of those behind it.
abbrev before_all : List ℕ → Result (List Volume × ℕ) → Result (List Volume × ℕ)
before_all content (err c) = err c
before_all content (ok (files, sum)) =
    ok (record { content = content; len = length content } ∷ files, sum)

-- The volumes from number `i` on, until one is missing, behind `total` bytes.
unfoldable pub collect : Disk → List ℕ → ℕ → ℕ → ℕ → Option (Result (List Volume × ℕ))
collect disk base zero i total = none
collect disk base (suc fuel) i total = elim (disk (volume_name base i)) [
  | absent ↦ some (ok ([], total))
  | closed ↦ some (err io_error)
  | holds content ↦ elim (collect disk base fuel (i + 1) (total + length content)) [
    | none ↦ none
    | some r ↦ some (before_all content r)
  ]
]

abbrev reader_of : Result (List Volume × ℕ) → Result VolumeReader
reader_of (err c) = err c
reader_of (ok (files, total)) = ok (record { files = files; total = total; at = 0 })

-- The set behind its first volume, which has to be there.
unfoldable pub open_base : Disk → ℕ → List ℕ → Option (Result VolumeReader)
open_base disk fuel base = elim (disk (volume_name base 1)) [
  | absent ↦ some (err io_error)
  | closed ↦ some (err io_error)
  | holds content ↦ elim (collect disk base fuel 1 0) [ none ↦ none | some r ↦ some (reader_of r) ]
]

unfoldable pub open_first : Disk → ℕ → List ℕ → Option (Result VolumeReader)
open_first disk fuel first = elim (split_base first) [
  | none ↦ some (err io_error)
  | some base ↦ open_base disk fuel base
]

-- From number `i` on the disk holds these volumes and then none.
abbrev pub Holds : Disk → List ℕ → ℕ → List (List ℕ) → Type 0
Holds disk base i [] = disk (volume_name base i) ≡ absent
Holds disk base i (c ∷ cs) = (disk (volume_name base i) ≡ holds c) × Holds disk base (i + 1) cs

abbrev pub volumes_of : List (List ℕ) → List Volume
volumes_of [] = []
volumes_of (c ∷ cs) = record { content = c; len = length c } ∷ volumes_of cs

collect-Holds :
    (disk : Disk) (base : List ℕ) (fuel i total : ℕ) (cs : List (List ℕ))
    → Holds disk base i cs
    → length cs < fuel
    → collect disk base fuel i total
      ≡ some (ok (volumes_of cs, total + length (whole (volumes_of cs))))
unfolding collect
collect-Holds disk base zero i total cs h f = absurd (omega arith)
collect-Holds disk base (suc fuel) i total [] h f =
    rw (h, collect) (ap (λ k. some (ok ([], k))) (let e : total ≡ total + 0 = omega arith in e))
collect-Holds disk base (suc fuel) i total (c ∷ cs) h f =
    let later = collect-Holds disk base fuel (i + 1) (total + length c) cs h.1 (omega arith) in
    let sum : total + length c + length (whole (volumes_of cs))
        ≡ total + length (c ++ whole (volumes_of cs)) =
      omega (arith, length-append c (whole (volumes_of cs))) in
    rw (h.0, later, collect) (ap (λ k. some (ok (volumes_of (c ∷ cs), k))) sum)

volumes_of-Measured : (cs : List (List ℕ)) → All Measured (volumes_of cs)
volumes_of-Measured [] = tt
volumes_of-Measured (c ∷ cs) = (refl, volumes_of-Measured cs)

abbrev pub opened : List (List ℕ) → VolumeReader
opened cs = record { files = volumes_of cs; total = length (whole (volumes_of cs)); at = 0 }

open_base-Holds :
    (disk : Disk) (fuel : ℕ) (base c : List ℕ) (cs : List (List ℕ))
    → Holds disk base 1 (c ∷ cs)
    → suc (length cs) < fuel
    → open_base disk fuel base ≡ some (ok (opened (c ∷ cs)))
unfolding open_base
open_base-Holds disk fuel base c cs h f =
    rw (h.0, collect-Holds disk base fuel 1 0 (c ∷ cs) h f, open_base)
      (ap (λ k. some (ok (record { files = volumes_of (c ∷ cs); total = k; at = 0 })))
        (omega arith))

-- Where the disk holds the volumes of a file, from the first one on, and then none, opening the
-- first one finds them all, in order, with their total size, in more rounds than there are volumes;
-- the reader is valid and stands at the start.
pub open_first-Holds :
    (disk : Disk) (fuel : ℕ) (base c : List ℕ) (cs : List (List ℕ))
    → base ≢ []
    → Holds disk base 1 (c ∷ cs)
    → suc (length cs) < fuel
    → (open_first disk fuel (volume_name base 1) ≡ some (ok (opened (c ∷ cs))))
      × IsValid (opened (c ∷ cs))
unfolding open_first
open_first-Holds disk fuel base c cs n h f = (
  rw (split_base-volume_name base 1 n (omega arith), open_first)
      (open_base-Holds disk fuel base c cs h f),
  record { measured = volumes_of-Measured (c ∷ cs); total_right = refl },
)
