-- ===== src/Tests/Volumes.antt =====
-- The reader of volumes.rs over three volumes.
use zip_mania.Prelude.{
  ℕ, some-injective, ◌≡◌, refl, arith, Option, some, none, if◌then◌else◌, eq_list, List, [], ◌∷◌,
}
use zip_mania.Prelude.Int.{negsuc}
use zip_mania.Errors.{ok}
use zip_mania.Volumes.{
  VolumeReader, locate_from, locate, read_at, read, seek, from_current, from_end,
}
use zip_mania.Volumes.Whole.{IsValid, Grants, Progress, read-Progress}
use zip_mania.Volumes.Drain.{drain, drain-whole}
use zip_mania.Prelude.Digits.{pad3, to_digits, digits_from}
use zip_mania.Volumes.Names.{volume_name, split_base, split_base-volume_name}
use zip_mania.Volumes.Opening.{Disk, absent, holds, Holds, opened, open_first, open_first-Holds}
use zip_mania.Volumes.Seeking.{moved_to, seek-target}

-- Everything that is asked for is granted.
abbrev all_granted : ℕ → ℕ → ℕ → Option ℕ
all_granted idx off want = some want

all_granted-Grants : Grants all_granted
all_granted-Grants = record {
  within = λ idx off want e. omega (arith, some-injective e);
  some_given = λ idx off want e one. omega (arith, some-injective e);
}

abbrev three : VolumeReader
three = record {
  files =
      record { content = 0 ∷ 1 ∷ 2 ∷ []; len = 3 }
      ∷ record { content = 3 ∷ 4 ∷ 5 ∷ []; len = 3 }
      ∷ record { content = 6 ∷ []; len = 1 }
      ∷ [];
  total = 7;
  at = 2;
}

three-IsValid : IsValid three
three-IsValid = record { measured = (refl, (refl, (refl, tt))); total_right = refl }

to_boundary : read all_granted 4 three ≡ ok (2 ∷ [], record three { at = 3 })
unfolding read locate locate_from read_at
to_boundary = refl

read-Progress_example : Progress 4 three (2 ∷ []) (record three { at = 3 })
read-Progress_example = read-Progress all_granted-Grants 4 three three-IsValid to_boundary

drain-whole_example : drain all_granted 4 6 three ≡ ok (2 ∷ 3 ∷ 4 ∷ 5 ∷ 6 ∷ [])
drain-whole_example =
    drain-whole all_granted-Grants (λ idx off want. (want, refl)) 4 (omega arith) 6 three
      three-IsValid (omega arith)

seek-target_example :
    (seek (from_current (negsuc 1)) three ≡ moved_to (some 0) three)
    × (seek (from_end (negsuc 1)) three ≡ moved_to (some 5) three)
seek-target_example = seek-target (negsuc 1) three (omega arith) (omega arith)

-- `x`, with the volumes `x.001` and `x.002`.
abbrev target_name : List ℕ
target_name = 0x78 ∷ []

abbrev disk : Disk
disk name =
    if eq_list name (volume_name target_name 1)
    then holds (0 ∷ 1 ∷ [])
    else if eq_list name (volume_name target_name 2)
    then holds (2 ∷ [])
    else absent

second_name : volume_name target_name 2 ≡ 0x78 ∷ 0x2E ∷ 0x30 ∷ 0x30 ∷ 0x32 ∷ []
unfolding volume_name pad3 to_digits digits_from
second_name = refl

disk-Holds : Holds disk target_name 1 ((0 ∷ 1 ∷ []) ∷ (2 ∷ []) ∷ [])
unfolding volume_name pad3 to_digits digits_from eq_list
disk-Holds = (refl, (refl, refl))

split_base-volume_name_example : split_base (volume_name target_name 2) ≡ none
split_base-volume_name_example = split_base-volume_name target_name 2 (λ e. cc) (omega arith)

open_first-Holds_example :
    (open_first disk 3 (volume_name target_name 1)
      ≡ some (ok (opened ((0 ∷ 1 ∷ []) ∷ (2 ∷ []) ∷ []))))
    × IsValid (opened ((0 ∷ 1 ∷ []) ∷ (2 ∷ []) ∷ []))
open_first-Holds_example =
    open_first-Holds disk 3 target_name (0 ∷ 1 ∷ []) ((2 ∷ []) ∷ []) (λ e. cc) disk-Holds
      (omega arith)
