-- ===== src/Tests/Commit.antt =====
-- The commit of a set of two volumes of outfile.rs, on a disk that grants all.
use mathlib.Core.List.{zip}
use zip_mania.Prelude.{
  ℕ, ◌≡◌, ◌≢◌, refl, Bool, true, false, Option, none, some, List, [], ◌∷◌, All, length, eq_list,
  eq_list_iff, eq_list_refl, Bool-cases, inl, inr, if◌then◌else◌,
}
use zip_mania.Errors.{ok}
use zip_mania.OutFile.Commit.{Disk, commit, finals_of, stale_of, names_from, move_all}
use zip_mania.OutFile.Commit.Placed.{Renames, Apart, IsPlaced, commit-IsPlaced}
use zip_mania.Volumes.Names.{volume_name}
use zip_mania.Prelude.Digits.{pad3}

abbrev Files : Type 0
Files = List ℕ → Option (List ℕ)

abbrev holds : Files → List ℕ → Bool
holds w p = elim (w p) [ none ↦ false | some c ↦ true ]

abbrev table : Disk Files
table = record {
  content = λ w p. w p;
  exists = holds;
  rename = λ t d w. (true, λ p. if eq_list p d then w t else if eq_list p t then none else w p);
  remove = λ t w p. if eq_list p t then none else w p;
}

not_equal : (p q : List ℕ) → p ≢ q → eq_list p q ≡ false
not_equal p q n = elim (Bool-cases (eq_list p q)) [
  | inl e ↦ absurd (n ((eq_list_iff p q).0 e))
  | inr e ↦ e
]

table-Renames : Renames table
table-Renames = record {
  takes = λ t d w n g. (rw (eq_list_refl d) refl, rw (not_equal t d n, eq_list_refl t) refl);
  keeps = λ t d p w n m. rw (not_equal p d m, not_equal p t n) refl;
}

abbrev two_files : Files
two_files p =
    if eq_list p (1 ∷ [])
    then some (7 ∷ 8 ∷ [])
    else if eq_list p (2 ∷ [])
    then some (9 ∷ [])
    else none

abbrev temps : List (List ℕ)
temps = (1 ∷ []) ∷ (2 ∷ []) ∷ []

abbrev first_name : List ℕ
first_name = 0x61 ∷ 0x2E ∷ 0x30 ∷ 0x30 ∷ 0x31 ∷ []

abbrev second_name : List ℕ
second_name = 0x61 ∷ 0x2E ∷ 0x30 ∷ 0x30 ∷ 0x32 ∷ []

by_test : (p q : List ℕ) → eq_list p q ≡ false → p ≢ q
by_test p q f e = cc (f, (eq_list_iff p q).1 e)

temps-Apart : Apart (zip temps (finals_of (0x61 ∷ []) (length temps)))
unfolding eq_list zip finals_of names_from volume_name pad3
temps-Apart = (
  by_test _ _ refl,
  (
    ((by_test _ _ refl, by_test _ _ refl), tt),
    (((by_test _ _ refl, by_test _ _ refl), tt), (by_test _ _ refl, (tt, (tt, tt)))),
  ),
)

abbrev after : Files
after = (commit table temps (0x61 ∷ []) two_files).1

committed : commit table temps (0x61 ∷ []) two_files ≡ (ok (first_name ∷ second_name ∷ []), after)
unfolding commit zip finals_of stale_of names_from volume_name pad3 eq_list move_all
committed = refl

commit-IsPlaced_example :
    (first_name ∷ second_name ∷ [] ≡ finals_of (0x61 ∷ []) (length temps))
    × ((table.exists two_files (stale_of (0x61 ∷ []) (length temps)) ≡ false)
        × All
            (IsPlaced table table-Renames two_files after)
            (zip temps (finals_of (0x61 ∷ []) (length temps))))
commit-IsPlaced_example =
    commit-IsPlaced table table-Renames temps (0x61 ∷ []) two_files temps-Apart committed
