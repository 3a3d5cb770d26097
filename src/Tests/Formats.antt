-- ===== src/Tests/Formats.antt =====
-- The extensions and the free names of formats.rs.
use zip_mania.Prelude.{ℕ, ◌≡◌, Bool, true, false, ◌||◌, List, [], ◌∷◌, eq_list}
use zip_mania.Formats.{contains}
use zip_mania.Formats.Unique.{Unique, unique_path, unique_path-Unique}
use zip_mania.Formats.Extensions.{read_exts, sevenzip_exts, unzip_exts, unegg_exts}
use zip_mania.Formats.Extensions.Shared.{owned, read_exts-shared}

-- `a.b` and `a (2).b` are taken.
abbrev note : List ℕ
note = 0x61 ∷ 0x2E ∷ 0x62 ∷ []

abbrev second_note : List ℕ
second_note = 0x61 ∷ 0x20 ∷ 0x28 ∷ 0x32 ∷ 0x29 ∷ 0x2E ∷ 0x62 ∷ []

abbrev taken : List (List ℕ) → Bool
taken [] = false
taken (name ∷ parent) = eq_list name note || eq_list name second_note

unique_path-Unique_example : Unique taken note [] (unique_path taken note [])
unique_path-Unique_example = unique_path-Unique taken note []

abbrev egg_text : List ℕ
egg_text = 0x65 ∷ 0x67 ∷ 0x67 ∷ []

read_exts-shared_example :
    (contains read_exts egg_text ≡ true → owned egg_text ≡ true)
    × (contains sevenzip_exts egg_text
            || (contains unzip_exts egg_text || contains unegg_exts egg_text)
          ≡ true
        → contains read_exts egg_text ≡ true)
read_exts-shared_example = read_exts-shared egg_text
