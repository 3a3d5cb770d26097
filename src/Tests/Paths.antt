-- ===== src/Tests/Paths.antt =====
-- The names of paths.rs at concrete inputs.
use zip_mania.Prelude.{
  Option, none, some, ◌++◌, if◌then◌else◌, ℕ, true, ◌≡◌, ◌≢◌, refl, List, [], ◌∷◌, All, eq_list,
}
use zip_mania.Errors.{ok, err, unsafe_path}
use zip_mania.Paths.{
  sanitize_for, sanitize_parts, sanitize_part, windows_part, is_reserved, replace_forbidden,
  is_forbidden, body_of, unify,
}
use zip_mania.Paths.Texts.{
  split, split_first, pieces, trim, trim_start_matches, trim_end_matches, is_whitespace,
  to_ascii_uppercase, to_ascii_upper,
}
use zip_mania.Paths.Under.{
  Components, GivenPath, absolute, relative, eq_path, is_under, join, absolutize, check_ancestors,
  root_of, resolve_under,
}
use zip_mania.Paths.Under.Contained.{Nearest, push_all, resolve_under-Nearest}
use zip_mania.Paths.Safe.{IsSafeFor, sanitize_for-Safe}

-- `C:\con.txt `.
abbrev device : List ℕ
device = 0x43 ∷ 0x3A ∷ 0x5C ∷ 0x63 ∷ 0x6F ∷ 0x6E ∷ 0x2E ∷ 0x74 ∷ 0x78 ∷ 0x74 ∷ 0x20 ∷ []

-- `_con.txt`.
abbrev renamed : List ℕ
renamed = 0x5F ∷ 0x63 ∷ 0x6F ∷ 0x6E ∷ 0x2E ∷ 0x74 ∷ 0x78 ∷ 0x74 ∷ []

device-renamed : sanitize_for device true ≡ ok (renamed ∷ [])
unfolding sanitize_for sanitize_parts sanitize_part windows_part is_reserved replace_forbidden
    is_forbidden body_of unify split split_first pieces trim trim_start_matches trim_end_matches
    is_whitespace to_ascii_uppercase to_ascii_upper eq_list
device-renamed = refl

-- `a/../b`.
escape_refused : sanitize_for (0x61 ∷ 0x2F ∷ 0x2E ∷ 0x2E ∷ 0x2F ∷ 0x62 ∷ []) true ≡ err unsafe_path
unfolding sanitize_for sanitize_parts sanitize_part windows_part is_reserved replace_forbidden
    is_forbidden body_of unify split split_first pieces trim trim_start_matches trim_end_matches
    is_whitespace to_ascii_uppercase to_ascii_upper eq_list
escape_refused = refl

sanitize_for-Safe_example : (renamed ∷ [] ≢ []) × All (IsSafeFor true) (renamed ∷ [])
sanitize_for-Safe_example = sanitize_for-Safe device true device-renamed

abbrev a : List ℕ
a = 0x61 ∷ []

abbrev b : List ℕ
b = 0x62 ∷ []

-- The output root `/a`, in which only the directory `/a/b` exists, a link to `/b`.
abbrev linked : GivenPath → Option Components
linked (absolute p) =
    if eq_path p (a ∷ [])
    then some (a ∷ [])
    else if eq_path p (b ∷ a ∷ [])
    then some (b ∷ [])
    else none
linked (relative cs) = none

link_refused : resolve_under linked [] (absolute (a ∷ [])) (b ∷ a ∷ []) ≡ err unsafe_path
unfolding resolve_under root_of absolutize join check_ancestors is_under eq_path eq_list
link_refused = refl

-- With no link, the same target is accepted.
abbrev plain : GivenPath → Option Components
plain (absolute p) = some p
plain (relative cs) = none

accepted : resolve_under plain [] (absolute (a ∷ [])) (b ∷ []) ≡ ok (b ∷ a ∷ [])
unfolding resolve_under root_of absolutize join check_ancestors is_under eq_path eq_list
accepted = refl

resolve_under-Nearest_example :
    (b ∷ a ∷ [] ≡ push_all [] (b ∷ []) ++ root_of plain [] (absolute (a ∷ [])))
    × ((real : Components)
        → Nearest plain (root_of plain [] (absolute (a ∷ []))) (push_all [] (b ∷ [])) real
        → is_under (root_of plain [] (absolute (a ∷ []))) real ≡ true)
resolve_under-Nearest_example = resolve_under-Nearest plain [] (absolute (a ∷ [])) (b ∷ []) accepted
