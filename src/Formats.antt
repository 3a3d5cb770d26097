-- ===== src/Formats.antt =====
-- crates/zipmania-archive/src/formats.rs: modes, formats and the extensions that the backends share
-- out. Texts are lists of code points.
pub mod Extensions
pub mod Unique
use zip_mania.Prelude.{
  ℕ, ◌+◌, Bool, true, false, not, ◌||◌, ◌&&◌, Option, none, some, List, [], ◌∷◌, ◌++◌, map, eq_list,
  leb, ◌==◌, if◌then◌else◌,
}
use zip_mania.Paths.Texts.{split, is_empty}
use zip_mania.Volumes.Names.{rsplit_once}

pub data OverwriteMode : Type 0 where
  overwrite skip rename : OverwriteMode

pub data CompressFormat : Type 0 where
  seven_zip zip tar : CompressFormat

abbrev pub overwrite_text : List ℕ
overwrite_text = 0x6F ∷ 0x76 ∷ 0x65 ∷ 0x72 ∷ 0x77 ∷ 0x72 ∷ 0x69 ∷ 0x74 ∷ 0x65 ∷ []

abbrev pub rename_text : List ℕ
rename_text = 0x72 ∷ 0x65 ∷ 0x6E ∷ 0x61 ∷ 0x6D ∷ 0x65 ∷ []

abbrev pub zip_text : List ℕ
zip_text = 0x7A ∷ 0x69 ∷ 0x70 ∷ []

abbrev pub tar_text : List ℕ
tar_text = 0x74 ∷ 0x61 ∷ 0x72 ∷ []

-- `OverwriteMode::from_str`: what is unknown leaves the files alone.
unfoldable pub mode_from_str : List ℕ → OverwriteMode
mode_from_str s =
    if eq_list s overwrite_text then overwrite else if eq_list s rename_text then rename else skip

-- `CompressFormat::from_str`.
unfoldable pub format_from_str : List ℕ → CompressFormat
format_from_str s =
    if eq_list s zip_text then zip else if eq_list s tar_text then tar else seven_zip

unfoldable pub has_level : CompressFormat → Bool
has_level tar = false
has_level _ = true

unfoldable pub supports_password : CompressFormat → Bool
supports_password tar = false
supports_password _ = true

unfoldable pub supports_header_encryption : CompressFormat → Bool
supports_header_encryption seven_zip = true
supports_header_encryption _ = false

unfoldable pub to_ascii_lower : ℕ → ℕ
to_ascii_lower c = if leb 0x41 c && leb c 0x5A then c + 0x20 else c

-- `contains` of a list of texts.
unfoldable pub contains : List (List ℕ) → List ℕ → Bool
contains [] s = false
contains (x ∷ xs) s = eq_list x s || contains xs s
