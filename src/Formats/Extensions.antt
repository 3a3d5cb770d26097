-- ===== src/Formats/Extensions.antt =====
-- formats.rs: the lists of extensions, and what the backends share out.
pub mod Shared
use zip_mania.Prelude.{ℕ, Bool, Option, none, some, List, [], ◌∷◌, map, eq_list, if◌then◌else◌}
use zip_mania.Formats.{contains, to_ascii_lower}
use zip_mania.Formats.Unique.{last_name, extension}

abbrev pub read_exts : List (List ℕ)
read_exts =
    (0x37 ∷ 0x7A ∷ [])
    ∷ (0x7A ∷ 0x69 ∷ 0x70 ∷ [])
    ∷ (0x7A ∷ 0x69 ∷ 0x70 ∷ 0x78 ∷ [])
    ∷ (0x6A ∷ 0x61 ∷ 0x72 ∷ [])
    ∷ (0x72 ∷ 0x61 ∷ 0x72 ∷ [])
    ∷ (0x72 ∷ 0x30 ∷ 0x30 ∷ [])
    ∷ (0x61 ∷ 0x72 ∷ 0x6A ∷ [])
    ∷ (0x6C ∷ 0x7A ∷ 0x68 ∷ [])
    ∷ (0x6C ∷ 0x68 ∷ 0x61 ∷ [])
    ∷ (0x63 ∷ 0x61 ∷ 0x62 ∷ [])
    ∷ (0x74 ∷ 0x61 ∷ 0x72 ∷ [])
    ∷ (0x6F ∷ 0x76 ∷ 0x61 ∷ [])
    ∷ (0x67 ∷ 0x7A ∷ [])
    ∷ (0x67 ∷ 0x7A ∷ 0x69 ∷ 0x70 ∷ [])
    ∷ (0x74 ∷ 0x67 ∷ 0x7A ∷ [])
    ∷ (0x74 ∷ 0x70 ∷ 0x7A ∷ [])
    ∷ (0x62 ∷ 0x7A ∷ 0x32 ∷ [])
    ∷ (0x62 ∷ 0x7A ∷ 0x69 ∷ 0x70 ∷ 0x32 ∷ [])
    ∷ (0x74 ∷ 0x62 ∷ 0x7A ∷ [])
    ∷ (0x74 ∷ 0x62 ∷ 0x7A ∷ 0x32 ∷ [])
    ∷ (0x78 ∷ 0x7A ∷ [])
    ∷ (0x74 ∷ 0x78 ∷ 0x7A ∷ [])
    ∷ (0x7A ∷ 0x73 ∷ 0x74 ∷ [])
    ∷ (0x74 ∷ 0x7A ∷ 0x73 ∷ 0x74 ∷ [])
    ∷ (0x7A ∷ [])
    ∷ (0x74 ∷ 0x61 ∷ 0x7A ∷ [])
    ∷ (0x6C ∷ 0x7A ∷ 0x6D ∷ 0x61 ∷ [])
    ∷ (0x69 ∷ 0x73 ∷ 0x6F ∷ [])
    ∷ (0x69 ∷ 0x6D ∷ 0x67 ∷ [])
    ∷ (0x75 ∷ 0x64 ∷ 0x66 ∷ [])
    ∷ (0x77 ∷ 0x69 ∷ 0x6D ∷ [])
    ∷ (0x73 ∷ 0x77 ∷ 0x6D ∷ [])
    ∷ (0x65 ∷ 0x73 ∷ 0x64 ∷ [])
    ∷ (0x64 ∷ 0x6D ∷ 0x67 ∷ [])
    ∷ (0x73 ∷ 0x71 ∷ 0x75 ∷ 0x61 ∷ 0x73 ∷ 0x68 ∷ 0x66 ∷ 0x73 ∷ [])
    ∷ (0x6D ∷ 0x73 ∷ 0x69 ∷ [])
    ∷ (0x6D ∷ 0x73 ∷ 0x70 ∷ [])
    ∷ (0x6D ∷ 0x73 ∷ 0x6D ∷ [])
    ∷ (0x63 ∷ 0x70 ∷ 0x69 ∷ 0x6F ∷ [])
    ∷ (0x72 ∷ 0x70 ∷ 0x6D ∷ [])
    ∷ (0x64 ∷ 0x65 ∷ 0x62 ∷ [])
    ∷ (0x78 ∷ 0x61 ∷ 0x72 ∷ [])
    ∷ (0x70 ∷ 0x6B ∷ 0x67 ∷ [])
    ∷ (0x63 ∷ 0x68 ∷ 0x6D ∷ [])
    ∷ (0x6E ∷ 0x73 ∷ 0x69 ∷ 0x73 ∷ [])
    ∷ (0x30 ∷ 0x30 ∷ 0x31 ∷ [])
    ∷ (0x63 ∷ 0x62 ∷ 0x7A ∷ [])
    ∷ (0x63 ∷ 0x62 ∷ 0x72 ∷ [])
    ∷ (0x63 ∷ 0x62 ∷ 0x37 ∷ [])
    ∷ (0x65 ∷ 0x67 ∷ 0x67 ∷ [])
    ∷ (0x61 ∷ 0x6C ∷ 0x7A ∷ [])
    ∷ []

abbrev pub sevenzip_exts : List (List ℕ)
sevenzip_exts =
    (0x37 ∷ 0x7A ∷ [])
    ∷ (0x72 ∷ 0x61 ∷ 0x72 ∷ [])
    ∷ (0x72 ∷ 0x30 ∷ 0x30 ∷ [])
    ∷ (0x61 ∷ 0x72 ∷ 0x6A ∷ [])
    ∷ (0x6C ∷ 0x7A ∷ 0x68 ∷ [])
    ∷ (0x6C ∷ 0x68 ∷ 0x61 ∷ [])
    ∷ (0x63 ∷ 0x61 ∷ 0x62 ∷ [])
    ∷ (0x74 ∷ 0x61 ∷ 0x72 ∷ [])
    ∷ (0x6F ∷ 0x76 ∷ 0x61 ∷ [])
    ∷ (0x67 ∷ 0x7A ∷ [])
    ∷ (0x67 ∷ 0x7A ∷ 0x69 ∷ 0x70 ∷ [])
    ∷ (0x74 ∷ 0x67 ∷ 0x7A ∷ [])
    ∷ (0x74 ∷ 0x70 ∷ 0x7A ∷ [])
    ∷ (0x62 ∷ 0x7A ∷ 0x32 ∷ [])
    ∷ (0x62 ∷ 0x7A ∷ 0x69 ∷ 0x70 ∷ 0x32 ∷ [])
    ∷ (0x74 ∷ 0x62 ∷ 0x7A ∷ [])
    ∷ (0x74 ∷ 0x62 ∷ 0x7A ∷ 0x32 ∷ [])
    ∷ (0x78 ∷ 0x7A ∷ [])
    ∷ (0x74 ∷ 0x78 ∷ 0x7A ∷ [])
    ∷ (0x7A ∷ 0x73 ∷ 0x74 ∷ [])
    ∷ (0x74 ∷ 0x7A ∷ 0x73 ∷ 0x74 ∷ [])
    ∷ (0x7A ∷ [])
    ∷ (0x74 ∷ 0x61 ∷ 0x7A ∷ [])
    ∷ (0x6C ∷ 0x7A ∷ 0x6D ∷ 0x61 ∷ [])
    ∷ (0x69 ∷ 0x73 ∷ 0x6F ∷ [])
    ∷ (0x69 ∷ 0x6D ∷ 0x67 ∷ [])
    ∷ (0x75 ∷ 0x64 ∷ 0x66 ∷ [])
    ∷ (0x77 ∷ 0x69 ∷ 0x6D ∷ [])
    ∷ (0x73 ∷ 0x77 ∷ 0x6D ∷ [])
    ∷ (0x65 ∷ 0x73 ∷ 0x64 ∷ [])
    ∷ (0x64 ∷ 0x6D ∷ 0x67 ∷ [])
    ∷ (0x73 ∷ 0x71 ∷ 0x75 ∷ 0x61 ∷ 0x73 ∷ 0x68 ∷ 0x66 ∷ 0x73 ∷ [])
    ∷ (0x6D ∷ 0x73 ∷ 0x69 ∷ [])
    ∷ (0x6D ∷ 0x73 ∷ 0x70 ∷ [])
    ∷ (0x6D ∷ 0x73 ∷ 0x6D ∷ [])
    ∷ (0x63 ∷ 0x70 ∷ 0x69 ∷ 0x6F ∷ [])
    ∷ (0x72 ∷ 0x70 ∷ 0x6D ∷ [])
    ∷ (0x64 ∷ 0x65 ∷ 0x62 ∷ [])
    ∷ (0x78 ∷ 0x61 ∷ 0x72 ∷ [])
    ∷ (0x70 ∷ 0x6B ∷ 0x67 ∷ [])
    ∷ (0x63 ∷ 0x68 ∷ 0x6D ∷ [])
    ∷ (0x6E ∷ 0x73 ∷ 0x69 ∷ 0x73 ∷ [])
    ∷ (0x30 ∷ 0x30 ∷ 0x31 ∷ [])
    ∷ (0x63 ∷ 0x62 ∷ 0x72 ∷ [])
    ∷ (0x63 ∷ 0x62 ∷ 0x37 ∷ [])
    ∷ []

abbrev pub unzip_exts : List (List ℕ)
unzip_exts =
    (0x7A ∷ 0x69 ∷ 0x70 ∷ [])
    ∷ (0x7A ∷ 0x69 ∷ 0x70 ∷ 0x78 ∷ [])
    ∷ (0x6A ∷ 0x61 ∷ 0x72 ∷ [])
    ∷ (0x63 ∷ 0x62 ∷ 0x7A ∷ [])
    ∷ []

abbrev pub unegg_exts : List (List ℕ)
unegg_exts = (0x65 ∷ 0x67 ∷ 0x67 ∷ []) ∷ (0x61 ∷ 0x6C ∷ 0x7A ∷ []) ∷ []

abbrev lower_or_empty : Option (List ℕ) → List ℕ
lower_or_empty none = []
lower_or_empty (some e) = map to_ascii_lower e

-- The extension of a path that has a name, in lower case.
unfoldable pub ext_of : Bool → List ℕ → List ℕ
ext_of for_windows path = elim (last_name for_windows path) [
  | none ↦ []
  | some name ↦ lower_or_empty (extension name)
]

unfoldable pub is_archive_path : Bool → List ℕ → Bool
is_archive_path for_windows path = contains read_exts (ext_of for_windows path)
