-- ===== src/Tests/Backend.antt =====
-- The results, the conflicts and the choice of a backend of backend/mod.rs, and the writer that
-- looks at the flag of cancellation.
use zip_mania.Prelude.{
  ℕ, ◌≡◌, refl, ◌↔◌, arith, Bool, true, false, Option, none, some, List, [], ◌∷◌, eq_list,
}
use zip_mania.Errors.{Result, err, unsupported}
use zip_mania.Paths.Under.{
  Components, GivenPath, absolute, relative, resolve_under, root_of, check_ancestors, join,
  is_under, eq_path,
}
use zip_mania.Formats.{contains}
use zip_mania.Formats.Extensions.{read_exts, sevenzip_exts, unzip_exts, unegg_exts, ext_of}
use zip_mania.Backend.Conflicts.{
  compute_conflicts, conflict_of, in_scope, in_any, starts_with, relative_name, file_part,
  target_of,
}
use zip_mania.Volumes.Names.{rsplit_once}
use zip_mania.Paths.{sanitize_for, sanitize_parts, sanitize_part, body_of, unify}
use zip_mania.Paths.Texts.{split, pieces, trim}
use zip_mania.Backend.Conflicts.Meeting.{Among, AnyMeets, compute_conflicts-AnyMeets}
use zip_mania.Backend.Router.{sevenzip, unzip, unegg, nobody, default_backends, for_archive}
use zip_mania.Backend.Router.Choice.{for_archive-owner}
use zip_mania.Unegg.Items.Listing.{ArchiveEntry}
use zip_mania.Unegg.Extract.Cancel.{Written, wrote, Takes, all_written, write_all, write_all-ends}

-- A disk without links on which each path is present.
abbrev plain : GivenPath → Option Components
plain p = elim p [ absolute cs ↦ some cs | relative cs ↦ none ]

abbrev everything : Components → Bool
everything p = true

abbrev entry : ArchiveEntry
entry = record {
  path = 0x73 ∷ 0x5C ∷ 0x61 ∷ [];
  size = 0;
  packed_size = 0;
  modified = [];
  is_dir = false;
  crc = none;
}

-- `s`, which covers `s/a`, and the file in the output directory that it would meet.
abbrev chosen : List (List ℕ)
chosen = (0x73 ∷ []) ∷ []

compute_conflicts-AnyMeets_example :
    Among plain [] false everything
      (absolute [])
      false
      chosen
      (0x73 ∷ 0x2F ∷ 0x61 ∷ [])
      (compute_conflicts plain [] false everything (absolute []) false chosen (entry ∷ []))
    ↔ AnyMeets plain [] false everything
        (absolute [])
        false
        chosen
        (0x73 ∷ 0x2F ∷ 0x61 ∷ [])
        (entry ∷ [])
compute_conflicts-AnyMeets_example =
    compute_conflicts-AnyMeets plain [] false everything (absolute []) false chosen (entry ∷ [])
      (0x73 ∷ 0x2F ∷ 0x61 ∷ [])

met :
    compute_conflicts plain [] false everything (absolute []) false chosen (entry ∷ [])
    ≡ (0x73 ∷ 0x2F ∷ 0x61 ∷ []) ∷ []
unfolding compute_conflicts conflict_of in_scope in_any starts_with relative_name file_part
    rsplit_once target_of sanitize_for sanitize_parts sanitize_part body_of unify split pieces trim
    resolve_under root_of check_ancestors join is_under eq_path eq_list
met = refl

abbrev no_version : Result (List ℕ)
no_version = err unsupported

-- `a.alz`.
abbrev archive : List ℕ
archive = 0x61 ∷ 0x2E ∷ 0x61 ∷ 0x6C ∷ 0x7A ∷ []

for_archive-owner_example :
    let e = ext_of false archive in
    let with_dll =
      (for_archive false (default_backends true no_version no_version no_version) archive).id in
    let without =
      (for_archive false (default_backends false no_version no_version no_version) archive).id in
    (contains unzip_exts e ≡ true → (with_dll ≡ unzip) × (without ≡ unzip))
    × (contains unegg_exts e ≡ true → (with_dll ≡ unegg) × (without ≡ unegg))
    × (contains sevenzip_exts e ≡ true → (with_dll ≡ sevenzip) × (without ≡ nobody))
    × (contains read_exts e ≡ false → (with_dll ≡ sevenzip) × (without ≡ nobody))
for_archive-owner_example = for_archive-owner no_version no_version no_version false archive

-- A file that takes one byte at a time.
abbrev bytewise : List ℕ → Written
bytewise buf = wrote 1

bytewise-Takes : Takes bytewise
unfolding Takes
bytewise-Takes c cs = (0, refl, omega arith)

write_all-ends_example :
    (write_all bytewise 4 false (1 ∷ 2 ∷ []) ≡ some all_written)
    × (write_all bytewise 4 true (1 ∷ 2 ∷ []) ≡ none)
write_all-ends_example = write_all-ends bytewise bytewise-Takes 1 (2 ∷ []) 4 (omega arith)
