-- ===== src/Tests/Extract.antt =====
-- The extraction of backend/unegg/extract.rs from a small volume, onto a disk that grants all.
use zip_mania.Prelude.{List, ℕ, ◌≡◌, refl, true, false, Option, none, some, [], ◌∷◌, eq_list}
use zip_mania.Crc32.{
  make_table, table_from, table_rounds, table_round, update_byte, update_state, update, finalize,
}
use zip_mania.Formats.{overwrite}
use zip_mania.Paths.{sanitize_for, sanitize_parts, sanitize_part, body_of, unify}
use zip_mania.Paths.Texts.{split, pieces, trim}
use zip_mania.Paths.Under.{
  Components, GivenPath, absolute, relative, resolve_under, root_of, check_ancestors, join,
  is_under, eq_path,
}
use zip_mania.Backend.Results.{done, fine, finish, cap_missing}
use zip_mania.Backend.Conflicts.{in_scope, relative_name}
use zip_mania.Unegg.Codec.{data_header_size}
use zip_mania.Unegg.Codec.Inflate.{decompress_to, decompress_method, store_to}
use zip_mania.Unegg.Items.Reading.{
  cipher_of, slice_of, decipher, budget_of, check_crc, receive, settle, read_block, read_blocks,
  read_item_to,
}
use zip_mania.Unegg.Extract
use zip_mania.Unegg.Extract.{
  System, Options, place_of, read_into, write_file, extract_item, extract_items, targets,
  extract_all,
}
use zip_mania.Unegg.Extract.Rounds.{Rounds, extract_all-Rounds}
use zip_mania.Tests.Codec.{copy}
use zip_mania.Tests.Egg.{egg_volume}
use zip_mania.Tests.Items.{hello_item}

abbrev plain : GivenPath → Option Components
plain (absolute cs) = some cs
plain (relative cs) = none

-- What has reached the staged file, and the files that were committed, the last one first.
abbrev Files : Type 0
Files = List ℕ × List (Components × List ℕ)

abbrev empty_disk : Files
empty_disk = ([], [])

abbrev ready : System Files
ready = record {
  canceled = λ w. false;
  canonicalize = λ w p. plain p;
  exists = λ w p. false;
  create_dir_all = λ p w. (true, w);
  create_dir_at = λ p w. (true, w);
  stage = λ p w. (true, ([], w.1));
  takes = λ w received chunk. true;
  fill = λ received w. (received, w.1);
  flush = λ w. (true, w);
  commit = λ p w. (true, ([], (p, w.0) ∷ w.1));
  abort = λ w. ([], w.1);
  detail = λ w. [];
}

abbrev everything : Options
everything = record {
  dest = absolute ((0x6F ∷ []) ∷ []);
  keep_paths = true;
  overwrite_mode = overwrite;
  password = none;
  selected = [];
  decisions = λ path. none;
}

extracted :
    extract_all ready copy tt 0 false [] egg_volume everything (hello_item ∷ []) empty_disk
    ≡ some (done fine [] 0)
unfolding extract_all targets in_scope extract_items extract_item relative_name sanitize_for
    sanitize_parts sanitize_part body_of unify split pieces trim resolve_under root_of
    check_ancestors join is_under eq_path write_file place_of read_into Extract.settle finish
    cap_missing cipher_of slice_of decipher budget_of check_crc receive settle read_block
    read_blocks read_item_to decompress_to decompress_method store_to data_header_size make_table
    table_from table_rounds table_round update_byte update_state update finalize eq_list
extracted = refl

extract_all-Rounds_example :
    ((ready.create_dir_all everything.dest empty_disk).0 ≡ true)
    × Rounds ready copy tt 0 false [] egg_volume everything
        (hello_item ∷ [])
        (ready.create_dir_all everything.dest empty_disk).1
extract_all-Rounds_example =
    extract_all-Rounds ready copy tt 0 false [] egg_volume everything (hello_item ∷ []) empty_disk
      extracted
