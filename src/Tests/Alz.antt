-- ===== src/Tests/Alz.antt =====
-- The ALZ parser of backend/unegg/alz.rs on a small volume.
use zip_mania.Prelude.{ℕ, ◌≡◌, ◌≤◌, refl, arith, true, List, [], ◌∷◌, length}
use zip_mania.Errors.{ok}
use zip_mania.Unegg.Reader.Segments.{one}
use zip_mania.Unegg.Alz.{parse, max_files, supported_version, sig_split}
use zip_mania.Unegg.Alz.Encode.{Entry, Fits, encode, files_at, end_of}
use zip_mania.Unegg.Alz.Encode.RoundTrip.{parse-encode}
use zip_mania.Unegg.Alz.Layout.{InOrder, parse-InOrder}

abbrev plain : Entry
plain = record {
  name = 0x61 ∷ [];
  attributes = 0;
  dos_time = 0x1234_5678;
  flags = 0x10;
  width = one;
  method_id = 0;
  crc = 0x3610_A686;
  unpacked_size = 5;
  verify = [];
  payload = 0x68 ∷ 0x65 ∷ 0x6C ∷ 0x6C ∷ 0x6F ∷ [];
}

abbrev directory : Entry
directory = record {
  name = 0x64 ∷ [];
  attributes = 0x10;
  dos_time = 0;
  flags = 0;
  width = one;
  method_id = 0;
  crc = 0;
  unpacked_size = 0;
  verify = [];
  payload = [];
}

plain-Fits : Fits plain
plain-Fits = record {
  name_fits = omega arith;
  attributes_fit = omega arith;
  time_fits = omega arith;
  flags_fit = omega arith;
  width_announced = λ _. refl;
  method_fits = omega arith;
  crc_fits = omega arith;
  packed_fits = omega arith;
  unpacked_fits = omega arith;
  verify_fits = refl;
  empty_without_sizes = λ e. cc;
}

directory-Fits : Fits directory
directory-Fits = record {
  name_fits = omega arith;
  attributes_fit = omega arith;
  time_fits = omega arith;
  flags_fit = omega arith;
  width_announced = λ e. cc;
  method_fits = omega arith;
  crc_fits = omega arith;
  packed_fits = omega arith;
  unpacked_fits = omega arith;
  verify_fits = refl;
  empty_without_sizes = λ _. (refl, refl, refl, refl);
}

abbrev entries : List Entry
entries = directory ∷ plain ∷ []

abbrev volume : List ℕ
volume = encode 7 0 0 sig_split entries

parse-encode_example :
    parse volume
    ≡ ok (record {
      version = 10;
      files = files_at entries 8;
      is_spanned = true;
      parsed_end = end_of entries 8;
    })
parse-encode_example =
    parse-encode 7 0 0 sig_split entries (omega arith) (omega arith)
      (directory-Fits, (plain-Fits, tt)) (omega arith) (omega arith)

parse-InOrder_example :
    (supported_version ≡ 10)
    × InOrder (length volume) 8 (files_at entries 8) (end_of entries 8)
    × (2 ≤ max_files)
parse-InOrder_example = parse-InOrder volume parse-encode_example
