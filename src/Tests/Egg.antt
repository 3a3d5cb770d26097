-- ===== src/Tests/Egg.antt =====
-- The EGG parser of backend/unegg/egg.rs, and the entries of mod.rs, on a small volume.
use zip_mania.Prelude.{ℕ, ◌≡◌, refl, arith, List, [], ◌∷◌, ◌++◌, length}
use zip_mania.Errors.{ok}
use zip_mania.Unegg.Codec.{store, from_egg}
use zip_mania.Unegg.Reader.{peek_u32, peek_u32_at, remaining, bytes, skip, u8, u16, u32, u64}
use zip_mania.Unegg.Egg.{
  EggArchive, sig_filename, find, contains_key, or_insert, is_known_sig, data_size, data_size_at,
  read_extra, extras_round, read_extras_from, read_extras, read_block, read_blocks, read_file,
  read_files, footer_of, parse_from, parse,
}
use zip_mania.Unegg.Egg.Whole.{Sound, parse-Sound}
use zip_mania.Unegg.Times.{Civil, IsDos, pack, stamp, dos_to_string, dos_to_string-pack}

abbrev end_mark : List ℕ
end_mark = 0x22 ∷ 0x82 ∷ 0xE2 ∷ 0x08 ∷ []

abbrev pub hello : List ℕ
hello = 0x68 ∷ 0x65 ∷ 0x6C ∷ 0x6C ∷ 0x6F ∷ []

abbrev egg_header : List ℕ
egg_header = 0x45 ∷ 0x47 ∷ 0x47 ∷ 0x41 ∷ 0 ∷ 1 ∷ 7 ∷ 0 ∷ 0 ∷ 0 ∷ 0 ∷ 0 ∷ 0 ∷ 0 ∷ end_mark

-- A file of five bytes called `a`.
abbrev egg_file : List ℕ
egg_file =
    0xE3 ∷ 0x90 ∷ 0x85 ∷ 0x0A ∷ 1 ∷ 0 ∷ 0 ∷ 0 ∷ 5 ∷ 0 ∷ 0 ∷ 0 ∷ 0 ∷ 0 ∷ 0 ∷ 0 ∷ 0xAC ∷ 0x91 ∷ 0x85
    ∷ 0x0A ∷ 0 ∷ 1 ∷ 0 ∷ 0x61 ∷ end_mark

abbrev egg_block : List ℕ
egg_block =
    0x13 ∷ 0x0C ∷ 0xB5 ∷ 0x02 ∷ 0 ∷ 0 ∷ 5 ∷ 0 ∷ 0 ∷ 0 ∷ 5 ∷ 0 ∷ 0 ∷ 0 ∷ 0x86 ∷ 0xA6 ∷ 0x10 ∷ 0x36
      ∷ end_mark
    ++ hello

abbrev pub egg_volume : List ℕ
egg_volume = egg_header ++ egg_file ++ egg_block ++ end_mark

abbrev pub egg_archive : EggArchive
egg_archive = record {
  version = 0x100;
  files =
      record {
        id = 1;
        size = 5;
        extras = (sig_filename, record { gpb = 0; content = 0x61 ∷ [] }) ∷ [];
        blocks =
            record {
              method = store;
              unpacked_size = 5;
              packed_size = 5;
              crc = 0x3610_A686;
              data_offset = 68;
            }
            ∷ [];
      }
      ∷ [];
  solid_blocks = [];
  extras = [];
  parsed_end = 77;
}

pub egg_parsed : parse egg_volume ≡ ok egg_archive
unfolding peek_u32 peek_u32_at remaining bytes skip u8 u16 u32 u64 find contains_key or_insert
    is_known_sig data_size data_size_at read_extra extras_round read_extras_from read_extras
    read_block read_blocks read_file read_files footer_of parse_from parse from_egg
egg_parsed = refl

parse-Sound_example : Sound (length egg_volume) 0 egg_archive
parse-Sound_example = parse-Sound egg_volume egg_archive egg_parsed

-- 2016-09-19 14:34:06.
abbrev afternoon : Civil
afternoon = record { year = 2016; month = 9; day = 19; hour = 14; minute = 34; second = 6 }

afternoon-IsDos : IsDos afternoon
afternoon-IsDos = record {
  year_low = omega arith;
  year_high = omega arith;
  month_low = omega arith;
  month_high = omega arith;
  day_low = omega arith;
  day_high = omega arith;
  hour_high = omega arith;
  minute_high = omega arith;
  second_high = omega arith;
  even = omega arith;
}

dos_to_string-pack_example : dos_to_string (pack afternoon) ≡ stamp afternoon
dos_to_string-pack_example = dos_to_string-pack afternoon afternoon-IsDos

afternoon_packed : pack afternoon ≡ 0x4933_7443
unfolding pack
afternoon_packed = refl
