-- ===== src/Unegg/Alz/Encode.antt =====
-- The ALZ format as a writer: what the parser reads back.
pub mod RoundTrip
use zip_mania.Prelude.{
  ℕ, ◌+◌, ◌/◌, ◌%◌, ◌^◌, ◌<◌, ◌≡◌, Bool, true, false, List, [], ◌∷◌, ◌++◌, ◌==◌, if◌then◌else◌,
  length, to_le_bytes, byte_range,
}
use zip_mania.Unegg.Codec.{from_alz}
use zip_mania.Unegg.Reader.Segments.{Width, bytes_of}
use zip_mania.Unegg.Alz.{AlzFile, sig_alz, sig_file, supported_version, bit_set}

-- A file as the format stores it: the fields, the 12 bytes of verification data if it is
-- encrypted, and the packed data.
pub record Entry : Type 0 where
  pub name : List ℕ
  pub attributes : ℕ
  pub dos_time : ℕ
  pub flags : ℕ
  pub width : Width
  pub method_id : ℕ
  pub crc : ℕ
  pub unpacked_size : ℕ
  pub verify : List ℕ
  pub payload : List ℕ

abbrev pub no_sizes : Entry → Bool
no_sizes e = e.flags == 0

abbrev pub size_fields : Entry → List ℕ
size_fields e =
    to_le_bytes 2 e.method_id
    ++ (to_le_bytes 4 e.crc
        ++ (to_le_bytes (bytes_of e.width) (length e.payload)
            ++ to_le_bytes (bytes_of e.width) e.unpacked_size))

-- The size fields, in the width that the flags announce; none if the flags are zero.
abbrev pub encode_sizes : Entry → List ℕ
encode_sizes e = if no_sizes e then [] else size_fields e

abbrev pub encode_tail : Entry → List ℕ
encode_tail e = e.name ++ (e.verify ++ e.payload)

abbrev pub encode_entry : Entry → List ℕ
encode_entry e =
    to_le_bytes 4 sig_file
    ++ (to_le_bytes 2 (length e.name)
        ++ (to_le_bytes 1 e.attributes
            ++ (to_le_bytes 4 e.dos_time
                ++ (to_le_bytes 2 e.flags ++ (encode_sizes e ++ encode_tail e)))))

-- The fields fit their places, and say of the data what is so.
pub record Fits (e : Entry) : Type 0 where
  pub name_fits : length e.name < 2 ^ 16
  pub attributes_fit : e.attributes < 2 ^ 8
  pub time_fits : e.dos_time < 2 ^ 32
  pub flags_fit : e.flags < 2 ^ 16
  pub width_announced : no_sizes e ≡ false → e.flags / 2 ^ 4 % 16 ≡ bytes_of e.width
  pub method_fits : e.method_id < 2 ^ 16
  pub crc_fits : e.crc < 2 ^ 32
  pub packed_fits : length e.payload < byte_range (bytes_of e.width)
  pub unpacked_fits : e.unpacked_size < byte_range (bytes_of e.width)
  pub verify_fits : length e.verify ≡ (if bit_set 0 e.flags then 12 else 0)
  pub empty_without_sizes :
      no_sizes e ≡ true
      → (e.method_id ≡ 0) × (e.crc ≡ 0) × (length e.payload ≡ 0) × (e.unpacked_size ≡ 0)

-- Where the packed data of an entry begin that stands at `i`.
abbrev pub data_at : Entry → ℕ → ℕ
data_at e i = i + 4 + 2 + 1 + 4 + 2 + length (encode_sizes e) + length e.name + length e.verify

-- The file that the parser is to find there.
abbrev pub file_at : Entry → ℕ → AlzFile
file_at e i = record {
  raw_name = e.name;
  attributes = e.attributes;
  dos_time = e.dos_time;
  flags = e.flags;
  method = from_alz e.method_id;
  crc = e.crc;
  packed_size = length e.payload;
  unpacked_size = e.unpacked_size;
  data_offset = data_at e i;
  verify_data = e.verify;
  incomplete = false;
}

abbrev pub encode_entries : List Entry → List ℕ
encode_entries [] = []
encode_entries (e ∷ es) = encode_entry e ++ encode_entries es

abbrev pub files_at : List Entry → ℕ → List AlzFile
files_at [] i = []
files_at (e ∷ es) i = file_at e i ∷ files_at es (data_at e i + length e.payload)

abbrev pub end_of : List Entry → ℕ → ℕ
end_of [] i = i
end_of (e ∷ es) i = end_of es (data_at e i + length e.payload)

-- The signature of the footer block.
abbrev pub sig_end : ℕ
sig_end = 0x015A_4C43

abbrev pub footer : ℕ → ℕ → ℕ → List ℕ
footer comment_size footer_crc last =
    to_le_bytes 4 sig_end
    ++ (to_le_bytes 4 comment_size ++ (to_le_bytes 4 footer_crc ++ to_le_bytes 4 last))

-- A whole volume: the global header, the entries, and the footer, whose last word tells whether
-- another volume follows.
abbrev pub encode : ℕ → ℕ → ℕ → ℕ → List Entry → List ℕ
encode disk_id comment_size footer_crc last es =
    to_le_bytes 4 sig_alz
    ++ (to_le_bytes 2 supported_version
        ++ (to_le_bytes 2 disk_id ++ (encode_entries es ++ footer comment_size footer_crc last)))
