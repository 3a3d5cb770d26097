-- ===== src/Unegg/Alz.antt =====
-- backend/unegg/alz.rs: the ALZ container. Numbers are u8, u16, u32 and u64 by what is read; the
-- end of a file's data is a u64 sum that wraps, as the release profile compiles it.
pub mod Layout
pub mod Encode
use zip_mania.Prelude.{
  ℕ, zero, suc, ◌+◌, ◌-◌, ◌/◌, ◌%◌, ◌^◌, Bool, true, false, not, ◌||◌, Option, none, some, List, [],
  ◌∷◌, ◌++◌, ◌≡◌, refl, arith, ltb, ◌==◌, if◌then◌else◌, length, drop,
}
use zip_mania.Errors.{Code, Result, ok, err, corrupt, unsupported}
use zip_mania.Errors
use zip_mania.Unegg.Codec.{Method, store, from_alz}
use zip_mania.Unegg.Reader.{
  Reader, Parse, ◌>>=◌, ◌>>◌, pure, fail, new, seek, bytes, skip, u8, u16, u32, peek_u32, var_uint,
  peek_sig, position,
}

abbrev pub sig_alz : ℕ
sig_alz = 0x015A_4C41

abbrev pub sig_file : ℕ
sig_file = 0x015A_4C42

abbrev pub sig_split : ℕ
sig_split = 0x035A_4C43

abbrev pub supported_version : ℕ
supported_version = 10

abbrev pub max_files : ℕ
max_files = 1_000_000

pub record AlzFile : Type 0 where
  pub raw_name : List ℕ
  pub attributes : ℕ
  pub dos_time : ℕ
  pub flags : ℕ
  pub method : Method
  pub crc : ℕ
  pub packed_size : ℕ
  pub unpacked_size : ℕ
  pub data_offset : ℕ
  pub verify_data : List ℕ
  pub incomplete : Bool

-- `x & 0x10`, `x & 0x01` and `x & 0x08` as the digit that they test.
abbrev pub bit_set : ℕ → ℕ → Bool
bit_set k x = x / 2 ^ k % 2 == 1

unfoldable pub is_dir : AlzFile → Bool
is_dir f = bit_set 4 f.attributes

unfoldable pub is_encrypted : AlzFile → Bool
is_encrypted f = bit_set 0 f.flags

unfoldable pub zip_verify_byte : AlzFile → ℕ
zip_verify_byte f = if bit_set 3 f.flags then f.dos_time / 2 ^ 8 % 256 else f.crc / 2 ^ 24 % 256

pub record AlzArchive : Type 0 where
  pub version : ℕ
  pub files : List AlzFile
  pub is_spanned : Bool
  pub parsed_end : ℕ

-- `peek == Some(sig)`.
abbrev pub shows : Option ℕ → ℕ → Bool
shows none sig = false
shows (some v) sig = v == sig

unfoldable pub sniff : List ℕ → Bool
unfolding peek_sig
sniff bytes = shows (peek_sig bytes) sig_alz

-- The fields that are there if the flags are not zero.
pub record Sizes : Type 0 where
  pub method : Method
  pub crc : ℕ
  pub packed : ℕ
  pub unpacked : ℕ

-- `matches!(base, 1 | 2 | 4 | 8)`.
abbrev pub is_width : ℕ → Bool
is_width base = base == 1 || base == 2 || base == 4 || base == 8

unfoldable pub read_size_fields : ℕ → Parse Sizes
read_size_fields base = do
  m ← u16
  c ← u32
  p ← var_uint base
  u ← var_uint base
  pure (record { method = from_alz m; crc = c; packed = p; unpacked = u })

unfoldable pub read_sizes : ℕ → Parse Sizes
read_sizes flags =
    let base = flags / 2 ^ 4 % 16 in
    if flags == 0
    then pure (record { method = store; crc = 0; packed = 0; unpacked = 0 })
    else if is_width base
    then read_size_fields base
    else fail corrupt

unfoldable pub read_verify : ℕ → Parse (List ℕ)
read_verify flags = if bit_set 0 flags then bytes 12 else pure []

unfoldable pub pass_data : Bool → ℕ → ℕ → Parse (Unit {0})
pass_data incomplete total packed r = if incomplete then ok (tt, seek total r) else skip packed r

unfoldable pub read_file : ℕ → Parse AlzFile
read_file total = do
  u32
  name_len ← u16
  attributes ← u8
  dos_time ← u32
  flags ← u16
  sizes ← read_sizes flags
  raw_name ← bytes name_len
  verify_data ← read_verify flags
  data_offset ← position
  let incomplete = ltb total ((data_offset + sizes.packed) % 2 ^ 64)
  pass_data incomplete total sizes.packed
  pure (record {
    raw_name = raw_name;
    attributes = attributes;
    dos_time = dos_time;
    flags = flags;
    method = sizes.method;
    crc = sizes.crc;
    packed_size = sizes.packed;
    unpacked_size = sizes.unpacked;
    data_offset = data_offset;
    verify_data = verify_data;
    incomplete = incomplete;
  })

unfoldable pub read_footer : List ℕ → Bool
unfolding peek_sig
read_footer bytes =
    if ltb (length bytes) 16
    then false
    else shows (peek_sig (drop (length bytes - 4) bytes)) sig_split

-- The `while` loop of `parse`; `room` is `MAX_FILES - files.len()`, so the loop refuses a file at
-- `zero`, and ends after at most that many rounds.
unfoldable pub read_files : ℕ → ℕ → List AlzFile → Parse (List AlzFile)
read_files total zero files r = if shows (peek_u32 r) sig_file then err corrupt else ok (files, r)
read_files total (suc room) files r = elim (shows (peek_u32 r) sig_file) [
  | false ↦ ok (files, r)
  | true ↦ elim (read_file total r) [
    | err c ↦ err c
    | ok (entry, r') ↦ elim entry.incomplete [
      | true ↦ ok (files ++ entry ∷ [], r')
      | false ↦ read_files total room (files ++ entry ∷ []) r'
    ]
  ]
]

-- The loop by cases: no further file, a file that is there whole, and one that is cut off.
module _ (total : ℕ) (files : List AlzFile) (r : Reader) where
  pub read_files_stop :
      (room : ℕ)
      → shows (peek_u32 r) sig_file ≡ false
      → read_files total room files r ≡ ok (files, r)
  unfolding read_files
  read_files_stop zero h = rw h
  read_files_stop (suc room) h = rw (h, read_files)

  pub read_files_full :
      shows (peek_u32 r) sig_file ≡ true → read_files total zero files r ≡ err corrupt
  unfolding read_files
  read_files_full h = rw h

  pub read_files_err :
      (room : ℕ) {c : Code}
      → shows (peek_u32 r) sig_file ≡ true
      → read_file total r ≡ err c
      → read_files total (suc room) files r ≡ err c
  unfolding read_files
  read_files_err room h e = ground arith

  module _ {entry : AlzFile} {r' : Reader} where
    pub read_files_next :
        (room : ℕ)
        → shows (peek_u32 r) sig_file ≡ true
        → read_file total r ≡ ok (entry, r')
        → entry.incomplete ≡ false
        → read_files total (suc room) files r ≡ read_files total room (files ++ entry ∷ []) r'
    unfolding read_files
    read_files_next room h e c = ground arith

    pub read_files_cut :
        (room : ℕ)
        → shows (peek_u32 r) sig_file ≡ true
        → read_file total r ≡ ok (entry, r')
        → entry.incomplete ≡ true
        → read_files total (suc room) files r ≡ ok (files ++ entry ∷ [], r')
    unfolding read_files
    read_files_cut room h e c = ground arith

unfoldable pub parse_from : List ℕ → Parse AlzArchive
parse_from bytes = do
  u32
  version ← u16
  u16
  if not (version == supported_version) then fail unsupported else do
    files ← read_files (length bytes) max_files []
    parsed_end ← position
    pure (record {
      version = version;
      files = files;
      is_spanned = read_footer bytes;
      parsed_end = parsed_end;
    })

unfoldable pub parse : List ℕ → Result AlzArchive
parse bytes =
    let r = new bytes in
    if not (shows (peek_u32 r) sig_alz)
    then err unsupported
    else Errors.◌>>=◌ (parse_from bytes r) (λ p. ok p.0)
