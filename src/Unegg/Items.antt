-- ===== src/Unegg/Items.antt =====
-- backend/unegg/mod.rs: the entries of an archive, whichever of the two formats it has. What the
-- fields of egg.rs leave to others is a parameter.
pub mod Reading
pub mod Listing
use zip_mania.Prelude.{
  ℕ, ◌+◌, Bool, true, false, not, ◌&&◌, Option, none, some, List, [], ◌∷◌, ◌++◌, map, eq_list,
  if◌then◌else◌,
}
use zip_mania.Errors.{Result, ok, err, ◌>>=◌, ◌>>◌, refuse_if, ok_or, unsupported, not_found}
use zip_mania.Paths.{unify}
use zip_mania.Unegg.Codec.{Method}
use zip_mania.Unegg.Times.{Civil, dos_to_string}
use zip_mania.Unegg.Alz
use zip_mania.Unegg.Alz.{AlzFile, AlzArchive}
use zip_mania.Unegg.Egg
use zip_mania.Unegg.Egg.{EggFile, EggArchive, Block, is_solid, is_spanned}
use zip_mania.Unegg.Egg.Fields
use zip_mania.Unegg.Egg.Fields.{zip_verify, encrypt_method, packed_size, crc, modified}

pub record Enc : Type 0 where
  pub method : ℕ
  pub verify : List ℕ
  pub verify_byte : ℕ

pub record BlockRef : Type 0 where
  pub method : Method
  pub data_offset : ℕ
  pub packed_size : ℕ
  pub unpacked_size : ℕ
  pub crc : ℕ

pub record Item : Type 0 where
  pub path : List ℕ
  pub size : ℕ
  pub packed_size : ℕ
  pub crc : Option ℕ
  pub is_dir : Bool
  pub modified : List ℕ
  pub enc : Option Enc
  pub blocks : List BlockRef

unfoldable pub encrypted : Item → Bool
encrypted i = elim i.enc [ none ↦ false | some e ↦ true ]

abbrev or_zero : Option ℕ → ℕ
or_zero none = 0
or_zero (some n) = n

unfoldable pub egg_enc : EggFile → Option Enc
egg_enc f = elim (zip_verify f) [
  | none ↦ none
  | some v ↦ some (record { method = or_zero (encrypt_method f); verify = v.0; verify_byte = v.1 })
]

unfoldable pub egg_block : Block → BlockRef
egg_block b = record {
  method = b.method;
  data_offset = b.data_offset;
  packed_size = b.packed_size;
  unpacked_size = b.unpacked_size;
  crc = b.crc;
}

unfoldable pub alz_enc : AlzFile → Option Enc
alz_enc f =
    if Alz.is_encrypted f
    then some (record { method = 0; verify = f.verify_data; verify_byte = Alz.zip_verify_byte f })
    else none

unfoldable pub alz_blocks : AlzFile → List BlockRef
alz_blocks f =
    if Alz.is_dir f
    then []
    else record {
      method = f.method;
      data_offset = f.data_offset;
      packed_size = f.packed_size;
      unpacked_size = f.unpacked_size;
      crc = f.crc;
    }
      ∷ []

module _ (from_utf8_lossy decode_legacy : List ℕ → List ℕ) (civil : ℕ → Option Civil) where
  unfoldable pub egg_item : EggFile → Item
  egg_item f = record {
    path = map unify (Fields.name from_utf8_lossy decode_legacy f);
    size = f.size;
    packed_size = packed_size f;
    crc = crc f;
    is_dir = Fields.is_dir f;
    modified = modified civil f;
    enc = egg_enc f;
    blocks = map egg_block f.blocks;
  }

  -- `AlzFile::name` and `AlzFile::modified` are decodings alone.
  unfoldable pub alz_item : AlzFile → Item
  alz_item f = record {
    path = map unify (decode_legacy f.raw_name);
    size = f.unpacked_size;
    packed_size = f.packed_size;
    crc = some f.crc;
    is_dir = Alz.is_dir f;
    modified = dos_to_string f.dos_time;
    enc = alz_enc f;
    blocks = alz_blocks f;
  }

  unfoldable pub egg_items : List ℕ → Result (List Item)
  egg_items bytes = do
    ar ← Egg.parse bytes
    refuse_if (is_solid ar) unsupported
    refuse_if (is_spanned ar) unsupported
    ok (map egg_item ar.files)

  unfoldable pub alz_items : List ℕ → Result (List Item)
  alz_items bytes = do
    ar ← Alz.parse bytes
    refuse_if ar.is_spanned unsupported
    ok (map alz_item ar.files)

  unfoldable pub parse_items : List ℕ → Result (List Item)
  parse_items bytes =
      if Egg.sniff bytes
      then egg_items bytes
      else if Alz.sniff bytes
      then alz_items bytes
      else err unsupported

unfoldable pub find_file : List ℕ → List Item → Option Item
find_file want [] = none
find_file want (i ∷ is) =
    let later = find_file want is in if not i.is_dir && eq_list i.path want then some i else later

-- A path with any separators leads to the first file of that name.
unfoldable pub find_item : List Item → List ℕ → Result Item
unfolding find_file
find_item items inner_path = ok_or (find_file (map unify inner_path) items) not_found
